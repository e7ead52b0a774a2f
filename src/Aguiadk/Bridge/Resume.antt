-- ===== src/Aguiadk/Bridge/Resume.antt =====
-- runInternal of aguiadk/bridge.go, the processing of resume entries: a paused run is looked up,
-- checked against the entries, claimed, replayed and settled.
use adk_go_pkg.Base.{
  ℕ, suc, Bool, true, false, Option, none, some, List, [], ◌∷◌, ◌++◌, Bytes, bytes, str_eq, length,
  ltb, ◌==◌, if◌then◌else◌,
}
use adk_go_pkg.Base.Map.{Map, lookup}
use adk_go_pkg.Value.{Value}
use adk_go_pkg.Aguiadk.RunStore.{
  PendingToolCall, PausedRun, RequestedInputSnapshot, run_key, load, load_and_delete,
}
use adk_go_pkg.Aguiadk.RunStore.Approvals.{ResumeEntry, approvals_from_resume}
use adk_go_pkg.Aguiadk.Translator.Events.{
  Part, tool_call_start, tool_call_args, tool_call_end, tool_call_result, activity_snapshot,
}
use adk_go_pkg.Aguiadk.Inbound.{empty_part}
use adk_go_pkg.Aguiadk.Bridge.{BridgeEnv, Any, streamed, RunAgentInput, Store, World, Out}

abbrev pub gone : Bytes
gone =
    bytes "cannot resume: no paused run found for this thread/run "
    ++ bytes "(it may have expired, already been resumed, or the server restarted)"

abbrev pub claimed_elsewhere : Bytes
claimed_elsewhere = bytes "cannot resume: the paused run was claimed by a concurrent resume"

abbrev pub denied_reason : Bytes
denied_reason = bytes "user did not approve this tool call"

abbrev pub denied_json : Bytes
denied_json = bytes "{\"denied\":true,\"reason\":\"user did not approve this tool call\"}"

module _ (B : BridgeEnv) where
  -- The events and the parts of a resumed run, or of one that resumes nothing; and how many
  -- identifiers were generated.
  pub record Ready : Type 0 where
    pub store : Store B
    pub out : Out B
    pub parts : List (Option (Part (Any B)))
    pub saved_state : Map (Any B)
    pub generated : ℕ

  pub data Prepared : Type 0 where
    refused : Bytes → Store B → Prepared
    ready : Ready → Prepared

  -- A property of what is sent before the agent runs.
  abbrev SendsIfReady : (Out B → Type 0) → Prepared → Type 0
  SendsIfReady P (refused _ _) = Unit
  SendsIfReady P (ready r) = P r.out

  pub record Sends (P : Out B → Type 0) (p : Prepared) : Type 0 where
    pub if_ready : SendsIfReady P p

  abbrev pub Pending : Type 0
  Pending = PendingToolCall (B.env.Value)

  -- `argsJSON, _ := json.Marshal(p.Args)`
  abbrev pub args_text : Pending → Bytes
  args_text p = elim (B.env.marshal p.args) [ none ↦ [] | some s ↦ s ]

  abbrev pub propose : Pending → Out B → Out B
  propose p out =
      streamed none (tool_call_end p.id)
      ∷ streamed none (tool_call_args p.id (args_text p))
      ∷ streamed none (tool_call_start p.id p.name)
      ∷ out

  abbrev response_part : Pending → Map (Any B) → Part (Any B)
  response_part p response = record empty_part {
    function_response = some (record { id = p.id; name = p.name; response = response });
  }

  -- The payload of the first entry with the identifier.
  unfoldable pub find_payload : Bytes → List (ResumeEntry B.F) → Option (Value B.F)
  find_payload id [] = none
  find_payload id (e ∷ es) = if str_eq e.interrupt_id id then some e.payload else find_payload id es

  abbrev pub payload_text : Value B.F → Bytes
  payload_text v = elim (B.sdk.marshal_value (B.json_value v)) [ none ↦ [] | some s ↦ s ]

  -- The replay of the calls of a run that asked for input.
  unfoldable pub replay_input : Value B.F → List Pending → ℕ → Out B → Out B
  replay_input v [] n out = out
  replay_input v (p ∷ ps) n out = replay_input v ps (suc n) (
      streamed none (tool_call_result (bytes "result-" ++ p.id) p.id (payload_text v))
      ∷ streamed none (activity_snapshot (B.env.gen_message_id n) (bytes "Running " ++ p.name))
      ∷ propose p out)

  unfoldable pub input_parts : Value B.F → List Pending → List (Option (Part (Any B)))
  input_parts v [] = []
  input_parts v (p ∷ ps) =
      some (response_part p ((bytes "result", B.json_value v) ∷ [])) ∷ input_parts v ps

  unfoldable pub is_approved : Map Bool → Bytes → Bool
  is_approved approvals id = elim (lookup id approvals) [ none ↦ false | some b ↦ b ]

  -- How many calls have no decision, and the first of them.
  unfoldable pub count_undecided : Map Bool → List Pending → ℕ
  count_undecided approvals [] = 0
  count_undecided approvals (p ∷ ps) =
      let n = count_undecided approvals ps in
      elim (lookup p.id approvals) [ none ↦ suc n | some _ ↦ n ]

  unfoldable pub first_undecided : Map Bool → List Pending → Option Bytes
  first_undecided approvals [] = none
  first_undecided approvals (p ∷ ps) =
      let rest = first_undecided approvals ps in
      elim (lookup p.id approvals) [ none ↦ some p.id | some _ ↦ rest ]

  abbrev pub unanswered : Bytes → Bytes
  unanswered id = bytes "resume did not address requested input " ++ B.env.quote id

  abbrev unmatched : Bytes
  unmatched = bytes "resume entries do not match any pending tool call for this run"

  unfoldable pub undecided_message : Map Bool → List Pending → Bytes
  unfolding count_undecided first_undecided
  undecided_message approvals ps =
      if ltb (count_undecided approvals ps) (length ps)
      then (elim (first_undecided approvals ps) [
        | none ↦ unmatched
        | some id ↦ bytes "resume did not address pending tool call " ++ B.env.quote id
      ])
      else unmatched

  abbrev running_text : Pending → Bytes
  running_text p = bytes "Running " ++ (p.name ++ (bytes "(" ++ (args_text p ++ bytes ")")))

  -- The replay and settlement of one call; approved calls count an identifier.
  unfoldable pub settle : Map Bool → Pending → ℕ → Out B → Out B
  unfolding is_approved
  settle approvals p n out =
      if is_approved approvals p.id
      then streamed none (tool_call_result (bytes "result-" ++ p.id) p.id (args_text p))
        ∷ streamed none (activity_snapshot (B.env.gen_message_id n) (running_text p))
        ∷ propose p out
      else streamed none (tool_call_result (bytes "result-" ++ p.id) p.id denied_json)
        ∷ propose p out

  unfoldable pub settled_ids : Map Bool → List Pending → ℕ → ℕ
  unfolding is_approved
  settled_ids approvals [] n = n
  settled_ids approvals (p ∷ ps) n =
      settled_ids approvals ps (if is_approved approvals p.id then suc n else n)

  unfoldable pub settle_all : Map Bool → List Pending → ℕ → Out B → Out B
  unfolding is_approved settle
  settle_all approvals [] n out = out
  settle_all approvals (p ∷ ps) n out =
      settle_all approvals ps (if is_approved approvals p.id then suc n else n)
        (settle approvals p n out)

  -- What the agent is told of one call: its arguments, or that it was denied.
  unfoldable pub decision : Map Bool → Pending → Map (Any B)
  unfolding is_approved
  decision approvals p =
      if is_approved approvals p.id
      then (bytes "result", B.map_value p.args) ∷ []
      else (bytes "denied", B.bool_value true)
        ∷ (bytes "reason", B.env.string_value denied_reason)
        ∷ []

  unfoldable pub decision_parts : Map Bool → List Pending → List (Option (Part (Any B)))
  unfolding decision
  decision_parts approvals [] = []
  decision_parts approvals (p ∷ ps) =
      some (response_part p (decision approvals p)) ∷ decision_parts approvals ps

  -- The claim, after what other requests did to the store since the peek.
  unfoldable pub claim : World B → Bytes → Store B → (Store B → Prepared) → Prepared
  claim w key s go =
      let (s', run) = load_and_delete key w.claim_time (w.before_claim s) in
      elim run [ none ↦ refused claimed_elsewhere s' | some _ ↦ go s' ]

  -- The run once claimed, where it asked for input, and where it asked for approvals.
  abbrev pub input_ready : PausedRun (Any B) B.Schema → Value B.F → Out B → Store B → Prepared
  input_ready run v out s = ready (record {
    store = s;
    out = replay_input v run.pending 0 out;
    parts = input_parts v run.pending;
    saved_state = run.state;
    generated = length run.pending;
  })

  abbrev pub settled : PausedRun (Any B) B.Schema → Map Bool → Out B → Store B → Ready
  settled run approvals out s = record {
    store = s;
    out = settle_all approvals run.pending 0 out;
    parts = decision_parts approvals run.pending;
    saved_state = run.state;
    generated = settled_ids approvals run.pending 0;
  }

  abbrev pub approvals_ready : PausedRun (Any B) B.Schema → Map Bool → Out B → Store B → Prepared
  approvals_ready run approvals out s = ready (settled run approvals out s)

  abbrev pub key_of : RunAgentInput B → Bytes
  key_of input = run_key input.thread_id input.run_id

  unfoldable pub resume_input :
      World B
      → RunAgentInput B
      → PausedRun (Any B) B.Schema
      → RequestedInputSnapshot (Any B) B.Schema
      → Store B
      → Out B
      → Prepared
  unfolding claim find_payload replay_input input_parts
  resume_input w input run ri s out = elim (find_payload ri.interrupt_id input.resume) [
    | none ↦ refused (unanswered ri.interrupt_id) s
    | some v ↦ claim w (key_of input) s (input_ready run v out)
  ]

  unfoldable pub resume_approvals :
      World B → RunAgentInput B → PausedRun (Any B) B.Schema → Store B → Out B → Prepared
  unfolding claim count_undecided undecided_message settle_all settled_ids decision_parts
  resume_approvals w input run s out =
      let approvals = approvals_from_resume B.resolved input.resume in
      if count_undecided approvals run.pending == 0
      then claim w (key_of input) s (approvals_ready run approvals out)
      else refused (undecided_message approvals run.pending) s

  unfoldable pub resume_run :
      World B → RunAgentInput B → PausedRun (Any B) B.Schema → Store B → Out B → Prepared
  unfolding resume_input resume_approvals
  resume_run w input run s out = elim run.requested_input [
    | some ri ↦ resume_input w input run ri s out
    | none ↦ resume_approvals w input run s out
  ]

  -- `if len(input.Resume) > 0`
  unfoldable pub prepare : World B → RunAgentInput B → Store B → Out B → Prepared
  unfolding resume_run
  prepare w input s out = elim input.resume [
    | [] ↦ ready (record { store = s; out = out; parts = []; saved_state = []; generated = 0 })
    | _ ∷ _ ↦
        let (s', run) = load (key_of input) w.load_time s in
        elim run [ none ↦ refused gone s' | some run ↦ resume_run w input run s' out ]
  ]
