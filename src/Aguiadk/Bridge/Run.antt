-- ===== src/Aguiadk/Bridge/Run.antt =====
-- runInternal of aguiadk/bridge.go, from the resolution of the session to the loop.
use adk_go_pkg.Base.{
  ℕ, ◌⊎◌, inl, inr, Option, none, some, List, [], ◌∷◌, ◌++◌, Bytes, bytes, ◌==◌, if◌then◌else◌,
}
use adk_go_pkg.Base.Map.{Map}
use adk_go_pkg.Aguiadk.RunStore.{copy_state}
use adk_go_pkg.Aguiadk.Translator.{State, new_state}
use adk_go_pkg.Aguiadk.Inbound.{Content, SessionEvent, convert_inbound_messages}
use adk_go_pkg.Aguiadk.Bridge.{
  BridgeEnv, Any, run_started, run_error, state_snapshot, Config, RunAgentInput, InputState,
  no_state, map_state, any_state, Session, AgentCall, Store, World, Outcome, Out,
  emits_state_snapshot, resolve_app_name, resolve_user_id, emit_status_delta, session_state_to_map,
}
use adk_go_pkg.Aguiadk.Bridge.Resume.{Ready, Prepared, refused, ready, prepare}
use adk_go_pkg.Aguiadk.Bridge.Loop.{run_loop, translator_config}
use adk_go_pkg.Aguiadk.Bridge.Endings.{end_run}

module _ (B : BridgeEnv) where
  -- The state of a request, as a map.
  unfoldable pub state_of_input : InputState (Any B) → Map (Any B)
  state_of_input no_state = []
  state_of_input (map_state m) = m
  state_of_input (any_state v) = elim (B.sdk.marshal_value v) [
    | none ↦ []
    | some text ↦ elim (B.sdk.unmarshal text) [
      | none ↦ []
      | some m ↦ elim m [ none ↦ [] | some m ↦ m ]
    ]
  ]

  -- The saved state under the state of the request.
  unfoldable pub merged_state : Map (Any B) → RunAgentInput B → Map (Any B)
  unfolding state_of_input
  merged_state saved input = copy_state (copy_state [] saved) (state_of_input input.state)

  unfoldable pub envelope_state : RunAgentInput B → Map (Any B)
  envelope_state input =
      (elim input.parent_run_id [
        | none ↦ []
        | some id ↦ (bytes "_ag_ui_parent_run_id", B.env.string_value id) ∷ []
      ])
      ++ (elim input.context [
        | [] ↦ []
        | c ∷ cs ↦ (bytes "_ag_ui_context", B.list_value (c ∷ cs)) ∷ []
      ])
      ++ (elim input.forwarded_props [
        | none ↦ []
        | some v ↦ (bytes "_ag_ui_forwarded_props", v) ∷ []
      ])

  abbrev delta_option : Map (Any B) → List (Map (Any B))
  delta_option [] = []
  delta_option (e ∷ m) = (e ∷ m) ∷ []

  -- The options of the call: a state delta where it has entries.
  unfoldable pub state_deltas : Map (Any B) → RunAgentInput B → List (Map (Any B))
  unfolding merged_state envelope_state
  state_deltas saved input =
      delta_option (merged_state saved input) ++ delta_option (envelope_state input)

  -- newEventTranslatorWithClientTools, where identifiers were generated before.
  abbrev pub started : ℕ → State B.env
  started n = record (new_state B.env) { generated = n }

  abbrev pub agent_call :
      RunAgentInput B → Session (Any B) → Content (Any B) → Ready B → AgentCall B
  agent_call input session msg r = record {
    session_id = session.id;
    message = record msg { parts = r.parts ++ msg.parts };
    state_deltas = state_deltas r.saved_state input;
  }

  -- From the call of the agent on.
  unfoldable pub drive :
      Config B → World B → RunAgentInput B → Session (Any B) → Content (Any B) → Ready B → Outcome B
  unfolding end_run state_deltas run_loop translator_config
  drive cfg w input session msg r =
      let call = agent_call input session msg r in
      end_run B cfg w input call r.store r.out (
        run_loop B (translator_config B cfg input) cfg.max_iterations (w.agent call) 0
          (started r.generated))

  -- The first error of the seeding of a session.
  unfoldable pub seed : World B → List (SessionEvent (Any B)) → Option Bytes
  seed w [] = none
  seed w (ev ∷ evs) =
      let rest = seed w evs in elim (w.append_event ev) [ some e ↦ some e | none ↦ rest ]

  abbrev pub seeding_error : World B → Session (Any B) → List (SessionEvent (Any B)) → Option Bytes
  seeding_error w session evs = if session.events_len == 0 then seed w evs else none

  unfoldable pub begin_out : Config B → RunAgentInput B → Session (Any B) → Out B
  unfolding emit_status_delta emits_state_snapshot session_state_to_map
  begin_out cfg input session =
      let out =
        emit_status_delta B cfg (bytes "running") (run_started input.thread_id input.run_id ∷ []) in
      if emits_state_snapshot B cfg
      then state_snapshot (session_state_to_map B session.state) ∷ out
      else out

  -- A run whose resume is refused ends; any other calls the agent.
  unfoldable pub start_agent :
      Config B
      → World B
      → RunAgentInput B
      → Session (Any B)
      → Content (Any B)
      → Out B
      → Prepared B
      → Outcome B
  unfolding drive
  start_agent cfg w input session msg out (refused e s) = record {
    out = run_error e input.run_id [] ∷ out;
    store = s;
    call = none;
  }
  start_agent cfg w input session msg out (ready r) = drive cfg w input session msg r

  abbrev pub unseeded : RunAgentInput B → Store B → Out B → Bytes → Outcome B
  unseeded input s out e = record {
    out = run_error (bytes "session history seed failed: " ++ e) input.run_id [] ∷ out;
    store = s;
    call = none;
  }

  -- From the conversion of the messages on.
  unfoldable pub continue_run :
      Config B → World B → RunAgentInput B → Session (Any B) → Store B → Out B → Outcome B
  unfolding convert_inbound_messages seed prepare start_agent
  continue_run cfg w input session s out =
      let (msg, prior) = convert_inbound_messages B.env B.sdk cfg.provider input.messages in
      elim (seeding_error w session prior) [
        | some e ↦ unseeded input s out e
        | none ↦ start_agent cfg w input session msg out (prepare B w input s out)
      ]

  -- A run whose session fails ends; any other begins.
  unfoldable pub start_run :
      Config B → World B → RunAgentInput B → Store B → Bytes ⊎ Session (Any B) → Outcome B
  unfolding begin_out continue_run
  start_run cfg w input s (inl e) = record {
    out = run_error (bytes "session resolve failed: " ++ e) input.run_id [] ∷ [];
    store = s;
    call = none;
  }
  start_run cfg w input s (inr session) =
      if w.starts
      then continue_run cfg w input session s (begin_out cfg input session)
      else record { out = []; store = s; call = none }

  -- runInternal
  unfoldable pub run_internal : Config B → World B → RunAgentInput B → Store B → Outcome B
  unfolding resolve_app_name resolve_user_id start_run
  run_internal cfg w input s = start_run cfg w input s (
      w.resolve input.thread_id (resolve_app_name B cfg w.request)
        (resolve_user_id B cfg w.request))
