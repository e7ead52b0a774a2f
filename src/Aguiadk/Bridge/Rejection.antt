-- ===== src/Aguiadk/Bridge/Rejection.antt =====
-- A resume that leaves a call undecided, and a resume of a run that was resumed already.
use adk_go_pkg.Base.{
  ℕ, ◌-◌, leb, ◌++◌, ◌∙◌, false, ◌⊎◌, inl, inr, none, some, List, [], ◌∷◌, Bytes, ◌==◌, ◌≡◌, refl,
  arith, Option-cases, if-cases, option-cases, str_eq_refl,
}
use mathlib.Core.Path.{subst}
use adk_go_pkg.Base.Map.{lookup, delete, lookup-delete}
use adk_go_pkg.Aguiadk.RunStore.{PendingToolCall, PausedRun, load, load_and_delete}
use adk_go_pkg.Aguiadk.RunStore.Expiry.{load-save}
use adk_go_pkg.Aguiadk.RunStore.Approvals.{ResumeEntry, approvals_from_resume, NamesNone}
use adk_go_pkg.Aguiadk.Translator.{State}
use adk_go_pkg.Aguiadk.Inbound.{Content, convert_inbound_messages}
use adk_go_pkg.Aguiadk.Bridge.{
  BridgeEnv, Any, Config, RunAgentInput, AgentCall, AgentEvent, Session, Store, World, Outcome, Out,
  resolve_approval_mode,
}
use adk_go_pkg.Aguiadk.Bridge.Resume.{
  Ready, Prepared, refused, ready, prepare, resume_run, resume_input, resume_approvals, claim,
  key_of, unanswered, claimed_elsewhere, input_ready, approvals_ready, count_undecided,
  undecided_message, find_payload, gone,
}
use adk_go_pkg.Aguiadk.Bridge.Loop.{extract_pending_tool_calls}
use adk_go_pkg.Aguiadk.Bridge.Endings.{hands_back, pause, to_save, save_run}
use adk_go_pkg.Aguiadk.Bridge.Answers.{one_undecided}
use adk_go_pkg.Aguiadk.Bridge.Cycle.{load_hit, store-pause, unique-session_state_to_map}
use adk_go_pkg.Aguiadk.Bridge.Run.{
  seeding_error, unseeded, begin_out, start_agent, start_run, continue_run, run_internal,
}

module _ (B : BridgeEnv) (w : World B) (input : RunAgentInput B) where
  -- The resume entries leave a call of the run undecided.
  abbrev pub LeavesUndecided : PausedRun (Any B) B.Schema → Type 0
  LeavesUndecided run =
      (run.requested_input ≡ none)
      × ((count_undecided B (approvals_from_resume B.resolved input.resume) run.pending == 0)
          ≡ false)

  prepare_undecided :
      (s : Store B) (out : Out B) (run : PausedRun (Any B) B.Schema) {e : ResumeEntry B.F}
      {es : List (ResumeEntry B.F)}
      → input.resume ≡ e ∷ es
      → load (key_of B input) w.load_time s ≡ (s, some run)
      → LeavesUndecided run
      → prepare B w input s out
        ≡ refused
            (undecided_message B (approvals_from_resume B.resolved input.resume) run.pending)
            s
  unfolding prepare resume_run resume_approvals
  prepare_undecided s out run {e} {es} re held (asks, u) = ground arith

  -- The store is what it was, and the agent did not run.
  record IsIdle (s : Store B) (o : Outcome B) : Type 0 where
    kept : o.store ≡ s
    idle : o.call ≡ none

  start_agent-IsIdle :
      (cfg : Config B) (session : Session (Any B)) (msg : Content (Any B)) (s : Store B)
      (out : Out B) (message : Bytes) (p : Prepared B)
      → p ≡ refused message s
      → IsIdle s (start_agent B cfg w input session msg out p)
  unfolding start_agent
  start_agent-IsIdle cfg session msg s out message p h = rw h (record { kept = refl; idle = refl })

  continue_run-IsIdle :
      (cfg : Config B) (session : Session (Any B)) (s : Store B) (out : Out B) (message : Bytes)
      → prepare B w input s out ≡ refused message s
      → IsIdle s (continue_run B cfg w input session s out)
  unfolding continue_run
  continue_run-IsIdle cfg session s out message h =
      let inbound = convert_inbound_messages B.env B.sdk cfg.provider input.messages in
      option-cases (IsIdle s) (seeding_error B w session inbound.1) _ (unseeded B input s out)
        (start_agent-IsIdle cfg session inbound.0 s out message (prepare B w input s out) h)
        (λ e. record { kept = refl; idle = refl })

  start_run-IsIdle :
      (cfg : Config B) (s : Store B) (message : Bytes)
      → ((out : Out B) → prepare B w input s out ≡ refused message s)
      → (session : Bytes ⊎ Session (Any B)) → IsIdle s (start_run B cfg w input s session)
  unfolding start_run
  start_run-IsIdle cfg s message h (inl e) = record { kept = refl; idle = refl }
  start_run-IsIdle cfg s message h (inr session) =
      let out = begin_out B cfg input session in
      if-cases (IsIdle s) w.starts _ (record { out = []; store = s; call = none })
        (continue_run-IsIdle cfg session s out message (h out))
        (record { kept = refl; idle = refl })

  undecided_keeps_run :
      (cfg : Config B) (s : Store B) (run : PausedRun (Any B) B.Schema) {e : ResumeEntry B.F}
      {es : List (ResumeEntry B.F)}
      → input.resume ≡ e ∷ es
      → load (key_of B input) w.load_time s ≡ (s, some run)
      → LeavesUndecided run
      → ((run_internal B cfg w input s).store ≡ s) × ((run_internal B cfg w input s).call ≡ none)
  unfolding run_internal
  undecided_keeps_run cfg s run re held u =
      let i = start_run-IsIdle cfg s _ (λ out. prepare_undecided s out run re held u) _ in
      (i.kept, i.idle)

module _ (B : BridgeEnv) where
  -- If a run pauses for approval of several calls, then a resume of the same thread and run that
  -- comes before the store's time to live has passed, and in which no entry names one of the calls
  -- that wait, whichever it is, neither runs the agent nor changes the store, so that the run can
  -- still be resumed with the decisions that lack.
  pub partial_resume_keeps_run :
      (cfg cfg' : Config B) (w w' : World B) (input input' : RunAgentInput B) (call : AgentCall B)
      (ev : AgentEvent B) (t : State B.env) (s : Store B) (out : Out B)
      (before after : List (PendingToolCall (Any B))) (p : PendingToolCall (Any B))
      {e : ResumeEntry B.F} {es : List (ResumeEntry B.F)}
      → let left = (pause B cfg w input call ev t s out).store in
        hands_back B cfg ≡ false
        → ev.requested_input ≡ none
        → resolve_approval_mode B cfg w.request ≡ false
        → extract_pending_tool_calls B ev ≡ before ++ p ∷ after
        → input'.resume ≡ e ∷ es
        → key_of B input' ≡ key_of B input
        → NamesNone B.resolved p.id input'.resume
        → leb (w.before_save s).ttl (w'.load_time - w.save_time) ≡ false
        → ((run_internal B cfg' w' input' left).store ≡ left)
          × ((run_internal B cfg' w' input' left).call ≡ none)
  partial_resume_keeps_run cfg cfg' w w' input input' call ev t s out before after p {e} {es} back
        asks mode waits re same unnamed soon =
      let calls = extract_pending_tool_calls B ev in
      let run = to_save B w input call.session_id calls in
      let key = key_of B input in
      let s' = save_run B w input run s in
      let distinct = unique-session_state_to_map B w.paused_state in
      let loaded = load-save key run w.save_time w'.load_time (w.before_save s) distinct in
      let held : load (key_of B input') w'.load_time s' ≡ (s', some run) =
        rw same (load_hit B key w'.load_time s' run (loaded.0 ∙ rw soon refl)) in
      let lacks : LeavesUndecided B w' input' run =
        (refl, rw waits (one_undecided B input'.resume before after p unnamed)) in
      rw (store-pause B cfg w input call ev t s out back asks mode)
        (undecided_keeps_run B w' input' cfg' s' run re held lacks)

module _ (B : BridgeEnv) where
  -- What holds of a run once it is claimed: its key is not in the store.
  record IsTaken (key : Bytes) (p : Prepared B) : Type 0 where
    taken : (r : Ready B) → p ≡ ready r → lookup key r.store.runs ≡ none

  refused-IsTaken : (key message : Bytes) (s : Store B) → IsTaken key (refused message s)
  refused-IsTaken key message s = record { taken = λ r h. cc }

  lookup-delete_self : (key : Bytes) (s : Store B) → lookup key (delete key s.runs) ≡ none
  lookup-delete_self key s = ground (arith, lookup-delete key key s.runs, str_eq_refl key)

  claimed_store :
      (key : Bytes) (now : ℕ) (s : Store B) → lookup key (load_and_delete key now s).0.runs ≡ none
  unfolding load_and_delete
  claimed_store key now s = ground (arith, lookup-delete_self key s)

  claim-IsTaken :
      (w : World B) (key : Bytes) (s : Store B) (go : Store B → Prepared B)
      → ((s' : Store B) → lookup key s'.runs ≡ none → IsTaken key (go s'))
      → IsTaken key (claim B w key s go)
  unfolding claim
  claim-IsTaken w key s go h =
      let s' = w.before_claim s in
      option-cases (IsTaken key) (load_and_delete key w.claim_time s').1
        (refused claimed_elsewhere (load_and_delete key w.claim_time s').0) _
        (refused-IsTaken key _ _) (λ _. h _ (claimed_store key w.claim_time s'))

  ready-IsTaken :
      (key : Bytes) (r : Ready B) → lookup key r.store.runs ≡ none → IsTaken key (ready r)
  ready-IsTaken key r h = record { taken = λ r' e. cc }

  resume_run-IsTaken :
      (w : World B) (input : RunAgentInput B) (run : PausedRun (Any B) B.Schema) (s : Store B)
      (out : Out B)
      → IsTaken (key_of B input) (resume_run B w input run s out)
  unfolding resume_run resume_input resume_approvals
  resume_run-IsTaken w input run s out =
      let approvals = approvals_from_resume B.resolved input.resume in
      let key = key_of B input in
      option-cases (IsTaken key) run.requested_input _ _
        (if-cases (IsTaken key) (count_undecided B approvals run.pending == 0) _
          (refused (undecided_message B approvals run.pending) s)
          (claim-IsTaken w key s (approvals_ready B run approvals out)
            (λ s' h. ready-IsTaken key _ h))
          (refused-IsTaken key _ _))
        (λ ri.
          option-cases (IsTaken key) (find_payload B ri.interrupt_id input.resume)
            (refused (unanswered B ri.interrupt_id) s) _ (refused-IsTaken key _ _)
            (λ v. claim-IsTaken w key s (input_ready B run v out) (λ s' h. ready-IsTaken key _ h)))

  prepare-IsTaken :
      (w : World B) (input : RunAgentInput B) (s : Store B) (out : Out B) {e : ResumeEntry B.F}
      {es : List (ResumeEntry B.F)}
      → input.resume ≡ e ∷ es
      → IsTaken (key_of B input) (prepare B w input s out)
  unfolding prepare
  prepare-IsTaken w input s out {e} {es} re =
      let key = key_of B input in
      elim (Option-cases (load key w.load_time s).1) [
        | inl miss ↦
            subst (IsTaken key) (ground arith) (refused-IsTaken key gone (load key w.load_time s).0)
        | inr (run, hit) ↦
            subst (IsTaken key) (ground arith)
              (resume_run-IsTaken w input run (load key w.load_time s).0 out)
      ]

  load_gone :
      (key : Bytes) (now : ℕ) (s : Store B) → lookup key s.runs ≡ none → load key now s ≡ (s, none)
  unfolding load
  load_gone key now s h = ground arith

  -- A paused run is resumed once: after a resume that was accepted, a resume of the same thread
  -- and run, at any time, finds no paused run in the store that the first one left.
  pub resumes_once :
      (w w' : World B) (input input' : RunAgentInput B) (s : Store B) (out out' : Out B)
      (r : Ready B) {e e' : ResumeEntry B.F} {es es' : List (ResumeEntry B.F)}
      → input.resume ≡ e ∷ es
      → prepare B w input s out ≡ ready r
      → key_of B input' ≡ key_of B input
      → input'.resume ≡ e' ∷ es'
      → prepare B w' input' r.store out' ≡ refused gone r.store
  unfolding prepare
  resumes_once w w' input input' s out out' r {e} {e'} {es} {es'} re first same re' =
      let t = (prepare-IsTaken w input s out re).taken r first in
      ground (arith, load_gone (key_of B input') w'.load_time r.store)
