-- ===== src/Aguiadk/Bridge/Ending.antt =====
-- A run ends, and ends once: RUN_STARTED comes first, and RUN_FINISHED or RUN_ERROR comes last.
use adk_go_pkg.Base.{
  ◌++◌, ap, bytes, ◌⊎◌, inl, inr, true, Option, none, some, List, [], ◌∷◌, Bytes, ◌≡◌, refl, arith,
}
use adk_go_pkg.Aguiadk.Translator.Run.{close_all}
use adk_go_pkg.Aguiadk.Translator.Events.{Event}
use adk_go_pkg.Aguiadk.Bridge.{
  BridgeEnv, BridgeEvent, streamed, run_started, run_error, run_finished, Config, RunAgentInput,
  Session, Any, resolve_app_name, resolve_user_id, Store, World, Out, emit_status_delta,
}
use adk_go_pkg.Aguiadk.Bridge.Resume.{replay_input, settle}
use adk_go_pkg.Aguiadk.Bridge.Endings.{sent, push_all, custom_events, add_messages_snapshot}
use adk_go_pkg.Aguiadk.Bridge.Run.{begin_out, start_run, run_internal}
use adk_go_pkg.Aguiadk.Bridge.Invariant.{IsKept, found_session-Q}

-- The life of a run, as an observer of its events sees it.
pub data Phase : Type 0 where
  before running over : Phase

module _ (B : BridgeEnv) where
  -- RUN_STARTED comes first, and nothing follows the end.
  abbrev step : Option Phase → BridgeEvent B → Option Phase
  step (some before) (run_started _ _) = some running
  step (some before) _ = none
  step (some running) (run_started _ _) = none
  step (some running) (run_error _ _ _) = some over
  step (some running) (run_finished _ _ _ _) = some over
  step (some running) _ = some running
  step (some over) _ = none
  step none _ = none

  -- The phase behind a sequence of events, newest first.
  pub life : Out B → Option Phase
  life [] = some before
  life (e ∷ out) = step (life out) e

  abbrev IsRunning : Out B → Type 0
  IsRunning out = life out ≡ some running

  sent-IsRunning :
      (es : List (Option Bytes × Event B.env)) (out : Out B)
      → IsRunning out
      → IsRunning (sent B es out)
  unfolding life sent
  sent-IsRunning [] out h = h
  sent-IsRunning ((a, e) ∷ es) out h = rw (sent-IsRunning es out h) refl

  push_all-IsRunning :
      (es : List (Event B.env)) (out : Out B)
      → IsRunning out
      → IsRunning (push_all (streamed none) es out)
  unfolding life push_all
  push_all-IsRunning [] out h = h
  push_all-IsRunning (e ∷ es) out h = push_all-IsRunning es _ (rw h refl)

  life-IsKept :
      (cfg : Config B) → IsKept B cfg IsRunning (λ out. life out ≡ some over) (λ _. Unit {0})
  unfolding life begin_out emit_status_delta add_messages_snapshot settle replay_input
  life-IsKept cfg = record {
    begins = λ input session. ground arith;
    status = λ s out h. ground arith;
    snapshot = λ w out h. ground arith;
    request = λ id text out h. rw h refl;
    settles = λ m p n out h. ground arith;
    replays = λ v p n out h. rw h refl;
    custom = λ t out h. push_all-IsRunning (custom_events B cfg t) out h;
    sends = λ t out _ h. sent-IsRunning (close_all B.env t).out out h;
    finishes = λ thread run usage interrupts out h. rw h refl;
    errs = λ message run usage out h. rw h refl;
    starts = λ _. tt;
    translates = λ c ev t _. tt;
  }

  -- The session that is found for the request.
  abbrev pub resolution : Config B → World B → RunAgentInput B → Bytes ⊎ Session (Any B)
  resolution cfg w input =
      w.resolve input.thread_id (resolve_app_name B cfg w.request) (resolve_user_id B cfg w.request)

  pub resolved_run :
      (cfg : Config B) (w : World B) (input : RunAgentInput B) (s : Store B)
      (session : Bytes ⊎ Session (Any B))
      → resolution cfg w input ≡ session
      → run_internal B cfg w input s ≡ start_run B cfg w input s session
  unfolding run_internal
  resolved_run cfg w input s session e = ap (start_run B cfg w input s) e

  -- Where the session is found, RUN_STARTED comes first and one end comes last; where it is not,
  -- there is nothing but a RUN_ERROR with the reason.
  abbrev pub IsWholeRun : RunAgentInput B → Bytes ⊎ Session (Any B) → Out B → Type 0
  IsWholeRun input (inr session) out = life out ≡ some over
  IsWholeRun input (inl reason) out =
      out ≡ run_error (bytes "session resolve failed: " ++ reason) input.run_id [] ∷ []

  start_run-IsWholeRun :
      (cfg : Config B) (w : World B) (input : RunAgentInput B) (s : Store B)
      → w.starts ≡ true
      → (session : Bytes ⊎ Session (Any B))
      → IsWholeRun input session (start_run B cfg w input s session).out
  unfolding start_run
  start_run-IsWholeRun cfg w input s h (inr session) =
      found_session-Q B cfg (life-IsKept cfg) w input s h session
  start_run-IsWholeRun cfg w input s h (inl reason) = refl

  -- Whatever the agent does, however requests for a resume come in and whichever settings are on,
  -- if the channel takes RUN_STARTED: where the session is found, the events of a run begin with
  -- RUN_STARTED and end with one RUN_FINISHED or RUN_ERROR, which nothing follows and which no
  -- other stands before, also where a resume is refused; where it is not found, the only event is
  -- a RUN_ERROR with the reason.
  pub run_internal_ends :
      (cfg : Config B) (w : World B) (input : RunAgentInput B) (s : Store B)
      → w.starts ≡ true
      → IsWholeRun input (resolution cfg w input) (run_internal B cfg w input s).out
  unfolding run_internal
  run_internal_ends cfg w input s h = start_run-IsWholeRun cfg w input s h (resolution cfg w input)
