-- ===== src/Aguiadk/Bridge/Balance.antt =====
-- What a run opens in the stream it closes before it ends.
use adk_go_pkg.Base.{
  ℕ, Bool, true, Option, none, some, List, [], ◌∷◌, ◌++◌, Bytes, ◌≡◌, refl, ◌∙◌, arith, ap,
}
use adk_go_pkg.Base.Map.{Map}
use adk_go_pkg.Aguiadk.RunStore.{PendingToolCall}
use adk_go_pkg.Aguiadk.Translator.{State}
use adk_go_pkg.Aguiadk.Translator.Run.{close_all}
use adk_go_pkg.Aguiadk.Translator.Events.{Event}
use adk_go_pkg.Aguiadk.Translator.Protocol.{
  idle, check, open_count, was_started, owned, strict, IsSound,
}
use adk_go_pkg.Aguiadk.Translator.Protocol.Subagents.{NamesRuns}
use adk_go_pkg.Aguiadk.Translator.Protocol.Runs.{started-IsSound, translate-IsSound}
use adk_go_pkg.Aguiadk.Translator.Protocol.Closing.{check-close_all, nothing_open}
use adk_go_pkg.Aguiadk.Bridge.{
  BridgeEnv, Any, streamed, run_error, Config, RunAgentInput, Store, World, Out, emit_status_delta,
}
use adk_go_pkg.Aguiadk.Bridge.Resume.{replay_input, settle}
use adk_go_pkg.Aguiadk.Bridge.Endings.{sent, push_all, add_messages_snapshot}
use adk_go_pkg.Aguiadk.Bridge.Run.{begin_out, run_internal}
use adk_go_pkg.Aguiadk.Bridge.Invariant.{IsKept, run_internal-Q}

module _ (B : BridgeEnv) where
  abbrev Stream : Type 0
  Stream = List (Option Bytes × Event B.env)

  -- The events of messages, steps, tool calls and sub-agents, newest first.
  pub body : Out B → Stream
  body [] = []
  body (streamed a e ∷ out) = (a, e) ∷ body out
  body (_ ∷ out) = body out

  -- The events obey the protocol, and leave nothing open.
  pub record IsBalanced (out : Out B) : Type 0 where
    pub obeys : check (body out) ≡ some idle
    pub ended : (call : Bytes) → open_count call (body out) ≡ 0
    pub owns : (call : Bytes) → owned call (body out) ≡ true

  body-sent : (es : Stream) (out : Out B) → body (sent B es out) ≡ es ++ body out
  unfolding body sent
  body-sent [] out = refl
  body-sent ((a, e) ∷ es) out = ap (λ xs. (a, e) ∷ xs) (body-sent es out)

  -- Behind events that leave nothing open, a sequence means what it means alone.
  check-append : (es rest : Stream) → check rest ≡ some idle → check (es ++ rest) ≡ check es
  unfolding check
  check-append [] rest h = h
  check-append (e ∷ es) rest h = ground (arith, check-append es rest h)

  open_count-append :
      (call : Bytes) (es rest : Stream)
      → open_count call rest ≡ 0
      → open_count call (es ++ rest) ≡ open_count call es
  unfolding open_count
  open_count-append call [] rest h = h
  open_count-append call (e ∷ es) rest h = ground (arith, open_count-append call es rest h)

  was_started-append :
      (call : Bytes) (es rest : Stream)
      → was_started call es ≡ true
      → was_started call (es ++ rest) ≡ true
  unfolding was_started
  was_started-append call [] rest h = cc
  was_started-append call (e ∷ es) rest h = ground (arith, was_started-append call es rest)

  owned-append :
      (call : Bytes) (es rest : Stream)
      → owned call rest ≡ true
      → owned call es ≡ true
      → owned call (es ++ rest) ≡ true
  unfolding owned
  owned-append call [] rest h g = h
  owned-append call (e ∷ es) rest h g =
      ground (arith, owned-append call es rest h, was_started-append call es rest)

  Good : State B.env → Type 0
  Good t = (call : Bytes) → IsSound call t

  sent-IsBalanced :
      (t : State B.env) (out : Out B)
      → Good t
      → IsBalanced out
      → IsBalanced (sent B (close_all B.env t).out out)
  unfolding Good
  sent-IsBalanced t out g b =
      let es = (close_all B.env t).out in
      record {
        obeys =
            ap check (body-sent es out)
            ∙ check-append es (body out) b.obeys
            ∙ check-close_all B.env [] (g []);
        ended = λ call.
            ap (open_count call) (body-sent es out)
            ∙ open_count-append call es (body out) (b.ended call)
            ∙ (nothing_open B.env call (g call)).0;
        owns = λ call.
            ap (owned call) (body-sent es out)
            ∙ owned-append call es (body out) (b.owns call) (nothing_open B.env call (g call)).1;
      }

  settle-IsBalanced :
      (m : Map Bool) (p : PendingToolCall (Any B)) (n : ℕ) (out : Out B)
      → IsBalanced out
      → IsBalanced (settle B m p n out)
  unfolding settle body check open_count was_started owned strict
  settle-IsBalanced m p n out b = record {
    obeys = ground (arith, b.obeys);
    ended = λ call. ground (arith, b.ended call);
    owns = λ call. ground (arith, b.owns call);
  }

  body-IsKept :
      (cfg : Config B)
      → NamesRuns B.env
      → cfg.custom_event_emitter ≡ none
      → IsKept B cfg IsBalanced IsBalanced Good
  unfolding Good body check open_count was_started owned strict begin_out emit_status_delta
      add_messages_snapshot replay_input push_all
  body-IsKept cfg named none_emits = record {
    begins = λ input session. record {
      obeys = ground arith;
      ended = λ call. ground arith;
      owns = λ call. ground arith;
    };
    status = λ s out b. record {
      obeys = ground (arith, b.obeys);
      ended = λ call. ground (arith, b.ended call);
      owns = λ call. ground (arith, b.owns call);
    };
    snapshot = λ w out b. record {
      obeys = ground (arith, b.obeys);
      ended = λ call. ground (arith, b.ended call);
      owns = λ call. ground (arith, b.owns call);
    };
    request = λ id text out b. record { obeys = b.obeys; ended = b.ended; owns = b.owns };
    settles = λ m p n out b. settle-IsBalanced m p n out b;
    replays = λ v p n out b. record {
      obeys = ground (arith, b.obeys);
      ended = λ call. ground (arith, b.ended call);
      owns = λ call. ground (arith, b.owns call);
    };
    custom = λ t out b. rw none_emits b;
    sends = λ t out g b. sent-IsBalanced t out g b;
    finishes = λ thread run usage interrupts out b. record {
      obeys = b.obeys;
      ended = b.ended;
      owns = b.owns;
    };
    errs = λ message run usage out b. record { obeys = b.obeys; ended = b.ended; owns = b.owns };
    starts = λ n call. started-IsSound B.env call n;
    translates = λ c ev t g call. translate-IsSound B.env call c ev named (g call);
  }

  lone-IsBalanced : (message run : Bytes) → IsBalanced (run_error message run [] ∷ [])
  unfolding body check open_count owned
  lone-IsBalanced message run = record { obeys = refl; ended = λ call. refl; owns = λ call. refl }

  -- Every run leaves nothing open in the stream: at its end, whether it finishes, pauses, is
  -- refused or fails, and also if it replays the calls of a paused run, its events obey the
  -- protocol of messages, reasoning blocks, steps and sub-agents and leave none of these open. For
  -- each tool call, as many STARTs as ENDs count, where an END that no START is left for counts
  -- nothing, and each ARGS and END comes after a START of the call. Conditions: the channel takes
  -- RUN_STARTED, the generated identifiers are not empty, and there is no custom event emitter.
  pub run_internal_balanced :
      (cfg : Config B) (w : World B) (input : RunAgentInput B) (s : Store B)
      → NamesRuns B.env
      → cfg.custom_event_emitter ≡ none
      → w.starts ≡ true
      → let out = body (run_internal B cfg w input s).out in
        (check out ≡ some idle)
        × ((call : Bytes) → (open_count call out ≡ 0) × (owned call out ≡ true))
  run_internal_balanced cfg w input s named none_emits h =
      let b = run_internal-Q B cfg (body-IsKept cfg named none_emits) lone-IsBalanced w input s h in
      (b.obeys, λ call. (b.ended call, b.owns call))
