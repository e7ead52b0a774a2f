-- ===== src/Aguiadk/Bridge/Invariant.antt =====
-- What is shared by the proofs about the events of a run: a property R of the events of a run that
-- goes on, a property Q of those of one that has ended, and a property of the translator.
use adk_go_pkg.Base.{
  ℕ, suc, Bool, true, ◌&&◌, ◌⊎◌, inl, inr, Option, none, List, [], ◌∷◌, Bytes, bytes, if◌then◌else◌,
  ◌≡◌, arith, if-cases, if-cases_of, option-cases, ◌==◌,
}
use adk_go_pkg.Base.Int.{ℤ}
use adk_go_pkg.Base.Map.{Map}
use adk_go_pkg.Agui.TokenUsage.{TokenUsage}
use adk_go_pkg.Value.{Value}
use adk_go_pkg.Aguiadk.RunStore.{PendingToolCall, PausedRun, load, load_and_delete}
use adk_go_pkg.Aguiadk.RunStore.Approvals.{approvals_from_resume}
use adk_go_pkg.Aguiadk.Inbound.{Content}
use adk_go_pkg.Aguiadk.Translator.{State, Config as TranslatorConfig}
use adk_go_pkg.Aguiadk.Translator.Events.{AdkEvent}
use adk_go_pkg.Aguiadk.Translator.Run.{translate, close_all}
use adk_go_pkg.Aguiadk.Bridge.{
  BridgeEnv, Any, streamed, run_error, run_finished, approval_request, Config, RunAgentInput,
  Interrupt, RequestedInput, Session, AgentCall, AgentEvent, Item, failed, skipped, yielded, Store,
  World, Outcome, Out, emit_status_delta,
}
use adk_go_pkg.Aguiadk.Bridge.Resume.{
  count_undecided, undecided_message, unanswered, key_of, input_ready, approvals_ready, Sends,
  Prepared, refused, ready, prepare, resume_run, resume_input, resume_approvals, claim,
  replay_input, settle, settle_all, find_payload,
}
use adk_go_pkg.Aguiadk.Bridge.Loop.{
  ends_turn, exceeds, is_none, Ended, agent_failed, unconverged, paused, exhausted, run_loop,
  extract_pending_tool_calls, translator_config,
}
use adk_go_pkg.Aguiadk.Bridge.Endings.{
  sent, push_all, custom_events, add_messages_snapshot, request_approvals, hand_over, await_input,
  await_approval, pause, finish, fail, give_up, end_run,
}
use adk_go_pkg.Aguiadk.Bridge.Run.{
  begin_out, drive, start_agent, continue_run, start_run, run_internal, started, agent_call,
}

module _ (B : BridgeEnv) (cfg : Config B) where
  abbrev Pending : Type 0
  Pending = PendingToolCall (Any B)

  -- The translator where the loop ended.
  abbrev translator_of : Ended B → State B.env
  translator_of (agent_failed _ t) = t
  translator_of (unconverged t) = t
  translator_of (paused _ t) = t
  translator_of (exhausted t) = t

  record EndsWith (P : State B.env → Type 0) (e : Ended B) : Type 0 where
    at_end : P (translator_of e)

  pub record IsKept (R Q : Out B → Type 0) (Good : State B.env → Type 0) : Type 0 where
    pub begins :
        (input : RunAgentInput B) (session : Session (Any B)) → R (begin_out B cfg input session)
    pub status : (s : Bytes) (out : Out B) → R out → R (emit_status_delta B cfg s out)
    pub snapshot : (w : World B) (out : Out B) → R out → R (add_messages_snapshot B cfg w out)
    pub request : (id text : Bytes) (out : Out B) → R out → R (approval_request id text ∷ out)
    pub settles :
        (m : Map Bool) (p : Pending) (n : ℕ) (out : Out B) → R out → R (settle B m p n out)
    pub replays :
        (v : Value B.F) (p : Pending) (n : ℕ) (out : Out B)
        → R out
        → R (replay_input B v (p ∷ []) n out)
    pub custom :
        (t : State B.env) (out : Out B)
        → R out
        → R (push_all (streamed none) (custom_events B cfg t) out)
    pub sends :
        (t : State B.env) (out : Out B) → Good t → R out → R (sent B (close_all B.env t).out out)
    pub finishes :
        (thread run : Bytes) (usage : List TokenUsage)
        (interrupts : Option (List (Interrupt (Any B)))) (out : Out B)
        → R out
        → Q (run_finished thread run usage interrupts ∷ out)
    pub errs :
        (message run : Bytes) (usage : List TokenUsage) (out : Out B)
        → R out
        → Q (run_error message run usage ∷ out)
    pub starts : (n : ℕ) → Good (started B n)
    pub translates :
        (c : TranslatorConfig B.env) (ev : AdkEvent B.env) (t : State B.env)
        → Good t
        → Good (translate B.env c ev t)

  module _ {R Q : Out B → Type 0} {Good : State B.env → Type 0} (k : IsKept R Q Good) where
    run_loop-EndsWith :
        (c : TranslatorConfig B.env) (max : ℤ) (items : List (Item B)) (turns : ℕ) (t : State B.env)
        → Good t
        → EndsWith Good (run_loop B c max items turns t)
    unfolding run_loop
    run_loop-EndsWith c max [] turns t g = record { at_end = g }
    run_loop-EndsWith c max (failed e ∷ items) turns t g = record { at_end = g }
    run_loop-EndsWith c max (skipped ∷ items) turns t g = run_loop-EndsWith c max items turns t g
    run_loop-EndsWith c max (yielded ev ∷ items) turns t g =
        let g' = k.translates c ev.event t g in
        let t' = translate B.env c ev.event t in
        let turns' = if ends_turn B ev then suc turns else turns in
        let rest = run_loop-EndsWith c max items turns' t' g' in
        if-cases (EndsWith Good) (ends_turn B ev && exceeds max turns') (unconverged t') _
          (record { at_end = g' })
          (if-cases (EndsWith Good) (is_none ev.long_running_tool_ids) _ (paused ev t') rest
            (record { at_end = g' }))

    requests : (ps : List Pending) (n : ℕ) (out : Out B) → R out → R (request_approvals B ps n out)
    unfolding request_approvals
    requests [] n out h = h
    requests (p ∷ ps) n out h = requests ps (suc n) _ (k.request _ _ out h)

    settles_all :
        (m : Map Bool) (ps : List Pending) (n : ℕ) (out : Out B)
        → R out
        → R (settle_all B m ps n out)
    unfolding settle_all
    settles_all m [] n out h = h
    settles_all m (p ∷ ps) n out h = settles_all m ps _ _ (k.settles m p n out h)

    replays_all :
        (v : Value B.F) (ps : List Pending) (n : ℕ) (out : Out B)
        → R out
        → R (replay_input B v ps n out)
    unfolding replay_input
    replays_all v [] n out h = h
    replays_all v (p ∷ ps) n out h = replays_all v ps (suc n) _ (k.replays v p n out h)

    module _ (w : World B) (input : RunAgentInput B) where
      hand_over-Q :
          (t : State B.env) (out : Out B) → Good t → R out → Q (hand_over B cfg w input t out)
      unfolding hand_over
      hand_over-Q t out g h =
          k.finishes _ _ _ _ _ (k.status _ _ (k.snapshot w _ (k.sends t out g h)))

      fail-Q :
          (e : Bytes) (t : State B.env) (out : Out B)
          → Good t
          → R out
          → Q (fail B cfg input e t out)
      unfolding fail
      fail-Q e t out g h = k.errs _ _ _ _ (k.status _ _ (k.sends t out g h))

      give_up-Q : (t : State B.env) (out : Out B) → Good t → R out → Q (give_up B cfg w input t out)
      unfolding give_up
      give_up-Q t out g h = k.errs _ _ _ _ (k.snapshot w _ (k.status _ _ (k.sends t out g h)))

      module _ (call : AgentCall B) (s : Store B) where
        finish-Q :
            (t : State B.env) (out : Out B)
            → Good t
            → R out
            → Q (finish B cfg w input call t s out).out
        unfolding finish
        finish-Q t out g h = k.finishes _ _ _ _ _ (
            k.snapshot w _
              (k.custom (close_all B.env t) _ (k.status (bytes "done") _ (k.sends t out g h))))

        await_input-Q :
            (ev : AgentEvent B) (ri : RequestedInput (Any B) B.Schema) (t : State B.env)
            (out : Out B)
            → Good t
            → R out
            → Q (await_input B cfg w input call ev ri t s out).out
        unfolding await_input
        await_input-Q ev ri t out g h =
            k.finishes _ _ _ _ _ (k.snapshot w _ (k.status _ _ (k.sends t out g h)))

        await_approval-Q :
            (ev : AgentEvent B) (t : State B.env) (out : Out B)
            → Good t
            → R out
            → Q (await_approval B cfg w input call ev t s out).out
        unfolding await_approval
        await_approval-Q ev t out g h = k.finishes _ _ _ _ _ (
            k.snapshot w _ (
              k.status (bytes "awaiting_approval") _ (
                requests (extract_pending_tool_calls B ev) (close_all B.env t).generated _
                  (k.sends t out g h))))

        pause-Q :
            (ev : AgentEvent B) (t : State B.env) (out : Out B)
            → Good t
            → R out
            → Q (pause B cfg w input call ev t s out).out
        unfolding pause
        pause-Q ev t out g h =
            let P = λ (o : Outcome B). Q o.out in
            let over = hand_over-Q t out g h in
            if-cases P _ _ _ over (
              option-cases P ev.requested_input _ _
                (if-cases P _ _ _ over (await_approval-Q ev t out g h))
                (λ ri. await_input-Q ev ri t out g h))

        end_run-Q :
            (e : Ended B) (out : Out B)
            → EndsWith Good e
            → R out
            → Q (end_run B cfg w input call s out e).out
        unfolding end_run
        end_run-Q (agent_failed e t) out g h = fail-Q e t out g.at_end h
        end_run-Q (unconverged t) out g h = give_up-Q t out g.at_end h
        end_run-Q (paused ev t) out g h = pause-Q ev t out g.at_end h
        end_run-Q (exhausted t) out g h = finish-Q t out g.at_end h

    refuses : {e : Bytes} {s : Store B} → Sends B R (refused e s)
    refuses = record { if_ready = tt }

    claim-Sends :
        (w : World B) (key : Bytes) (s : Store B) (go : Store B → Prepared B)
        → ((s' : Store B) → Sends B R (go s'))
        → Sends B R (claim B w key s go)
    unfolding claim
    claim-Sends w key s go h =
        option-cases (Sends B R) (load_and_delete key w.claim_time (w.before_claim s)).1 _ _ refuses
          (λ _. h _)

    resume_run-Sends :
        (w : World B) (input : RunAgentInput B) (run : PausedRun (Any B) B.Schema) (s : Store B)
        (out : Out B)
        → R out
        → Sends B R (resume_run B w input run s out)
    unfolding resume_run resume_input resume_approvals
    resume_run-Sends w input run s out h =
        let approvals = approvals_from_resume B.resolved input.resume in
        option-cases (Sends B R) run.requested_input _ _
          (if-cases (Sends B R) (count_undecided B approvals run.pending == 0) _
            (refused (undecided_message B approvals run.pending) s)
            (claim-Sends w (key_of B input) s (approvals_ready B run approvals out)
              (λ s'. record { if_ready = settles_all approvals run.pending 0 out h }))
            refuses)
          (λ ri.
            option-cases (Sends B R) (find_payload B ri.interrupt_id input.resume)
              (refused (unanswered B ri.interrupt_id) s) _ refuses
              (λ v.
                claim-Sends w (key_of B input) s (input_ready B run v out)
                  (λ s'. record { if_ready = replays_all v run.pending 0 out h })))

    prepare-Sends :
        (w : World B) (input : RunAgentInput B) (s : Store B) (out : Out B)
        → R out
        → Sends B R (prepare B w input s out)
    unfolding prepare
    prepare-Sends w input s out h =
        elim input.resume as (λ es. Sends B R (prepare B w (record input { resume = es }) s out)) [
          | [] ↦ record { if_ready = h }
          | e ∷ es ↦
              option-cases (Sends B R) (load (key_of B input) w.load_time s).1 _ _ refuses
                (λ run. resume_run-Sends w (record input { resume = e ∷ es }) run _ out h)
        ]

    start_agent-Q :
        (w : World B) (input : RunAgentInput B) (session : Session (Any B)) (msg : Content (Any B))
        (p : Prepared B) (out : Out B)
        → Sends B R p
        → R out
        → Q (start_agent B cfg w input session msg out p).out
    unfolding start_agent drive
    start_agent-Q w input session msg (refused e s') out g h = k.errs _ _ _ _ h
    start_agent-Q w input session msg (ready r) out g h =
        let call = agent_call B input session msg r in
        let t = started B r.generated in
        end_run-Q w input call r.store _ r.out
          (run_loop-EndsWith (translator_config B cfg input) cfg.max_iterations (w.agent call) 0 t
            (k.starts r.generated))
          g.if_ready

    continue_run-Q :
        (w : World B) (input : RunAgentInput B) (session : Session (Any B)) (s : Store B)
        (out : Out B)
        → R out
        → Q (continue_run B cfg w input session s out).out
    unfolding continue_run
    continue_run-Q w input session s out h =
        option-cases (λ (o : Outcome B). Q o.out) _ _ _
          (start_agent-Q w input session _ (prepare B w input s out) out
            (prepare-Sends w input s out h) h)
          (λ e. k.errs _ _ _ _ h)

    -- A run whose session was found ends with what Q says.
    pub found_session-Q :
        (w : World B) (input : RunAgentInput B) (s : Store B)
        → w.starts ≡ true
        → (session : Session (Any B)) → Q (start_run B cfg w input s (inr session)).out
    unfolding start_run
    found_session-Q w input s h session =
        if-cases_of (λ (o : Outcome B). Q o.out) w.starts _ _
          (λ _. continue_run-Q w input session s _ (k.begins input session))
          (λ h'. absurd (ground arith))

    start_run-Q :
        ((message run : Bytes) → Q (run_error message run [] ∷ []))
        → (w : World B) (input : RunAgentInput B) (s : Store B) → w.starts ≡ true
        → (session : Bytes ⊎ Session (Any B)) → Q (start_run B cfg w input s session).out
    unfolding start_run
    start_run-Q lone w input s h (inl e) = lone _ _
    start_run-Q lone w input s h (inr session) = found_session-Q w input s h session

    -- And so does a run that can start, if Q allows for a lone error.
    pub run_internal-Q :
        ((message run : Bytes) → Q (run_error message run [] ∷ []))
        → (w : World B) (input : RunAgentInput B) (s : Store B) → w.starts ≡ true
        → Q (run_internal B cfg w input s).out
    unfolding run_internal
    run_internal-Q lone w input s h = start_run-Q lone w input s h _
