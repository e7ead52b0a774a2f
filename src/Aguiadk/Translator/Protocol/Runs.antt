-- ===== src/Aguiadk/Translator/Protocol/Runs.antt =====
-- Whole runs obey the protocol.
use adk_go_pkg.Base.{
  ℕ, Bool, false, not, ◌&&◌, none, List, [], ◌∷◌, Bytes, bytes, is_empty, if◌then◌else◌, ◌≡◌, refl,
  ◌∙◌, arith, if-cases, if-cases_of, str_eq_refl,
}
use adk_go_pkg.Base.Map.{Map, has_key, lookup}
use adk_go_pkg.Aguiadk.Translator.{
  Config, State, new_state, emit_base, start_step, close_open_step, close_open_message,
  close_open_reasoning, end_message,
}
use adk_go_pkg.Aguiadk.Translator.Events.{Env, AdkEvent, subagent_error}
use adk_go_pkg.Aguiadk.Translator.Calls.{close_tools, close_streamed_tool_calls}
use adk_go_pkg.Aguiadk.Translator.Run.{
  record_usage, emit_state_delta, manage_steps, has_call, has_response, parts_of, error_text,
  subagent_fails, fail_subagent, report_error, emit_content_of, begin_event, translate,
  translate_all,
}
use adk_go_pkg.Aguiadk.Translator.Protocol.{
  IsSound, check, heard, pondered, open_count, was_started, owned, strict,
}
use adk_go_pkg.Aguiadk.Translator.Protocol.Text.{
  close_open_message-IsSound, start_step-IsSound, close_open_step-IsSound, closed_step,
}
use adk_go_pkg.Aguiadk.Translator.Protocol.Subagents.{
  NamesRuns, maybe_emit_subagent_lifecycle-IsSound,
}
use adk_go_pkg.Aguiadk.Translator.Protocol.Tools.{close_streamed_tool_calls-IsSound}
use adk_go_pkg.Aguiadk.Translator.Protocol.Parts.{emit_content_of-IsSound}

module _ (env : Env) (call : Bytes) where
  -- Also where identifiers were generated before.
  pub started-IsSound : (n : ℕ) → IsSound call (record (new_state env) { generated = n })
  unfolding check heard pondered open_count was_started owned strict is_empty has_key lookup
  started-IsSound n = record {
    obeys = refl;
    announced = refl;
    authored = λ _. refl;
    echoed = λ h. cc;
    mused = λ h. cc;
    tracked = refl;
    streamed = λ h. absurd (ground (arith, h));
    known = λ h. absurd (ground (arith, h));
    owns = refl;
    in_order = λ _. refl;
  }

  record_usage-IsSound :
      (ev : AdkEvent env) {t : State env} → IsSound call t → IsSound call (record_usage env ev t)
  unfolding record_usage check heard pondered open_count was_started owned strict
  record_usage-IsSound ev {t} s = ground arith

  emit_state_delta-IsSound :
      (delta : Map env.Value) {t : State env}
      → IsSound call t
      → IsSound call (emit_state_delta env delta t)
  unfolding emit_state_delta check heard pondered open_count was_started owned strict
  emit_state_delta-IsSound [] s = s
  emit_state_delta-IsSound (e ∷ m) {t} s = ground arith

  next_step-IsSound :
      (name : Bytes) {t : State env}
      → IsSound call t
      → IsSound call (start_step env name (close_open_step env t))
  next_step-IsSound name {t} s =
      start_step-IsSound env call name (close_open_step-IsSound env call s) (closed_step env call t)

  first_step-IsSound :
      (name : Bytes) (partial : Bool) {t : State env}
      → IsSound call t
      → IsSound call (if not t.step_open && not partial then start_step env name t else t)
  first_step-IsSound name partial {t} s =
      if-cases_of (IsSound call) (not t.step_open && not partial) (start_step env name t) t
        (λ h. start_step-IsSound env call name s (ground arith)) (λ h. s)

  manage_steps-IsSound :
      (cfg : Config env) (ev : AdkEvent env) {t : State env}
      → IsSound call t
      → IsSound call (manage_steps env cfg ev t)
  unfolding manage_steps
  manage_steps-IsSound cfg ev {t} s =
      let tools = start_step env (bytes "tools") (close_open_step env t) in
      let first = if not t.step_open && not ev.partial then start_step env (bytes "llm") t else t in
      let next = if has_call env (parts_of env ev) && not ev.partial then tools else first in
      let llm = start_step env (bytes "llm") (close_open_step env t) in
      let responses = has_response env (parts_of env ev) in
      if-cases (IsSound call) cfg.emit_steps (if responses then llm else next) t
        (if-cases (IsSound call) responses llm next (next_step-IsSound (bytes "llm") s) (
          if-cases (IsSound call) _ tools first (next_step-IsSound (bytes "tools") s)
            (first_step-IsSound (bytes "llm") ev.partial s)))
        s

  run-close_tools :
      (m : Map Bool) (t : State env)
      → (close_tools env m t).active_subagent_run ≡ t.active_subagent_run
  unfolding close_tools
  run-close_tools [] t = refl
  run-close_tools ((id, b) ∷ m) t = run-close_tools m _

  run-close_open_step :
      (t : State env) → (close_open_step env t).active_subagent_run ≡ t.active_subagent_run
  unfolding close_open_step
  run-close_open_step t = ground arith

  run-close_open_message :
      (t : State env) → (close_open_message env t).active_subagent_run ≡ t.active_subagent_run
  unfolding close_open_message end_message close_open_reasoning
  run-close_open_message t = ground arith

  -- The closings that fail_subagent begins with keep the sub-agent's run.
  abbrev close_streams : State env → State env
  close_streams t = close_open_step env (close_streamed_tool_calls env (close_open_message env t))

  run-close_streams :
      (t : State env) → (close_streams t).active_subagent_run ≡ t.active_subagent_run
  unfolding close_streamed_tool_calls
  run-close_streams t =
      let m = close_open_message env t in
      run-close_open_step (close_streamed_tool_calls env m)
      ∙ run-close_tools m.open_tools m
      ∙ run-close_open_message t

  drop_subagent-IsSound :
      (text code : Bytes) {t : State env}
      → is_empty t.active_subagent_run ≡ false
      → IsSound call t
      → IsSound call (
          let t2 = emit_base env (subagent_error t.active_subagent_run text code) t in
          record t2 {
            active_subagent_run = [];
            current_author = [];
            subagent_emitted = false;
            active_emitter = none;
          })
  unfolding check heard pondered open_count was_started owned strict is_empty
  drop_subagent-IsSound text code {t} h s = ground (arith, str_eq_refl t.active_subagent_run)

  fail_subagent-IsSound :
      (ev : AdkEvent env) {t : State env}
      → is_empty t.active_subagent_run ≡ false
      → IsSound call t
      → IsSound call (fail_subagent env ev t)
  unfolding fail_subagent
  fail_subagent-IsSound ev {t} h s =
      drop_subagent-IsSound (error_text env ev) ev.error_code (rw (run-close_streams t) h) (
        close_open_step-IsSound env call
          (close_streamed_tool_calls-IsSound env call (close_open_message-IsSound env call s)))

  report_error-IsSound :
      (ev : AdkEvent env) {t : State env} → IsSound call t → IsSound call (report_error env ev t)
  unfolding report_error check heard pondered open_count was_started owned strict
  report_error-IsSound ev {t} s = ground arith

  begin_event-IsSound :
      (cfg : Config env) (ev : AdkEvent env) {t : State env}
      → NamesRuns env
      → IsSound call t
      → IsSound call (begin_event env cfg ev t)
  unfolding begin_event
  begin_event-IsSound cfg ev named s = manage_steps-IsSound cfg ev (
      emit_state_delta-IsSound ev.state_delta (
        maybe_emit_subagent_lifecycle-IsSound env call cfg ev.author named
          (record_usage-IsSound ev s)))

  pub translate-IsSound :
      (cfg : Config env) (ev : AdkEvent env) {t : State env}
      → NamesRuns env
      → IsSound call t
      → IsSound call (translate env cfg ev t)
  unfolding translate
  translate-IsSound cfg ev {t} named s =
      let t' = begin_event env cfg ev t in
      let s' = begin_event-IsSound cfg ev named s in
      if-cases_of (IsSound call) (subagent_fails env cfg ev t') (fail_subagent env ev t')
        (emit_content_of env cfg ev (parts_of env ev) (report_error env ev t'))
        (λ h. fail_subagent-IsSound ev (ground arith) s')
        (λ h.
          emit_content_of-IsSound env call cfg ev (parts_of env ev) (report_error-IsSound ev s'))

  translate_all_from-IsSound :
      (cfg : Config env) (evs : List (AdkEvent env)) {t : State env}
      → NamesRuns env
      → IsSound call t
      → IsSound call (translate_all env cfg evs t)
  unfolding translate_all
  translate_all_from-IsSound cfg [] named s = s
  translate_all_from-IsSound cfg (ev ∷ evs) named s =
      translate_all_from-IsSound cfg evs named (translate-IsSound cfg ev named s)

  -- Whatever events the agent yields, the AG-UI events sent so far obey the protocol of messages,
  -- reasoning blocks, steps and sub-agents, and what they leave open is what the translator's
  -- flags and identifiers say is open, if the generated identifiers are not empty. A tool call is
  -- open, once, if it is among those that closeStreamedToolCalls will end, and not otherwise; each
  -- ARGS and END of a call comes after its START, and while it is open unless the call was
  -- streamed. The text that the next delta of a message or a reasoning block is taken over is the
  -- text sent.
  pub translate_all-IsSound :
      (cfg : Config env) (evs : List (AdkEvent env))
      → NamesRuns env
      → IsSound call (translate_all env cfg evs (new_state env))
  translate_all-IsSound cfg evs named = translate_all_from-IsSound cfg evs named (started-IsSound 0)
