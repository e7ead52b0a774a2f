-- ===== src/Aguiadk/Translator/Protocol/Closing.antt =====
-- A run that has ended leaves nothing open.
use adk_go_pkg.Base.{
  Bool, true, false, ◌||◌, some, List, [], ◌∷◌, Bytes, is_empty, if◌then◌else◌, ◌≡◌, refl, ◌∙◌, ap,
  sym, arith,
}
use adk_go_pkg.Base.Map.{Map, has_key, has_key-delete}
use adk_go_pkg.Aguiadk.Translator.{
  Config, State, new_state, close_open_step, close_open_message, close_open_reasoning, end_message,
  close_open_subagent,
}
use adk_go_pkg.Aguiadk.Translator.Events.{Env, AdkEvent}
use adk_go_pkg.Aguiadk.Translator.Calls.{flag, close_tools, close_streamed_tool_calls}
use adk_go_pkg.Aguiadk.Translator.Run.{translate_all, close_all}
use adk_go_pkg.Aguiadk.Translator.Protocol.{idle, IsSound, check, view, open_count, owned, strict}
use adk_go_pkg.Aguiadk.Translator.Protocol.Text.{
  close_open_message-IsSound, close_open_step-IsSound,
}
use adk_go_pkg.Aguiadk.Translator.Protocol.Subagents.{NamesRuns, close_open_subagent-IsSound}
use adk_go_pkg.Aguiadk.Translator.Protocol.Tools.{close_streamed_tool_calls-IsSound}
use adk_go_pkg.Aguiadk.Translator.Protocol.Runs.{translate_all-IsSound}

module _ (env : Env) (call : Bytes) where
  close_all-IsSound : {t : State env} → IsSound call t → IsSound call (close_all env t)
  unfolding close_all
  close_all-IsSound s = close_open_subagent-IsSound env call (
      close_open_step-IsSound env call
        (close_streamed_tool_calls-IsSound env call (close_open_message-IsSound env call s)))

  -- Whether a message or a reasoning block is open, which closing tool calls does not change.
  abbrev speaks : State env → Bool × Bool
  speaks t = (t.msg_open, t.reasoning_open)

  speaks-close_open_message : (t : State env) → speaks (close_open_message env t) ≡ (false, false)
  unfolding close_open_message close_open_reasoning end_message
  speaks-close_open_message t = ground arith

  speaks-close_tools : (m : Map Bool) (t : State env) → speaks (close_tools env m t) ≡ speaks t
  unfolding close_tools
  speaks-close_tools [] t = refl
  speaks-close_tools ((id, b) ∷ m) t = speaks-close_tools m _

  speaks-close_streamed_tool_calls :
      (t : State env) → speaks (close_streamed_tool_calls env t) ≡ speaks t
  unfolding close_streamed_tool_calls
  speaks-close_streamed_tool_calls t = speaks-close_tools t.open_tools t

  view-closed :
      (t : State env)
      → speaks t ≡ (false, false)
      → view (close_open_subagent env (close_open_step env t)) ≡ idle
  unfolding close_open_subagent close_open_step is_empty
  view-closed t h = ground arith

  view-close_all : (t : State env) → view (close_all env t) ≡ idle
  unfolding close_all
  view-close_all t =
      let m = close_open_message env t in
      view-closed (close_streamed_tool_calls env m)
        (speaks-close_streamed_tool_calls m ∙ speaks-close_open_message t)

  open_tools-close_tools :
      (m : Map Bool) (t : State env)
      → has_key call (close_tools env m t).open_tools
        ≡ (if has_key call m then false else has_key call t.open_tools)
  unfolding close_tools has_key
  open_tools-close_tools [] t = refl
  open_tools-close_tools ((id, b) ∷ m) t =
      open_tools-close_tools m _ ∙ ground (arith, has_key-delete id call t.open_tools)

  open_tools-close_streamed_tool_calls :
      (t : State env) → has_key call (close_streamed_tool_calls env t).open_tools ≡ false
  unfolding close_streamed_tool_calls
  open_tools-close_streamed_tool_calls t = open_tools-close_tools t.open_tools t ∙ ground arith

  open_tools-close_rest :
      (t : State env) → (close_open_subagent env (close_open_step env t)).open_tools ≡ t.open_tools
  unfolding close_open_subagent close_open_step
  open_tools-close_rest t = ground arith

  nothing_open-close_all : (t : State env) → has_key call (close_all env t).open_tools ≡ false
  unfolding close_all
  nothing_open-close_all t =
      let m = close_open_message env t in
      ground (
        arith,
        open_tools-close_rest (close_streamed_tool_calls env m),
        open_tools-close_streamed_tool_calls m,
      )

  -- No call is open at the end, and each ARGS and END came after a START.
  pub nothing_open :
      {t : State env}
      → IsSound call t
      → (open_count call (close_all env t).out ≡ 0) × (owned call (close_all env t).out ≡ true)
  nothing_open {t} s =
      let s' = close_all-IsSound s in
      (ground (arith, s'.tracked, nothing_open-close_all t), s'.owns)

  started_tools-close_tools :
      (m : Map Bool) (t : State env) → (close_tools env m t).started_tools ≡ t.started_tools
  unfolding close_tools
  started_tools-close_tools [] t = refl
  started_tools-close_tools ((id, b) ∷ m) t = started_tools-close_tools m _

  started_tools-close_all : (t : State env) → (close_all env t).started_tools ≡ t.started_tools
  unfolding close_all close_streamed_tool_calls close_open_subagent close_open_step
      close_open_message close_open_reasoning end_message
  started_tools-close_all t = ground (
    arith,
    started_tools-close_tools (close_open_message env t).open_tools (close_open_message env t),
  )

  -- A call that was not streamed got its arguments and ends while it was open.
  pub strict-close_all :
      {t : State env}
      → IsSound call t
      → flag call t.started_tools ≡ false
      → strict call (close_all env t).out ≡ true
  strict-close_all {t} s h =
      (close_all-IsSound s).in_order (ap (flag call) (started_tools-close_all t) ∙ h)

  pub check-close_all : {t : State env} → IsSound call t → check (close_all env t).out ≡ some idle
  check-close_all {t} s = rw (sym (view-close_all t)) (close_all-IsSound s).obeys

-- After a run, whatever events the agent yielded in it, the AG-UI events sent obey the protocol of
-- messages, reasoning blocks, steps and sub-agents and leave none of these open, if the generated
-- identifiers are not empty. For each tool call, as many STARTs as ENDs count, where an END that
-- no START is left for counts nothing; each ARGS and END comes after a START; and where the call
-- was not streamed, each of them comes while the call is open.
pub run_balanced :
    (env : Env) (cfg : Config env) (evs : List (AdkEvent env))
    → NamesRuns env
    → let t = translate_all env cfg evs (new_state env) in
      (check (close_all env t).out ≡ some idle)
      × ((call : Bytes)
          → (open_count call (close_all env t).out ≡ 0)
            × (owned call (close_all env t).out ≡ true)
            × ((flag call t.started_tools || strict call (close_all env t).out) ≡ true))
run_balanced env cfg evs named = (
  check-close_all env [] (translate_all-IsSound env [] cfg evs named),
  λ call.
      let s = translate_all-IsSound env call cfg evs named in
      let (n, o) = nothing_open env call s in (n, o, ground (arith, strict-close_all env call s)),
)
