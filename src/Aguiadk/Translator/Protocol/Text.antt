-- ===== src/Aguiadk/Translator/Protocol/Text.antt =====
-- Messages and reasoning blocks obey the protocol.
use adk_go_pkg.Base.{
  Bool, true, false, [], ◌∷◌, Bytes, is_empty, str_eq_refl, if◌then◌else◌, ◌≡◌, ◌++◌, append-nil,
  arith,
}
use adk_go_pkg.Aguiadk.Translator.{
  Config, State, emit, end_message, close_open_reasoning, close_open_message, open_message,
  emit_content, emit_text, open_reasoning, continue_thought, emit_thought, delta_of, start_step,
  close_open_step,
}
use adk_go_pkg.Aguiadk.Translator.Events.{Env, text_end}
use adk_go_pkg.Aguiadk.Translator.Protocol.{
  IsSound, check, heard, pondered, open_count, was_started, owned, strict,
}

pub append-empty : (s delta : Bytes) → is_empty delta ≡ true → s ++ delta ≡ s
unfolding is_empty
append-empty s [] h = append-nil s
append-empty s (c ∷ delta) h = cc

module _ (env : Env) (call : Bytes) where
  pub end_message-IsSound : {t : State env} → IsSound call t → IsSound call (end_message env t)
  unfolding end_message check heard pondered open_count was_started owned strict
  end_message-IsSound {t} s = ground (arith, str_eq_refl t.current_msg_id)

  pub close_open_reasoning-IsSound :
      {t : State env} → IsSound call t → IsSound call (close_open_reasoning env t)
  unfolding close_open_reasoning check heard pondered open_count was_started owned strict
  close_open_reasoning-IsSound {t} s = ground (arith, str_eq_refl t.current_reasoning_id)

  pub close_open_message-IsSound :
      {t : State env} → IsSound call t → IsSound call (close_open_message env t)
  unfolding close_open_message
  close_open_message-IsSound s = close_open_reasoning-IsSound (end_message-IsSound s)

  pub start_step-IsSound :
      (name : Bytes) {t : State env}
      → IsSound call t
      → t.step_open ≡ false
      → IsSound call (start_step env name t)
  unfolding start_step check heard pondered open_count was_started owned strict
  start_step-IsSound name s h = ground arith

  pub close_open_step-IsSound :
      {t : State env} → IsSound call t → IsSound call (close_open_step env t)
  unfolding close_open_step check heard pondered open_count was_started owned strict
  close_open_step-IsSound {t} s = ground (arith, str_eq_refl t.step_name)

  closed_reasoning : (t : State env) → (close_open_reasoning env t).reasoning_open ≡ false
  unfolding close_open_reasoning
  closed_reasoning t = ground arith

  pub closed_step : (t : State env) → (close_open_step env t).step_open ≡ false
  unfolding close_open_step
  closed_step t = ground arith

  closed_message : (t : State env) → (end_message env t).msg_open ≡ false
  unfolding end_message
  closed_message t = ground arith

  open_message-IsSound :
      (cfg : Config env) (author : Bytes) {t : State env}
      → IsSound call t
      → t.reasoning_open ≡ false
      → IsSound call (open_message env cfg author t)
  unfolding open_message check heard pondered open_count was_started owned strict
  open_message-IsSound cfg author s h = ground arith

  opened_message :
      (cfg : Config env) (author : Bytes) (t : State env)
      → (open_message env cfg author t).msg_open ≡ true
  unfolding open_message
  opened_message cfg author t = ground arith

  -- The part of emitText behind the opening of a message.
  say-IsSound :
      (partial : Bool) (delta : Bytes) {t : State env}
      → IsSound call t
      → t.msg_open ≡ true
      → IsSound call (
          let t2 = emit_content env delta t in
          if partial
          then record t2 { prev_text = t2.prev_text ++ delta }
          else (let t3 = emit env (text_end t2.current_msg_id) t2 in
              record t3 { msg_open = false; prev_text = [] }))
  unfolding check heard pondered open_count was_started owned strict
  say-IsSound partial delta {t} s h =
      ground (arith, str_eq_refl t.current_msg_id, append-empty t.prev_text delta, s.echoed h)

  pub emit_text-IsSound :
      (cfg : Config env) (text : Bytes) (partial : Bool) (author : Bytes) {t : State env}
      → IsSound call t
      → IsSound call (emit_text env cfg text partial author t)
  unfolding emit_text
  emit_text-IsSound cfg text partial author {t} s =
      let t1 = open_message env cfg author (close_open_reasoning env t) in
      say-IsSound partial (delta_of env text t1.prev_text) {t = t1}
        (open_message-IsSound cfg author (close_open_reasoning-IsSound s) (closed_reasoning t))
        (opened_message cfg author (close_open_reasoning env t))

  open_reasoning-IsSound :
      {t : State env} → IsSound call t → t.msg_open ≡ false → IsSound call (open_reasoning env t)
  unfolding open_reasoning check heard pondered open_count was_started owned strict
  open_reasoning-IsSound {t} s h = ground (arith, str_eq_refl (env.gen_message_id t.generated))

  opened_reasoning : (t : State env) → (open_reasoning env t).reasoning_open ≡ true
  unfolding open_reasoning
  opened_reasoning t = ground arith

  continue_thought-IsSound :
      (text signature : Bytes) {t : State env}
      → IsSound call t
      → t.reasoning_open ≡ true
      → IsSound call (continue_thought env text signature t)
  unfolding continue_thought check heard pondered open_count was_started owned strict
  continue_thought-IsSound text signature {t} s h = ground (
    arith,
    str_eq_refl t.current_reasoning_id,
    append-empty t.prev_thought_text (delta_of env text t.prev_thought_text),
    s.mused h,
  )

  pub emit_thought-IsSound :
      (text signature : Bytes) (partial : Bool) {t : State env}
      → IsSound call t
      → IsSound call (emit_thought env text signature partial t)
  unfolding emit_thought
  emit_thought-IsSound text signature partial {t} s =
      let thought =
        continue_thought-IsSound text signature
          (open_reasoning-IsSound (end_message-IsSound s) (closed_message t))
          (opened_reasoning (end_message env t)) in
      ground (arith, thought, close_open_reasoning-IsSound thought)
