-- ===== src/Aguiadk/Translator/Protocol/Echo.antt =====
-- What a client that joins the contents of a message reads.
use adk_go_pkg.Base.{
  Bool, [], ◌++◌, Bytes, has_prefix, append-after_prefix, if◌then◌else◌, ◌≡◌, arith,
}
use adk_go_pkg.Aguiadk.Translator.{
  Config, State, close_open_reasoning, open_message, emit_text, delta_of, end_message,
  open_reasoning, continue_thought, emit_thought,
}
use adk_go_pkg.Aguiadk.Translator.Events.{Env}
use adk_go_pkg.Aguiadk.Translator.Protocol.{IsSound, heard, pondered}
use adk_go_pkg.Aguiadk.Translator.Protocol.Text.{append-empty}

-- The text behind an accumulated text, over the text before it.
abbrev pub extended : Bytes → Bytes → Bytes
extended text prev = if has_prefix text prev then text else prev ++ text

module _ (env : Env) where
  append-delta_of : (text prev : Bytes) → prev ++ delta_of env text prev ≡ extended text prev
  unfolding delta_of
  append-delta_of text prev = ground (arith, append-after_prefix text prev)

  -- What a message says so far: nothing if none is open.
  abbrev pub said : State env → Bytes
  said t = if t.msg_open then t.prev_text else []

  abbrev pub thought_of : State env → Bytes
  thought_of t = if t.reasoning_open then t.prev_thought_text else []

  heard-open_message :
      (cfg : Config env) (author : Bytes) {t : State env} {call : Bytes}
      → IsSound call t
      → (heard (open_message env cfg author (close_open_reasoning env t)).out ≡ said t)
        × ((open_message env cfg author (close_open_reasoning env t)).prev_text ≡ said t)
  unfolding open_message close_open_reasoning heard
  heard-open_message cfg author {t} s = ground (arith, s.echoed)

  -- A text of an event extends the message that is open, or a new one: a client reads the text
  -- itself where it continues what the message said, and else the text behind what it said.
  pub heard-emit_text :
      (cfg : Config env) (text : Bytes) (partial : Bool) (author : Bytes) {t : State env}
      {call : Bytes}
      → IsSound call t
      → heard (emit_text env cfg text partial author t).out ≡ extended text (said t)
  unfolding emit_text heard
  heard-emit_text cfg text partial author {t} s =
      let t1 = open_message env cfg author (close_open_reasoning env t) in
      let delta = delta_of env text t1.prev_text in
      let (h, p) = heard-open_message cfg author s in
      ground (arith, append-empty (said t) delta, append-delta_of text (said t))

  -- The same of a thought and the reasoning block.
  pub pondered-emit_thought :
      (text signature : Bytes) (partial : Bool) {t : State env} {call : Bytes}
      → IsSound call t
      → pondered (emit_thought env text signature partial t).out ≡ extended text (thought_of t)
  unfolding emit_thought continue_thought open_reasoning end_message close_open_reasoning pondered
  pondered-emit_thought text signature partial {t} s = ground (
    arith,
    s.mused,
    append-empty (thought_of t) (delta_of env text (thought_of t)),
    append-delta_of text (thought_of t),
  )
