-- ===== src/Aguiadk/Translator/Protocol/Subagents.antt =====
-- The sub-agent lifecycle obeys the protocol.
use adk_go_pkg.Base.{
  ℕ, false, Bytes, is_empty, str_eq_refl, str_eq_iff, ◌≡◌, arith, Bool-cases, inl, inr,
}
use adk_go_pkg.Aguiadk.Translator.{
  Config, State, is_root_author, close_open_subagent, switch_subagent, announce_subagent,
  maybe_emit_subagent_lifecycle,
}
use adk_go_pkg.Aguiadk.Translator.Events.{Env}
use adk_go_pkg.Aguiadk.Translator.Protocol.{
  IsSound, check, heard, pondered, open_count, was_started, owned, strict,
}

-- The generated identifiers of sub-agent runs are not empty.
abbrev pub NamesRuns : Env → Type 0
NamesRuns env = (n : ℕ) → is_empty (env.gen_tool_call_id n) ≡ false

module _ (env : Env) (call : Bytes) where
  pub close_open_subagent-IsSound :
      {t : State env} → IsSound call t → IsSound call (close_open_subagent env t)
  unfolding close_open_subagent check heard pondered open_count was_started owned strict is_empty
  close_open_subagent-IsSound {t} s = ground (arith, str_eq_refl t.active_subagent_run)

  delegate-IsSound :
      (author : Bytes) {t : State env}
      → NamesRuns env
      → IsSound call t
      → is_empty author ≡ false
      → IsSound call (announce_subagent env author (switch_subagent env author t))
  unfolding announce_subagent switch_subagent check heard pondered open_count was_started owned
      strict is_empty
  delegate-IsSound author {t} named s h = ground (
    arith,
    named t.generated,
    str_eq_refl t.active_subagent_run,
    str_eq_iff author t.current_author,
    s.authored,
  )

  root_if_empty :
      (cfg : Config env) (author : Bytes)
      → is_root_author env cfg author ≡ false
      → is_empty author ≡ false
  unfolding is_root_author
  root_if_empty cfg author h = ground arith

  pub maybe_emit_subagent_lifecycle-IsSound :
      (cfg : Config env) (author : Bytes) {t : State env}
      → NamesRuns env
      → IsSound call t
      → IsSound call (maybe_emit_subagent_lifecycle env cfg author t)
  unfolding maybe_emit_subagent_lifecycle
  maybe_emit_subagent_lifecycle-IsSound cfg author {t} named s =
      elim (Bool-cases (is_root_author env cfg author)) [
        | inl r ↦ rw (r, maybe_emit_subagent_lifecycle) (close_open_subagent-IsSound s)
        | inr r ↦
            rw (r, maybe_emit_subagent_lifecycle)
              (delegate-IsSound author named s (root_if_empty cfg author r))
      ]
