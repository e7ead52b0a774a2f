-- ===== src/Agui/TokenUsage/Keys.antt =====
-- The key of an entry splits into its provider and its model.
use adk_go_pkg.Base.{
  Bool, [], ◌∷◌, ◌++◌, Bytes, str_eq, str_eq_iff, ◌&&◌, ◌≡◌, ◌≢◌, refl, arith, All,
}
use adk_go_pkg.Agui.TokenUsage.{TokenUsage, usage_key, split_usage_key}

-- No byte is NUL.
abbrev pub HasNoNul : Bytes → Type 0
HasNoNul = All (λ c. c ≢ 0)

split_join :
    (provider model : Bytes)
    → HasNoNul provider
    → split_usage_key (provider ++ 0 ∷ model) ≡ (provider, model)
unfolding split_usage_key
split_join [] model h = refl
split_join (c ∷ provider) model h = ground (arith, split_join provider model h.1)

-- splitUsageKey undoes the joining of provider and model, if the provider holds no NUL.
pub split-usage_key :
    (e : TokenUsage) → HasNoNul e.provider → split_usage_key (usage_key e) ≡ (e.provider, e.model)
unfolding usage_key
split-usage_key e h = split_join e.provider e.model h

-- Two entries of one provider and one model.
abbrev pub alike : TokenUsage → TokenUsage → Bool
alike e d = str_eq e.provider d.provider && str_eq e.model d.model

pub str_eq-usage_key :
    (e d : TokenUsage)
    → HasNoNul e.provider
    → HasNoNul d.provider
    → str_eq (usage_key e) (usage_key d) ≡ alike e d
unfolding usage_key
str_eq-usage_key e d h h' = ground (
  arith,
  str_eq_iff (e.provider ++ 0 ∷ e.model) (d.provider ++ 0 ∷ d.model),
  split_join e.provider e.model h,
  split_join d.provider d.model h',
  str_eq_iff e.provider d.provider,
  str_eq_iff e.model d.model,
)
