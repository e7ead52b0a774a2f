-- ===== src/Agui/TokenUsage/Report.antt =====
-- AggregateTokenUsage against an independent description of its result.
use adk_go_pkg.Base.{
  ℕ, ◌%◌, ◌^◌, Bool, true, false, Option, none, some, List, [], ◌∷◌, ◌++◌, Bytes, str_eq_iff,
  str_eq_refl, ◌≡◌, refl, arith, ◌∙◌, ap, if◌then◌else◌, Bool-cases, inl, inr, map, All, append-nil,
  append_assoc,
}
use adk_go_pkg.Base.Map.{Map, lookup, lookup-nil}
use adk_go_pkg.Agui.TokenUsage.{
  TokenUsage, Agg, new_agg, usage_key, Groups, group_entry, group_entries, usage_of, usages,
  aggregate_token_usage,
}
use adk_go_pkg.Agui.TokenUsage.Keys.{HasNoNul, alike, split-usage_key, str_eq-usage_key}
use adk_go_pkg.Agui.TokenUsage.Sums.{
  count_of, has_entry, keyed, grow, agg_after, lookup-group_entry, lookup-group_entries, grow-none,
}

abbrev wrapped : Option ℕ → Option ℕ
wrapped none = none
wrapped (some n) = some (n % 2 ^ 64)

-- The provider and the model of an entry, with the sums of the entries of both.
abbrev pub summary : List TokenUsage → TokenUsage → TokenUsage
summary es e = record {
  provider = e.provider;
  model = e.model;
  input_tokens = wrapped (count_of (λ d. d.input_tokens) (λ d. alike d e) es);
  output_tokens = wrapped (count_of (λ d. d.output_tokens) (λ d. alike d e) es);
  total_tokens = wrapped (count_of (λ d. d.total_tokens) (λ d. alike d e) es);
  reasoning_tokens = wrapped (count_of (λ d. d.reasoning_tokens) (λ d. alike d e) es);
  cached_input_tokens = wrapped (count_of (λ d. d.cached_input_tokens) (λ d. alike d e) es);
}

-- The entries that are the first of their provider and model.
abbrev pub firsts : List TokenUsage → List TokenUsage → List TokenUsage
firsts seen [] = []
firsts seen (e ∷ es) =
    if has_entry (λ d. alike d e) seen then firsts seen es else e ∷ firsts (e ∷ seen) es

abbrev pub Splits : List TokenUsage → Type 0
Splits = All (λ e. HasNoNul e.provider)

abbrev is_some : Option Agg → Bool
is_some none = false
is_some (some _) = true

-- The keys of the groups are those of the entries seen.
abbrev Tracks : Groups → List TokenUsage → Type 0
Tracks g seen =
    (e : TokenUsage)
    → HasNoNul e.provider
    → is_some (lookup (usage_key e) g.aggs) ≡ has_entry (λ d. alike d e) seen

group_entry-Tracks-old :
    (d : TokenUsage) (g : Groups) (seen : List TokenUsage)
    → HasNoNul d.provider
    → has_entry (λ s. alike s d) seen ≡ true
    → Tracks g seen
    → Tracks (group_entry d g) seen
group_entry-Tracks-old d g seen h old t e h' = ground (
  arith,
  lookup-group_entry (usage_key e) d g,
  str_eq_iff (usage_key d) (usage_key e),
  t e h',
  t d h,
)

group_entry-Tracks-new :
    (d : TokenUsage) (g : Groups) (seen : List TokenUsage)
    → HasNoNul d.provider
    → Tracks g seen
    → Tracks (group_entry d g) (d ∷ seen)
group_entry-Tracks-new d g seen h t e h' = elim (Bool-cases (alike d e)) [
  | inl x ↦ rw (lookup-group_entry (usage_key e) d g, str_eq-usage_key d e h h', x) refl
  | inr x ↦ rw (lookup-group_entry (usage_key e) d g, str_eq-usage_key d e h h', x) (t e h')
]

order-group_entry :
    (d : TokenUsage) (g : Groups)
    → (group_entry d g).order
      ≡ (if is_some (lookup (usage_key d) g.aggs) then g.order else g.order ++ usage_key d ∷ [])
unfolding group_entry
order-group_entry d g = ground arith

order-group_entries :
    (es : List TokenUsage) (g : Groups) (seen : List TokenUsage)
    → Splits es
    → Tracks g seen
    → (group_entries es g).order ≡ g.order ++ map usage_key (firsts seen es)
unfolding group_entries
order-group_entries [] g seen h t = rw append-nil
order-group_entries (e ∷ es) g seen h t = elim (Bool-cases (has_entry (λ d. alike d e) seen)) [
  | inl x ↦
      order-group_entries es (group_entry e g) seen h.1 (group_entry-Tracks-old e g seen h.0 x t)
      ∙ rw (order-group_entry e g, t e h.0, x)
  | inr x ↦
      order-group_entries es (group_entry e g) (e ∷ seen) h.1
        (group_entry-Tracks-new e g seen h.0 t)
      ∙ rw (order-group_entry e g, t e h.0, x, append_assoc)
]

count_of-keyed :
    (f : TokenUsage → Option ℕ) (e : TokenUsage) (ds : List TokenUsage)
    → HasNoNul e.provider
    → Splits ds
    → count_of f (keyed (usage_key e)) ds ≡ count_of f (λ d. alike d e) ds
count_of-keyed f e [] h hs = refl
count_of-keyed f e (d ∷ ds) h hs =
    rw (str_eq-usage_key d e hs.0 h, count_of-keyed f e ds h hs.1) refl

-- The key of each of the entries `ds` has an entry in `es`.
abbrev Present : List TokenUsage → List TokenUsage → Type 0
Present es = All (λ d. has_entry (keyed (usage_key d)) es ≡ true)

Present-cons : (e : TokenUsage) (es ds : List TokenUsage) → Present es ds → Present (e ∷ es) ds
Present-cons e es [] h = tt
Present-cons e es (d ∷ ds) (h, hs) = (ground arith, Present-cons e es ds hs)

Present-self : (es : List TokenUsage) → Present es es
Present-self [] = tt
Present-self (e ∷ es) =
    (ground (arith, str_eq_refl (usage_key e)), Present-cons e es es (Present-self es))

usage_of_lem :
    (e : TokenUsage) (es : List TokenUsage)
    → HasNoNul e.provider
    → Splits es
    → usage_of (usage_key e) (agg_after (usage_key e) new_agg es) ≡ summary es e
unfolding usage_of
usage_of_lem e es h hs = ground (
  arith,
  split-usage_key e h,
  count_of-keyed (λ d. d.input_tokens) e es h hs,
  count_of-keyed (λ d. d.output_tokens) e es h hs,
  count_of-keyed (λ d. d.total_tokens) e es h hs,
  count_of-keyed (λ d. d.reasoning_tokens) e es h hs,
  count_of-keyed (λ d. d.cached_input_tokens) e es h hs,
)

module _ (all : List TokenUsage) (splits : Splits all) (m : Map Agg)
    (grown : (k : Bytes) → lookup k m ≡ grow k none all) where
  usages-cons :
      (d : TokenUsage) (ks : List Bytes)
      → HasNoNul d.provider
      → has_entry (keyed (usage_key d)) all ≡ true
      → usages (usage_key d ∷ ks) m ≡ summary all d ∷ usages ks m
  unfolding usages
  usages-cons d ks h p =
      let found : lookup (usage_key d) m ≡ some (agg_after (usage_key d) new_agg all) =
        grown (usage_key d) ∙ (grow-none (usage_key d) all ∙ rw p) in
      rw (found, usages) (ap (λ u. u ∷ usages ks m) (usage_of_lem d all h splits))

  usages_lem :
      (ds seen : List TokenUsage)
      → Splits ds
      → Present all ds
      → usages (map usage_key (firsts seen ds)) m ≡ map (summary all) (firsts seen ds)
  unfolding usages
  usages_lem [] seen h p = refl
  usages_lem (d ∷ ds) seen (h, hs) (p, ps) = elim (Bool-cases (has_entry (λ s. alike s d) seen)) [
    | inl x ↦ rw x (usages_lem ds seen hs ps)
    | inr x ↦ rw x (
        usages-cons d (map usage_key (firsts (d ∷ seen) ds)) h p
        ∙ ap (◌∷◌ (summary all d)) (usages_lem ds (d ∷ seen) hs ps))
  ]

-- AggregateTokenUsage returns one entry for each provider and model, in the order of their first
-- appearance. Each count is the sum of the counts that the entries of both carry, modulo 2 ^ 64,
-- and is absent if none of them carries it, if no provider's name holds a NUL byte.
pub aggregate_token_usage_lem :
    (es : List TokenUsage) → Splits es → aggregate_token_usage es ≡ map (summary es) (firsts [] es)
unfolding aggregate_token_usage
aggregate_token_usage_lem es h =
    let start : Groups = record { order = []; aggs = [] } in
    let g = group_entries es start in
    rw
      (order-group_entries es start [] h
        (λ e h'. ground (arith, lookup-nil {V = Agg} (usage_key e))))
      (usages_lem es h g.aggs (λ k. lookup-group_entries k es start ∙ rw (lookup-nil {V = Agg} k))
        es [] h (Present-self es))
