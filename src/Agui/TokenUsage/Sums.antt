-- ===== src/Agui/TokenUsage/Sums.antt =====
-- What the entries of one key add up to.
use adk_go_pkg.Base.{
  ℕ, ◌+◌, ◌%◌, ◌^◌, Bool, true, false, ◌||◌, Option, none, some, List, [], ◌∷◌, Bytes, str_eq,
  str_eq_iff, ◌≡◌, refl, arith, ◌∙◌, if◌then◌else◌, Bool-cases, Option-cases, inl, inr,
}
use adk_go_pkg.Base.Map.{lookup, lookup-insert}
use adk_go_pkg.Agui.TokenUsage.{
  TokenUsage, Sum, Agg, new_agg, add_count, add_entry, usage_key, Groups, group_entry,
  group_entries,
}

abbrev pub plus : Option ℕ → Option ℕ → Option ℕ
plus none c = c
plus (some n) none = some n
plus (some n) (some m) = some (n + m)

-- The sum of a count over the entries that pass a test, if one of them has it.
abbrev pub count_of : (TokenUsage → Option ℕ) → (TokenUsage → Bool) → List TokenUsage → Option ℕ
count_of f test [] = none
count_of f test (d ∷ ds) = if test d then plus (f d) (count_of f test ds) else count_of f test ds

abbrev pub has_entry : (TokenUsage → Bool) → List TokenUsage → Bool
has_entry test [] = false
has_entry test (d ∷ ds) = test d || has_entry test ds

abbrev or_new : Option Agg → Agg
or_new none = new_agg
or_new (some a) = a

module _ (k : Bytes) where
  abbrev pub keyed : TokenUsage → Bool
  keyed d = str_eq (usage_key d) k

  -- A sum after some entries.
  abbrev pub after : Sum → Option ℕ → Sum
  after s none = s
  after s (some n) = record { total = (s.total + n) % 2 ^ 64; seen = true }

  abbrev pub grow : Option Agg → List TokenUsage → Option Agg
  grow a [] = a
  grow a (d ∷ ds) = grow (if keyed d then some (add_entry d (or_new a)) else a) ds

  pub lookup-group_entry :
      (d : TokenUsage) (g : Groups)
      → lookup k (group_entry d g).aggs
        ≡ (if keyed d then some (add_entry d (or_new (lookup k g.aggs))) else lookup k g.aggs)
  unfolding group_entry
  lookup-group_entry d g = elim (Option-cases (lookup (usage_key d) g.aggs)) [
    | inl n ↦ ground (
      arith,
      lookup-insert (usage_key d) k (add_entry d new_agg) g.aggs,
      str_eq_iff (usage_key d) k,
    )
    | inr (a, n) ↦
        ground
          (arith, lookup-insert (usage_key d) k (add_entry d a) g.aggs, str_eq_iff (usage_key d) k)
  ]

  pub lookup-group_entries :
      (ds : List TokenUsage) (g : Groups)
      → lookup k (group_entries ds g).aggs ≡ grow (lookup k g.aggs) ds
  unfolding group_entries
  lookup-group_entries [] g = refl
  lookup-group_entries (d ∷ ds) g =
      lookup-group_entries ds (group_entry d g) ∙ rw (lookup-group_entry d g)

  abbrev pub agg_after : Agg → List TokenUsage → Agg
  agg_after a ds = record {
    input = after a.input (count_of (λ d. d.input_tokens) keyed ds);
    output = after a.output (count_of (λ d. d.output_tokens) keyed ds);
    total = after a.total (count_of (λ d. d.total_tokens) keyed ds);
    reasoning = after a.reasoning (count_of (λ d. d.reasoning_tokens) keyed ds);
    cached = after a.cached (count_of (λ d. d.cached_input_tokens) keyed ds);
  }

  after-add_count :
      (n : Option ℕ) (s : Sum) (c : Option ℕ) → after (add_count n s) c ≡ after s (plus n c)
  unfolding add_count
  after-add_count none s c = refl
  after-add_count (some n) s none = refl
  after-add_count (some n) s (some m) = ground arith

  grow-some : (a : Agg) (ds : List TokenUsage) → grow (some a) ds ≡ some (agg_after a ds)
  unfolding add_entry
  grow-some a [] = refl
  grow-some a (d ∷ ds) = elim (Bool-cases (keyed d)) [
    | inl h ↦ simp (h, grow-some (add_entry d a) ds, after-add_count)
    | inr h ↦ rw (h, grow-some a ds)
  ]

  pub grow-none :
      (ds : List TokenUsage)
      → grow none ds ≡ (if has_entry keyed ds then some (agg_after new_agg ds) else none)
  unfolding add_entry
  grow-none [] = refl
  grow-none (d ∷ ds) = elim (Bool-cases (keyed d)) [
    | inl h ↦ simp (h, grow-some (add_entry d new_agg) ds, after-add_count)
    | inr h ↦ rw (h, grow-none ds)
  ]
