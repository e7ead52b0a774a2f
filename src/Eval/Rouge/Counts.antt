-- ===== src/Eval/Rouge/Counts.antt =====
-- What countNgrams counts, and how large an overlap can be.
use adk_go_pkg.Base.{
  ℕ, suc, ◌+◌, ◌≤◌, true, false, Option, none, some, List, [], ◌∷◌, str_eq, str_eq_iff, str_eq_refl,
  length, ◌==◌, if◌then◌else◌, ◌≡◌, refl, ◌∙◌, arith, Option-cases, inl, inr, All,
}
use adk_go_pkg.Base.Map.{
  Map, lookup, insert, has_key, unique, lookup-insert, lookup-nil, unique-insert,
}
use adk_go_pkg.Eval.Rouge.{Word, grams, join, add_gram, count_all, count_ngrams, overlap}

-- How often a word occurs.
abbrev pub occurrences : Word → List Word → ℕ
occurrences g [] = 0
occurrences g (w ∷ ws) = if str_eq w g then suc (occurrences g ws) else occurrences g ws

abbrev raised : Option ℕ → ℕ → Option ℕ
raised none n = if n == 0 then none else some n
raised (some c) n = some (c + n)

lookup-add_gram :
    (g w : Word) (m : Map ℕ)
    → lookup g (add_gram w m) ≡ (if str_eq w g then raised (lookup g m) 1 else lookup g m)
unfolding add_gram
lookup-add_gram g w m = elim (Option-cases (lookup w m)) [
  | inl n ↦ ground (arith, lookup-insert w g 1 m, str_eq_iff w g)
  | inr (c, n) ↦ ground (arith, lookup-insert w g (c + 1) m, str_eq_iff w g)
]

lookup-count_all :
    (g : Word) (ws : List Word) (m : Map ℕ)
    → lookup g (count_all ws m) ≡ raised (lookup g m) (occurrences g ws)
unfolding count_all
lookup-count_all g [] m = ground arith
lookup-count_all g (w ∷ ws) m =
    ground (arith, lookup-count_all g ws (add_gram w m), lookup-add_gram g w m)

grams_one : (ws : List Word) → grams 1 ws ≡ ws
unfolding grams join
grams_one [] = refl
grams_one (w ∷ ws) = ground (arith, grams_one ws)

-- countNgrams of single words counts the occurrences of each, and holds no other word.
pub lookup-count_ngrams :
    (g : Word) (ws : List Word)
    → lookup g (count_ngrams 1 ws)
      ≡ (if occurrences g ws == 0 then none else some (occurrences g ws))
unfolding count_ngrams
lookup-count_ngrams g ws =
    ground (arith, grams_one ws, lookup-count_all g ws [], lookup-nil {V = ℕ} g)

abbrev total : Map ℕ → ℕ
total [] = 0
total ((_, n) ∷ m) = n + total m

abbrev or_zero : Option ℕ → ℕ
or_zero none = 0
or_zero (some n) = n

total-insert :
    (g : Word) (n : ℕ) (m : Map ℕ) → total (insert g n m) + or_zero (lookup g m) ≡ total m + n
unfolding insert lookup
total-insert g n [] = omega arith
total-insert g n ((j, k) ∷ m) = ground (arith, total-insert g n m)

total-add_gram : (g : Word) (m : Map ℕ) → total (add_gram g m) ≡ suc (total m)
unfolding add_gram
total-add_gram g m = elim (Option-cases (lookup g m)) [
  | inl n ↦ ground (arith, total-insert g 1 m)
  | inr (c, n) ↦ ground (arith, total-insert g (c + 1) m)
]

total-count_all : (ws : List Word) (m : Map ℕ) → total (count_all ws m) ≡ total m + length ws
unfolding count_all
total-count_all [] m = omega arith
total-count_all (w ∷ ws) m = omega (arith, total-count_all ws (add_gram w m), total-add_gram w m)

total-count_ngrams : (ws : List Word) → total (count_ngrams 1 ws) ≡ length ws
unfolding count_ngrams
total-count_ngrams ws = ground (arith, grams_one ws, total-count_all ws [])

overlap-le-total : (c r : Map ℕ) → overlap c r ≤ total r
unfolding overlap
overlap-le-total c [] = omega arith
overlap-le-total c ((g, n) ∷ r) = ground (arith, overlap-le-total c r)

-- Each entry of the second map is one of the first.
abbrev Within : Map ℕ → Map ℕ → Type 0
Within c = All (λ (e : Word × ℕ). lookup e.0 c ≡ some e.1)

overlap-Within : (c r : Map ℕ) → Within c r → overlap c r ≡ total r
unfolding overlap
overlap-Within c [] h = refl
overlap-Within c ((g, n) ∷ r) (h, hs) = ground (arith, overlap-Within c r hs)

Within-cons :
    (g : Word) (n : ℕ) (c r : Map ℕ) → has_key g r ≡ false → Within c r → Within ((g, n) ∷ c) r
unfolding has_key lookup
Within-cons g n c [] h w = tt
Within-cons g n c ((j, k) ∷ r) h (w, ws) =
    (ground (arith, str_eq_iff g j, str_eq_iff j g), Within-cons g n c r (ground arith) ws)

Within-self : (m : Map ℕ) → unique m ≡ true → Within m m
unfolding unique lookup
Within-self [] u = tt
Within-self ((g, n) ∷ m) u = (
  ground (arith, str_eq_refl g),
  Within-cons g n m m (ground arith) (Within-self m (ground arith)),
)

unique-count_all : (ws : List Word) (m : Map ℕ) → unique m ≡ true → unique (count_all ws m) ≡ true
unfolding count_all add_gram
unique-count_all [] m u = u
unique-count_all (w ∷ ws) m u = elim (Option-cases (lookup w m)) [
  | inl n ↦ unique-count_all ws (add_gram w m) (ground (arith, unique-insert w 1 m u))
  | inr (c, n) ↦ unique-count_all ws (add_gram w m) (ground (arith, unique-insert w (c + 1) m u))
]

unique-count_ngrams : (ws : List Word) → unique (count_ngrams 1 ws) ≡ true
unfolding count_ngrams unique
unique-count_ngrams ws = unique-count_all (grams 1 ws) [] refl

-- The overlap of two lists of words is at most the length of the reference, and all of it where
-- the candidate is the reference itself.
pub overlap_lem :
    (candidate reference : List Word)
    → (overlap (count_ngrams 1 candidate) (count_ngrams 1 reference) ≤ length reference)
      × (overlap (count_ngrams 1 reference) (count_ngrams 1 reference) ≡ length reference)
overlap_lem candidate reference =
    let m = count_ngrams 1 reference in
    (
      omega (arith, overlap-le-total (count_ngrams 1 candidate) m, total-count_ngrams reference),
      overlap-Within m m (Within-self m (unique-count_ngrams reference))
          ∙ total-count_ngrams reference,
    )
