-- ===== src/Eval/Trajectory/AnyOrder.antt =====
-- ANY_ORDER of eval/trajectory_evaluator.go: each expected call claims an actual call of its own.
use adk_go_pkg.Base.{
  All, Bool, true, false, none, some, List, [], ◌∷◌, ◌≡◌, refl, ap, sym, ◌∙◌, arith, ◌↔◌, inl, inr,
  Bool-cases, Option-cases,
}
use mathlib.Core.Path.{subst}
use adk_go_pkg.Eval.Trajectory.{mark_first, any_order_from, unmarked, any_order, exact, in_order}
use adk_go_pkg.Eval.Trajectory.Matching.{
  Embeds, done, skip, meet, exact_iff, in_order_iff, Agree-Embeds,
}

module _ {A : Type 0} where
  -- Taking one call out of a list leaves the other list.
  pub data Pick (a : A) : List A → List A → Type 0 where
    here : {as' : List A} → Pick a (a ∷ as') as'
    there : {b : A} {as' rest : List A} → Pick a as' rest → Pick a (b ∷ as') (b ∷ rest)

  -- Taking out two calls leaves one list, whichever is taken first.
  pub data Both (a b : A) (r s : List A) : Type 0 where
    same : a ≡ b → r ≡ s → Both a b r s
    apart : {rest : List A} → Pick b r rest → Pick a s rest → Both a b r s

  Both-cons : (a b c : A) (r s : List A) → Both a b r s → Both a b (c ∷ r) (c ∷ s)
  Both-cons a b c r s (same e e') = same e (ap (◌∷◌ c) e')
  Both-cons a b c r s (apart p q) = apart (there p) (there q)

  diamond : (a b : A) {xs r s : List A} → Pick a xs r → Pick b xs s → Both a b r s
  diamond a b here here = same refl refl
  diamond a b here (there q) = apart q here
  diamond a b (there p) here = apart here p
  diamond a b (there {b = c} {rest = r} p) (there {rest = s} q) =
      Both-cons a b c r s (diamond a b p q)

  commute :
      (a b : A) {xs q r : List A}
      → Pick a xs q
      → Pick b q r
      → (s : List A) × Pick b xs s × Pick a s r
  commute a b {r = r} here q = (a ∷ r, there q, here)
  commute a b (there {as' = xs} p) here = (xs, here, p)
  commute a b (there {b = c} p) (there q) =
      let (s, x, y) = commute a b p q in (c ∷ s, there x, there y)

  abbrev unused : List (Bool × A) → List A
  unused [] = []
  unused ((true, _) ∷ marks) = unused marks
  unused ((false, a) ∷ marks) = a ∷ unused marks

  pub unused-unmarked : (xs : List A) → unused (unmarked xs) ≡ xs
  unused-unmarked [] = refl
  unused-unmarked (x ∷ xs) = ap (◌∷◌ x) (unused-unmarked xs)

All-map :
    {A : Type 0} (P Q : A → Type 0) → ((a : A) → P a → Q a) → (xs : List A) → All P xs → All Q xs
All-map P Q f [] h = tt
All-map P Q f (x ∷ xs) (h, hs) = (f x h, All-map P Q f xs hs)

All-Pick :
    {A : Type 0} (P : A → Type 0) {a : A} {xs r : List A} → Pick a xs r → All P xs → P a × All P r
All-Pick P here (h, hs) = (h, hs)
All-Pick P (there p) (h, hs) = let (k, ks) = All-Pick P p hs in (k, (h, ks))

module _ {A : Type 0} (eq : A → A → Bool) where
  -- Each expected call is met by an actual call of its own.
  pub data Covers : List A → List A → Type 0 where
    met : {actual : List A} → Covers actual []
    claim :
        {actual rest expected : List A} {a e : A}
        → eq a e ≡ true
        → Pick a actual rest
        → Covers rest expected
        → Covers actual (e ∷ expected)

  exchange_step :
      (a a' b e : A)
      → eq a' e ≡ eq a e
      → eq b e ≡ true
      → (rest s q es : List A) → Both b a' rest q
      → Covers rest es
      → ((t q' : List A) → Pick a' rest q' → Pick a t q' → Covers t es)
      → Pick a s q
      → Covers s (e ∷ es)
  exchange_step a a' b e alike m rest s q es (same x y) c again p =
      claim (sym alike ∙ (ap (λ z. eq z e) (sym x) ∙ m)) p (subst (λ z. Covers z es) y c)
  exchange_step a a' b e alike m rest s q es (apart {rest = q'} x y) c again p =
      let (t, u, v) = commute a b p y in claim m u (again t q' x v)

  -- Two calls meet the same calls of a list.
  abbrev pub MeetAlike : A → A → List A → Type 0
  MeetAlike a b es = All (λ x. eq b x ≡ eq a x) es

  -- A call may stand in for another that meets the same expected calls.
  exchange :
      (a a' : A) {r : List A} {es : List A}
      → Covers r es
      → MeetAlike a a' es
      → (s q : List A) → Pick a' r q
      → Pick a s q
      → Covers s es
  exchange a a' met alike s q p p' = met
  exchange a a' (claim {rest = rest} {expected = es} {a = b} {e = e} m pick c) (h, hs) s q p p' =
      exchange_step a a' b e h m rest s q es (diamond b a' pick p) c (exchange a a' c hs) p'

  mark_first-some :
      (e : A) (marks marks' : List (Bool × A))
      → mark_first eq e marks ≡ some marks'
      → (a : A) × (eq a e ≡ true) × Pick a (unused marks) (unused marks')
  unfolding mark_first
  mark_first-some e [] marks' h = cc
  mark_first-some e ((true, a) ∷ marks) marks' h = elim (Option-cases (mark_first eq e marks)) [
    | inl n ↦ absurd (ground arith)
    | inr (r, n) ↦
        let (b, m, p) = mark_first-some e marks r n in
        let same : marks' ≡ (true, a) ∷ r = ground arith in (b, m, rw same p)
  ]
  mark_first-some e ((false, a) ∷ marks) marks' h = elim (Bool-cases (eq a e)) [
    | inl m ↦ let same : marks' ≡ (true, a) ∷ marks = ground arith in (a, m, rw same here)
    | inr m ↦ elim (Option-cases (mark_first eq e marks)) [
      | inl n ↦ absurd (ground arith)
      | inr (r, n) ↦
          let (b, m', p) = mark_first-some e marks r n in
          let same : marks' ≡ (false, a) ∷ r = ground arith in (b, m', rw same (there p))
    ]
  ]

  mark_first-none :
      (e : A) (marks : List (Bool × A))
      → mark_first eq e marks ≡ none
      → (a : A) (rest : List A) → Pick a (unused marks) rest
      → eq a e ≡ false
  unfolding mark_first
  mark_first-none e [] h a rest p = elim p [ ]
  mark_first-none e ((true, b) ∷ marks) h a rest p = mark_first-none e marks (ground arith) a rest p
  mark_first-none e ((false, b) ∷ marks) h a rest here = ground arith
  mark_first-none e ((false, b) ∷ marks) h a rest (there {rest = r} p) =
      mark_first-none e marks (ground arith) a r p

  any_order_sound :
      (marks : List (Bool × A)) (expected : List A)
      → any_order_from eq marks expected ≡ true
      → Covers (unused marks) expected
  unfolding any_order_from
  any_order_sound marks [] h = met
  any_order_sound marks (e ∷ es) h = elim (Option-cases (mark_first eq e marks)) [
    | inl n ↦ absurd (ground arith)
    | inr (marks', n) ↦
        let (a, m, p) = mark_first-some e marks marks' n in
        claim m p (any_order_sound marks' es (ground arith))
  ]

  -- If ANY_ORDER passes, each expected call is met by an actual call of its own.
  pub any_order-Covers :
      (actual expected : List A) → any_order eq actual expected ≡ true → Covers actual expected
  unfolding any_order
  any_order-Covers actual expected h =
      subst (λ xs. Covers xs expected) (unused-unmarked actual)
        (any_order_sound (unmarked actual) expected h)

  -- Of the actual calls, two that meet one expected call meet the same expected calls behind it.
  abbrev pub Interchangeable : List A → List A → Type 0
  Interchangeable actual [] = Unit
  Interchangeable actual (e ∷ es) =
      All (λ a. All (λ b. eq a e ≡ true → eq b e ≡ true → MeetAlike a b es) actual) actual
      × Interchangeable actual es

  Interchangeable-Pick :
      {c : A} {xs r : List A} (es : List A)
      → Pick c xs r
      → Interchangeable xs es
      → Interchangeable r es
  Interchangeable-Pick [] p h = tt
  Interchangeable-Pick {xs = xs} {r = r} (e ∷ es) p (h, hs) = (
    All-map (λ a. All (λ b. eq a e ≡ true → eq b e ≡ true → MeetAlike a b es) xs)
        (λ a. All (λ b. eq a e ≡ true → eq b e ≡ true → MeetAlike a b es) r)
        (λ a k. (All-Pick (λ b. eq a e ≡ true → eq b e ≡ true → MeetAlike a b es) p k).1) r
        (All-Pick (λ a. All (λ b. eq a e ≡ true → eq b e ≡ true → MeetAlike a b es) xs) p h).1,
    Interchangeable-Pick es p hs,
  )

  settle :
      (a b : A) {es : List A}
      → MeetAlike a b es
      → {rest s : List A} → Both a b rest s
      → Covers rest es
      → Covers s es
  settle a b {es = es} alike (same x y) c = subst (λ z. Covers z es) y c
  settle a b alike {s = s} (apart {rest = q} x y) c = exchange a b c alike s q x y

  any_order_complete :
      (expected : List A) (marks : List (Bool × A))
      → Interchangeable (unused marks) expected
      → Covers (unused marks) expected
      → any_order_from eq marks expected ≡ true
  unfolding any_order_from
  any_order_complete [] marks alike c = refl
  any_order_complete (e ∷ es) marks (h, hs) (claim {rest = rest} {a = a} m p c) =
      elim (Option-cases (mark_first eq e marks)) [
        | inl n ↦ absurd (cc (mark_first-none e marks n a rest p))
        | inr (marks', n) ↦
            let (b, m', p') = mark_first-some e marks marks' n in
            let P = (λ (a : A).
              All (λ b. eq a e ≡ true → eq b e ≡ true → MeetAlike a b es) (unused marks)) in
            let Q = (λ (b : A). eq a e ≡ true → eq b e ≡ true → MeetAlike a b es) in
            let alike = (All-Pick Q p' (All-Pick P p h).0).0 m m' in
            rw (n, any_order_from)
              (any_order_complete es marks' (Interchangeable-Pick es p' hs)
                (settle a b alike (diamond a b p p') c))
      ]

  -- ANY_ORDER passes exactly when each expected call can be met by an actual call of its own, if
  -- of the actual calls, two that meet one expected call meet the same expected calls behind it:
  -- to take the first match then loses none.
  pub any_order_iff :
      (actual expected : List A)
      → Interchangeable actual expected
      → (any_order eq actual expected ≡ true) ↔ Covers actual expected
  unfolding any_order
  any_order_iff actual expected alike = (
    any_order-Covers actual expected,
    λ c.
        any_order_complete expected (unmarked actual)
          (subst (λ xs. Interchangeable xs expected) (sym (unused-unmarked actual)) alike)
          (subst (λ xs. Covers xs expected) (sym (unused-unmarked actual)) c),
  )

  Covers-skip :
      {a : A} {actual expected : List A} → Covers actual expected → Covers (a ∷ actual) expected
  Covers-skip met = met
  Covers-skip (claim m p c) = claim m (there p) (Covers-skip c)

  Embeds-Covers : {actual expected : List A} → Embeds eq actual expected → Covers actual expected
  Embeds-Covers done = met
  Embeds-Covers (skip h) = Covers-skip (Embeds-Covers h)
  Embeds-Covers (meet m h) = claim m here (Embeds-Covers h)

  -- The three match types are ordered: what EXACT passes IN_ORDER passes, and what IN_ORDER passes
  -- ANY_ORDER passes if of the actual calls, two that meet one expected call meet the same
  -- expected calls behind it.
  pub match_types_ordered :
      (actual expected : List A)
      → (exact eq actual expected ≡ true → in_order eq actual expected ≡ true)
        × (Interchangeable actual expected
            → in_order eq actual expected ≡ true
            → any_order eq actual expected ≡ true)
  match_types_ordered actual expected = (
    λ h.
        (in_order_iff eq actual expected).1
          (Agree-Embeds eq actual expected ((exact_iff eq actual expected).0 h)),
    λ alike h.
        (any_order_iff actual expected alike).1
          (Embeds-Covers ((in_order_iff eq actual expected).0 h)),
  )
