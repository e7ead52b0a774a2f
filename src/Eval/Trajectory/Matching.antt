-- ===== src/Eval/Trajectory/Matching.antt =====
-- What the three comparisons of eval/trajectory_evaluator.go decide, over any test of two calls.
use adk_go_pkg.Base.{Bool, true, false, List, [], ◌∷◌, ◌≡◌, refl, arith, ◌↔◌, inl, inr, Bool-cases}
use adk_go_pkg.Eval.Trajectory.{exact_from, exact, in_order_rest, in_order}

module _ {A : Type 0} (eq : A → A → Bool) where
  -- The two lists have one length and agree at each place.
  abbrev pub Agree : List A → List A → Type 0
  Agree [] [] = Unit
  Agree (a ∷ as') (e ∷ es) = (eq a e ≡ true) × Agree as' es
  Agree _ _ = ⊥

  -- EXACT passes exactly the lists that agree place by place.
  pub exact_iff :
      (actual expected : List A) → (exact eq actual expected ≡ true) ↔ Agree actual expected
  unfolding exact exact_from
  exact_iff [] [] = (λ _. tt, λ _. refl)
  exact_iff [] (e ∷ es) = ground arith
  exact_iff (a ∷ as') [] = ground arith
  exact_iff (a ∷ as') (e ∷ es) =
      let (to, from) = exact_iff as' es in
      (λ h. (ground arith, to (ground arith)), λ h. ground (arith, from h.1))

  -- The expected calls are met by a subsequence of the actual calls.
  pub data Embeds : List A → List A → Type 0 where
    done : {as' : List A} → Embeds as' []
    skip : {a : A} {as' es : List A} → Embeds as' es → Embeds (a ∷ as') es
    meet : {a e : A} {as' es : List A} → eq a e ≡ true → Embeds as' es → Embeds (a ∷ as') (e ∷ es)

  in_order_sound :
      (actual expected : List A) → in_order eq actual expected ≡ true → Embeds actual expected
  unfolding in_order in_order_rest
  in_order_sound [] [] h = done
  in_order_sound [] (e ∷ es) h = ground arith
  in_order_sound (a ∷ as') [] h = done
  in_order_sound (a ∷ as') (e ∷ es) h = elim (Bool-cases (eq a e)) [
    | inl m ↦ meet m (in_order_sound as' es (ground arith))
    | inr m ↦ skip (in_order_sound as' (e ∷ es) (ground arith))
  ]

  Embeds-tail : {actual : List A} {e : A} {es : List A} → Embeds actual (e ∷ es) → Embeds actual es
  Embeds-tail (skip h) = skip (Embeds-tail h)
  Embeds-tail (meet m h) = skip h

  Embeds-nil : (e : A) (es : List A) → Embeds [] (e ∷ es) → ⊥
  Embeds-nil e es h = elim h [ ]

  after_meet : (a e : A) (as' es : List A) → Embeds (a ∷ as') (e ∷ es) → Embeds as' es
  after_meet a e as' es (skip h) = Embeds-tail h
  after_meet a e as' es (meet m h) = h

  after_skip :
      (a e : A) (as' es : List A) → eq a e ≡ false → Embeds (a ∷ as') (e ∷ es) → Embeds as' (e ∷ es)
  after_skip a e as' es n (skip h) = h
  after_skip a e as' es n (meet m h) = cc

  in_order_complete :
      (actual expected : List A) → Embeds actual expected → in_order eq actual expected ≡ true
  unfolding in_order in_order_rest
  in_order_complete [] [] h = refl
  in_order_complete [] (e ∷ es) h = absurd (Embeds-nil e es h)
  in_order_complete (a ∷ as') [] h = refl
  in_order_complete (a ∷ as') (e ∷ es) h = elim (Bool-cases (eq a e)) [
    | inl m ↦ rw m (in_order_complete as' es (after_meet a e as' es h))
    | inr m ↦ rw m (in_order_complete as' (e ∷ es) (after_skip a e as' es m h))
  ]

  -- IN_ORDER passes exactly when the expected calls are met in their order, with any calls between
  -- and around them: the greedy scan misses no way to meet them.
  pub in_order_iff :
      (actual expected : List A) → (in_order eq actual expected ≡ true) ↔ Embeds actual expected
  in_order_iff actual expected = (in_order_sound actual expected, in_order_complete actual expected)

  pub Agree-Embeds : (actual expected : List A) → Agree actual expected → Embeds actual expected
  Agree-Embeds [] [] h = done
  Agree-Embeds [] (e ∷ es) h = absurd h
  Agree-Embeds (a ∷ as') [] h = done
  Agree-Embeds (a ∷ as') (e ∷ es) h = meet h.0 (Agree-Embeds as' es h.1)
