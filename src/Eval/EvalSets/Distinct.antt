-- ===== src/Eval/EvalSets/Distinct.antt =====
-- No run of calls puts two cases with one identifier into an eval set.
use adk_go_pkg.Base.{
  true, none, some, List, [], ◌∷◌, Bytes, str_eq, str_eq_iff, ◌≡◌, refl, sym, ◌∙◌, arith,
  if◌then◌else◌, ◌&&◌, ◌⊎◌, inl, inr, Option-cases, Bool-cases,
}
use mathlib.Core.Path.{subst}
use adk_go_pkg.Base.Map.{lookup, insert, lookup-insert, lookup-nil}
use adk_go_pkg.Eval.EvalSets.{
  EvalCase, EvalSet, EvalError, Result, ok, err, already_exists, EvalSets, get_or_create_app_map,
  store_set, new_eval_set, create_eval_set, change_set, add_eval_case, update_eval_case,
  delete_eval_case, add_eval_case_to_eval_set, update_eval_case_in_eval_set,
  delete_eval_case_from_eval_set, Call, create_set, add_case, update_case, delete_case, call, calls,
}
use adk_go_pkg.Eval.EvalSets.Cases.{is_some, distinct, add_lem, update_lem, delete_lem}
use adk_go_pkg.Eval.EvalSets.Manager.{set_of, set_of-store, change_missing, change_fails, change_ok}

Result-cases :
    {A : Type 0} (r : Result A) → ((e : EvalError) × (r ≡ err e)) ⊎ ((a : A) × (r ≡ ok a))
Result-cases (ok a) = inr (a, refl)
Result-cases (err e) = inl (e, refl)

ok_injective : {A : Type 0} {a b : A} → ◌≡◌ {A = Result A} (ok a) (ok b) → a ≡ b
ok_injective h = cc

ok≢err : {A : Type 0} {a : A} {e : EvalError} → ◌≡◌ {A = Result A} (ok a) (err e) → ⊥
ok≢err h = cc

module _ {C T : Type 0} where
  abbrev pub AllDistinct : EvalSets C T → Type 0
  AllDistinct m =
      (app id : Bytes) (s : EvalSet C T) → set_of m app id ≡ some s → distinct s.eval_cases ≡ true

  lookup-app_map :
      (m : EvalSets C T) (app id : Bytes)
      → lookup id (get_or_create_app_map app m) ≡ set_of m app id
  unfolding get_or_create_app_map
  lookup-app_map m app id = ground (arith, lookup-nil {V = EvalSet C T} id)

  -- Writing back the map of an application that is there changes no lookup.
  set_of-write_back :
      (m : EvalSets C T) (app app' id' : Bytes)
      → is_some (lookup app m) ≡ true
      → set_of (insert app (get_or_create_app_map app m) m) app' id' ≡ set_of m app' id'
  unfolding get_or_create_app_map
  set_of-write_back m app app' id' h =
      ground (arith, lookup-insert app app' (get_or_create_app_map app m) m, str_eq_iff app app')

  -- CreateEvalSet succeeds exactly when the set is not there, and then stores an empty set under
  -- its key alone. A failure leaves every set as it was.
  pub create_eval_set_lem :
      (app id : Bytes) (now : T) (m : EvalSets C T)
      → ((set_of m app id ≡ none)
          × ((create_eval_set app id now m).1 ≡ ok (new_eval_set id now))
          × ((app' id' : Bytes)
              → set_of (create_eval_set app id now m).0 app' id' ≡ (
                  if str_eq app app' && str_eq id id'
                  then some (new_eval_set id now)
                  else set_of m app' id')))
        ⊎ ((is_some (set_of m app id) ≡ true)
            × ((create_eval_set app id now m).1 ≡ err (already_exists id))
            × ((app' id' : Bytes)
                → set_of (create_eval_set app id now m).0 app' id' ≡ set_of m app' id'))
  unfolding create_eval_set
  create_eval_set_lem app id now m = elim (Option-cases (set_of m app id)) [
    | inl n ↦ inl (
      n,
      ground (arith, lookup-app_map m app id),
      λ app' id'.
          ground
            (arith, lookup-app_map m app id, set_of-store m app id (new_eval_set id now) app' id'),
    )
    | inr (s, n) ↦ inr (
      ground arith,
      ground (arith, lookup-app_map m app id),
      λ app' id'. ground (arith, lookup-app_map m app id, set_of-write_back m app app' id'),
    )
  ]

  store-AllDistinct :
      (m : EvalSets C T) (app id : Bytes) (s : EvalSet C T)
      → AllDistinct m
      → distinct s.eval_cases ≡ true
      → AllDistinct (store_set app id s m)
  store-AllDistinct m app id s d h app' id' s' e =
      elim (Bool-cases (str_eq app app' && str_eq id id')) [
        | inl x ↦ ground (arith, set_of-store m app id s app' id')
        | inr x ↦ d app' id' s' (ground (arith, set_of-store m app id s app' id'))
      ]

  change-AllDistinct :
      (app id : Bytes) (change : EvalSet C T → Result (EvalSet C T)) (m : EvalSets C T)
      → ((s s' : EvalSet C T)
          → change s ≡ ok s'
          → distinct s.eval_cases ≡ true
          → distinct s'.eval_cases ≡ true)
      → AllDistinct m
      → AllDistinct (change_set app id change m).0
  change-AllDistinct app id change m keeps d = elim (Option-cases (set_of m app id)) [
    | inl n ↦ rw (change_missing app id change m n) d
    | inr (s, n) ↦ elim (Result-cases (change s)) [
      | inl (e, h) ↦ rw (change_fails app id change m s n e h) d
      | inr (s', h) ↦
          rw (change_ok app id change m s n s' h)
            (store-AllDistinct m app id s' d (keeps s s' h (d app id s n)))
    ]
  ]

  create-AllDistinct :
      (app id : Bytes) (now : T) (m : EvalSets C T)
      → AllDistinct m
      → AllDistinct (create_eval_set app id now m).0
  unfolding new_eval_set distinct
  create-AllDistinct app id now m d app' id' s e = elim (create_eval_set_lem app id now m) [
    | inl (n, made, sets) ↦ ground (arith, sets app' id', d app' id' s)
    | inr (there, failed, sets) ↦ d app' id' s (ground (arith, sets app' id'))
  ]

  add-keeps :
      (c : EvalCase C) (s s' : EvalSet C T)
      → add_eval_case_to_eval_set s c ≡ ok s'
      → distinct s.eval_cases ≡ true
      → distinct s'.eval_cases ≡ true
  add-keeps c s s' h d = elim (add_lem s c) [
    | inl (r, e, before, keeps, cases) ↦
        subst (λ (t : EvalSet C T). distinct t.eval_cases ≡ true) (ok_injective (sym e ∙ h))
          (keeps d)
    | inr (e, before) ↦ absurd (ok≢err (sym h ∙ e))
  ]

  update-keeps :
      (c : EvalCase C) (s s' : EvalSet C T)
      → update_eval_case_in_eval_set s c ≡ ok s'
      → distinct s.eval_cases ≡ true
      → distinct s'.eval_cases ≡ true
  update-keeps c s s' h d = elim (update_lem s c) [
    | inl (r, e, before, keeps, cases) ↦
        subst (λ (t : EvalSet C T). distinct t.eval_cases ≡ true) (ok_injective (sym e ∙ h))
          (keeps d)
    | inr (e, before) ↦ absurd (ok≢err (sym h ∙ e))
  ]

  delete-keeps :
      (id : Bytes) (s s' : EvalSet C T)
      → delete_eval_case_from_eval_set s id ≡ ok s'
      → distinct s.eval_cases ≡ true
      → distinct s'.eval_cases ≡ true
  delete-keeps id s s' h d = elim (delete_lem s id) [
    | inl (r, e, before, keeps, cases) ↦
        subst (λ (t : EvalSet C T). distinct t.eval_cases ≡ true) (ok_injective (sym e ∙ h))
          (keeps d)
    | inr (e, before) ↦ absurd (ok≢err (sym h ∙ e))
  ]

  call-AllDistinct : (c : Call C T) (m : EvalSets C T) → AllDistinct m → AllDistinct (call c m)
  unfolding call add_eval_case update_eval_case delete_eval_case
  call-AllDistinct (create_set app id now) m d = create-AllDistinct app id now m d
  call-AllDistinct (add_case app id c) m d =
      change-AllDistinct app id (λ s. add_eval_case_to_eval_set s c) m (add-keeps c) d
  call-AllDistinct (update_case app id c) m d =
      change-AllDistinct app id (λ s. update_eval_case_in_eval_set s c) m (update-keeps c) d
  call-AllDistinct (delete_case app id j) m d =
      change-AllDistinct app id (λ s. delete_eval_case_from_eval_set s j) m (delete-keeps j) d

  -- Whatever calls a client makes, no eval set comes to hold two cases with one identifier, if none
  -- does at the start.
  pub calls-AllDistinct :
      (cs : List (Call C T)) (m : EvalSets C T) → AllDistinct m → AllDistinct (calls cs m)
  unfolding calls
  calls-AllDistinct [] m d = d
  calls-AllDistinct (c ∷ cs) m d = calls-AllDistinct cs (call c m) (call-AllDistinct c m d)
