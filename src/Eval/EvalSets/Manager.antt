-- ===== src/Eval/EvalSets/Manager.antt =====
-- The manager keeps each case of each eval set, and no case twice.
use adk_go_pkg.Base.{
  true, Option, none, some, [], Bytes, bytes, str_eq, str_eq_iff, ◌≡◌, arith, if◌then◌else◌, ◌&&◌,
  ◌⊎◌, inl, inr, Option-cases,
}
use adk_go_pkg.Base.Map.{lookup, insert, lookup-insert, lookup-nil}
use adk_go_pkg.Eval.EvalSets.{
  EvalCase, EvalSet, EvalError, Result, ok, err, not_found, EvalSets, find_set,
  get_or_create_app_map, store_set, get_eval_set, get_eval_case, get_eval_case_from_eval_set,
  change_set, add_eval_case, update_eval_case, delete_eval_case, add_eval_case_to_eval_set,
  update_eval_case_in_eval_set, delete_eval_case_from_eval_set,
}
use adk_go_pkg.Eval.EvalSets.Cases.{case_of, is_some, add_lem, update_lem, delete_lem}

module _ {C T : Type 0} where
  -- The set, if there is one.
  abbrev pub set_of : EvalSets C T → Bytes → Bytes → Option (EvalSet C T)
  set_of m app id = elim (lookup app m) [ none ↦ none | some sets ↦ lookup id sets ]

  find_set-set_of :
      (m : EvalSets C T) (app id : Bytes)
      → find_set app id m
        ≡ (elim (set_of m app id) [ none ↦ err (not_found (bytes "eval set") id) | some s ↦ ok s ])
  unfolding find_set
  find_set-set_of m app id = ground arith

  pub set_of-store :
      (m : EvalSets C T) (app id : Bytes) (s : EvalSet C T) (app' id' : Bytes)
      → set_of (store_set app id s m) app' id'
        ≡ (if str_eq app app' && str_eq id id' then some s else set_of m app' id')
  unfolding store_set get_or_create_app_map
  set_of-store m app id s app' id' = elim (Option-cases (lookup app m)) [
    | inl n ↦ ground (
      arith,
      lookup-insert app app' (insert id s []) m,
      lookup-insert {V = EvalSet C T} id id' s [],
      lookup-nil {V = EvalSet C T} id',
      str_eq_iff app app',
    )
    | inr (sets, n) ↦ ground (
      arith,
      lookup-insert app app' (insert id s sets) m,
      lookup-insert id id' s sets,
      str_eq_iff app app',
    )
  ]

  -- The case, if there is one.
  abbrev pub case_at : EvalSets C T → Bytes → Bytes → Bytes → Option (EvalCase C)
  case_at m app id j = elim (set_of m app id) [ none ↦ none | some s ↦ case_of s j ]

  -- GetEvalCase returns the case that is there, or one of two errors.
  pub get_eval_case_lem :
      (m : EvalSets C T) (app id j : Bytes)
      → get_eval_case app id j m ≡ (elim (set_of m app id) [
        | none ↦ err (not_found (bytes "eval set") id)
        | some s ↦ elim (case_of s j) [
          | none ↦ err (not_found (bytes "eval case") j)
          | some c ↦ ok c
        ]
      ])
  unfolding get_eval_case get_eval_set get_eval_case_from_eval_set
  get_eval_case_lem m app id j = ground (arith, find_set-set_of m app id)

  -- `m'` has the case `v` (or none) under one identifier, and otherwise the cases of `m`.
  abbrev pub Writes :
      EvalSets C T → EvalSets C T → Bytes → Bytes → Bytes → Option (EvalCase C) → Type 0
  Writes m m' app id k v =
      (app' id' j : Bytes)
      → case_at m' app' id' j
        ≡ (if str_eq app app' && str_eq id id' && str_eq k j then v else case_at m app' id' j)

  module _ (app id : Bytes) (change : EvalSet C T → Result (EvalSet C T)) (m : EvalSets C T) where
    pub change_missing :
        set_of m app id ≡ none
        → change_set app id change m ≡ (m, err (not_found (bytes "eval set") id))
    unfolding change_set
    change_missing n = ground (arith, find_set-set_of m app id)

    module _ (s : EvalSet C T) (found : set_of m app id ≡ some s) where
      pub change_fails :
          (e : EvalError) → change s ≡ err e → change_set app id change m ≡ (m, err e)
      unfolding change_set
      change_fails e h = ground (arith, find_set-set_of m app id)

      pub change_ok :
          (s' : EvalSet C T)
          → change s ≡ ok s'
          → change_set app id change m ≡ (store_set app id s' m, ok tt)
      unfolding change_set
      change_ok s' h = ground (arith, find_set-set_of m app id)

      change-Writes :
          (s' : EvalSet C T) (k : Bytes) (v : Option (EvalCase C))
          → ((j : Bytes) → case_of s' j ≡ (if str_eq k j then v else case_of s j))
          → Writes m (store_set app id s' m) app id k v
      change-Writes s' k v cases app' id' j = ground (
        arith,
        cases j,
        set_of-store m app id s' app' id',
        str_eq_iff app app',
        str_eq_iff id id',
      )

  -- AddEvalCase succeeds exactly when the set is there and the case's identifier is new in it, and
  -- then GetEvalCase finds the case, and every other case as before. A failure changes nothing.
  pub add_eval_case_lem :
      (app id : Bytes) (c : EvalCase C) (m : EvalSets C T)
      → ((m' : EvalSets C T) × (add_eval_case app id c m ≡ (m', ok tt))
          × (is_some (set_of m app id) ≡ true)
          × (case_at m app id c.eval_id ≡ none)
          × Writes m m' app id c.eval_id (some c))
        ⊎ ((e : EvalError) × (add_eval_case app id c m ≡ (m, err e))
            × ((set_of m app id ≡ none) ⊎ (is_some (case_at m app id c.eval_id) ≡ true)))
  unfolding add_eval_case
  add_eval_case_lem app id c m = elim (Option-cases (set_of m app id)) [
    | inl n ↦ inr (
      not_found (bytes "eval set") id,
      change_missing app id (λ s. add_eval_case_to_eval_set s c) m n,
      inl n,
    )
    | inr (s, n) ↦ elim (add_lem s c) [
      | inl (s', changed, before, keeps, cases) ↦ inl (
        store_set app id s' m,
        change_ok app id (λ s. add_eval_case_to_eval_set s c) m s n s' changed,
        ground arith,
        ground arith,
        change-Writes app id (λ s. add_eval_case_to_eval_set s c) m s n s' c.eval_id (some c) cases,
      )
      | inr (failed, before) ↦ inr (
        _,
        change_fails app id (λ s. add_eval_case_to_eval_set s c) m s n _ failed,
        inr (ground arith),
      )
    ]
  ]

  -- UpdateEvalCase succeeds exactly when the set is there and holds the identifier, and then
  -- replaces that case and leaves every other as before. A failure changes nothing.
  pub update_eval_case_lem :
      (app id : Bytes) (c : EvalCase C) (m : EvalSets C T)
      → ((m' : EvalSets C T) × (update_eval_case app id c m ≡ (m', ok tt))
          × (is_some (set_of m app id) ≡ true)
          × (is_some (case_at m app id c.eval_id) ≡ true)
          × Writes m m' app id c.eval_id (some c))
        ⊎ ((e : EvalError) × (update_eval_case app id c m ≡ (m, err e))
            × ((set_of m app id ≡ none) ⊎ (case_at m app id c.eval_id ≡ none)))
  unfolding update_eval_case
  update_eval_case_lem app id c m = elim (Option-cases (set_of m app id)) [
    | inl n ↦ inr (
      not_found (bytes "eval set") id,
      change_missing app id (λ s. update_eval_case_in_eval_set s c) m n,
      inl n,
    )
    | inr (s, n) ↦ elim (update_lem s c) [
      | inl (s', changed, before, keeps, cases) ↦ inl (
        store_set app id s' m,
        change_ok app id (λ s. update_eval_case_in_eval_set s c) m s n s' changed,
        ground arith,
        ground arith,
        change-Writes app id (λ s. update_eval_case_in_eval_set s c) m s n s' c.eval_id (some c)
            cases,
      )
      | inr (failed, before) ↦ inr (
        _,
        change_fails app id (λ s. update_eval_case_in_eval_set s c) m s n _ failed,
        inr (ground arith),
      )
    ]
  ]

  -- DeleteEvalCase succeeds exactly when the set is there and holds the identifier, and then
  -- removes that case and leaves every other as before. A failure changes nothing.
  pub delete_eval_case_lem :
      (app id case_id : Bytes) (m : EvalSets C T)
      → ((m' : EvalSets C T) × (delete_eval_case app id case_id m ≡ (m', ok tt))
          × (is_some (set_of m app id) ≡ true)
          × (is_some (case_at m app id case_id) ≡ true)
          × Writes m m' app id case_id none)
        ⊎ ((e : EvalError) × (delete_eval_case app id case_id m ≡ (m, err e))
            × ((set_of m app id ≡ none) ⊎ (case_at m app id case_id ≡ none)))
  unfolding delete_eval_case
  delete_eval_case_lem app id case_id m = elim (Option-cases (set_of m app id)) [
    | inl n ↦ inr (
      not_found (bytes "eval set") id,
      change_missing app id (λ s. delete_eval_case_from_eval_set s case_id) m n,
      inl n,
    )
    | inr (s, n) ↦ elim (delete_lem s case_id) [
      | inl (s', changed, before, keeps, cases) ↦ inl (
        store_set app id s' m,
        change_ok app id (λ s. delete_eval_case_from_eval_set s case_id) m s n s' changed,
        ground arith,
        ground arith,
        change-Writes app id (λ s. delete_eval_case_from_eval_set s case_id) m s n s' case_id none
            cases,
      )
      | inr (failed, before) ↦ inr (
        _,
        change_fails app id (λ s. delete_eval_case_from_eval_set s case_id) m s n _ failed,
        inr (ground arith),
      )
    ]
  ]
