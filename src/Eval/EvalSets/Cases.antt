-- ===== src/Eval/EvalSets/Cases.antt =====
-- What the operations on one eval set do to its cases.
use adk_go_pkg.Base.{
  Bool, true, false, Option, none, some, List, [], ◌∷◌, ◌++◌, Bytes, bytes, str_eq, str_eq_iff, ◌≡◌,
  refl, arith, if◌then◌else◌, ◌&&◌, not, Option-cases, Bool-cases, inl, inr, ◌⊎◌,
}
use adk_go_pkg.Eval.EvalSets.{
  EvalCase, EvalSet, ok, err, not_found, already_exists, find_case, replace_case, remove_cases,
  get_eval_case_from_eval_set, add_eval_case_to_eval_set, update_eval_case_in_eval_set,
  delete_eval_case_from_eval_set,
}

abbrev pub is_some {ℓ} : {A : Type ℓ} → Option A → Bool
is_some none = false
is_some (some _) = true

module _ {C : Type 0} where
  find-snoc :
      (id : Bytes) (c : EvalCase C) (cs : List (EvalCase C))
      → find_case id (cs ++ c ∷ []) ≡ (elim (find_case id cs) [
        | some d ↦ some d
        | none ↦ if str_eq c.eval_id id then some c else none
      ])
  unfolding find_case
  find-snoc id c [] = refl
  find-snoc id c (d ∷ cs) = ground (arith, find-snoc id c cs)

  find-replace :
      (id : Bytes) (c : EvalCase C) (cs cs' : List (EvalCase C))
      → replace_case c cs ≡ some cs'
      → find_case id cs' ≡ (if str_eq c.eval_id id then some c else find_case id cs)
  unfolding find_case replace_case
  find-replace id c [] cs' h = cc
  find-replace id c (d ∷ cs) cs' h = elim (Bool-cases (str_eq d.eval_id c.eval_id)) [
    | inl e ↦
        let same : cs' ≡ c ∷ cs = ground arith in
        rw same (ground (arith, str_eq_iff d.eval_id c.eval_id, str_eq_iff d.eval_id id))
    | inr e ↦ elim (Option-cases (replace_case c cs)) [
      | inl n ↦ absurd (ground arith)
      | inr (r, n) ↦
          let same : cs' ≡ d ∷ r = ground arith in
          rw same (
            ground (
              arith,
              find-replace id c cs r n,
              str_eq_iff d.eval_id c.eval_id,
              str_eq_iff d.eval_id id,
              str_eq_iff c.eval_id id,
            ))
    ]
  ]

  replace-none :
      (c : EvalCase C) (cs : List (EvalCase C))
      → is_some (replace_case c cs) ≡ is_some (find_case c.eval_id cs)
  unfolding find_case replace_case
  replace-none c [] = refl
  replace-none c (d ∷ cs) = ground (arith, replace-none c cs)

  find-remove :
      (id j : Bytes) (cs : List (EvalCase C))
      → find_case j (remove_cases id cs).1 ≡ (if str_eq id j then none else find_case j cs)
  unfolding find_case remove_cases
  find-remove id j [] = ground arith
  find-remove id j (d ∷ cs) =
      ground (
        arith,
        find-remove id j cs,
        str_eq_iff d.eval_id id,
        str_eq_iff id j,
        str_eq_iff d.eval_id j,
      )

  found-remove :
      (id : Bytes) (cs : List (EvalCase C)) → (remove_cases id cs).0 ≡ is_some (find_case id cs)
  unfolding find_case remove_cases
  found-remove id [] = refl
  found-remove id (d ∷ cs) = ground (arith, found-remove id cs)

  -- No two cases with one identifier.
  unfoldable pub distinct : List (EvalCase C) → Bool
  distinct [] = true
  distinct (c ∷ cs) = not (is_some (find_case c.eval_id cs)) && distinct cs

  distinct-snoc :
      (c : EvalCase C) (cs : List (EvalCase C))
      → find_case c.eval_id cs ≡ none
      → distinct cs ≡ true
      → distinct (cs ++ c ∷ []) ≡ true
  unfolding distinct find_case
  distinct-snoc c [] n h = refl
  distinct-snoc c (d ∷ cs) n h = ground (
    arith,
    distinct-snoc c cs,
    find-snoc d.eval_id c cs,
    str_eq_iff c.eval_id d.eval_id,
    str_eq_iff d.eval_id c.eval_id,
  )

  distinct-replace :
      (c : EvalCase C) (cs cs' : List (EvalCase C))
      → replace_case c cs ≡ some cs'
      → distinct cs ≡ true
      → distinct cs' ≡ true
  unfolding distinct replace_case
  distinct-replace c [] cs' n h = cc
  distinct-replace c (d ∷ cs) cs' n h = elim (Bool-cases (str_eq d.eval_id c.eval_id)) [
    | inl e ↦
        let same : cs' ≡ c ∷ cs = ground arith in
        rw same (ground (arith, str_eq_iff d.eval_id c.eval_id))
    | inr e ↦ elim (Option-cases (replace_case c cs)) [
      | inl m ↦ absurd (ground arith)
      | inr (r, m) ↦
          let same : cs' ≡ d ∷ r = ground arith in
          rw same (
            ground (
              arith,
              distinct-replace c cs r m,
              find-replace d.eval_id c cs r m,
              str_eq_iff d.eval_id c.eval_id,
              str_eq_iff c.eval_id d.eval_id,
            ))
    ]
  ]

  distinct-remove :
      (id : Bytes) (cs : List (EvalCase C))
      → distinct cs ≡ true
      → distinct (remove_cases id cs).1 ≡ true
  unfolding distinct remove_cases
  distinct-remove id [] h = refl
  distinct-remove id (d ∷ cs) h = ground (arith, distinct-remove id cs, find-remove id d.eval_id cs)

-- The cases of an eval set, by their identifiers.
abbrev pub case_of : {C T : Type 0} → EvalSet C T → Bytes → Option (EvalCase C)
case_of s id = find_case id s.eval_cases

module _ {C T : Type 0} (s : EvalSet C T) where
  -- AddEvalCaseToEvalSet succeeds exactly when the identifier is new, and then only that
  -- identifier's case changes.
  pub add_lem :
      (c : EvalCase C)
      → ((s' : EvalSet C T) × (add_eval_case_to_eval_set s c ≡ ok s')
          × (case_of s c.eval_id ≡ none)
          × (distinct s.eval_cases ≡ true → distinct s'.eval_cases ≡ true)
          × ((j : Bytes) → case_of s' j ≡ (if str_eq c.eval_id j then some c else case_of s j)))
        ⊎ ((add_eval_case_to_eval_set s c ≡ err (already_exists c.eval_id))
            × (is_some (case_of s c.eval_id) ≡ true))
  unfolding add_eval_case_to_eval_set get_eval_case_from_eval_set
  add_lem c = elim (Option-cases (find_case c.eval_id s.eval_cases)) [
    | inl n ↦ inl (
      record s { eval_cases = s.eval_cases ++ c ∷ [] },
      ground arith,
      n,
      distinct-snoc c s.eval_cases n,
      λ j. ground (arith, find-snoc j c s.eval_cases, str_eq_iff c.eval_id j),
    )
    | inr (d, n) ↦ inr (ground arith, rw n)
  ]

  -- UpdateEvalCaseInEvalSet succeeds exactly when the identifier is there, and then only that
  -- identifier's case changes.
  pub update_lem :
      (c : EvalCase C)
      → ((s' : EvalSet C T) × (update_eval_case_in_eval_set s c ≡ ok s')
          × (is_some (case_of s c.eval_id) ≡ true)
          × (distinct s.eval_cases ≡ true → distinct s'.eval_cases ≡ true)
          × ((j : Bytes) → case_of s' j ≡ (if str_eq c.eval_id j then some c else case_of s j)))
        ⊎ ((update_eval_case_in_eval_set s c ≡ err (not_found (bytes "eval case") c.eval_id))
            × (case_of s c.eval_id ≡ none))
  unfolding update_eval_case_in_eval_set
  update_lem c = elim (Option-cases (replace_case c s.eval_cases)) [
    | inl n ↦ inr (ground arith, ground (arith, replace-none c s.eval_cases))
    | inr (cs, n) ↦ inl (
      record s { eval_cases = cs },
      ground arith,
      ground (arith, replace-none c s.eval_cases),
      distinct-replace c s.eval_cases cs n,
      λ j. find-replace j c s.eval_cases cs n,
    )
  ]

  -- DeleteEvalCaseFromEvalSet succeeds exactly when the identifier is there, and then only that
  -- identifier's case goes.
  pub delete_lem :
      (id : Bytes)
      → ((s' : EvalSet C T) × (delete_eval_case_from_eval_set s id ≡ ok s')
          × (is_some (case_of s id) ≡ true)
          × (distinct s.eval_cases ≡ true → distinct s'.eval_cases ≡ true)
          × ((j : Bytes) → case_of s' j ≡ (if str_eq id j then none else case_of s j)))
        ⊎ ((delete_eval_case_from_eval_set s id ≡ err (not_found (bytes "eval case") id))
            × (case_of s id ≡ none))
  unfolding delete_eval_case_from_eval_set
  delete_lem id = elim (Bool-cases (remove_cases id s.eval_cases).0) [
    | inl f ↦ inl (
      record s { eval_cases = (remove_cases id s.eval_cases).1 },
      rw f,
      ground (arith, found-remove id s.eval_cases),
      distinct-remove id s.eval_cases,
      λ j. find-remove id j s.eval_cases,
    )
    | inr f ↦ inr (rw f, ground (arith, found-remove id s.eval_cases))
  ]
