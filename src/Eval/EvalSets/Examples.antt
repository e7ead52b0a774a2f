-- ===== src/Eval/EvalSets/Examples.antt =====
-- The manager of eval sets on small inputs: tests, and uses of the theorems.
use adk_go_pkg.Base.{
  ℕ, true, none, some, List, [], ◌∷◌, Bytes, bytes, str_eq, ◌&&◌, if◌then◌else◌, ◌≡◌, ◌⊎◌,
}
use adk_go_pkg.Base.Map.{lookup}
use adk_go_pkg.Eval.EvalSets.{
  EvalCase, EvalSet, EvalError, ok, err, already_exists, EvalSets, new_eval_set, create_eval_set,
  add_eval_case, update_eval_case, delete_eval_case, add_eval_case_to_eval_set, Call, create_set,
  add_case, update_case, delete_case, calls,
}
use adk_go_pkg.Eval.EvalSets.Cases.{case_of, is_some, distinct, add_lem}
use adk_go_pkg.Eval.EvalSets.Manager.{
  set_of, case_at, Writes, add_eval_case_lem, update_eval_case_lem, delete_eval_case_lem,
}
use adk_go_pkg.Eval.EvalSets.Distinct.{AllDistinct, create_eval_set_lem, calls-AllDistinct}

abbrev case_one : EvalCase ℕ
case_one = record { eval_id = bytes "one"; content = 1 }

abbrev case_two : EvalCase ℕ
case_two = record { eval_id = bytes "two"; content = 2 }

abbrev smoke : EvalSet ℕ ℕ
smoke = record {
  eval_set_id = bytes "smoke";
  name = bytes "smoke";
  description = [];
  eval_cases = case_one ∷ [];
  creation_timestamp = 7;
}

abbrev manager : EvalSets ℕ ℕ
manager = (bytes "app", (bytes "smoke", smoke) ∷ []) ∷ []

abbrev edits : List (Call ℕ ℕ)
edits =
    create_set (bytes "app") (bytes "full") 9
    ∷ add_case (bytes "app") (bytes "full") case_one
    ∷ add_case (bytes "app") (bytes "full") case_one
    ∷ update_case (bytes "app") (bytes "smoke") case_one
    ∷ delete_case (bytes "app") (bytes "smoke") (bytes "two")
    ∷ []

nothing-AllDistinct : AllDistinct {C = ℕ} {T = ℕ} []
unfolding lookup
nothing-AllDistinct app id s h = cc

calls-AllDistinct_example : AllDistinct (calls {C = ℕ} {T = ℕ} edits [])
calls-AllDistinct_example = calls-AllDistinct edits [] nothing-AllDistinct

create_eval_set_lem_example :
    ((set_of manager (bytes "app") (bytes "full") ≡ none)
      × ((create_eval_set (bytes "app") (bytes "full") 9 manager).1
          ≡ ok (new_eval_set (bytes "full") 9))
      × ((app' id' : Bytes)
          → set_of (create_eval_set (bytes "app") (bytes "full") 9 manager).0 app' id' ≡ (
              if str_eq (bytes "app") app' && str_eq (bytes "full") id'
              then some (new_eval_set (bytes "full") 9)
              else set_of manager app' id')))
    ⊎ ((is_some (set_of manager (bytes "app") (bytes "full")) ≡ true)
        × ((create_eval_set (bytes "app") (bytes "full") 9 manager).1
            ≡ err (already_exists (bytes "full")))
        × ((app' id' : Bytes)
            → set_of (create_eval_set (bytes "app") (bytes "full") 9 manager).0 app' id'
              ≡ set_of manager app' id'))
create_eval_set_lem_example = create_eval_set_lem (bytes "app") (bytes "full") 9 manager

add_lem_example :
    ((s' : EvalSet ℕ ℕ) × (add_eval_case_to_eval_set smoke case_two ≡ ok s')
      × (case_of smoke (bytes "two") ≡ none)
      × (distinct smoke.eval_cases ≡ true → distinct s'.eval_cases ≡ true)
      × ((j : Bytes)
          → case_of s' j ≡ (if str_eq (bytes "two") j then some case_two else case_of smoke j)))
    ⊎ ((add_eval_case_to_eval_set smoke case_two ≡ err (already_exists (bytes "two")))
        × (is_some (case_of smoke (bytes "two")) ≡ true))
add_lem_example = add_lem smoke case_two

add_eval_case_lem_example :
    ((m' : EvalSets ℕ ℕ) × (add_eval_case (bytes "app") (bytes "smoke") case_two manager
        ≡ (m', ok tt))
      × (is_some (set_of manager (bytes "app") (bytes "smoke")) ≡ true)
      × (case_at manager (bytes "app") (bytes "smoke") (bytes "two") ≡ none)
      × Writes manager m' (bytes "app") (bytes "smoke") (bytes "two") (some case_two))
    ⊎ ((e : EvalError) × (add_eval_case (bytes "app") (bytes "smoke") case_two manager
          ≡ (manager, err e))
        × ((set_of manager (bytes "app") (bytes "smoke") ≡ none)
            ⊎ (is_some (case_at manager (bytes "app") (bytes "smoke") (bytes "two")) ≡ true)))
add_eval_case_lem_example = add_eval_case_lem (bytes "app") (bytes "smoke") case_two manager

update_eval_case_lem_example :
    ((m' : EvalSets ℕ ℕ) × (update_eval_case (bytes "app") (bytes "smoke") case_one manager
        ≡ (m', ok tt))
      × (is_some (set_of manager (bytes "app") (bytes "smoke")) ≡ true)
      × (is_some (case_at manager (bytes "app") (bytes "smoke") (bytes "one")) ≡ true)
      × Writes manager m' (bytes "app") (bytes "smoke") (bytes "one") (some case_one))
    ⊎ ((e : EvalError) × (update_eval_case (bytes "app") (bytes "smoke") case_one manager
          ≡ (manager, err e))
        × ((set_of manager (bytes "app") (bytes "smoke") ≡ none)
            ⊎ (case_at manager (bytes "app") (bytes "smoke") (bytes "one") ≡ none)))
update_eval_case_lem_example = update_eval_case_lem (bytes "app") (bytes "smoke") case_one manager

delete_eval_case_lem_example :
    ((m' : EvalSets ℕ ℕ) × (delete_eval_case (bytes "app") (bytes "smoke") (bytes "one") manager
        ≡ (m', ok tt))
      × (is_some (set_of manager (bytes "app") (bytes "smoke")) ≡ true)
      × (is_some (case_at manager (bytes "app") (bytes "smoke") (bytes "one")) ≡ true)
      × Writes manager m' (bytes "app") (bytes "smoke") (bytes "one") none)
    ⊎ ((e : EvalError) × (delete_eval_case (bytes "app") (bytes "smoke") (bytes "one") manager
          ≡ (manager, err e))
        × ((set_of manager (bytes "app") (bytes "smoke") ≡ none)
            ⊎ (case_at manager (bytes "app") (bytes "smoke") (bytes "one") ≡ none)))
delete_eval_case_lem_example =
    delete_eval_case_lem (bytes "app") (bytes "smoke") (bytes "one") manager
