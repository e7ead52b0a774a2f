-- ===== src/Eval/EvalSets.antt =====
-- eval/eval_sets_manager_utils.go and eval/in_memory_eval_sets_manager.go: eval sets, their cases
-- and the manager that keeps them in memory. Each method of the manager holds its lock, so a call
-- is one step. `C` is what a case holds beside its identifier, `T` the type of time stamps.
pub mod Cases
pub mod Manager
pub mod Distinct
mod Examples
use adk_go_pkg.Base.{
  Bool, true, false, Option, none, some, List, [], ◌∷◌, ◌++◌, Bytes, bytes, str_eq, if◌then◌else◌,
}
use adk_go_pkg.Base.Map.{Map, lookup, insert}

pub record EvalCase (C : Type 0) : Type 0 where
  pub eval_id : Bytes
  pub content : C

pub record EvalSet (C T : Type 0) : Type 0 where
  pub eval_set_id : Bytes
  pub name : Bytes
  pub description : Bytes
  pub eval_cases : List (EvalCase C)
  pub creation_timestamp : T

-- NotFoundError with its item and name, and the error that wraps ErrAlreadyExists.
pub data EvalError : Type 0 where
  not_found : Bytes → Bytes → EvalError
  already_exists : Bytes → EvalError

pub data Result {ℓ} (A : Type ℓ) : Type ℓ where
  ok : A → Result A
  err : EvalError → Result A

infixl 5 ◌>>=◌
abbrev pub ◌>>=◌ {ℓ κ} : {A : Type ℓ} {B : Type κ} → Result A → (A → Result B) → Result B
ok a >>= f = f a
err e >>= f = err e

module _ {C : Type 0} where
  -- The loop of GetEvalCaseFromEvalSet.
  unfoldable pub find_case : Bytes → List (EvalCase C) → Option (EvalCase C)
  find_case id [] = none
  find_case id (c ∷ cs) = if str_eq c.eval_id id then some c else find_case id cs

  -- The loop of UpdateEvalCaseInEvalSet: the first case with the identifier is replaced.
  unfoldable pub replace_case : EvalCase C → List (EvalCase C) → Option (List (EvalCase C))
  replace_case new [] = none
  replace_case new (c ∷ cs) = elim (str_eq c.eval_id new.eval_id) [
    | true ↦ some (new ∷ cs)
    | false ↦ elim (replace_case new cs) [ none ↦ none | some cs' ↦ some (c ∷ cs') ]
  ]

  -- The loop of DeleteEvalCaseFromEvalSet: `found`, and the cases that stay.
  unfoldable pub remove_cases : Bytes → List (EvalCase C) → Bool × List (EvalCase C)
  remove_cases id [] = (false, [])
  remove_cases id (c ∷ cs) =
      let (found, rest) = remove_cases id cs in
      if str_eq c.eval_id id then (true, rest) else (found, c ∷ rest)

module _ {C T : Type 0} where
  -- NewEvalSet; `now` is float64(time.Now().Unix()).
  unfoldable pub new_eval_set : Bytes → T → EvalSet C T
  new_eval_set id now = record {
    eval_set_id = id;
    name = id;
    description = [];
    eval_cases = [];
    creation_timestamp = now;
  }

  unfoldable pub get_eval_case_from_eval_set : EvalSet C T → Bytes → Option (EvalCase C)
  unfolding find_case
  get_eval_case_from_eval_set s id = find_case id s.eval_cases

  unfoldable pub add_eval_case_to_eval_set : EvalSet C T → EvalCase C → Result (EvalSet C T)
  unfolding get_eval_case_from_eval_set
  add_eval_case_to_eval_set s c = elim (get_eval_case_from_eval_set s c.eval_id) [
    | some _ ↦ err (already_exists c.eval_id)
    | none ↦ ok (record s { eval_cases = s.eval_cases ++ c ∷ [] })
  ]

  unfoldable pub update_eval_case_in_eval_set : EvalSet C T → EvalCase C → Result (EvalSet C T)
  unfolding replace_case
  update_eval_case_in_eval_set s c = elim (replace_case c s.eval_cases) [
    | none ↦ err (not_found (bytes "eval case") c.eval_id)
    | some cs ↦ ok (record s { eval_cases = cs })
  ]

  unfoldable pub delete_eval_case_from_eval_set : EvalSet C T → Bytes → Result (EvalSet C T)
  unfolding remove_cases
  delete_eval_case_from_eval_set s id =
      let (found, cs) = remove_cases id s.eval_cases in
      if found then ok (record s { eval_cases = cs }) else err (not_found (bytes "eval case") id)

-- appName → evalSetID → EvalSet
abbrev pub EvalSets : Type 0 → Type 0 → Type 0
EvalSets C T = Map (Map (EvalSet C T))

module _ {C T : Type 0} where
  -- The two lookups with which the methods begin.
  pub find_set : Bytes → Bytes → EvalSets C T → Result (EvalSet C T)
  find_set app id m = elim (lookup app m) [
    | none ↦ err (not_found (bytes "eval set") id)
    | some sets ↦ elim (lookup id sets) [
      | none ↦ err (not_found (bytes "eval set") id)
      | some s ↦ ok s
    ]
  ]

  pub get_or_create_app_map : Bytes → EvalSets C T → Map (EvalSet C T)
  get_or_create_app_map app m = elim (lookup app m) [ none ↦ [] | some sets ↦ sets ]

  -- `appMap[evalSetID] = s`: the map of the application is shared with the manager.
  pub store_set : Bytes → Bytes → EvalSet C T → EvalSets C T → EvalSets C T
  unfolding get_or_create_app_map
  store_set app id s m = insert app (insert id s (get_or_create_app_map app m)) m

  pub get_eval_set : Bytes → Bytes → EvalSets C T → Result (EvalSet C T)
  unfolding find_set
  get_eval_set = find_set

  pub create_eval_set : Bytes → Bytes → T → EvalSets C T → EvalSets C T × Result (EvalSet C T)
  unfolding store_set new_eval_set
  create_eval_set app id now m = elim (lookup id (get_or_create_app_map app m)) [
    | some _ ↦ (insert app (get_or_create_app_map app m) m, err (already_exists id))
    | none ↦ (store_set app id (new_eval_set id now) m, ok (new_eval_set id now))
  ]

  keys : Map (EvalSet C T) → List Bytes
  keys [] = []
  keys ((k, _) ∷ m) = k ∷ keys m

  pub list_eval_sets : Bytes → EvalSets C T → List Bytes
  unfolding keys
  list_eval_sets app m = elim (lookup app m) [ none ↦ [] | some sets ↦ keys sets ]

  pub get_eval_case : Bytes → Bytes → Bytes → EvalSets C T → Result (EvalCase C)
  unfolding get_eval_set get_eval_case_from_eval_set
  get_eval_case app id case_id m = do
    s ← get_eval_set app id m
    elim (get_eval_case_from_eval_set s case_id) [
      | none ↦ err (not_found (bytes "eval case") case_id)
      | some c ↦ ok c
    ]

  -- What AddEvalCase, UpdateEvalCase and DeleteEvalCase share: find the set, change it, and store
  -- the result unless the change fails.
  pub change_set :
      Bytes
      → Bytes
      → (EvalSet C T → Result (EvalSet C T))
      → EvalSets C T
      → EvalSets C T × Result (Unit {0})
  unfolding find_set store_set
  change_set app id change m = elim (find_set app id m >>= change) [
    | err e ↦ (m, err e)
    | ok s ↦ (store_set app id s m, ok tt)
  ]

  pub add_eval_case : Bytes → Bytes → EvalCase C → EvalSets C T → EvalSets C T × Result (Unit {0})
  unfolding change_set add_eval_case_to_eval_set
  add_eval_case app id c = change_set app id (λ s. add_eval_case_to_eval_set s c)

  pub update_eval_case :
      Bytes → Bytes → EvalCase C → EvalSets C T → EvalSets C T × Result (Unit {0})
  unfolding change_set update_eval_case_in_eval_set
  update_eval_case app id c = change_set app id (λ s. update_eval_case_in_eval_set s c)

  pub delete_eval_case : Bytes → Bytes → Bytes → EvalSets C T → EvalSets C T × Result (Unit {0})
  unfolding change_set delete_eval_case_from_eval_set
  delete_eval_case app id case_id =
      change_set app id (λ s. delete_eval_case_from_eval_set s case_id)

-- The calls of a client.
pub data Call (C T : Type 0) : Type 0 where
  create_set : Bytes → Bytes → T → Call C T
  add_case update_case : Bytes → Bytes → EvalCase C → Call C T
  delete_case : Bytes → Bytes → Bytes → Call C T

module _ {C T : Type 0} where
  pub call : Call C T → EvalSets C T → EvalSets C T
  unfolding create_eval_set add_eval_case update_eval_case delete_eval_case
  call (create_set app id now) m = (create_eval_set app id now m).0
  call (add_case app id c) m = (add_eval_case app id c m).0
  call (update_case app id c) m = (update_eval_case app id c m).0
  call (delete_case app id case_id) m = (delete_eval_case app id case_id m).0

  pub calls : List (Call C T) → EvalSets C T → EvalSets C T
  unfolding call
  calls [] m = m
  calls (c ∷ cs) m = calls cs (call c m)
