-- ===== src/Eval/LocalSets.antt =====
-- eval/local_eval_sets_manager.go, eval/path_validation.go and LoadEvalSetFromFile and
-- UnmarshalEvalSet of eval/json_utils.go: eval sets as files. JSON is the record Codec.
pub mod Stored
pub mod Changed
mod Examples
use adk_go_pkg.Base.{
  Bool, true, false, ◌&&◌, ◌||◌, not, Option, none, some, List, [], ◌∷◌, ◌++◌, Bytes, bytes, str_eq,
  has_prefix, is_empty, ◌==◌, if◌then◌else◌,
}
use adk_go_pkg.Artifact.Disk.{
  FilePath, Node, file, dir, Entries, end, entry, Found, missing, blocked, found, find, mkdir_all,
  write_file, sorted,
}
use adk_go_pkg.Artifact.Names.{extend}
use adk_go_pkg.Eval.EvalSets.{
  EvalCase, EvalSet, EvalError, not_found, already_exists, new_eval_set,
  get_eval_case_from_eval_set, add_eval_case_to_eval_set, update_eval_case_in_eval_set,
  delete_eval_case_from_eval_set,
}
use adk_go_pkg.Eval.EvalSets
use adk_go_pkg.Eval.OldFormat.{OldJson, convert_eval_set_to_new_schema}

-- `invalid`: a name that is no segment of a path; `refused`: an error of the eval sets;
-- `broken`: any other failure.
pub data Failure : Type 0 where
  invalid broken : Failure
  refused : EvalError → Failure

pub data Outcome (A : Type 0) : Type 0 where
  ok : A → Outcome A
  err : Failure → Outcome A

infixl 5 ◌>>=◌
abbrev pub ◌>>=◌ : {A B : Type 0} → Outcome A → (A → Outcome B) → Outcome B
ok a >>= f = f a
err e >>= f = err e

abbrev pub lifted : {A : Type 0} → EvalSets.Result A → Outcome A
lifted (EvalSets.ok a) = ok a
lifted (EvalSets.err e) = err (refused e)

-- A null byte, "/" or "\\".
unfoldable pub has_unsafe : Bytes → Bool
has_unsafe [] = false
has_unsafe (c ∷ s) = (c == 0 || (c == b'/' || c == b'\\')) || has_unsafe s

-- ValidatePathSegment, true if there is no error
unfoldable pub validate_path_segment : Bytes → Bool
unfolding has_unsafe
validate_path_segment s =
    not (is_empty s)
    && (not (has_unsafe s) && (not (str_eq s (bytes ".")) && not (str_eq s (bytes ".."))))

unfoldable pub eval_dir : Bytes → FilePath
unfolding extend
eval_dir app = extend [] app ++ bytes "eval" ∷ []

unfoldable pub eval_set_path : Bytes → Bytes → FilePath
unfolding eval_dir
eval_set_path app id = extend (eval_dir app) (id ++ bytes ".evalset.json")

unfoldable pub validate_and_path : Bytes → Bytes → Outcome FilePath
unfolding validate_path_segment eval_set_path
validate_and_path app id =
    if validate_path_segment app && validate_path_segment id
    then ok (eval_set_path app id)
    else err invalid

-- The JSON of an eval set as encoding/json has it (with the methods of Invocation, without that of
-- EvalCase), whether a case has a conversation and a scenario, and what it reads of the old format.
pub record Codec (C F T : Type 0) : Type 0 where
  pub encode : EvalSet C T → Option Bytes
  pub decode : Bytes → Option (EvalSet C T)
  pub has_conversation : C → Bool
  pub has_scenario : C → Bool
  pub old : OldJson C F T

unfoldable pub path_string : FilePath → Bytes
path_string [] = []
path_string (s ∷ []) = s
path_string (s ∷ t ∷ p) = s ++ b'/' ∷ path_string (t ∷ p)

unfoldable pub trim_suffix : Bytes → Bytes → Option Bytes
unfolding str_eq
trim_suffix suffix [] = if is_empty suffix then some [] else none
trim_suffix suffix (c ∷ s) =
    let rest = trim_suffix suffix s in
    if str_eq suffix (c ∷ s) then some [] else elim rest [ none ↦ none | some t ↦ some (c ∷ t) ]

unfoldable pub ids_in : Entries → List Bytes
unfolding trim_suffix
ids_in end = []
ids_in (entry name n es) =
    let rest = ids_in es in
    elim n [
      | dir _ ↦ rest
      | file _ ↦ elim (trim_suffix (bytes ".evalset.json") name) [
        | none ↦ rest
        | some id ↦ id ∷ rest
      ]
    ]

unfoldable pub list_eval_sets : Bytes → Node → Outcome (List Bytes)
unfolding validate_path_segment find eval_dir sorted ids_in
list_eval_sets app root =
    if validate_path_segment app
    then (elim (find (eval_dir app) root) [
      | missing ↦ ok []
      | blocked ↦ err broken
      | found n ↦ elim n [ file _ ↦ err broken | dir es ↦ ok (ids_in (sorted es)) ]
    ])
    else err invalid

module _ {C F T : Type 0} (codec : Codec C F T) where
  open codec use {encode, decode}

  -- EvalCase.UnmarshalJSON: exactly one of the two.
  unfoldable pub is_case_valid : EvalCase C → Bool
  is_case_valid c =
      if codec.has_conversation c.content && codec.has_scenario c.content
      then false
      else codec.has_conversation c.content || codec.has_scenario c.content

  unfoldable pub cases_valid : List (EvalCase C) → Bool
  unfolding is_case_valid
  cases_valid [] = true
  cases_valid (c ∷ cs) = is_case_valid c && cases_valid cs

  -- json.Unmarshal of an eval set: a case that is not valid fails the whole.
  unfoldable pub read_eval_set : Bytes → Option (EvalSet C T)
  unfolding cases_valid
  read_eval_set text = elim (decode text) [
    | none ↦ none
    | some s ↦ if cases_valid s.eval_cases then some s else none
  ]

  unfoldable pub unmarshal_eval_set : Bytes → Option (EvalSet C T)
  unfolding read_eval_set convert_eval_set_to_new_schema
  unmarshal_eval_set text = elim (read_eval_set text) [
    | none ↦ convert_eval_set_to_new_schema codec.old text
    | some s ↦
        if is_empty s.eval_set_id then convert_eval_set_to_new_schema codec.old text else some s
  ]

  unfoldable pub load_eval_set_from_file : FilePath → Node → Outcome (EvalSet C T)
  unfolding find unmarshal_eval_set path_string
  load_eval_set_from_file p root = elim (find p root) [
    | missing ↦ err (refused (not_found (bytes "eval set file") (path_string p)))
    | blocked ↦ err broken
    | found n ↦ elim n [
      | dir _ ↦ err broken
      | file text ↦ elim (unmarshal_eval_set text) [ none ↦ err broken | some s ↦ ok s ]
    ]
  ]

  -- saveEvalSet, for a set of the application
  unfoldable pub save_eval_set : Bytes → FilePath → EvalSet C T → Node → Node × Outcome (Unit {0})
  unfolding mkdir_all write_file eval_dir
  save_eval_set app p s root = elim (mkdir_all (eval_dir app) root) [
    | none ↦ (root, err broken)
    | some r ↦ elim (encode s) [
      | none ↦ (r, err broken)
      | some text ↦ elim (write_file p text r) [ none ↦ (r, err broken) | some r' ↦ (r', ok tt) ]
    ]
  ]

  unfoldable pub get_eval_set : Bytes → Bytes → Node → Outcome (EvalSet C T)
  unfolding validate_and_path load_eval_set_from_file
  get_eval_set app id root = validate_and_path app id >>= λ p. load_eval_set_from_file p root

  unfoldable pub get_eval_case : Bytes → Bytes → Bytes → Node → Outcome (EvalCase C)
  unfolding get_eval_set
  get_eval_case app id case_id root = get_eval_set app id root >>= λ s.
      elim (get_eval_case_from_eval_set s case_id) [
        | none ↦ err (refused (not_found (bytes "eval case") case_id))
        | some c ↦ ok c
      ]

  -- What AddEvalCase, UpdateEvalCase and DeleteEvalCase share.
  unfoldable pub change_set :
      Bytes
      → Bytes
      → (EvalSet C T → EvalSets.Result (EvalSet C T))
      → Node
      → Node × Outcome (Unit {0})
  unfolding get_eval_set save_eval_set eval_set_path
  change_set app id change root = elim (get_eval_set app id root >>= λ s. lifted (change s)) [
    | err e ↦ (root, err e)
    | ok s ↦ save_eval_set app (eval_set_path app id) s root
  ]

  unfoldable pub add_eval_case : Bytes → Bytes → EvalCase C → Node → Node × Outcome (Unit {0})
  unfolding change_set
  add_eval_case app id c = change_set app id (λ s. add_eval_case_to_eval_set s c)

  unfoldable pub update_eval_case : Bytes → Bytes → EvalCase C → Node → Node × Outcome (Unit {0})
  unfolding change_set
  update_eval_case app id c = change_set app id (λ s. update_eval_case_in_eval_set s c)

  unfoldable pub delete_eval_case : Bytes → Bytes → Bytes → Node → Node × Outcome (Unit {0})
  unfolding change_set
  delete_eval_case app id case_id =
      change_set app id (λ s. delete_eval_case_from_eval_set s case_id)

  unfoldable pub create_eval_set : Bytes → Bytes → T → Node → Node × Outcome (EvalSet C T)
  unfolding validate_and_path save_eval_set find
  create_eval_set app id now root = elim (validate_and_path app id) [
    | err e ↦ (root, err e)
    | ok p ↦ elim (find p root) [
      | found _ ↦ (root, err (refused (already_exists id)))
      | missing ↦ created app p (new_eval_set id now) root
      | blocked ↦ created app p (new_eval_set id now) root
    ]
  ]
    where
      created : Bytes → FilePath → EvalSet C T → Node → Node × Outcome (EvalSet C T)
      created app p s root =
          let (r, out) = save_eval_set app p s root in
          elim out [ err e ↦ (r, err e) | ok _ ↦ (r, ok s) ]
