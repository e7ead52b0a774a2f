-- ===== src/Eval/LocalSets/Examples.antt =====
-- eval/local_eval_sets_manager.go on concrete trees, with formats of a few texts.
use adk_go_pkg.Base.{
  decimal, ◌&&◌, true, false, not, Option, none, some, List, [], ◌∷◌, Bytes, bytes, str_eq,
  is_empty, if◌then◌else◌, ◌≡◌, refl, arith,
}
use adk_go_pkg.Base.Map.{lookup}
use adk_go_pkg.Artifact.Disk.{Node, file, dir, end, entry}
use adk_go_pkg.Eval.EvalSets.{
  EvalCase, EvalSet, add_eval_case_to_eval_set, get_eval_case_from_eval_set, find_case,
}
use adk_go_pkg.Eval.EvalSets
use adk_go_pkg.Eval.OldFormat.{OldJson}
use adk_go_pkg.Value
use adk_go_pkg.Eval.LocalSets.{
  ok, err, broken, Codec, cases_valid, get_eval_set, add_eval_case, list_eval_sets, create_eval_set,
}
use adk_go_pkg.Eval.LocalSets.Stored.{IsRead}
use adk_go_pkg.Eval.LocalSets.Changed.{change_set_lem}

abbrev Cases : Type 0
Cases = List (EvalCase (Unit {0}))

abbrev Set : Type 0
Set = EvalSet (Unit {0}) (Unit {0})

abbrev smoke : Bytes
smoke = bytes "smoke"

abbrev set_of : Bytes → Cases → Set
set_of id cases = record {
  eval_set_id = id;
  name = id;
  description = [];
  eval_cases = cases;
  creation_timestamp = tt;
}

abbrev one : EvalCase (Unit {0})
one = record { eval_id = bytes "one"; content = tt }

-- The set without cases, and the one with one case.
unfoldable encode_cases : Cases → Option Bytes
encode_cases [] = some (0 ∷ [])
encode_cases (c ∷ []) = if str_eq c.eval_id (bytes "one") then some (1 ∷ []) else none
encode_cases (c ∷ d ∷ cs) = none

unfoldable encode_smoke : Set → Option Bytes
unfolding encode_cases
encode_smoke s =
    if str_eq s.eval_set_id smoke && (str_eq s.name smoke && is_empty s.description)
    then encode_cases s.eval_cases
    else none

unfoldable decode_smoke : Bytes → Option Set
decode_smoke text =
    if str_eq text (0 ∷ [])
    then some (set_of smoke [])
    else if str_eq text (1 ∷ [])
    then some (set_of smoke (one ∷ []))
    else none

-- An array of one case, with a query and a tool.
abbrev old_json : OldJson (Unit {0}) (Unit {0}) (Unit {0})
old_json = record {
  old_cases = λ text.
      if str_eq text (2 ∷ [])
      then some (((bytes "query", bytes "q") ∷ (bytes "expected_tool_use", []) ∷ []) ∷ [] ∷ [])
      else none;
  as_text = λ raw. some raw;
  as_tools = λ raw. some (Value.end ∷ []);
  one_invocation = λ query reference tools. tt;
  zero_time = tt;
}

abbrev first_case : EvalCase (Unit {0})
first_case = record { eval_id = bytes "eval_case_0"; content = tt }

abbrev codec : Codec (Unit {0}) (Unit {0}) (Unit {0})
codec = record {
  encode = encode_smoke;
  decode = decode_smoke;
  has_conversation = λ _. true;
  has_scenario = λ _. false;
  old = old_json;
}

smoke-IsRead : IsRead codec (set_of smoke (one ∷ []))
unfolding encode_smoke decode_smoke encode_cases str_eq is_empty
smoke-IsRead = record { read_back = λ text e. ground arith; not_old = λ text e. ground arith }

abbrev empty_disk : Node
empty_disk = dir end

abbrev created : Node
unfolding create_eval_set
created = (create_eval_set codec (bytes "app") smoke tt empty_disk).0

abbrev added : Node
unfolding add_eval_case
added = (add_eval_case codec (bytes "app") smoke one created).0

list_test : list_eval_sets (bytes "app") added ≡ ok (smoke ∷ [])
unfolding list_eval_sets added created is_empty str_eq encode_smoke EvalSets.new_eval_set
    decode_smoke add_eval_case_to_eval_set
list_test = refl

-- A set in the old format has no identifier; once a case was added, it cannot be read any more.
abbrev old_codec : Codec (Unit {0}) (Unit {0}) (Unit {0})
old_codec = record {
  encode = λ s. some (3 ∷ []);
  decode = λ text. if str_eq text (3 ∷ []) then some (set_of [] (first_case ∷ one ∷ [])) else none;
  has_conversation = λ _. true;
  has_scenario = λ _. false;
  old = old_json;
}

abbrev old_disk : Node
old_disk = dir (
    entry (bytes "app")
      (dir
        (entry (bytes "eval") (dir (entry (bytes "smoke.evalset.json") (file (2 ∷ [])) end)) end))
      end)

old_format_test :
    (get_eval_set old_codec (bytes "app") smoke old_disk ≡ ok (set_of [] (first_case ∷ [])))
    × (get_eval_set old_codec
          (bytes "app")
          smoke
          (add_eval_case old_codec (bytes "app") smoke one old_disk).0
        ≡ err broken)
unfolding get_eval_set add_eval_case is_empty str_eq add_eval_case_to_eval_set lookup decimal
old_format_test = (refl, refl)

-- AddEvalCase accepts a case with neither a conversation nor a scenario; GetEvalSet then fails.
abbrev bare_codec : Codec (Unit {0}) (Unit {0}) (Unit {0})
bare_codec = record {
  encode = encode_smoke;
  decode = decode_smoke;
  has_conversation = λ _. false;
  has_scenario = λ _. false;
  old = old_json;
}

bare_case_test :
    ((add_eval_case bare_codec (bytes "app") smoke one created).1 ≡ ok tt)
    × (get_eval_set bare_codec
          (bytes "app")
          smoke
          (add_eval_case bare_codec (bytes "app") smoke one created).0
        ≡ err broken)
unfolding get_eval_set add_eval_case created is_empty str_eq encode_smoke decode_smoke
    add_eval_case_to_eval_set EvalSets.new_eval_set
bare_case_test = (refl, refl)

change_set_lem_example : get_eval_set codec (bytes "app") smoke added ≡ (
    if str_eq (bytes "app") (bytes "app") && str_eq smoke smoke
    then (if not (is_empty smoke) && cases_valid codec (one ∷ [])
        then ok (set_of smoke (one ∷ []))
        else err broken)
    else get_eval_set codec (bytes "app") smoke created)
unfolding get_eval_set added created is_empty str_eq encode_smoke decode_smoke
    add_eval_case_to_eval_set EvalSets.new_eval_set
change_set_lem_example =
    change_set_lem codec (bytes "app") smoke (bytes "app") smoke
      (λ s. add_eval_case_to_eval_set s one) created added (set_of smoke [])
      (set_of smoke (one ∷ [])) refl refl smoke-IsRead refl
