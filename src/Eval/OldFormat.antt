-- ===== src/Eval/OldFormat.antt =====
-- ConvertEvalSetToNewSchema and convertToFunctionCalls of eval/json_utils.go: eval sets in the old
-- format. What encoding/json reads is the record OldJson.
use adk_go_pkg.Base.{
  ℕ, suc, Option, none, some, List, [], ◌∷◌, ◌++◌, Bytes, bytes, decimal, is_empty, if◌then◌else◌,
}
use adk_go_pkg.Base.Map.{Map, lookup}
use adk_go_pkg.Value.{Value, null, string, float64, int, bool, map, list, other, Fields, end, get}
use adk_go_pkg.Eval.Types.{FunctionCall}
use adk_go_pkg.Eval.EvalSets.{EvalCase, EvalSet}

-- json.Unmarshal into a slice of maps of raw JSON, a string, and a slice of maps; and a case of one
-- invocation with a query, and perhaps a reference and tool calls, as the content of a case.
pub record OldJson (C F T : Type 0) : Type 0 where
  pub old_cases : Bytes → Option (List (Map Bytes))
  pub as_text : Bytes → Option Bytes
  pub as_tools : Bytes → Option (List (Fields F))
  pub one_invocation : Bytes → Option Bytes → Option (List (FunctionCall F)) → C
  pub zero_time : T

module _ {F : Type 0} where
  -- v.(string), or ""
  unfoldable pub string_of : Option (Value F) → Bytes
  string_of none = []
  string_of (some v) = elim v [
    | string s ↦ s
    | null ↦ []
    | float64 _ ↦ []
    | int _ ↦ []
    | bool _ ↦ []
    | map _ ↦ []
    | list _ ↦ []
    | other _ ↦ []
  ]

  -- v.(map[string]any), or nil
  unfoldable pub fields_of : Option (Value F) → Fields F
  fields_of none = end
  fields_of (some v) = elim v [
    | map m ↦ m
    | null ↦ end
    | string _ ↦ end
    | float64 _ ↦ end
    | int _ ↦ end
    | bool _ ↦ end
    | list _ ↦ end
    | other _ ↦ end
  ]

  unfoldable pub convert_to_function_calls : List (Fields F) → List (FunctionCall F)
  unfolding string_of fields_of
  convert_to_function_calls [] = []
  convert_to_function_calls (tool_use ∷ tool_uses) =
      record {
        id = [];
        name = string_of (get (bytes "tool_name") tool_use);
        args = fields_of (get (bytes "tool_input") tool_use);
      }
      ∷ convert_to_function_calls tool_uses

module _ {C F T : Type 0} (json : OldJson C F T) where
  -- A text that is there and not empty.
  unfoldable pub text_at : Bytes → Map Bytes → Option Bytes
  text_at key c = elim (lookup key c) [
    | none ↦ none
    | some raw ↦ elim (json.as_text raw) [
      | none ↦ none
      | some s ↦ if is_empty s then none else some s
    ]
  ]

  unfoldable pub tools_at : Bytes → Map Bytes → Option (List (FunctionCall F))
  unfolding convert_to_function_calls
  tools_at key c = elim (lookup key c) [
    | none ↦ none
    | some raw ↦ elim (json.as_tools raw) [
      | none ↦ none
      | some uses ↦ elim uses [ [] ↦ none | u ∷ us ↦ some (convert_to_function_calls (u ∷ us)) ]
    ]
  ]

  -- The loop, from index `i` on: a case without a query is passed over.
  unfoldable pub convert_cases : ℕ → List (Map Bytes) → List (EvalCase C)
  unfolding text_at tools_at
  convert_cases i [] = []
  convert_cases i (c ∷ cs) =
      let rest = convert_cases (suc i) cs in
      elim (text_at (bytes "query") c) [
        | none ↦ rest
        | some query ↦
            record {
              eval_id = bytes "eval_case_" ++ decimal i;
              content =
                  json.one_invocation query (text_at (bytes "reference") c)
                    (tools_at (bytes "expected_tool_use") c);
            }
            ∷ rest
      ]

  unfoldable pub convert_eval_set_to_new_schema : Bytes → Option (EvalSet C T)
  unfolding convert_cases
  convert_eval_set_to_new_schema text = elim (json.old_cases text) [
    | none ↦ none
    | some cs ↦ some (record {
      eval_set_id = [];
      name = [];
      description = [];
      eval_cases = convert_cases 0 cs;
      creation_timestamp = json.zero_time;
    })
  ]
