-- ===== src/Eval/Pairing/Examples.antt =====
-- Pairing on a small invocation: a use of the theorem.
use adk_go_pkg.Base.{ℕ, true, none, some, [], ◌∷◌, Bytes, bytes, ◌≡◌, map}
use adk_go_pkg.Value.{Fields}
use adk_go_pkg.Eval.Types.{
  FunctionCall, FunctionResponse, Invocation, legacy, get_all_tool_calls, get_all_tool_responses,
}
use adk_go_pkg.Eval.Pairing.{ToolCallAndResponse, has_ids, get_all_tool_calls_with_responses}
use adk_go_pkg.Eval.Pairing.ById.{answered, get_all_tool_calls_with_responses_lem}

abbrev call_of : Bytes → FunctionCall ℕ
call_of id = record { id = id; name = bytes "find"; args = Fields.end }

abbrev response_of : Bytes → FunctionResponse ℕ
response_of id = record { id = id; name = bytes "find"; response = Fields.end }

abbrev asked : Invocation ℕ
asked = record {
  invocation_id = bytes "1";
  final_response = none;
  intermediate_data = some (
      legacy (some (call_of (bytes "a") ∷ call_of (bytes "b") ∷ []))
        (some (response_of (bytes "b") ∷ [])));
}

get_all_tool_calls_with_responses_lem_example :
    (map (λ (p : ToolCallAndResponse ℕ). p.call) (get_all_tool_calls_with_responses asked)
      ≡ get_all_tool_calls asked)
    × (has_ids (get_all_tool_calls asked) ≡ true
        → get_all_tool_calls_with_responses asked
          ≡ map (answered (get_all_tool_responses asked)) (get_all_tool_calls asked))
get_all_tool_calls_with_responses_lem_example = get_all_tool_calls_with_responses_lem asked
