-- ===== src/Eval/Pairing.antt =====
-- eval/eval_case_utils.go, GetAllToolCallsWithResponses: tool calls beside their responses.
pub mod ById
mod Examples
use adk_go_pkg.Base.{
  Bool, true, false, not, ◌||◌, Option, none, some, List, [], ◌∷◌, Bytes, is_empty, if◌then◌else◌,
}
use adk_go_pkg.Base.Map.{Map, lookup, insert}
use adk_go_pkg.Eval.Types.{
  FunctionCall, FunctionResponse, Invocation, get_all_tool_calls, get_all_tool_responses,
}

pub record ToolCallAndResponse (F : Type 0) : Type 0 where
  pub call : FunctionCall F
  pub response : Option (FunctionResponse F)

module _ {F : Type 0} where
  pub has_ids : List (FunctionCall F) → Bool
  has_ids [] = false
  has_ids (c ∷ cs) = not (is_empty c.id) || has_ids cs

  -- responseByID, filled in the order of the responses.
  pub index_responses :
      List (FunctionResponse F) → Map (FunctionResponse F) → Map (FunctionResponse F)
  index_responses [] m = m
  index_responses (r ∷ rs) m = index_responses rs (if is_empty r.id then m else insert r.id r m)

  pub pair_by_id : Map (FunctionResponse F) → List (FunctionCall F) → List (ToolCallAndResponse F)
  pair_by_id m [] = []
  pair_by_id m (c ∷ cs) =
      record { call = c; response = if is_empty c.id then none else lookup c.id m }
      ∷ pair_by_id m cs

  pub pair_by_index :
      List (FunctionCall F) → List (FunctionResponse F) → List (ToolCallAndResponse F)
  pair_by_index [] rs = []
  pair_by_index (c ∷ cs) [] = record { call = c; response = none } ∷ pair_by_index cs []
  pair_by_index (c ∷ cs) (r ∷ rs) = record { call = c; response = some r } ∷ pair_by_index cs rs

  pub pair_all : List (FunctionCall F) → List (FunctionResponse F) → List (ToolCallAndResponse F)
  unfolding has_ids index_responses pair_by_id pair_by_index
  pair_all calls responses =
      if has_ids calls
      then pair_by_id (index_responses responses []) calls
      else pair_by_index calls responses

  pub get_all_tool_calls_with_responses : Invocation F → List (ToolCallAndResponse F)
  unfolding pair_all
  get_all_tool_calls_with_responses inv =
      pair_all (get_all_tool_calls inv) (get_all_tool_responses inv)
