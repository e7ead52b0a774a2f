-- ===== src/Eval/Types.antt =====
-- eval/types.go, eval/eval_case_utils.go and eval/llm_as_judge_utils.go: what the evaluators read,
-- and the verdict. Of the types of genai, the fields that the package reads.
use adk_go_pkg.Base.{Option, none, some, List, [], ◌∷◌, ◌++◌, Bytes, if◌then◌else◌}
use adk_go_pkg.Base.Float.{Float64}
use adk_go_pkg.Value.{Fields}

pub record FunctionCall (F : Type 0) : Type 0 where
  pub id : Bytes
  pub name : Bytes
  pub args : Fields F

pub record FunctionResponse (F : Type 0) : Type 0 where
  pub id : Bytes
  pub name : Bytes
  pub response : Fields F

pub record Part (F : Type 0) : Type 0 where
  pub text : Bytes
  pub function_call : Option (FunctionCall F)
  pub function_response : Option (FunctionResponse F)

pub record Content (F : Type 0) : Type 0 where
  pub parts : List (Part F)

pub record InvocationEvent (F : Type 0) : Type 0 where
  pub author : Bytes
  pub content : Option (Content F)

-- The two implementations of IntermediateData. `none` is a nil slice.
pub data IntermediateData (F : Type 0) : Type 0 where
  legacy : Option (List (FunctionCall F)) → Option (List (FunctionResponse F)) → IntermediateData F
  events : List (InvocationEvent F) → IntermediateData F

pub record Invocation (F : Type 0) : Type 0 where
  pub invocation_id : Bytes
  pub final_response : Option (Content F)
  pub intermediate_data : Option (IntermediateData F)

pub data EvalStatus : Type 0 where
  passed failed not_evaluated : EvalStatus

pub record PerInvocationResult (F : Type 0) : Type 0 where
  pub actual_invocation : Invocation F
  pub expected_invocation : Option (Invocation F)
  pub score : Option F
  pub eval_status : EvalStatus

pub record EvaluationResult (F : Type 0) : Type 0 where
  pub overall_score : Option F
  pub overall_eval_status : EvalStatus
  pub per_invocation_results : List (PerInvocationResult F)

module _ {F : Type 0} where
  abbrev pub get_invocation_events : IntermediateData F → List (InvocationEvent F)
  get_invocation_events (legacy _ _) = []
  get_invocation_events (events es) = es

  abbrev pub get_tool_uses : IntermediateData F → Option (List (FunctionCall F))
  get_tool_uses (legacy uses _) = uses
  get_tool_uses (events _) = none

  abbrev pub get_tool_responses : IntermediateData F → Option (List (FunctionResponse F))
  get_tool_responses (legacy _ responses) = responses
  get_tool_responses (events _) = none

  module _ {A : Type 0} (field : Part F → Option A) where
    -- `for _, part := range parts { if part.X != nil { out = append(out, *part.X) } }`
    unfoldable pub collect_parts : List (Part F) → List A
    collect_parts [] = []
    collect_parts (p ∷ ps) = elim (field p) [
      | none ↦ collect_parts ps
      | some a ↦ a ∷ collect_parts ps
    ]

    unfoldable pub collect_events : List (InvocationEvent F) → List A
    unfolding collect_parts
    collect_events [] = []
    collect_events (e ∷ es) = elim e.content [
      | none ↦ collect_events es
      | some c ↦ collect_parts c.parts ++ collect_events es
    ]

  unfoldable pub get_all_tool_calls : Invocation F → List (FunctionCall F)
  unfolding collect_events
  get_all_tool_calls inv = elim inv.intermediate_data [
    | none ↦ []
    | some d ↦ elim (get_tool_uses d) [
      | some uses ↦ uses
      | none ↦ collect_events (λ p. p.function_call) (get_invocation_events d)
    ]
  ]

  unfoldable pub get_all_tool_responses : Invocation F → List (FunctionResponse F)
  unfolding collect_events
  get_all_tool_responses inv = elim inv.intermediate_data [
    | none ↦ []
    | some d ↦ elim (get_tool_responses d) [
      | some responses ↦ responses
      | none ↦ collect_events (λ p. p.function_response) (get_invocation_events d)
    ]
  ]

module _ (float : Float64) where
  open float use {Carrier as F, le}

  -- GetEvalStatus
  unfoldable pub get_eval_status : Option F → Option F → EvalStatus
  get_eval_status none _ = not_evaluated
  get_eval_status (some _) none = not_evaluated
  get_eval_status (some score) (some threshold) = if le threshold score then passed else failed
