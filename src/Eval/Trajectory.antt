-- ===== src/Eval/Trajectory.antt =====
-- eval/trajectory_evaluator.go: tool calls that an agent made against those that it should make.
pub mod Matching
pub mod AnyOrder
mod Examples
use adk_go_pkg.Base.{
  ℕ, zero, suc, ◌+◌, Bool, true, false, ◌&&◌, Option, none, some, List, [], ◌∷◌, ◌++◌, Bytes, bytes,
  str_eq, length, ◌==◌, if◌then◌else◌,
}
use adk_go_pkg.Base.Int.{int_eq}
use adk_go_pkg.Base.Float.{Float64}
use adk_go_pkg.Value.{Value, Items, Fields, get, count_fields, count_items}
use adk_go_pkg.Eval.Types.{
  FunctionCall, Invocation, EvalStatus, not_evaluated, PerInvocationResult, EvaluationResult,
  get_all_tool_calls, get_eval_status,
}

pub data MatchType : Type 0 where
  match_exact match_in_order match_any_order : MatchType
  -- Any other text, for which the comparison takes EXACT.
  match_other : Bytes → MatchType

-- A criterion that may be a ToolTrajectoryCriterion.
pub data Criterion : Type 0 where
  tool_trajectory : MatchType → Criterion
  other_criterion : Criterion

pub record EvalMetric (F : Type 0) : Type 0 where
  pub criterion : Option Criterion
  pub threshold : Option F

pub record TrajectoryEvaluator (F : Type 0) : Type 0 where
  pub eval_metric : EvalMetric F
  pub match_type : MatchType

unfoldable pub new_trajectory_evaluator : {F : Type 0} → EvalMetric F → TrajectoryEvaluator F
new_trajectory_evaluator m = record {
  eval_metric = m;
  match_type = elim m.criterion [
    | none ↦ match_exact
    | some c ↦ elim c [ tool_trajectory t ↦ t | other_criterion ↦ match_exact ]
  ];
}

-- make([]bool, len(actual)), beside the calls.
abbrev pub unmarked : {A : Type 0} → List A → List (Bool × A)
unmarked [] = []
unmarked (a ∷ as') = (false, a) ∷ unmarked as'

-- The three loops, over the test that compares two calls.
module _ {A : Type 0} (eq : A → A → Bool) where
  -- compareExact; the lengths are compared before the loop reads `actual[i]`.
  exact_from : List A → List A → Bool
  exact_from _ [] = true
  exact_from [] (_ ∷ _) = false
  exact_from (a ∷ as') (e ∷ es) = if eq a e then exact_from as' es else false

  pub exact : List A → List A → Bool
  unfolding exact_from
  exact actual expected = length actual == length expected && exact_from actual expected

  -- The loop of compareInOrder: what is left of `expected` from `expIdx` on.
  in_order_rest : List A → List A → List A
  in_order_rest [] es = es
  in_order_rest (_ ∷ _) [] = []
  in_order_rest (a ∷ as') (e ∷ es) = in_order_rest as' (if eq a e then es else e ∷ es)

  pub in_order : List A → List A → Bool
  unfolding in_order_rest
  in_order actual expected = length (in_order_rest actual expected) == 0

  -- The inner loop of compareAnyOrder: `used[i]` stands beside `actual[i]`, and the first unused
  -- match is marked. `none` is `!found`.
  mark_first : A → List (Bool × A) → Option (List (Bool × A))
  mark_first e [] = none
  mark_first e ((true, a) ∷ as') = elim (mark_first e as') [
    | none ↦ none
    | some r ↦ some ((true, a) ∷ r)
  ]
  mark_first e ((false, a) ∷ as') =
      if eq a e
      then some ((true, a) ∷ as')
      else elim (mark_first e as') [ none ↦ none | some r ↦ some ((false, a) ∷ r) ]

  any_order_from : List (Bool × A) → List A → Bool
  unfolding mark_first
  any_order_from marks [] = true
  any_order_from marks (e ∷ es) = elim (mark_first e marks) [
    | none ↦ false
    | some marks' ↦ any_order_from marks' es
  ]

  pub any_order : List A → List A → Bool
  unfolding any_order_from
  any_order actual expected = any_order_from (unmarked actual) expected

-- `sprint_other` is fmt.Sprintf("%v", v) at the values that are neither nil, a string nor a bool.
module _ (float : Float64) (sprint_other : Value float.Carrier → Bytes) where
  open float use {Carrier as F, eq as float_eq, add, div, of_int}

  pub sprint : Value F → Bytes
  sprint Value.null = bytes "<nil>"
  sprint (Value.string s) = s
  sprint (Value.bool true) = bytes "true"
  sprint (Value.bool false) = bytes "false"
  sprint v = sprint_other v

  -- valuesEqual, with the loops of mapsEqual and of its slice case.
  mutual
    unfolding sprint

    pub values_equal : Value F → Value F → Bool
    values_equal (Value.string s) (Value.string t) = str_eq s t
    values_equal (Value.string _) _ = false
    values_equal (Value.float64 x) (Value.float64 y) = float_eq x y
    values_equal (Value.float64 _) _ = false
    values_equal (Value.int i) (Value.int j) = int_eq i j
    values_equal (Value.int _) _ = false
    values_equal (Value.bool b) (Value.bool c) = if b then c else if c then false else true
    values_equal (Value.bool _) _ = false
    values_equal (Value.map m) (Value.map n) = count_fields m == count_fields n && fields_in m n
    values_equal (Value.map _) _ = false
    values_equal (Value.list xs) (Value.list ys) =
        count_items xs == count_items ys && items_equal xs ys
    values_equal (Value.list _) _ = false
    values_equal Value.null b = str_eq (sprint Value.null) (sprint b)
    values_equal (Value.other k) b = str_eq (sprint (Value.other k)) (sprint b)

    pub fields_in : Fields F → Fields F → Bool
    fields_in Fields.end n = true
    fields_in (Fields.field k v m) n = elim (get k n) [
      | none ↦ false
      | some w ↦ if values_equal v w then fields_in m n else false
    ]

    pub items_equal : Items F → Items F → Bool
    items_equal Items.nil ys = true
    items_equal (Items.cons x xs) Items.nil = false
    items_equal (Items.cons x xs) (Items.cons y ys) =
        if values_equal x y then items_equal xs ys else false

  pub maps_equal : Fields F → Fields F → Bool
  maps_equal m n = count_fields m == count_fields n && fields_in m n

  pub function_calls_equal : FunctionCall F → FunctionCall F → Bool
  unfolding maps_equal
  function_calls_equal a b = if str_eq a.name b.name then maps_equal a.args b.args else false

  -- The switch of compareToolCalls, and the score of a comparison.
  pub compare_by : MatchType → List (FunctionCall F) → List (FunctionCall F) → Bool
  unfolding exact in_order any_order
  compare_by match_exact = exact function_calls_equal
  compare_by match_in_order = in_order function_calls_equal
  compare_by match_any_order = any_order function_calls_equal
  compare_by (match_other _) = exact function_calls_equal

  pub compare_tool_calls : TrajectoryEvaluator F → List (FunctionCall F) → List (FunctionCall F) → F
  unfolding compare_by
  compare_tool_calls e [] [] = of_int 1
  compare_tool_calls e (_ ∷ _) [] = of_int 0
  compare_tool_calls e actual (x ∷ expected) =
      if compare_by e.match_type actual (x ∷ expected) then of_int 1 else of_int 0

  -- The body of the loop of EvaluateInvocations, without the sums.
  pub evaluate_one :
      TrajectoryEvaluator F → Invocation F → Option (Invocation F) → PerInvocationResult F
  unfolding compare_tool_calls
  evaluate_one e actual none = record {
    actual_invocation = actual;
    expected_invocation = none;
    score = none;
    eval_status = not_evaluated;
  }
  evaluate_one e actual (some expected) =
      let score = compare_tool_calls e (get_all_tool_calls actual) (get_all_tool_calls expected) in
      record {
        actual_invocation = actual;
        expected_invocation = some expected;
        score = some score;
        eval_status = get_eval_status float (some score) e.eval_metric.threshold;
      }
