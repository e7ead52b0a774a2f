-- ===== src/Eval/Trajectory/Examples.antt =====
-- The trajectory evaluator on small inputs: tests, and uses of the theorems.
use adk_go_pkg.Base.{
  ℕ, ◌+◌, Bool, true, false, Option, none, some, [], ◌∷◌, Bytes, bytes, str_eq, ◌==◌, leb, ◌≡◌, ◌↔◌,
  refl, arith,
}
use adk_go_pkg.Base.Float.{Float64}
use adk_go_pkg.Base.Int.{pos, int_eq}
use adk_go_pkg.Value.{Value, Fields, count_fields, get}
use adk_go_pkg.Eval.Types.{FunctionCall, Invocation, PerInvocationResult, legacy}
use adk_go_pkg.Eval.Scoring.{
  evaluate_invocations, scored, scores, verdict, evaluate_invocations_lem,
}
use adk_go_pkg.Eval.Trajectory.{
  match_in_order, TrajectoryEvaluator, exact, in_order, any_order, function_calls_equal,
  values_equal, evaluate_one,
}
use adk_go_pkg.Eval.Trajectory.Matching.{Embeds, in_order_iff}
use adk_go_pkg.Eval.Trajectory.AnyOrder.{
  Interchangeable, Covers, any_order_iff, match_types_ordered,
}

-- Whole numbers stand for the floating-point ones.
abbrev whole : Float64
whole = record { Carrier = ℕ; eq = ◌==◌; le = leb; add = ◌+◌; div = λ a b. a; of_int = λ n. n }

abbrev print_other : Value ℕ → Bytes
print_other v = bytes "?"

abbrev call_of : Bytes → ℕ → FunctionCall ℕ
call_of name n = record {
  id = [];
  name = name;
  args = Fields.field (bytes "n") (Value.int (pos n)) Fields.end;
}

abbrev same : FunctionCall ℕ → FunctionCall ℕ → Bool
same = function_calls_equal whole print_other

abbrev find_one : FunctionCall ℕ
find_one = call_of (bytes "find") 1

abbrev find_two : FunctionCall ℕ
find_two = call_of (bytes "find") 2

abbrev book : FunctionCall ℕ
book = call_of (bytes "book") 1

in_order_iff_example :
    (in_order same (find_one ∷ find_two ∷ book ∷ []) (find_one ∷ book ∷ []) ≡ true)
    ↔ Embeds same (find_one ∷ find_two ∷ book ∷ []) (find_one ∷ book ∷ [])
in_order_iff_example = in_order_iff same (find_one ∷ find_two ∷ book ∷ []) (find_one ∷ book ∷ [])

calls-Interchangeable : Interchangeable same (book ∷ find_one ∷ []) (find_one ∷ book ∷ [])
unfolding function_calls_equal str_eq int_eq count_fields get
calls-Interchangeable = (
  (
    ((λ m n. absurd (ground arith)), ((λ m n. absurd (ground arith)), tt)),
    (((λ m n. absurd (ground arith)), ((λ m n. (refl, tt)), tt)), tt),
  ),
  ((((λ m n. tt), ((λ m n. tt), tt)), (((λ m n. tt), ((λ m n. tt), tt)), tt)), tt),
)

any_order_iff_example :
    (any_order same (book ∷ find_one ∷ []) (find_one ∷ book ∷ []) ≡ true)
    ↔ Covers same (book ∷ find_one ∷ []) (find_one ∷ book ∷ [])
any_order_iff_example =
    any_order_iff same (book ∷ find_one ∷ []) (find_one ∷ book ∷ []) calls-Interchangeable

match_types_ordered_example :
    (exact same (book ∷ find_one ∷ []) (find_one ∷ book ∷ []) ≡ true
      → in_order same (book ∷ find_one ∷ []) (find_one ∷ book ∷ []) ≡ true)
    × (Interchangeable same (book ∷ find_one ∷ []) (find_one ∷ book ∷ [])
        → in_order same (book ∷ find_one ∷ []) (find_one ∷ book ∷ []) ≡ true
        → any_order same (book ∷ find_one ∷ []) (find_one ∷ book ∷ []) ≡ true)
match_types_ordered_example = match_types_ordered same (book ∷ find_one ∷ []) (find_one ∷ book ∷ [])

abbrev evaluator : TrajectoryEvaluator ℕ
evaluator = record {
  eval_metric = record { criterion = none; threshold = some 1 };
  match_type = match_in_order;
}

abbrev asked : Invocation ℕ
asked = record {
  invocation_id = bytes "1";
  final_response = none;
  intermediate_data = some (legacy (some (find_one ∷ book ∷ [])) none);
}

abbrev booked : Invocation ℕ
booked = record {
  invocation_id = bytes "2";
  final_response = none;
  intermediate_data = some (legacy (some (book ∷ [])) none);
}

abbrev one : Invocation ℕ → Option (Invocation ℕ) → PerInvocationResult ℕ
one = evaluate_one whole print_other evaluator

evaluate_invocations_lem_example :
    evaluate_invocations whole one (some 1) (asked ∷ booked ∷ []) (booked ∷ [])
    ≡ verdict whole
        (some 1)
        (scores whole (scored whole one (asked ∷ booked ∷ []) (booked ∷ [])))
        (scored whole one (asked ∷ booked ∷ []) (booked ∷ []))
evaluate_invocations_lem_example =
    evaluate_invocations_lem whole one (some 1) (asked ∷ booked ∷ []) (booked ∷ [])

-- A missing value equals the text by which it prints, and not the other way round.
null_equals_text :
    (values_equal whole print_other Value.null (Value.string (bytes "<nil>")) ≡ true)
    × (values_equal whole print_other (Value.string (bytes "<nil>")) Value.null ≡ false)
unfolding values_equal str_eq
null_equals_text = (refl, refl)

abbrev with_value : Value ℕ → FunctionCall ℕ
with_value v = record { id = []; name = bytes "f"; args = Fields.field (bytes "n") v Fields.end }

-- So ANY_ORDER can fail where each expected call has a match of its own.
greedy_loses :
    any_order same
      (with_value Value.null ∷ with_value (Value.string (bytes "<nil>")) ∷ [])
      (with_value (Value.string (bytes "<nil>")) ∷ with_value Value.null ∷ [])
    ≡ false
unfolding any_order function_calls_equal values_equal str_eq count_fields get
greedy_loses = refl
