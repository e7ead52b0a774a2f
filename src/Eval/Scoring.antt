-- ===== src/Eval/Scoring.antt =====
-- The loop that EvaluateInvocations of eval/trajectory_evaluator.go and of eval/rouge_evaluator.go
-- share word for word: score the invocations in turn, and average the scores that there are.
use adk_go_pkg.Base.{
  ℕ, ◌+◌, ◌==◌, Option, none, some, List, [], ◌∷◌, ◌++◌, if◌then◌else◌, length, ◌≡◌, refl, arith,
  append-nil, append_assoc, ◌∙◌, Option-cases, inl, inr,
}
use native.Mathlib.Nat.{zero-add, add-zero, add_assoc}
use native.Mathlib.Numerals.{one-add}
use adk_go_pkg.Base.Float.{Float64}
use adk_go_pkg.Eval.Types.{
  Invocation, not_evaluated, PerInvocationResult, EvaluationResult, get_eval_status,
}

-- The variables of the loop.
pub record Tally (F : Type 0) : Type 0 where
  pub results : List (PerInvocationResult F)
  pub total_score : F
  pub evaluated_count : ℕ

module _ (float : Float64) where
  open float use {Carrier as F, add, div, of_int}

  -- `append(perInvocationResults, result)`, with the sums if the invocation has a score.
  unfoldable pub tally_one : PerInvocationResult F → Tally F → Tally F
  tally_one r t = elim r.score [
    | none ↦ record t { results = t.results ++ r ∷ [] }
    | some x ↦ record {
      results = t.results ++ r ∷ [];
      total_score = add t.total_score x;
      evaluated_count = t.evaluated_count + 1;
    }
  ]

  -- What stands behind the loop.
  unfoldable pub conclude : Option F → Tally F → EvaluationResult F
  conclude threshold t =
      if t.evaluated_count == 0
      then record {
        overall_score = none;
        overall_eval_status = not_evaluated;
        per_invocation_results = t.results;
      }
      else let average = div t.total_score (of_int t.evaluated_count) in
        record {
          overall_score = some average;
          overall_eval_status = get_eval_status float (some average) threshold;
          per_invocation_results = t.results;
        }

  -- The scores that there are, and their sum from the left.
  abbrev pub scores : List (PerInvocationResult F) → List F
  scores [] = []
  scores (r ∷ rs) = elim r.score [ none ↦ scores rs | some x ↦ x ∷ scores rs ]

  abbrev pub sum_from : F → List F → F
  sum_from z [] = z
  sum_from z (x ∷ xs) = sum_from (add z x) xs

  -- The verdict over the scores: none without a score, else that of the average.
  abbrev pub verdict : Option F → List F → List (PerInvocationResult F) → EvaluationResult F
  verdict threshold [] rs = record {
    overall_score = none;
    overall_eval_status = not_evaluated;
    per_invocation_results = rs;
  }
  verdict threshold (x ∷ xs) rs =
      let average = div (sum_from (of_int 0) (x ∷ xs)) (of_int (length (x ∷ xs))) in
      record {
        overall_score = some average;
        overall_eval_status = get_eval_status float (some average) threshold;
        per_invocation_results = rs;
      }

  -- The tally after some results.
  abbrev tallied : List (PerInvocationResult F) → Tally F → Tally F
  tallied rs t = record {
    results = t.results ++ rs;
    total_score = sum_from t.total_score (scores rs);
    evaluated_count = t.evaluated_count + length (scores rs);
  }

  conclude_lem :
      (threshold : Option F) (xs : List F) (rs : List (PerInvocationResult F))
      → conclude threshold (record {
        results = rs;
        total_score = sum_from (of_int 0) xs;
        evaluated_count = 0 + length xs;
      })
        ≡ verdict threshold xs rs
  unfolding conclude
  conclude_lem threshold [] rs = refl
  conclude_lem threshold (x ∷ xs) rs = rw zero-add (ground arith)

  tallied-cons :
      (r : PerInvocationResult F) (rs : List (PerInvocationResult F)) (t : Tally F)
      → tallied rs (tally_one r t) ≡ tallied (r ∷ rs) t
  unfolding tally_one
  tallied-cons r rs t = elim (Option-cases r.score) [
    | inl e ↦ rw (e, append_assoc)
    | inr (x, e) ↦ rw (e, append_assoc, add_assoc, one-add)
  ]

  module _ (one : Invocation F → Option (Invocation F) → PerInvocationResult F) where
    unfoldable pub evaluate_from : List (Invocation F) → List (Invocation F) → Tally F → Tally F
    unfolding tally_one
    evaluate_from [] expected t = t
    evaluate_from (a ∷ as') [] t = evaluate_from as' [] (tally_one (one a none) t)
    evaluate_from (a ∷ as') (x ∷ xs) t = evaluate_from as' xs (tally_one (one a (some x)) t)

    unfoldable pub evaluate_invocations :
        Option F → List (Invocation F) → List (Invocation F) → EvaluationResult F
    unfolding evaluate_from conclude
    evaluate_invocations threshold actual expected = conclude threshold (
        evaluate_from actual expected
          (record { results = []; total_score = of_int 0; evaluated_count = 0 }))

    -- The results in the order of the actual invocations, each beside the expected one, if any.
    abbrev pub scored : List (Invocation F) → List (Invocation F) → List (PerInvocationResult F)
    scored [] expected = []
    scored (a ∷ as') [] = one a none ∷ scored as' []
    scored (a ∷ as') (x ∷ xs) = one a (some x) ∷ scored as' xs

    evaluate_from_lem :
        (actual expected : List (Invocation F)) (t : Tally F)
        → evaluate_from actual expected t ≡ tallied (scored actual expected) t
    unfolding evaluate_from
    evaluate_from_lem [] expected t = rw (append-nil, add-zero)
    evaluate_from_lem (a ∷ as') [] t =
        evaluate_from_lem as' [] (tally_one (one a none) t)
        ∙ tallied-cons (one a none) (scored as' []) t
    evaluate_from_lem (a ∷ as') (x ∷ xs) t =
        evaluate_from_lem as' xs (tally_one (one a (some x)) t)
        ∙ tallied-cons (one a (some x)) (scored as' xs) t

    -- EvaluateInvocations returns one result for each actual invocation, in order, each against the
    -- expected invocation at its place if there is one; the overall score is the average of the
    -- scores that there are, and without any score there is none and no verdict.
    pub evaluate_invocations_lem :
        (threshold : Option F) (actual expected : List (Invocation F))
        → evaluate_invocations threshold actual expected
          ≡ verdict threshold (scores (scored actual expected)) (scored actual expected)
    unfolding evaluate_invocations
    evaluate_invocations_lem threshold actual expected =
        rw evaluate_from_lem
          (conclude_lem threshold (scores (scored actual expected)) (scored actual expected))
