-- ===== src/Agui/TokenUsage/Examples.antt =====
-- Aggregation of token usage on small inputs: a test, and a use of the theorem.
use adk_go_pkg.Base.{ℕ, Option, none, some, List, [], ◌∷◌, Bytes, bytes, ◌≡◌, arith, map}
use adk_go_pkg.Agui.TokenUsage.{TokenUsage, aggregate_token_usage}
use adk_go_pkg.Agui.TokenUsage.Report.{summary, firsts, aggregate_token_usage_lem}

abbrev usage : Bytes → Bytes → Option ℕ → TokenUsage
usage provider model input = record {
  provider = provider;
  model = model;
  input_tokens = input;
  output_tokens = none;
  total_tokens = some 1;
  reasoning_tokens = none;
  cached_input_tokens = none;
}

abbrev three : List TokenUsage
three =
    usage (bytes "a") (bytes "m") (some 3)
    ∷ usage (bytes "b") (bytes "m") none
    ∷ usage (bytes "a") (bytes "m") (some 4)
    ∷ []

aggregate_token_usage_lem_example :
    aggregate_token_usage three ≡ map (summary three) (firsts [] three)
aggregate_token_usage_lem_example = aggregate_token_usage_lem three (ground arith)
