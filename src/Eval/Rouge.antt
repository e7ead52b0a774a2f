-- ===== src/Eval/Rouge.antt =====
-- eval/rouge_evaluator.go: the overlap of words between a final response and the expected one.
-- A text is a list of runes once it is in lower case; `lower` (strings.ToLower and the decoding of
-- UTF-8) and `is_word` (unicode.IsLetter or unicode.IsDigit) are the standard library's.
pub mod Words
pub mod Counts
mod Examples
use adk_go_pkg.Base.{
  ℕ, ◌+◌, Bool, true, false, ◌||◌, ◌&&◌, Option, none, some, List, [], ◌∷◌, ◌++◌, Bytes, is_empty,
  length, take, leb, ◌==◌, if◌then◌else◌,
}
use adk_go_pkg.Base.Map.{Map, lookup, insert}
use adk_go_pkg.Base.Float.{Float64}
use adk_go_pkg.Eval.Types.{
  Part, Content, Invocation, PerInvocationResult, not_evaluated, get_eval_status,
}

abbrev pub Word : Type 0
Word = List ℕ

-- The token that ends, if it is not empty.
abbrev pub flush : Word → List Word
flush current = if is_empty current then [] else current ∷ []

module _ (is_word : ℕ → Bool) where
  -- The loop of tokenize, with the runes since the last token.
  pub tokens_from : Word → List ℕ → List Word
  tokens_from current [] = flush current
  tokens_from current (r ∷ text) =
      let inside = tokens_from (current ++ r ∷ []) text in
      let outside = tokens_from [] text in if is_word r then inside else flush current ++ outside

  unfoldable pub tokenize : (Bytes → List ℕ) → Bytes → List Word
  unfolding tokens_from
  tokenize lower text = tokens_from [] (lower text)

-- strings.Join(tokens, " ")
pub join : List Word → Word
join [] = []
join (w ∷ []) = w
join (w ∷ x ∷ ws) = w ++ 32 ∷ join (x ∷ ws)

pub grams : ℕ → List Word → List Word
unfolding join
grams n [] = []
grams n (w ∷ ws) =
    let rest = grams n ws in if leb n (length (w ∷ ws)) then join (take n (w ∷ ws)) ∷ rest else rest

-- `counts[gram]++`
pub add_gram : Word → Map ℕ → Map ℕ
add_gram g m = elim (lookup g m) [ none ↦ insert g 1 m | some c ↦ insert g (c + 1) m ]

pub count_all : List Word → Map ℕ → Map ℕ
unfolding add_gram
count_all [] m = m
count_all (g ∷ gs) m = count_all gs (add_gram g m)

pub count_ngrams : ℕ → List Word → Map ℕ
unfolding grams count_all
count_ngrams n tokens = if n == 0 then [] else count_all (grams n tokens) []

abbrev pub min : ℕ → ℕ → ℕ
min a b = if leb a b then a else b

-- The loop over the counts of the reference.
pub overlap : Map ℕ → Map ℕ → ℕ
overlap candidate [] = 0
overlap candidate ((g, n) ∷ reference) = elim (lookup g candidate) [
  | none ↦ overlap candidate reference
  | some c ↦ min c n + overlap candidate reference
]

-- `mul` is the product, and `round` rounds to three decimal places.
module _ (float : Float64) (mul : float.Carrier → float.Carrier → float.Carrier)
    (round : float.Carrier → float.Carrier) (is_word : ℕ → Bool) (lower : Bytes → List ℕ) where
  open float use {Carrier as F, eq, add, div, of_int}

  -- The F-measure of an overlap.
  pub f_measure : ℕ → ℕ → ℕ → F
  f_measure shared candidate reference =
      let precision = div (of_int shared) (of_int candidate) in
      let recall = div (of_int shared) (of_int reference) in
      if eq (add precision recall) (of_int 0)
      then of_int 0
      else round (div (mul (mul (of_int 2) precision) recall) (add precision recall))

  pub score_words : List Word → List Word → F
  unfolding count_ngrams overlap f_measure
  score_words [] [] = of_int 1
  score_words [] (_ ∷ _) = of_int 0
  score_words (_ ∷ _) [] = of_int 0
  score_words (c ∷ cs) (r ∷ rs) =
      f_measure (overlap (count_ngrams 1 (c ∷ cs)) (count_ngrams 1 (r ∷ rs))) (length (c ∷ cs))
        (length (r ∷ rs))

  pub rouge1_score : Bytes → Bytes → F
  unfolding tokenize score_words
  rouge1_score candidate reference =
      score_words (tokenize is_word lower candidate) (tokenize is_word lower reference)

  pub part_texts : List (Part F) → Bytes
  part_texts [] = []
  part_texts (p ∷ ps) = p.text ++ part_texts ps

  pub get_text_from_content : Option (Content F) → Bytes
  unfolding part_texts
  get_text_from_content none = []
  get_text_from_content (some c) = part_texts c.parts

  abbrev unscored : Invocation F → Option (Invocation F) → PerInvocationResult F
  unscored actual expected = record {
    actual_invocation = actual;
    expected_invocation = expected;
    score = none;
    eval_status = not_evaluated;
  }

  -- The body of the loop of EvaluateInvocations, without the sums, which Scoring has.
  pub rouge_one : Option F → Invocation F → Option (Invocation F) → PerInvocationResult F
  unfolding rouge1_score get_text_from_content
  rouge_one threshold actual none = unscored actual none
  rouge_one threshold actual (some expected) = elim expected.final_response [
    | none ↦ unscored actual (some expected)
    | some content ↦
        let score =
          rouge1_score (get_text_from_content actual.final_response)
            (get_text_from_content (some content)) in
        record {
          actual_invocation = actual;
          expected_invocation = some expected;
          score = some score;
          eval_status = get_eval_status float (some score) threshold;
        }
  ]
