-- ===== src/Eval/Rouge/Examples.antt =====
-- The ROUGE metric on small texts: a test, and uses of the theorems.
use adk_go_pkg.Base.{
  ℕ, Bool, ◌&&◌, none, some, List, [], ◌∷◌, Bytes, bytes, is_empty, leb, ◌==◌, if◌then◌else◌, ◌≡◌,
  refl,
}
use adk_go_pkg.Base.Map.{lookup}
use adk_go_pkg.Eval.Rouge.{Word, tokenize, count_ngrams}
use adk_go_pkg.Eval.Rouge.Words.{Tokens, tokenize_lem}
use adk_go_pkg.Eval.Rouge.Counts.{occurrences, lookup-count_ngrams}

-- Lower-case letters of ASCII.
abbrev letter : ℕ → Bool
letter r = leb 97 r && leb r 122

abbrev same_runes : Bytes → List ℕ
same_runes s = s

abbrev words : List Word
words = bytes "to" ∷ bytes "be" ∷ bytes "to" ∷ []

two_tokens : tokenize letter same_runes (bytes "to, be") ≡ bytes "to" ∷ bytes "be" ∷ []
unfolding tokenize is_empty
two_tokens = refl

tokenize_lem_example : Tokens letter (bytes "to be") (tokenize letter same_runes (bytes "to be"))
tokenize_lem_example = tokenize_lem letter same_runes (bytes "to be")

lookup-count_ngrams_example :
    lookup (bytes "to") (count_ngrams 1 words)
    ≡ (if occurrences (bytes "to") words == 0 then none else some (occurrences (bytes "to") words))
lookup-count_ngrams_example = lookup-count_ngrams (bytes "to") words
