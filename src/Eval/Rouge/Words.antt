-- ===== src/Eval/Rouge/Words.antt =====
-- The words that tokenize finds in a text.
use adk_go_pkg.Base.{
  ℕ, Bool, true, false, List, [], ◌∷◌, ◌++◌, append-nil, append_assoc, is_empty, ◌≡◌, refl, All,
  All-append, Bool-cases, inl, inr, Bytes,
}
use mathlib.Core.Path.{subst}
use adk_go_pkg.Eval.Rouge.{Word, flush, tokens_from, tokenize}

module _ (is_word : ℕ → Bool) where
  -- A token: it is not empty, and all its runes are letters or digits.
  pub record IsToken (w : Word) : Type 0 where
    pub filled : is_empty w ≡ false
    pub pure : All (λ r. is_word r ≡ true) w

  -- The text is at its end, or at a rune that is no letter or digit.
  abbrev pub Stops : List ℕ → Type 0
  Stops [] = Unit
  Stops (r ∷ text) = is_word r ≡ false

  -- The words of a text: the longest runs of letters and digits, in order.
  pub data Tokens : List ℕ → List Word → Type 0 where
    ends : Tokens [] []
    skips :
        {r : ℕ} {text : List ℕ} {ws : List Word}
        → is_word r ≡ false
        → Tokens text ws
        → Tokens (r ∷ text) ws
    token :
        (w : Word) {text : List ℕ} {ws : List Word}
        → IsToken w
        → Stops text
        → Tokens text ws
        → Tokens (w ++ text) (w ∷ ws)

  flush-Tokens :
      (w : Word) (text : List ℕ) (ws : List Word)
      → All (λ r. is_word r ≡ true) w
      → Stops text
      → Tokens text ws
      → Tokens (w ++ text) (flush w ++ ws)
  unfolding is_empty
  flush-Tokens [] text ws h stop t = t
  flush-Tokens (r ∷ w) text ws h stop t = token (r ∷ w) (record { filled = refl; pure = h }) stop t

  tokens_from-Tokens :
      (current : Word) (text : List ℕ)
      → All (λ r. is_word r ≡ true) current
      → Tokens (current ++ text) (tokens_from is_word current text)
  unfolding tokens_from
  tokens_from-Tokens current [] h =
      subst (Tokens (current ++ [])) (append-nil (flush current))
        (flush-Tokens current [] [] h tt ends)
  tokens_from-Tokens current (r ∷ text) h = elim (Bool-cases (is_word r)) [
    | inl w ↦ rw w (
        subst (λ xs. Tokens xs (tokens_from is_word (current ++ r ∷ []) text))
          (append_assoc current (r ∷ []) text)
          (tokens_from-Tokens (current ++ r ∷ []) text
            (All-append (λ x. is_word x ≡ true) current (r ∷ []) h (w, tt))))
    | inr w ↦ rw w (
        flush-Tokens current (r ∷ text) (tokens_from is_word [] text) h w
          (skips w (tokens_from-Tokens [] text tt)))
  ]

  -- The tokens of a text are the longest runs of letters and digits of the text in lower case, in
  -- order: each rune that is no letter or digit parts two tokens, and nothing else does.
  pub tokenize_lem :
      (lower : Bytes → List ℕ) (text : Bytes) → Tokens (lower text) (tokenize is_word lower text)
  unfolding tokenize
  tokenize_lem lower text = tokens_from-Tokens [] (lower text) tt
