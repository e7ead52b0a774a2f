-- ===== src/Artifact/Versions/Decimal.antt =====
-- artifact/file/file.go: reading the name of a version's directory.
use Prim.Native.Nat.{◌≤◌, ◌<◌}
use adk_go_pkg.Base.{
  ℕ, zero, suc, ◌+◌, ◌/◌, ◌%◌, true, ◌&&◌, some, [], ◌∷◌, Bytes, decimal, digits_from, ltb, leb,
  ◌≡◌, ap, sym, ◌∙◌, inl, inr, Bool-cases, arith,
}
use adk_go_pkg.Base.Int.{pos}
use adk_go_pkg.Artifact.Versions.{max_int64, format_int, digits_value, parse_digits, parse_int}

digits_value-digits_from :
    (fuel n : ℕ) (rest : Bytes)
    → n < fuel
    → digits_value 0 (digits_from fuel n rest) ≡ digits_value n rest
unfolding digits_from digits_value
digits_value-digits_from zero n rest h = absurd (omega arith)
digits_value-digits_from (suc fuel) n rest h =
    ground (arith, digits_value-digits_from fuel (n / 10) ((b'0' + n % 10) ∷ rest))

-- A list that begins with a digit.
abbrev IsNumeral : Bytes → Type 0
IsNumeral s = (c : ℕ) × ((t : Bytes) × ((s ≡ c ∷ t) × ((leb b'0' c && leb c b'9') ≡ true)))

digits_from-IsNumeral : (fuel n : ℕ) (rest : Bytes) → n < fuel → IsNumeral (digits_from fuel n rest)
unfolding digits_from
digits_from-IsNumeral zero n rest h = absurd (omega arith)
digits_from-IsNumeral (suc fuel) n rest h = elim (Bool-cases (ltb n 10)) [
  | inl small ↦ (b'0' + n, (rest, (ground arith, ground arith)))
  | inr large ↦
      let (c, (t, (e, d))) =
        digits_from-IsNumeral fuel (n / 10) ((b'0' + n % 10) ∷ rest) (ground arith) in
      (c, (t, (ground arith, d)))
]

parse_digits-decimal : (n : ℕ) → parse_digits (decimal n) ≡ some n
unfolding parse_digits decimal digits_value
parse_digits-decimal n =
    let (c, (t, (e, d))) = digits_from-IsNumeral (suc n) n [] (omega arith) in
    let v = digits_value-digits_from (suc n) n [] (omega arith) in ground (arith, v)

parse_int_numeral :
    (c : ℕ) (t : Bytes) (n : ℕ)
    → (leb b'0' c && leb c b'9') ≡ true
    → parse_digits (c ∷ t) ≡ some n
    → n ≤ max_int64
    → parse_int (c ∷ t) ≡ some (pos n)
unfolding parse_int
parse_int_numeral c t n d p h = ground arith

pub parse_int-format_int : (n : ℕ) → n ≤ max_int64 → parse_int (format_int (pos n)) ≡ some (pos n)
unfolding format_int decimal
parse_int-format_int n h =
    let (c, (t, (e, d))) = digits_from-IsNumeral (suc n) n [] (omega arith) in
    rw e (parse_int_numeral c t n d (ap parse_digits (sym e) ∙ parse_digits-decimal n) h)
