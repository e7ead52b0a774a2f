-- ===== src/Artifact/Versions.antt =====
-- artifact/file/file.go: version numbers, which are int64, and the names of their directories.
pub mod Order
pub mod Decimal
use adk_go_pkg.Base.{
  ℕ, zero, suc, ◌+◌, ◌-◌, ◌*◌, ◌^◌, Bool, true, false, ◌&&◌, Option, none, some, List, [], ◌∷◌,
  ◌++◌, Bytes, bytes, decimal, ltb, leb, ◌==◌, if◌then◌else◌,
}
use adk_go_pkg.Base.Int.{ℤ, pos, negsuc}

abbrev pub max_int64 : ℕ
max_int64 = 9_223_372_036_854_775_807

-- v + 1, which wraps around.
unfoldable pub succ64 : ℤ → ℤ
succ64 (pos n) = if n == max_int64 then negsuc max_int64 else pos (n + 1)
succ64 (negsuc zero) = pos 0
succ64 (negsuc (suc n)) = negsuc n

-- strconv.FormatInt
unfoldable pub format_int : ℤ → Bytes
unfolding decimal
format_int (pos n) = decimal n
format_int (negsuc n) = bytes "-" ++ decimal (n + 1)

unfoldable pub digits_value : ℕ → Bytes → Option ℕ
digits_value acc [] = some acc
digits_value acc (c ∷ s) =
    if leb b'0' c && leb c b'9' then digits_value (acc * 10 + (c - b'0')) s else none

-- At least one digit.
unfoldable pub parse_digits : Bytes → Option ℕ
unfolding digits_value
parse_digits [] = none
parse_digits (c ∷ s) = digits_value 0 (c ∷ s)

abbrev non_negative : Option ℕ → Option ℤ
non_negative none = none
non_negative (some n) = if leb n max_int64 then some (pos n) else none

abbrev negated : Option ℕ → Option ℤ
negated none = none
negated (some zero) = some (pos 0)
negated (some (suc n)) = if leb n max_int64 then some (negsuc n) else none

-- strconv.ParseInt with base 10 and 64 bits.
unfoldable pub parse_int : Bytes → Option ℤ
unfolding parse_digits
parse_int [] = none
parse_int (c ∷ s) =
    if c == b'-'
    then negated (parse_digits s)
    else if c == b'+'
    then non_negative (parse_digits s)
    else non_negative (parse_digits (c ∷ s))

unfoldable pub int_leb : ℤ → ℤ → Bool
int_leb (pos a) (pos b) = leb a b
int_leb (pos a) (negsuc b) = false
int_leb (negsuc a) (pos b) = true
int_leb (negsuc a) (negsuc b) = leb b a

unfoldable pub insert_version : ℤ → List ℤ → List ℤ
unfolding int_leb
insert_version v [] = v ∷ []
insert_version v (w ∷ ws) =
    let rest = insert_version v ws in if int_leb v w then v ∷ w ∷ ws else w ∷ rest

-- sort.Slice in ascending order.
unfoldable pub sort_versions : List ℤ → List ℤ
unfolding insert_version
sort_versions [] = []
sort_versions (v ∷ vs) = insert_version v (sort_versions vs)

unfoldable pub last_version : List ℤ → Option ℤ
last_version [] = none
last_version (v ∷ []) = some v
last_version (v ∷ w ∷ ws) = last_version (w ∷ ws)

-- The version that Save assigns.
unfoldable pub next_version : List ℤ → ℤ
unfolding last_version succ64
next_version vs = elim (last_version vs) [ none ↦ pos 0 | some v ↦ succ64 v ]
