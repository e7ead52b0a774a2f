-- ===== src/Agui/ToolNames/Numbered.antt =====
-- agui/mcp_naming.go: length, characters and numbers of the names that are tried.
use Prim.Native.Nat.{◌≤◌, ◌<◌}
use adk_go_pkg.Base.{
  ℕ, zero, suc, ◌+◌, ◌-◌, ◌*◌, ◌/◌, ◌%◌, ◌^◌, Bool, true, ◌&&◌, List, [], ◌∷◌, ◌++◌, Bytes, bytes,
  decimal, digits_from, length, length-append, take, ◌==◌, if◌then◌else◌, ◌≡◌, refl, ◌∙◌, ap, sym,
  arith,
}
use adk_go_pkg.Agui.ToolNames.{
  max_tool_name_length, is_allowed, replace_others, trim_left, trim_right, sanitize_segment,
  numbered, base_name,
}

-- The number behind the last "_".
unfoldable last_number : ℕ → Bytes → ℕ
last_number acc [] = acc
last_number acc (c ∷ s) =
    if c == b'_' then last_number 0 s else last_number (acc * 10 + (c - b'0')) s

last_number-append : (acc : ℕ) (s t : Bytes) → last_number acc (s ++ b'_' ∷ t) ≡ last_number 0 t
unfolding last_number
last_number-append acc [] t = ground arith
last_number-append acc (c ∷ s) t =
    ground (arith, last_number-append 0 s t, last_number-append (acc * 10 + (c - b'0')) s t)

last_number-digits_from :
    (fuel n : ℕ) (rest : Bytes)
    → n < fuel
    → last_number 0 (digits_from fuel n rest) ≡ last_number n rest
unfolding digits_from last_number
last_number-digits_from zero n rest h = absurd (omega arith)
last_number-digits_from (suc fuel) n rest h =
    ground (arith, last_number-digits_from fuel (n / 10) ((b'0' + n % 10) ∷ rest))

numbered_number : (base : Bytes) (i : ℕ) → last_number 0 (numbered base i) ≡ i
unfolding numbered decimal last_number
numbered_number base i =
    let d = last_number-digits_from (suc i) i [] (omega arith) in
    let n = max_tool_name_length - length (bytes "_" ++ decimal i) in
    ground (
      arith,
      d,
      last_number-append 0 base (decimal i),
      last_number-append 0 (take n base) (decimal i),
    )

pub numbered_injective : (base : Bytes) (i j : ℕ) → numbered base i ≡ numbered base j → i ≡ j
numbered_injective base i j e =
    sym (numbered_number base i) ∙ ap (last_number 0) e ∙ numbered_number base j

length-take : (n : ℕ) (s : Bytes) → length (take n s) ≤ n
length-take zero s = omega arith
length-take (suc n) [] = omega arith
length-take (suc n) (c ∷ s) = omega (arith, length-take n s)

length-digits_from :
    (k fuel n : ℕ) (rest : Bytes)
    → n < 10 ^ suc k
    → length (digits_from fuel n rest) ≤ suc k + length rest
unfolding digits_from
length-digits_from k zero n rest h = omega arith
length-digits_from zero (suc fuel) n rest h = ground arith
length-digits_from (suc k) (suc fuel) n rest h =
    let shorter : n / 10 < 10 ^ suc k = omega arith in
    ground (arith, length-digits_from k fuel (n / 10) ((b'0' + n % 10) ∷ rest) shorter)

pub length-numbered :
    (base : Bytes) (i : ℕ) → i < 10 ^ 19 → length (numbered base i) ≤ max_tool_name_length
unfolding numbered decimal
length-numbered base i h =
    let suffix = bytes "_" ++ decimal i in
    let d = length-digits_from 18 (suc i) i [] h in
    let n = max_tool_name_length - length suffix in
    ground
      (arith, d, length-append base suffix, length-append (take n base) suffix, length-take n base)

pub length-base_name :
    (runes : Bytes → List ℕ) (server tool : Bytes)
    → length (base_name runes server tool) ≤ max_tool_name_length
unfolding base_name
length-base_name runes server tool = length-take max_tool_name_length (
    bytes "mcp__" ++ (sanitize_segment runes server ++ (bytes "__" ++ sanitize_segment runes tool)))

-- All characters are in [a-zA-Z0-9_-].
unfoldable pub all_allowed : Bytes → Bool
all_allowed [] = true
all_allowed (c ∷ s) = is_allowed c && all_allowed s

all_allowed-append :
    (s t : Bytes) → all_allowed s ≡ true → all_allowed t ≡ true → all_allowed (s ++ t) ≡ true
unfolding all_allowed
all_allowed-append [] t h g = g
all_allowed-append (c ∷ s) t h g = ground (arith, all_allowed-append s t)

all_allowed-take : (n : ℕ) (s : Bytes) → all_allowed s ≡ true → all_allowed (take n s) ≡ true
unfolding all_allowed
all_allowed-take zero s h = refl
all_allowed-take (suc n) [] h = refl
all_allowed-take (suc n) (c ∷ s) h = ground (arith, all_allowed-take n s)

all_allowed-replace_others : (text : List ℕ) → all_allowed (replace_others text) ≡ true
unfolding all_allowed replace_others
all_allowed-replace_others [] = refl
all_allowed-replace_others (r ∷ text) = ground (arith, all_allowed-replace_others text)

all_allowed-trim_left : (s : Bytes) → all_allowed s ≡ true → all_allowed (trim_left s) ≡ true
unfolding all_allowed trim_left
all_allowed-trim_left [] h = refl
all_allowed-trim_left (c ∷ s) h = ground (arith, all_allowed-trim_left s)

all_allowed-trim_right : (s : Bytes) → all_allowed s ≡ true → all_allowed (trim_right s) ≡ true
unfolding all_allowed trim_right
all_allowed-trim_right [] h = refl
all_allowed-trim_right (c ∷ s) h = ground (arith, all_allowed-trim_right s)

all_allowed-sanitize_segment :
    (runes : Bytes → List ℕ) (s : Bytes) → all_allowed (sanitize_segment runes s) ≡ true
unfolding sanitize_segment
all_allowed-sanitize_segment runes s =
    let r = replace_others (runes s) in
    all_allowed-trim_right (trim_left r)
      (all_allowed-trim_left r (all_allowed-replace_others (runes s)))

pub all_allowed-base_name :
    (runes : Bytes → List ℕ) (server tool : Bytes)
    → all_allowed (base_name runes server tool) ≡ true
unfolding base_name all_allowed
all_allowed-base_name runes server tool =
    let s = sanitize_segment runes server in
    let t = sanitize_segment runes tool in
    let st =
      all_allowed-append s (bytes "__" ++ t) (all_allowed-sanitize_segment runes server)
        (all_allowed-append (bytes "__") t refl (all_allowed-sanitize_segment runes tool)) in
    all_allowed-take max_tool_name_length (bytes "mcp__" ++ (s ++ (bytes "__" ++ t)))
      (all_allowed-append (bytes "mcp__") (s ++ (bytes "__" ++ t)) refl st)

all_allowed-digits_from :
    (fuel n : ℕ) (rest : Bytes)
    → all_allowed rest ≡ true
    → all_allowed (digits_from fuel n rest) ≡ true
unfolding digits_from all_allowed
all_allowed-digits_from zero n rest h = h
all_allowed-digits_from (suc fuel) n rest h =
    ground (arith, all_allowed-digits_from fuel (n / 10) ((b'0' + n % 10) ∷ rest))

pub all_allowed-numbered :
    (base : Bytes) (i : ℕ) → all_allowed base ≡ true → all_allowed (numbered base i) ≡ true
unfolding numbered decimal all_allowed
all_allowed-numbered base i h =
    let suffix = bytes "_" ++ decimal i in
    let n = max_tool_name_length - length suffix in
    let d = all_allowed-digits_from (suc i) i [] refl in
    ground (
      arith,
      d,
      all_allowed-append base suffix h,
      all_allowed-append (take n base) suffix,
      all_allowed-take n base h,
    )
