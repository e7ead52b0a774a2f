-- ===== src/Base/Map.antt =====
-- Go's `map[string]V`: an association list without repeated keys. The order of the list is the
-- order in which a `range` loop visits the map; a theorem over every list covers every order.
use mathlib.Core.Path.{◌≡◌, refl}
use mathlib.Core.List.{List, [], ◌∷◌}
use mathlib.Core.Bool.{Bool, true, false, ◌&&◌}
use mathlib.Core.Option.{Option, none, some}
use native.Mathlib.Omega.{arith}
use Prim.Native.Nat.{◌≤◌, ◌+◌}
use adk_go_pkg.Base.Tests.{if◌then◌else◌, not}
use adk_go_pkg.Base.Lists.{length}
use adk_go_pkg.Base.Text.{Bytes, str_eq, str_eq_iff}

abbrev pub Map {ℓ} : Type ℓ → Type ℓ
Map V = List (Bytes × V)

module _ {ℓ} {V : Type ℓ} where
  -- v, ok := m[k]
  unfoldable pub lookup : Bytes → Map V → Option V
  lookup k [] = none
  lookup k ((j, v) ∷ m) = if str_eq j k then some v else lookup k m

  -- m[k] = v
  unfoldable pub insert : Bytes → V → Map V → Map V
  insert k v [] = (k, v) ∷ []
  insert k v ((j, w) ∷ m) = if str_eq j k then (k, v) ∷ m else (j, w) ∷ insert k v m

  -- delete(m, k)
  unfoldable pub delete : Bytes → Map V → Map V
  delete k [] = []
  delete k ((j, w) ∷ m) = if str_eq j k then delete k m else (j, w) ∷ delete k m

  unfoldable pub has_key : Bytes → Map V → Bool
  has_key k [] = false
  has_key k ((j, _) ∷ m) = if str_eq j k then true else has_key k m

  -- No key twice.
  unfoldable pub unique : Map V → Bool
  unfolding has_key
  unique [] = true
  unique ((k, _) ∷ m) = not (has_key k m) && unique m

  pub lookup-insert :
      (k j : Bytes) (v : V) (m : Map V)
      → lookup j (insert k v m) ≡ (if str_eq k j then some v else lookup j m)
  unfolding lookup insert
  lookup-insert k j v [] = refl
  lookup-insert k j v ((i, w) ∷ m) =
      ground (arith, str_eq_iff k j, str_eq_iff i k, str_eq_iff i j, lookup-insert k j v m)

  pub lookup-delete :
      (k j : Bytes) (m : Map V) → lookup j (delete k m) ≡ (if str_eq k j then none else lookup j m)
  unfolding lookup delete
  lookup-delete k j [] = ground arith
  lookup-delete k j ((i, w) ∷ m) =
      ground (arith, str_eq_iff k j, str_eq_iff i k, str_eq_iff i j, lookup-delete k j m)

  pub has_key-insert :
      (k j : Bytes) (v : V) (m : Map V)
      → has_key j (insert k v m) ≡ (if str_eq k j then true else has_key j m)
  unfolding has_key insert
  has_key-insert k j v [] = refl
  has_key-insert k j v ((i, w) ∷ m) =
      ground (arith, str_eq_iff k j, str_eq_iff i k, str_eq_iff i j, has_key-insert k j v m)

  pub has_key-delete :
      (k j : Bytes) (m : Map V)
      → has_key j (delete k m) ≡ (if str_eq k j then false else has_key j m)
  unfolding has_key delete
  has_key-delete k j [] = ground arith
  has_key-delete k j ((i, w) ∷ m) =
      ground (arith, str_eq_iff k j, str_eq_iff i k, str_eq_iff i j, has_key-delete k j m)

  pub unique-insert :
      (k : Bytes) (v : V) (m : Map V) → unique m ≡ true → unique (insert k v m) ≡ true
  unfolding insert unique
  unique-insert k v [] h = refl
  unique-insert k v ((i, w) ∷ m) h =
      ground (arith, str_eq_iff i k, str_eq_iff k i, has_key-insert k i v m, unique-insert k v m)

  pub unique-delete : (k : Bytes) (m : Map V) → unique m ≡ true → unique (delete k m) ≡ true
  unfolding delete unique
  unique-delete k [] h = refl
  unique-delete k ((i, w) ∷ m) h =
      ground (arith, str_eq_iff i k, str_eq_iff k i, has_key-delete k i m, unique-delete k m)

  pub lookup-eq-none : (k : Bytes) (m : Map V) → has_key k m ≡ false → lookup k m ≡ none
  unfolding lookup has_key
  lookup-eq-none k [] h = refl
  lookup-eq-none k ((i, w) ∷ m) h = ground (arith, lookup-eq-none k m)

  pub length-delete : (k : Bytes) (m : Map V) → length (delete k m) ≤ length m
  unfolding delete
  length-delete k [] = omega arith
  length-delete k ((i, w) ∷ m) = ground (arith, length-delete k m)

  pub length-delete_present :
      (k : Bytes) (m : Map V) → has_key k m ≡ true → length (delete k m) + 1 ≤ length m
  unfolding delete has_key
  length-delete_present k [] h = cc
  length-delete_present k ((i, w) ∷ m) h =
      ground (arith, length-delete k m, length-delete_present k m)

  pub length-insert :
      (k : Bytes) (v : V) (m : Map V)
      → length (insert k v m) ≡ (if has_key k m then length m else length m + 1)
  unfolding insert has_key
  length-insert k v [] = omega arith
  length-insert k v ((i, w) ∷ m) = ground (arith, length-insert k v m)

  pub has_key_of_lookup : (k : Bytes) (m : Map V) (v : V) → lookup k m ≡ some v → has_key k m ≡ true
  unfolding lookup has_key
  has_key_of_lookup k [] v h = cc
  has_key_of_lookup k ((i, d) ∷ m) v h = ground (arith, has_key_of_lookup k m v)

  pub lookup-nil : (k : Bytes) → lookup k [] ≡ none
  unfolding lookup
  lookup-nil k = refl
