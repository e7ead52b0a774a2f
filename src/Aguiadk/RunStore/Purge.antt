-- ===== src/Aguiadk/RunStore/Purge.antt =====
-- What purgeExpiredLocked leaves.
use adk_go_pkg.Base.{
  ℕ, ◌≤◌, true, false, none, some, Option, [], ◌∷◌, Bytes, str_eq_iff, length, ◌≡◌, refl, arith,
  if◌then◌else◌,
}
use adk_go_pkg.Base.Map.{Map, lookup, has_key, unique, lookup-eq-none}
use adk_go_pkg.Aguiadk.RunStore.{RunEntry, expired, purge_runs}

module _ {V S : Type 0} (ttl now : ℕ) where
  -- An entry that is not expired.
  abbrev pub live : Option (RunEntry V S) → Option (RunEntry V S)
  live none = none
  live (some e) = if expired ttl now e then none else some e

  pub has_key-purge :
      (k : Bytes) (m : Map (RunEntry V S))
      → has_key k m ≡ false
      → has_key k (purge_runs ttl now m) ≡ false
  unfolding has_key purge_runs
  has_key-purge k [] h = refl
  has_key-purge k ((i, e) ∷ m) h = ground (arith, has_key-purge k m)

  pub unique-purge :
      (m : Map (RunEntry V S)) → unique m ≡ true → unique (purge_runs ttl now m) ≡ true
  unfolding unique purge_runs
  unique-purge [] h = refl
  unique-purge ((i, e) ∷ m) h = ground (arith, unique-purge m, has_key-purge i m)

  pub length-purge : (m : Map (RunEntry V S)) → length (purge_runs ttl now m) ≤ length m
  unfolding purge_runs
  length-purge [] = omega arith
  length-purge ((i, e) ∷ m) = ground (arith, length-purge m)

  pub lookup-purge :
      (k : Bytes) (m : Map (RunEntry V S))
      → unique m ≡ true
      → lookup k (purge_runs ttl now m) ≡ live (lookup k m)
  unfolding unique lookup purge_runs
  lookup-purge k [] h = refl
  lookup-purge k ((i, e) ∷ m) h = ground (
    arith,
    str_eq_iff i k,
    lookup-purge k m,
    has_key-purge i m,
    lookup-eq-none k m,
    lookup-eq-none k (purge_runs ttl now m),
  )
