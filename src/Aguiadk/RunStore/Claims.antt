-- ===== src/Aguiadk/RunStore/Claims.antt =====
-- LoadAndDelete hands a paused run to one caller only.
use adk_go_pkg.Base.{
  ℕ, ◌+◌, ◌≤◌, none, some, Option, List, [], ◌∷◌, Bytes, str_eq, str_eq_iff, arith, if◌then◌else◌,
  Option-cases, inl, inr,
}
use adk_go_pkg.Base.Map.{lookup, has_key, has_key-insert, has_key-delete, has_key_of_lookup}
use adk_go_pkg.Aguiadk.RunStore.{
  PausedRun, RunEntry, RunStore, Call, save_run, load_run, claim_run, drop_run, tick, evict_oldest,
  make_room, purge_expired, save, load, load_and_delete, delete_run, cleanup, step, stored,
  oldest_from,
}
use adk_go_pkg.Aguiadk.RunStore.Purge.{has_key-purge}

module _ {V S : Type 0} (key : Bytes) where
  -- 1 if the call is a claim of the key that got its run.
  abbrev pub won : Call V S → Option (PausedRun V S) → ℕ
  won (claim_run j) (some _) = if str_eq j key then 1 else 0
  won _ _ = 0

  abbrev pub saved : Call V S → ℕ
  saved (save_run j _) = if str_eq j key then 1 else 0
  saved _ = 0

  -- The claims of the key that succeed in a run of calls, and the calls that save it.
  unfoldable pub claims : List (ℕ × Call V S) → RunStore V S → ℕ
  unfolding step
  claims [] s = 0
  claims ((now, c) ∷ cs) s = won c (step now c s).1 + claims cs (step now c s).0

  pub saves : List (ℕ × Call V S) → ℕ
  saves [] = 0
  saves ((_, c) ∷ cs) = saved c + saves cs

  abbrev pub held : RunStore V S → ℕ
  held s = if has_key key s.runs then 1 else 0

  held-evict : (s : RunStore V S) → held (evict_oldest s) ≤ held s
  unfolding evict_oldest
  held-evict s = elim (Option-cases (oldest_from none s.runs)) [
    | inl e ↦ ground arith
    | inr ((k, t), e) ↦ ground (arith, has_key-delete k key s.runs)
  ]

  held-make_room : (j : Bytes) (s : RunStore V S) → held (make_room j s) ≤ held s
  unfolding make_room
  held-make_room j s = ground (arith, held-evict s)

  held-purge : (now : ℕ) (s : RunStore V S) → held (purge_expired now s) ≤ held s
  unfolding purge_expired
  held-purge now s = ground (arith, has_key-purge s.ttl now key s.runs)

  held-save :
      (j : Bytes) (run : PausedRun V S) (now : ℕ) (s : RunStore V S)
      → held (save j run now s) ≤ held s + saved (save_run j run)
  unfolding save
  held-save j run now s =
      let p = purge_expired now s in
      let e : RunEntry V S = record { run = stored run; at = now } in
      ground
        (arith, has_key-insert j key e (make_room j p).runs, held-make_room j p, held-purge now s)

  step_claims :
      (now : ℕ) (c : Call V S) (s : RunStore V S)
      → won c (step now c s).1 + held (step now c s).0 ≤ held s + saved c
  unfolding step delete_run cleanup load load_and_delete
  step_claims now (save_run j run) s = ground (arith, held-save j run now s)
  step_claims now (load_run j) s = ground (arith, has_key-delete j key s.runs)
  step_claims now (claim_run j) s = elim (Option-cases (lookup j s.runs)) [
    | inl e ↦ ground arith
    | inr (d, e) ↦
        ground (arith, has_key_of_lookup j s.runs d, has_key-delete j key s.runs, str_eq_iff j key)
  ]
  step_claims now (drop_run j) s = ground (arith, has_key-delete j key s.runs)
  step_claims now tick s = ground (arith, held-purge now s)

  -- However the calls interleave, the claims of a key that succeed are at most the saves of it,
  -- and one more if its run was in the store at the start.
  pub claims-le-saves :
      (cs : List (ℕ × Call V S)) (s : RunStore V S) → claims cs s ≤ held s + saves cs
  unfolding claims saves
  claims-le-saves [] s = omega arith
  claims-le-saves ((now, c) ∷ cs) s =
      omega (arith, step_claims now c s, claims-le-saves cs (step now c s).0)
