-- ===== src/Aguiadk/RunStore/Evict.antt =====
-- The entry that evictOldestLocked removes, and what Save leaves in the store.
use adk_go_pkg.Base.{
  ℕ, ◌≤◌, ◌<◌, none, some, [], ◌∷◌, Bytes, ◌≡◌, refl, arith, true, false, str_eq, str_eq_iff,
  length, ◌∙◌, sym, if◌then◌else◌, Bool-cases, ◌⊎◌, inl, inr, ltb,
}
use mathlib.Core.Path.{subst}
use adk_go_pkg.Base.Map.{
  Map, lookup, has_key, unique, lookup-insert, lookup-delete, lookup-eq-none, delete,
}
use adk_go_pkg.Aguiadk.RunStore.{
  PausedRun, RunEntry, RunStore, oldest_from, evict_oldest, make_room, purge_expired, save, stored,
}
use adk_go_pkg.Aguiadk.RunStore.Purge.{live, lookup-purge, unique-purge}

module _ {V S : Type 0} where
  -- No entry was saved before `t`.
  abbrev pub NoneBefore : ℕ → Map (RunEntry V S) → Type 0
  NoneBefore t [] = Unit
  NoneBefore t ((_, e) ∷ m) = (t ≤ e.at) × NoneBefore t m

  -- What the loop knows of its result, from the candidate `(k, t)`.
  record IsOldest (k : Bytes) (t : ℕ) (m : Map (RunEntry V S)) (k' : Bytes) (t' : ℕ) : Type 0 where
    found : oldest_from (some (k, t)) m ≡ some (k', t')
    earlier : t' ≤ t
    least : NoneBefore t' m
    origin : ((k' ≡ k) × (t' ≡ t)) ⊎ ((e : RunEntry V S) × (lookup k' m ≡ some e) × (e.at ≡ t'))

  lookup-skip :
      (i k : Bytes) (d e : RunEntry V S) (m : Map (RunEntry V S))
      → has_key i m ≡ false
      → lookup k m ≡ some e
      → lookup k ((i, d) ∷ m) ≡ some e
  unfolding lookup
  lookup-skip i k d e m fresh h = ground (arith, str_eq_iff i k, lookup-eq-none i m)

  origin_entry :
      (i : Bytes) (e : RunEntry V S) (m : Map (RunEntry V S))
      → has_key i m ≡ false
      → (k' : Bytes) (t' : ℕ)
      → ((k' ≡ i) × (t' ≡ e.at)) ⊎ ((d : RunEntry V S) × (lookup k' m ≡ some d) × (d.at ≡ t'))
      → (d : RunEntry V S) × (lookup k' ((i, e) ∷ m) ≡ some d) × (d.at ≡ t')
  unfolding lookup
  origin_entry i e m fresh k' t' (inl h) = (e, ground (arith, str_eq_iff i k'), ground arith)
  origin_entry i e m fresh k' t' (inr (d, p, q)) = (d, lookup-skip i k' e d m fresh p, q)

  origin_skip :
      (i : Bytes) (e : RunEntry V S) (m : Map (RunEntry V S))
      → has_key i m ≡ false
      → (k : Bytes) (t : ℕ) (k' : Bytes) (t' : ℕ)
      → ((k' ≡ k) × (t' ≡ t)) ⊎ ((d : RunEntry V S) × (lookup k' m ≡ some d) × (d.at ≡ t'))
      → ((k' ≡ k) × (t' ≡ t))
        ⊎ ((d : RunEntry V S) × (lookup k' ((i, e) ∷ m) ≡ some d) × (d.at ≡ t'))
  origin_skip i e m fresh k t k' t' (inl h) = inl h
  origin_skip i e m fresh k t k' t' (inr (d, p, q)) = inr (d, lookup-skip i k' e d m fresh p, q)

  oldest_from_lem :
      (k : Bytes) (t : ℕ) (m : Map (RunEntry V S))
      → unique m ≡ true
      → (k' : Bytes) × (t' : ℕ) × IsOldest k t m k' t'
  unfolding oldest_from unique lookup
  oldest_from_lem k t [] u =
      (k, t, record { found = refl; earlier = omega arith; least = tt; origin = inl (refl, refl) })
  oldest_from_lem k t ((i, e) ∷ m) u = elim (Bool-cases (ltb e.at t)) [
    | inl before ↦
        let (k', t', r) = oldest_from_lem i e.at m (ground arith) in
        (
          k',
          t',
          record {
            found = rw before r.found;
            earlier = ground (arith, r.earlier);
            least = (r.earlier, r.least);
            origin = inr (origin_entry i e m (ground arith) k' t' r.origin);
          },
        )
    | inr later ↦
        let (k', t', r) = oldest_from_lem k t m (ground arith) in
        (
          k',
          t',
          record {
            found = rw later r.found;
            earlier = r.earlier;
            least = (ground (arith, r.earlier), r.least);
            origin = origin_skip i e m (ground arith) k t k' t' r.origin;
          },
        )
  ]

  -- What a full store loses to make room for a new key: an entry no younger than any other.
  pub record IsVictim (v : Bytes) (e : RunEntry V S) (m : Map (RunEntry V S)) : Type 0 where
    pub held : lookup v m ≡ some e
    pub oldest : NoneBefore e.at m

  oldest_start :
      (m : Map (RunEntry V S))
      → unique m ≡ true
      → 0 < length m
      → (v : Bytes) × (e : RunEntry V S) × IsVictim v e m × (oldest_from none m ≡ some (v, e.at))
  unfolding oldest_from unique lookup
  oldest_start [] u h = absurd (omega arith)
  oldest_start ((k, d) ∷ m) u h =
      let (k', t', r) = oldest_from_lem k d.at m (ground arith) in
      let (e, p, q) = origin_entry k d m (ground arith) k' t' r.origin in
      (
        k',
        e,
        record {
          held = p;
          oldest = subst (λ t. NoneBefore t ((k, d) ∷ m)) (sym q) (r.earlier, r.least);
        },
        subst (λ t. oldest_from (some (k, d.at)) m ≡ some (k', t)) (sym q) r.found,
      )

  -- Save makes room by deleting an oldest entry.
  pub evict_oldest_lem :
      (s : RunStore V S)
      → unique s.runs ≡ true
      → 0 < length s.runs
      → (v : Bytes) × (e : RunEntry V S) × IsVictim v e s.runs
        × (evict_oldest s ≡ record s { runs = delete v s.runs })
  unfolding evict_oldest
  evict_oldest_lem s u h =
      let (v, e, victim, found) = oldest_start s.runs u h in (v, e, victim, ground arith)

  -- The entry that Save writes.
  abbrev fresh_entry : PausedRun V S → ℕ → RunEntry V S
  fresh_entry run now = record { run = stored run; at = now }

  purged_unique :
      (s : RunStore V S) (now : ℕ) → unique s.runs ≡ true → unique (purge_expired now s).runs ≡ true
  unfolding purge_expired
  purged_unique s now u = unique-purge s.ttl now s.runs u

  lookup-purge_expired :
      (s : RunStore V S) (now : ℕ) (j : Bytes)
      → unique s.runs ≡ true
      → lookup j (purge_expired now s).runs ≡ live s.ttl now (lookup j s.runs)
  unfolding purge_expired
  lookup-purge_expired s now j u = lookup-purge s.ttl now j s.runs u

  make_room_spare :
      (key : Bytes) (s : RunStore V S)
      → (has_key key s.runs ≡ true) ⊎ (length s.runs < s.max_entries)
      → make_room key s ≡ s
  unfolding make_room
  make_room_spare key s room = ground arith

  make_room_full :
      (key : Bytes) (s : RunStore V S)
      → has_key key s.runs ≡ false
      → s.max_entries ≤ length s.runs
      → make_room key s ≡ evict_oldest s
  unfolding make_room
  make_room_full key s fresh full = ground arith

module _ {V S : Type 0} (key : Bytes) (run : PausedRun V S) (now : ℕ) (s : RunStore V S) where
  lookup-save_room :
      (j : Bytes)
      → lookup j (save key run now s).runs ≡ (
          if str_eq key j
          then some (fresh_entry run now)
          else lookup j (make_room key (purge_expired now s)).runs)
  unfolding save
  lookup-save_room j =
      lookup-insert key j (fresh_entry run now) (make_room key (purge_expired now s)).runs

  max_entries-purge : (purge_expired now s).max_entries ≡ s.max_entries
  unfolding purge_expired
  max_entries-purge = refl

  -- While the key is known, or the entries that are not expired leave room, Save writes the
  -- entry of its key, drops the expired entries and leaves every other entry as it was, in a
  -- store where no key stands twice.
  pub lookup-save :
      unique s.runs ≡ true
      → (has_key key (purge_expired now s).runs ≡ true)
        ⊎ (length (purge_expired now s).runs < s.max_entries)
      → (j : Bytes)
      → lookup j (save key run now s).runs
        ≡ (if str_eq key j then some (fresh_entry run now) else live s.ttl now (lookup j s.runs))
  unfolding purge_expired
  lookup-save u room j =
      lookup-save_room j
      ∙ rw (make_room_spare key (purge_expired now s) room) (rw (lookup-purge s.ttl now j s.runs u))

  -- With a new key and no room after the purge, Save also deletes one entry `v`, which was not
  -- expired and was saved no later than any other that is not, and no other entry, in a
  -- store with a positive bound where no key stands twice.
  pub lookup-save_full :
      unique s.runs ≡ true
      → has_key key (purge_expired now s).runs ≡ false
      → s.max_entries ≤ length (purge_expired now s).runs
      → 0 < s.max_entries
      → (v : Bytes) × (e : RunEntry V S) × IsVictim v e (purge_expired now s).runs
        × ((j : Bytes)
            → lookup j (save key run now s).runs ≡ (
                if str_eq key j
                then some (fresh_entry run now)
                else if str_eq v j
                then none
                else live s.ttl now (lookup j s.runs)))
  lookup-save_full u fresh full pos =
      let (v, e, victim, evicted) =
        evict_oldest_lem (purge_expired now s) (purged_unique s now u) (omega arith) in
      (
        v,
        e,
        victim,
        λ j.
            lookup-save_room j
            ∙ rw
                (
                  make_room_full key (purge_expired now s) fresh (omega (arith, max_entries-purge)),
                  evicted,
                )
                (rw (lookup-delete v j (purge_expired now s).runs, lookup-purge_expired s now j u)),
      )
