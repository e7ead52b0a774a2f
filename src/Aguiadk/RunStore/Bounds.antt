-- ===== src/Aguiadk/RunStore/Bounds.antt =====
-- The store stays within its bound, and no key is in it twice, whatever calls are made.
use adk_go_pkg.Base.{
  ℕ, ◌≤◌, ◌<◌, true, List, [], ◌∷◌, Bytes, length, leb, ◌≡◌, refl, arith, ◌+◌, Bool-cases, inl, inr,
  false,
}
use adk_go_pkg.Base.Int.{ℤ, pos, negsuc}
use adk_go_pkg.Base.Map.{
  has_key, unique, unique-insert, unique-delete, length-insert, length-delete,
  length-delete_present, delete, has_key_of_lookup,
}
use adk_go_pkg.Aguiadk.RunStore.{
  PausedRun, RunEntry, RunStore, Call, save_run, load_run, claim_run, drop_run, tick, positive_or,
  new_with_max_entries, new_with_ttl, default_run_ttl, default_max_runs, evict_oldest, make_room,
  purge_expired, save, load, load_and_delete, delete_run, cleanup, step, stored, run_calls,
}
use adk_go_pkg.Aguiadk.RunStore.Purge.{unique-purge, length-purge}
use adk_go_pkg.Aguiadk.RunStore.Evict.{evict_oldest_lem}

pub record IsValid {V S : Type 0} (s : RunStore V S) : Type 0 where
  pub bounded : length s.runs ≤ s.max_entries
  pub distinct : unique s.runs ≡ true
  pub ttl_positive : 0 < s.ttl
  pub room : 0 < s.max_entries

positive_or_pos : (d : ℕ) (n : ℤ) → 0 < d → 0 < positive_or d n
unfolding positive_or
positive_or_pos d (pos n) h = ground arith
positive_or_pos d (negsuc n) h = h

module _ {V S : Type 0} where
  -- A new store is valid, whatever the durations and sizes that the constructor is given.
  pub new_with_max_entries-IsValid :
      (ttl max : ℤ) → IsValid (new_with_max_entries {V = V} {S = S} ttl max)
  unfolding new_with_max_entries unique
  new_with_max_entries-IsValid ttl max = record {
    bounded = omega arith;
    distinct = refl;
    ttl_positive = positive_or_pos default_run_ttl ttl (omega arith);
    room = positive_or_pos default_max_runs max (omega arith);
  }

  pub new_with_ttl-IsValid : (ttl : ℤ) → IsValid (new_with_ttl {V = V} {S = S} ttl)
  unfolding new_with_ttl unique
  new_with_ttl-IsValid ttl = record {
    bounded = omega arith;
    distinct = refl;
    ttl_positive = positive_or_pos default_run_ttl ttl (omega arith);
    room = omega arith;
  }

  purge-IsValid : (now : ℕ) (s : RunStore V S) → IsValid s → IsValid (purge_expired now s)
  unfolding purge_expired
  purge-IsValid now s v = record {
    bounded = omega (arith, v.bounded, length-purge s.ttl now s.runs);
    distinct = unique-purge s.ttl now s.runs v.distinct;
    ttl_positive = v.ttl_positive;
    room = v.room;
  }

  delete-IsValid :
      (k : Bytes) (s : RunStore V S) → IsValid s → IsValid (record s { runs = delete k s.runs })
  delete-IsValid k s v = record {
    bounded = omega (arith, v.bounded, length-delete k s.runs);
    distinct = unique-delete k s.runs v.distinct;
    ttl_positive = v.ttl_positive;
    room = v.room;
  }

  -- With the key new, one more entry fits.
  record HasRoom (key : Bytes) (s : RunStore V S) : Type 0 where
    valid : IsValid s
    fits : has_key key s.runs ≡ false → length s.runs + 1 ≤ s.max_entries

  evict-HasRoom :
      (key : Bytes) (s : RunStore V S)
      → IsValid s
      → s.max_entries ≤ length s.runs
      → HasRoom key (evict_oldest s)
  evict-HasRoom key s v full =
      let (k, e, victim, evicted) = evict_oldest_lem s v.distinct (omega (arith, v.room)) in
      rw evicted (record {
        valid = delete-IsValid k s v;
        fits = λ _. omega (
          arith,
          v.bounded,
          length-delete_present k s.runs (has_key_of_lookup k s.runs e victim.held),
        );
      })

  make_room-HasRoom : (key : Bytes) (s : RunStore V S) → IsValid s → HasRoom key (make_room key s)
  unfolding make_room
  make_room-HasRoom key s v = elim (Bool-cases (has_key key s.runs)) [
    | inl known ↦ rw known (record { valid = v; fits = λ h. cc })
    | inr new ↦ elim (Bool-cases (leb s.max_entries (length s.runs))) [
      | inl full ↦ rw (new, full) (evict-HasRoom key s v (ground arith))
      | inr spare ↦ rw (new, spare) (record { valid = v; fits = λ h. ground arith })
    ]
  ]

  save-IsValid :
      (key : Bytes) (run : PausedRun V S) (now : ℕ) (s : RunStore V S)
      → IsValid s
      → IsValid (save key run now s)
  unfolding save
  save-IsValid key run now s v =
      let p = purge_expired now s in
      let r = make_room-HasRoom key p (purge-IsValid now s v) in
      let runs = (make_room key p).runs in
      let e : RunEntry V S = record { run = stored run; at = now } in
      record {
        bounded = ground (arith, length-insert key e runs, r.fits, r.valid.bounded);
        distinct = unique-insert key e runs r.valid.distinct;
        ttl_positive = r.valid.ttl_positive;
        room = r.valid.room;
      }

  load-IsValid : (key : Bytes) (now : ℕ) (s : RunStore V S) → IsValid s → IsValid (load key now s).0
  unfolding load
  load-IsValid key now s v = ground (arith, delete-IsValid key s v)

  claim-IsValid :
      (key : Bytes) (now : ℕ) (s : RunStore V S) → IsValid s → IsValid (load_and_delete key now s).0
  unfolding load_and_delete
  claim-IsValid key now s v = ground (arith, delete-IsValid key s v)

  step-IsValid : (now : ℕ) (c : Call V S) (s : RunStore V S) → IsValid s → IsValid (step now c s).0
  unfolding step delete_run cleanup
  step-IsValid now (save_run key run) s v = save-IsValid key run now s v
  step-IsValid now (load_run key) s v = load-IsValid key now s v
  step-IsValid now (claim_run key) s v = claim-IsValid key now s v
  step-IsValid now (drop_run key) s v = delete-IsValid key s v
  step-IsValid now tick s v = purge-IsValid now s v

  -- Whatever calls are made at whatever times, a valid store stays valid: it holds at most
  -- `max_entries` runs, none twice.
  pub run_calls-IsValid :
      (cs : List (ℕ × Call V S)) (s : RunStore V S) → IsValid s → IsValid (run_calls cs s)
  unfolding run_calls
  run_calls-IsValid [] s v = v
  run_calls-IsValid ((now, c) ∷ cs) s v =
      run_calls-IsValid cs (step now c s).0 (step-IsValid now c s v)
