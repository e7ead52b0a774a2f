-- ===== src/Aguiadk/RunStore/Expiry.antt =====
-- A paused run can be resumed until its time is over.
use adk_go_pkg.Base.{
  ℕ, ◌-◌, true, none, some, [], ◌∷◌, ◌++◌, Bytes, leb, str_eq_iff, str_eq_refl, ◌≡◌, refl, arith,
  Bool, if◌then◌else◌, false, append-nil, append_assoc, sym, ◌∙◌, ◌&&◌, not,
}
use adk_go_pkg.Base.Map.{Map, lookup, has_key, unique, insert, lookup-insert, has_key-insert}
use adk_go_pkg.Aguiadk.RunStore.{
  PausedRun, RunStore, copy_state, stored, evict_oldest, make_room, purge_expired, save, load,
  load_and_delete,
}

module _ {V : Type 0} where
  insert_new :
      (k : Bytes) (v : V) (m : Map V) → has_key k m ≡ false → insert k v m ≡ m ++ (k, v) ∷ []
  unfolding insert has_key
  insert_new k v [] h = refl
  insert_new k v ((i, w) ∷ m) h = ground (arith, insert_new k v m)

  -- The keys of the first map are not in the second.
  apart : Map V → Map V → Bool
  apart to [] = true
  apart to ((k, _) ∷ m) = not (has_key k to) && apart to m

  apart-insert :
      (k : Bytes) (v : V) (to m : Map V)
      → has_key k m ≡ false
      → apart to m ≡ true
      → apart (insert k v to) m ≡ true
  unfolding apart has_key
  apart-insert k v to [] h a = refl
  apart-insert k v to ((i, w) ∷ m) h a =
      ground (arith, str_eq_iff k i, str_eq_iff i k, has_key-insert k i v to, apart-insert k v to m)

  copy_state_lem : (to m : Map V) → unique m ≡ true → apart to m ≡ true → copy_state to m ≡ to ++ m
  unfolding copy_state unique apart
  copy_state_lem to [] u a = sym (append-nil to)
  copy_state_lem to ((k, v) ∷ m) u a =
      copy_state_lem (insert k v to) m (ground arith)
        (apart-insert k v to m (ground arith) (ground arith))
      ∙ rw (insert_new k v to (ground arith)) (append_assoc to ((k, v) ∷ []) m)

  apart-nil : (m : Map V) → apart [] m ≡ true
  unfolding apart has_key
  apart-nil [] = refl
  apart-nil ((k, v) ∷ m) = ground (arith, apart-nil m)

module _ {V S : Type 0} where
  -- The copy that Save makes is equal to the run that it is given.
  pub stored_lem : (run : PausedRun V S) → unique run.state ≡ true → stored run ≡ run
  unfolding stored
  stored_lem run u = rw (copy_state_lem [] run.state u (apart-nil run.state))

  module _ (key : Bytes) (run : PausedRun V S) (now later : ℕ) (s : RunStore V S)
      (distinct : unique run.state ≡ true) where
    ttl-save : (save key run now s).ttl ≡ s.ttl
    unfolding save make_room evict_oldest purge_expired
    ttl-save = ground arith

    lookup-save_self : lookup key (save key run now s).runs ≡ some (record { run = run; at = now })
    unfolding save
    lookup-save_self =
        lookup-insert key key (record { run = stored run; at = now })
          (make_room key (purge_expired now s)).runs
        ∙ rw (str_eq_refl key, stored_lem run distinct)

    -- Until `ttl` has passed since a run was saved, Load and LoadAndDelete return the run, and from
    -- then on they report a miss, if no key stands twice in the run's state.
    pub load-save :
        ((load key later (save key run now s)).1
          ≡ (if leb s.ttl (later - now) then none else some run))
        × ((load_and_delete key later (save key run now s)).1
            ≡ (if leb s.ttl (later - now) then none else some run))
    unfolding load load_and_delete
    load-save =
        (ground (arith, lookup-save_self, ttl-save), ground (arith, lookup-save_self, ttl-save))
