-- ===== src/Aguiadk/RunStore.antt =====
-- aguiadk/runstore.go: the store of paused runs. A method holds the mutex for its whole body, so a
-- call is one step; the clock reading that a method takes is an argument. Times and durations are
-- in nanoseconds since an arbitrary origin.
pub mod Purge
pub mod Evict
pub mod Bounds
pub mod Expiry
pub mod Claims
pub mod Keys
pub mod Approvals
mod Examples
use adk_go_pkg.Base.{
  ℕ, zero, suc, ◌-◌, ◌*◌, Bool, true, false, Option, none, some, List, [], ◌∷◌, ◌&&◌, Bytes, bytes,
  ◌++◌, length, ltb, leb, not, if◌then◌else◌,
}
use adk_go_pkg.Base.Int.{ℤ, pos, negsuc}
use adk_go_pkg.Base.Map.{Map, lookup, insert, delete, has_key}

abbrev pub default_run_ttl : ℕ
default_run_ttl = 30 * 60 * 1_000_000_000

abbrev pub default_max_runs : ℕ
default_max_runs = 1024

-- `V` is Go's `any`, `S` the schema type of the jsonschema package.
pub record PendingToolCall (V : Type 0) : Type 0 where
  pub id : Bytes
  pub name : Bytes
  pub args : Map V

pub record RequestedInputSnapshot (V S : Type 0) : Type 0 where
  pub interrupt_id : Bytes
  pub message : Bytes
  pub response_schema : Option S
  pub payload : V

pub record PausedRun (V S : Type 0) : Type 0 where
  pub thread_id : Bytes
  pub run_id : Bytes
  pub session_id : Bytes
  pub pending : List (PendingToolCall V)
  pub requested_input : Option (RequestedInputSnapshot V S)
  pub state : Map V

pub record RunEntry (V S : Type 0) : Type 0 where
  pub run : PausedRun V S
  pub at : ℕ

pub record RunStore (V S : Type 0) : Type 0 where
  pub runs : Map (RunEntry V S)
  pub ttl : ℕ
  pub max_entries : ℕ

-- `if x <= 0 { x = d }`
positive_or : ℕ → ℤ → ℕ
positive_or d (pos zero) = d
positive_or d (pos (suc n)) = suc n
positive_or d (negsuc _) = d

-- `for k, v := range run.State { state[k] = v }`
unfoldable pub copy_state : {V : Type 0} → Map V → Map V → Map V
copy_state to [] = to
copy_state to ((k, v) ∷ m) = copy_state (insert k v to) m

-- RunKey
unfoldable pub run_key : Bytes → Bytes → Bytes
run_key thread_id run_id = thread_id ++ (bytes "|" ++ run_id)

module _ {V S : Type 0} where
  pub new_with_max_entries : ℤ → ℤ → RunStore V S
  unfolding positive_or
  new_with_max_entries ttl max_entries = record {
    runs = [];
    ttl = positive_or default_run_ttl ttl;
    max_entries = positive_or default_max_runs max_entries;
  }

  pub new_with_ttl : ℤ → RunStore V S
  unfolding positive_or
  new_with_ttl ttl = record {
    runs = [];
    ttl = positive_or default_run_ttl ttl;
    max_entries = default_max_runs;
  }

  pub new_run_store : RunStore V S
  unfolding new_with_ttl
  new_run_store = new_with_ttl (pos default_run_ttl)

  -- now.Sub(e.at) >= ttl. A clock that runs backwards makes the difference negative, and so below
  -- the positive `ttl`, as the truncated difference is.
  abbrev pub expired : ℕ → ℕ → RunEntry V S → Bool
  expired ttl now e = leb ttl (now - e.at)

  -- The loop of purgeExpiredLocked.
  pub purge_runs : ℕ → ℕ → Map (RunEntry V S) → Map (RunEntry V S)
  purge_runs ttl now [] = []
  purge_runs ttl now ((k, e) ∷ m) =
      if expired ttl now e then purge_runs ttl now m else (k, e) ∷ purge_runs ttl now m

  unfoldable pub purge_expired : ℕ → RunStore V S → RunStore V S
  unfolding purge_runs
  purge_expired now s = record s { runs = purge_runs s.ttl now s.runs }

  -- The loop of evictOldestLocked: `none` stands for `first`.
  pub oldest_from : Option (Bytes × ℕ) → Map (RunEntry V S) → Option (Bytes × ℕ)
  oldest_from o [] = o
  oldest_from none ((k, e) ∷ m) = oldest_from (some (k, e.at)) m
  oldest_from (some (k', at')) ((k, e) ∷ m) =
      oldest_from (if ltb e.at at' then some (k, e.at) else some (k', at')) m

  pub evict_oldest : RunStore V S → RunStore V S
  unfolding oldest_from
  evict_oldest s = elim (oldest_from none s.runs) [
    | none ↦ s
    | some (k, _) ↦ record s { runs = delete k s.runs }
  ]

  unfoldable pub stored : PausedRun V S → PausedRun V S
  unfolding copy_state
  stored run = record run { state = copy_state [] run.state }

  -- The store after the purge, with room for the key.
  unfoldable pub make_room : Bytes → RunStore V S → RunStore V S
  unfolding evict_oldest
  make_room key s =
      if not (has_key key s.runs) && leb s.max_entries (length s.runs) then evict_oldest s else s

  unfoldable pub save : Bytes → PausedRun V S → ℕ → RunStore V S → RunStore V S
  unfolding make_room purge_expired stored
  save key run now s =
      let s' = make_room key (purge_expired now s) in
      record s' { runs = insert key (record { run = stored run; at = now }) s'.runs }

  unfoldable pub load : Bytes → ℕ → RunStore V S → RunStore V S × Option (PausedRun V S)
  load key now s = elim (lookup key s.runs) [
    | none ↦ (s, none)
    | some e ↦
        if expired s.ttl now e
        then (record s { runs = delete key s.runs }, none)
        else (s, some e.run)
  ]

  unfoldable pub load_and_delete : Bytes → ℕ → RunStore V S → RunStore V S × Option (PausedRun V S)
  load_and_delete key now s = elim (lookup key s.runs) [
    | none ↦ (s, none)
    | some e ↦
        let s' = record s { runs = delete key s.runs } in
        if expired s.ttl now e then (s', none) else (s', some e.run)
  ]

  unfoldable pub delete_run : Bytes → RunStore V S → RunStore V S
  delete_run key s = record s { runs = delete key s.runs }

  pub cleanup : ℕ → RunStore V S → RunStore V S
  unfolding purge_expired
  cleanup now s = purge_expired now s

-- The calls that goroutines make, in the order in which they take the mutex; `tick` is a round of
-- cleanupLoop.
pub data Call (V S : Type 0) : Type 0 where
  save_run : Bytes → PausedRun V S → Call V S
  load_run claim_run drop_run : Bytes → Call V S
  tick : Call V S

module _ {V S : Type 0} where
  pub step : ℕ → Call V S → RunStore V S → RunStore V S × Option (PausedRun V S)
  step now (save_run key run) s = (save key run now s, none)
  step now (load_run key) s = load key now s
  step now (claim_run key) s = load_and_delete key now s
  step now (drop_run key) s = (delete_run key s, none)
  step now tick s = (cleanup now s, none)

  pub run_calls : List (ℕ × Call V S) → RunStore V S → RunStore V S
  unfolding step
  run_calls [] s = s
  run_calls ((now, c) ∷ cs) s = run_calls cs (step now c s).0
