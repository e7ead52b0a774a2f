-- ===== src/Session/Rewind/Replay.antt =====
-- The state that a rewind replays from the events that it keeps.
use adk_go_pkg.Base.{
  true, Option, none, some, List, [], ◌∷◌, Bytes, str_eq_iff, if◌then◌else◌, ◌≡◌, arith, All,
}
use adk_go_pkg.Base.Map.{Map, lookup, unique, insert, lookup-insert, lookup-nil, lookup-eq-none}
use adk_go_pkg.Session.Rewind.{Event, Prefixes, is_scoped, replay_delta, replay_from, replay_state}

module _ {V : Type 0} (prefixes : Prefixes) (k : Bytes) where
  -- The value that a delta gives the key, or else the one before it.
  abbrev pub written : Option V → Option V → Option V
  written before none = before
  written before (some v) = some v

  -- The value that the last of the events that write the key gives it.
  abbrev pub last_written : Option V → List (Event V) → Option V
  last_written before [] = before
  last_written before (ev ∷ evs) = last_written (written before (lookup k ev.state_delta)) evs

  lookup-replay_delta :
      (delta state : Map V)
      → unique delta ≡ true
      → lookup k (replay_delta prefixes delta state) ≡ (
          if is_scoped prefixes k
          then lookup k state
          else written (lookup k state) (lookup k delta))
  unfolding replay_delta lookup unique
  lookup-replay_delta [] state u = ground arith
  lookup-replay_delta ((j, v) ∷ delta) state u = ground (
    arith,
    lookup-replay_delta delta state,
    lookup-replay_delta delta (insert j v state),
    lookup-insert j k v state,
    str_eq_iff j k,
    lookup-eq-none j delta,
  )

  lookup-replay_from :
      (evs : List (Event V)) (state : Map V)
      → All (λ (ev : Event V). unique ev.state_delta ≡ true) evs
      → lookup k (replay_from prefixes evs state)
        ≡ (if is_scoped prefixes k then lookup k state else last_written (lookup k state) evs)
  unfolding replay_from
  lookup-replay_from [] state u = ground arith
  lookup-replay_from (ev ∷ evs) state (u, us) = ground (
    arith,
    lookup-replay_from evs (replay_delta prefixes ev.state_delta state) us,
    lookup-replay_delta ev.state_delta state u,
  )

  -- A key of the replayed state has the value that the last event that writes it gives it, and a
  -- key of the application, the user or the turn has none, if no delta holds a key twice.
  pub lookup-replay_state :
      (kept : List (Event V))
      → All (λ (ev : Event V). unique ev.state_delta ≡ true) kept
      → lookup k (replay_state prefixes kept)
        ≡ (if is_scoped prefixes k then none else last_written none kept)
  unfolding replay_state
  lookup-replay_state kept u = ground (arith, lookup-replay_from kept [] u, lookup-nil {V = V} k)
