-- ===== src/Session/Rewind.antt =====
-- session/rewind/rewind.go: a session is cut back to one of its events by writing a new one.
-- The session service of the ADK is a parameter: its state, and its calls as functions of it.
pub mod Replay
pub mod Swap
pub mod Result
pub mod Target
pub mod Failure
mod Examples
use adk_go_pkg.Base.{
  ℕ, zero, suc, ◌+◌, Bool, true, false, ◌||◌, Option, none, some, List, [], ◌∷◌, ◌++◌, Bytes, bytes,
  str_eq, has_prefix, length, leb, ◌⊎◌, inl, inr, if◌then◌else◌,
}
use adk_go_pkg.Base.Int.{ℤ, pos, negsuc}
use adk_go_pkg.Base.Map.{Map, insert}

-- The fields of a session.Event that a rewind reads.
pub record Event (V : Type 0) : Type 0 where
  pub id : Bytes
  pub state_delta : Map V

-- session.Service, for one application and user, and jsonutil.GenerateID.
pub record Service : Type 1 where
  pub World : Type 0
  pub Session : Type 0
  pub Value : Type 0
  pub Failure : Type 0
  pub id_of : Session → Bytes
  pub events : Session → List (Option (Event Value))
  pub get : Bytes → World → Failure ⊎ Session
  pub create : Bytes → Map Value → World → World × (Failure ⊎ Session)
  pub append_event : Session → Event Value → World → World × Option Failure
  pub delete : Bytes → World → World × Option Failure
  pub generate_id : World → World × (Failure ⊎ Bytes)

pub data RewindError (F : Type 0) : Type 0 where
  get_failed : F → RewindError F
  no_events : RewindError F
  event_not_found : Bytes → RewindError F
  out_of_bounds : ℤ → RewindError F
  nil_event : ℕ → RewindError F
  no_temp_id create_temp_failed append_temp_failed refresh_temp_failed : F → RewindError F
  delete_failed recreate_failed append_failed refresh_failed cleanup_failed : F → RewindError F

-- A session, an error, or both, as the functions return them.
pub record Outcome (S F : Type 0) : Type 0 where
  pub session : Option S
  pub error : Option (RewindError F)

-- The key prefixes of the ADK's session package.
pub record Prefixes : Type 0 where
  pub app : Bytes
  pub user : Bytes
  pub temp : Bytes

unfoldable pub is_scoped : Prefixes → Bytes → Bool
is_scoped prefixes k =
    has_prefix k prefixes.app || (has_prefix k prefixes.user || has_prefix k prefixes.temp)

module _ {V : Type 0} (prefixes : Prefixes) where
  -- The inner loop of replayState.
  pub replay_delta : Map V → Map V → Map V
  unfolding is_scoped
  replay_delta [] state = state
  replay_delta ((k, v) ∷ delta) state =
      replay_delta delta (if is_scoped prefixes k then state else insert k v state)

  pub replay_from : List (Event V) → Map V → Map V
  unfolding replay_delta
  replay_from [] state = state
  replay_from (ev ∷ evs) state = replay_from evs (replay_delta ev.state_delta state)

  pub replay_state : List (Event V) → Map V
  unfolding replay_from
  replay_state kept = replay_from kept []

module _ {V : Type 0} where
  -- The index of the first event with the identifier, counted from `i`.
  pub find_event : ℕ → Bytes → List (Option (Event V)) → Option ℕ
  find_event i target [] = none
  find_event i target (none ∷ evs) = find_event (suc i) target evs
  find_event i target (some ev ∷ evs) =
      if str_eq ev.id target then some i else find_event (suc i) target evs

  -- The first `n` events, or the index of one among them that is nil. It is asked for no more
  -- events than there are.
  pub keep_events : ℕ → ℕ → List (Option (Event V)) → ℕ ⊎ List (Event V)
  keep_events i zero evs = inr []
  keep_events i (suc n) [] = inl i
  keep_events i (suc n) (none ∷ evs) = inl i
  keep_events i (suc n) (some ev ∷ evs) = elim (keep_events (suc i) n evs) [
    | inl j ↦ inl j
    | inr kept ↦ inr (ev ∷ kept)
  ]

module _ (svc : Service) (prefixes : Prefixes) where
  open svc use {
    World, Session, Value, Failure, events, get, create, append_event, delete, generate_id,
  }

  abbrev Error : Type 0
  Error = RewindError Failure

  abbrev fails : Error → Outcome Session Failure
  fails e = record { session = none; error = some e }

  pub fetch_session : Bytes → World → Error ⊎ Session
  fetch_session id w = elim (get id w) [ inl f ↦ inl (get_failed f) | inr s ↦ inr s ]

  -- The two loops that append the kept events, each with its own two errors.
  pub append_all :
      (Failure → Error)
      → (Failure → Error)
      → Bytes
      → List (Event Value)
      → Session
      → World
      → World × (Error ⊎ Session)
  append_all refused lost id [] s w = (w, inr s)
  append_all refused lost id (ev ∷ evs) s w =
      let (w', e) = append_event s ev w in
      elim e [
        | some f ↦ (w', inl (refused f))
        | none ↦ elim (get id w') [
          | inl f ↦ (w', inl (lost f))
          | inr s' ↦ append_all refused lost id evs s' w'
        ]
      ]

  -- Step 2.
  pub write_temp : Bytes → List (Event Value) → World → World × (Error ⊎ Session)
  unfolding append_all
  write_temp temp kept w =
      let (w', r) = create temp [] w in
      elim r [
        | inl f ↦ (w', inl (create_temp_failed f))
        | inr s ↦ append_all append_temp_failed refresh_temp_failed temp kept s w'
      ]

  -- Steps 4 and 5.
  pub write_new : Bytes → List (Event Value) → World → World × (Error ⊎ Session)
  unfolding append_all replay_state
  write_new id kept w =
      let (w', r) = create id (replay_state prefixes kept) w in
      elim r [
        | inl f ↦ (w', inl (recreate_failed f))
        | inr s ↦ append_all append_failed refresh_failed id kept s w'
      ]

  -- Steps 6 and 7.
  pub clean_up : Bytes → Bytes → Session → World → World × Outcome Session Failure
  unfolding fetch_session
  clean_up id temp s w =
      let (w', e) = delete temp w in
      elim e [
        | some f ↦ (w', record { session = some s; error = some (cleanup_failed f) })
        | none ↦ elim (fetch_session id w') [
          | inl f ↦ (w', fails f)
          | inr s' ↦ (w', record { session = some s'; error = none })
        ]
      ]

  -- Steps 4 to 7.
  pub recreate : Bytes → Bytes → List (Event Value) → World → World × Outcome Session Failure
  unfolding write_new clean_up
  recreate id temp kept w =
      let (w', r) = write_new id kept w in
      elim r [ inl f ↦ (w', fails f) | inr s ↦ clean_up id temp s w' ]

  -- Steps 3 to 7.
  pub replace_session : Bytes → Bytes → List (Event Value) → World → World × Outcome Session Failure
  unfolding recreate
  replace_session id temp kept w =
      let (w', e) = delete id w in
      elim e [ some f ↦ (w', fails (delete_failed f)) | none ↦ recreate id temp kept w' ]

  -- Steps 2 to 7.
  pub swap : Bytes → Bytes → List (Event Value) → World → World × Outcome Session Failure
  unfolding write_temp replace_session
  swap id temp kept w =
      let (w', r) = write_temp temp kept w in
      elim r [ inl f ↦ (w', fails f) | inr _ ↦ replace_session id temp kept w' ]

  pub apply_rewind : Bytes → Session → ℕ → World → World × Outcome Session Failure
  unfolding keep_events swap
  apply_rewind id s target w = elim (keep_events 0 (suc target) (events s)) [
    | inl i ↦ (w, fails (nil_event i))
    | inr kept ↦
        let (w', r) = generate_id w in
        elim r [
          | inl f ↦ (w', fails (no_temp_id f))
          | inr fresh ↦ swap id (bytes "rewind-tmp-" ++ fresh) kept w'
        ]
  ]

  unfoldable pub rewind : Bytes → Bytes → World → World × Outcome Session Failure
  unfolding fetch_session find_event apply_rewind
  rewind id target w = elim (fetch_session id w) [
    | inl f ↦ (w, fails f)
    | inr s ↦ elim (events s) [
      | [] ↦ (w, fails no_events)
      | _ ∷ _ ↦ elim (find_event 0 target (events s)) [
        | none ↦ (w, fails (event_not_found target))
        | some i ↦ apply_rewind id s i w
      ]
    ]
  ]

  -- The bound is written so that it reads an index below 0 as out of bounds.
  pub in_bounds : ℤ → ℕ → Option ℕ
  in_bounds (negsuc _) n = none
  in_bounds (pos i) n = if leb n i then none else some i

  unfoldable pub rewind_to_index : Bytes → ℤ → World → World × Outcome Session Failure
  unfolding fetch_session in_bounds apply_rewind
  rewind_to_index id target w = elim (fetch_session id w) [
    | inl f ↦ (w, fails f)
    | inr s ↦ elim (events s) [
      | [] ↦ (w, fails no_events)
      | _ ∷ _ ↦ elim (in_bounds target (length (events s))) [
        | none ↦ (w, fails (out_of_bounds target))
        | some i ↦ apply_rewind id s i w
      ]
    ]
  ]
