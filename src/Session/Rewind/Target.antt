-- ===== src/Session/Rewind/Target.antt =====
-- A rewind to an event or to an index keeps the events up to it.
use adk_go_pkg.Base.{
  ℕ, suc, ◌+◌, ◌<◌, false, Option, none, some, List, [], ◌∷◌, ◌++◌, Bytes, str_eq, str_eq_iff, inl,
  inr, ◌≡◌, ◌≢◌, refl, sym, ap, ◌∙◌, arith, length, take, All, Option-cases, Bool-cases,
}
use adk_go_pkg.Base.Int.{ℤ, pos, negsuc}
use adk_go_pkg.Session.Rewind.{
  Event, Service, Prefixes, Outcome, fetch_session, apply_rewind, rewind, rewind_to_index,
  in_bounds, find_event,
}
use adk_go_pkg.Session.Rewind.Swap.{Laws, Sum-cases}
use adk_go_pkg.Session.Rewind.Result.{IsFresh, apply_rewind-Rewound}

module _ {V : Type 0} where
  -- None of the events has the identifier.
  abbrev pub Without : Bytes → List (Option (Event V)) → Type 0
  Without target =
      All (λ (o : Option (Event V)). elim o [
        | none ↦ Unit {0}
        | some ev ↦ str_eq ev.id target ≡ false
      ])

  -- The events are those before the first one with the identifier, this one, and the rest.
  pub record Splits (target : Bytes) (evs : List (Option (Event V))) : Type 0 where
    pub before : List (Option (Event V))
    pub event : Event V
    pub rest : List (Option (Event V))
    pub joined : evs ≡ before ++ some event ∷ rest
    pub is_target : event.id ≡ target
    pub first : Without target before

  abbrev kept_of :
      (target : Bytes) (evs : List (Option (Event V))) → Splits target evs → List (Option (Event V))
  kept_of target evs s = s.before ++ some s.event ∷ []

  find_event-Splits :
      (j i : ℕ) (target : Bytes) (evs : List (Option (Event V)))
      → find_event j target evs ≡ some i
      → (s : Splits target evs) × (i ≡ j + length s.before)
        × (take (suc (length s.before)) evs ≡ s.before ++ some s.event ∷ [])
  unfolding find_event
  find_event-Splits j i target [] e = cc
  find_event-Splits j i target (none ∷ evs) e =
      let (s, n, t) = find_event-Splits (suc j) i target evs e in
      (
        record {
          before = none ∷ s.before;
          event = s.event;
          rest = s.rest;
          joined = ap (◌∷◌ none) s.joined;
          is_target = s.is_target;
          first = (tt, s.first);
        },
        omega (arith, n),
        ap (◌∷◌ none) t,
      )
  find_event-Splits j i target (some ev ∷ evs) e = elim (Bool-cases (str_eq ev.id target)) [
    | inl h ↦ (
      record {
        before = [];
        event = ev;
        rest = evs;
        joined = refl;
        is_target = ground (arith, str_eq_iff ev.id target);
        first = tt;
      },
      ground arith,
      refl,
    )
    | inr h ↦
        let (s, n, t) = find_event-Splits (suc j) i target evs (ground arith) in
        (
          record {
            before = some ev ∷ s.before;
            event = s.event;
            rest = s.rest;
            joined = ap (◌∷◌ (some ev)) s.joined;
            is_target = s.is_target;
            first = (h, s.first);
          },
          omega (arith, n),
          ap (◌∷◌ (some ev)) t,
        )
  ]

module _ (svc : Service) (prefixes : Prefixes) (laws : Laws svc) (id : Bytes) where
  open svc use {World, Session, Value, Failure}

  pub rewind-found :
      (target : Bytes) (w : World) (s : Session) (i : ℕ)
      → svc.get id w ≡ inr s
      → find_event 0 target (svc.events s) ≡ some i
      → rewind svc prefixes id target w ≡ apply_rewind svc prefixes id s i w
  unfolding rewind fetch_session find_event
  rewind-found target w s i g f = ground arith

  rewind-lost :
      (target : Bytes) (w : World) (s : Session)
      → svc.get id w ≡ inr s
      → find_event 0 target (svc.events s) ≡ none
      → (rewind svc prefixes id target w).1.error ≢ none
  unfolding rewind fetch_session find_event
  rewind-lost target w s g f e = ground arith

  -- A rewind that reports no error returns the session that is then stored under the identifier,
  -- and its events are those of the old session up to the first one with the target's identifier,
  -- if the service keeps its promises and the temporary session has a name of its own.
  pub rewind_lem :
      (target : Bytes) (w : World)
      → IsFresh svc prefixes laws id
      → (rewind svc prefixes id target w).1.error ≡ none
      → (s s' : Session) × (found : Splits target (svc.events s)) × (svc.get id w ≡ inr s)
        × ((rewind svc prefixes id target w).1.session ≡ some s')
        × (svc.get id (rewind svc prefixes id target w).0 ≡ inr s')
        × (svc.events s' ≡ found.before ++ some found.event ∷ [])
  unfolding rewind fetch_session
  rewind_lem target w fresh e = elim (Sum-cases (svc.get id w)) [
    | inl (f, g) ↦ absurd (ground arith)
    | inr (s, g) ↦ elim (Option-cases (find_event 0 target (svc.events s))) [
      | inl n ↦ absurd (rewind-lost target w s g n e)
      | inr (i, n) ↦
          let same = rewind-found target w s i g n in
          let (found, at, kept) = find_event-Splits 0 i target (svc.events s) n in
          let at' : i ≡ length found.before = omega (arith, at) in
          let (s', returned, stored, evs) =
            apply_rewind-Rewound svc prefixes laws id s i w fresh g
              (sym (ap (λ (r : World × Outcome Session Failure). r.1.error) same) ∙ e) in
          (
            s,
            s',
            found,
            g,
            ap (λ (r : World × Outcome Session Failure). r.1.session) same ∙ returned,
            ap (λ (r : World × Outcome Session Failure). svc.get id r.0) same ∙ stored,
            evs ∙ (ap (λ n. take (suc n) (svc.events s)) at' ∙ kept),
          )
    ]
  ]

  index-found :
      (target : ℤ) (w : World) (s : Session) (i : ℕ)
      → svc.get id w ≡ inr s
      → in_bounds svc prefixes target (length (svc.events s)) ≡ some i
      → rewind_to_index svc prefixes id target w ≡ apply_rewind svc prefixes id s i w
  unfolding rewind_to_index fetch_session in_bounds
  index-found (negsuc k) w s i g f = cc
  index-found (pos k) w s i g f = ground arith

  index-lost :
      (target : ℤ) (w : World) (s : Session)
      → svc.get id w ≡ inr s
      → in_bounds svc prefixes target (length (svc.events s)) ≡ none
      → (rewind_to_index svc prefixes id target w).1.error ≢ none
  unfolding rewind_to_index fetch_session in_bounds
  index-lost (negsuc k) w s g f e = ground arith
  index-lost (pos k) w s g f e = ground arith

  in_bounds_lem :
      (target : ℤ) (n i : ℕ) → in_bounds svc prefixes target n ≡ some i → (target ≡ pos i) × (i < n)
  unfolding in_bounds
  in_bounds_lem (negsuc k) n i e = cc
  in_bounds_lem (pos k) n i e = ground arith

  -- A rewind to an index that reports no error was given an index of an event, and returns the
  -- session that is then stored under the identifier, with the events up to that index, if the
  -- service keeps its promises and the temporary session has a name of its own.
  pub rewind_to_index_lem :
      (target : ℤ) (w : World)
      → IsFresh svc prefixes laws id
      → (rewind_to_index svc prefixes id target w).1.error ≡ none
      → (s s' : Session) × (i : ℕ) × (svc.get id w ≡ inr s)
        × (target ≡ pos i)
        × (i < length (svc.events s))
        × ((rewind_to_index svc prefixes id target w).1.session ≡ some s')
        × (svc.get id (rewind_to_index svc prefixes id target w).0 ≡ inr s')
        × (svc.events s' ≡ take (suc i) (svc.events s))
  unfolding rewind_to_index fetch_session
  rewind_to_index_lem target w fresh e = elim (Sum-cases (svc.get id w)) [
    | inl (f, g) ↦ absurd (ground arith)
    | inr (s, g) ↦ elim (Option-cases (in_bounds svc prefixes target (length (svc.events s)))) [
      | inl n ↦ absurd (index-lost target w s g n e)
      | inr (i, n) ↦
          let same = index-found target w s i g n in
          let (exact, less) = in_bounds_lem target (length (svc.events s)) i n in
          let (s', returned, stored, evs) =
            apply_rewind-Rewound svc prefixes laws id s i w fresh g
              (sym (ap (λ (r : World × Outcome Session Failure). r.1.error) same) ∙ e) in
          (
            s,
            s',
            i,
            g,
            exact,
            less,
            ap (λ (r : World × Outcome Session Failure). r.1.session) same ∙ returned,
            ap (λ (r : World × Outcome Session Failure). svc.get id r.0) same ∙ stored,
            evs,
          )
    ]
  ]
