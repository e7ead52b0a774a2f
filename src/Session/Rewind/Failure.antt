-- ===== src/Session/Rewind/Failure.antt =====
-- A rewind that fails before it deletes the session leaves the session as it was.
use adk_go_pkg.Base.{
  ℕ, suc, Bool, true, false, none, some, List, [], ◌∷◌, ◌++◌, Bytes, bytes, inl, inr, ◌≡◌, ◌≢◌, sym,
  ap, ◌∙◌, arith, Option-cases,
}
use adk_go_pkg.Session.Rewind.{
  Event, Service, Prefixes, RewindError, Outcome, no_events, event_not_found, out_of_bounds,
  nil_event, no_temp_id, create_temp_failed, append_temp_failed, refresh_temp_failed, append_failed,
  refresh_failed, fetch_session, append_all, replay_state, write_temp, write_new, clean_up,
  recreate, replace_session, swap, apply_rewind, rewind, find_event, keep_events,
}
use adk_go_pkg.Session.Rewind.Swap.{Laws, Sum-cases, append_all-apart}
use adk_go_pkg.Session.Rewind.Result.{IsFresh}
use adk_go_pkg.Session.Rewind.Target.{rewind-found}

-- The errors that are reported before the session is deleted, and by no later step.
abbrev pub is_early : {F : Type 0} → RewindError F → Bool
is_early no_events = true
is_early (event_not_found _) = true
is_early (out_of_bounds _) = true
is_early (nil_event _) = true
is_early (no_temp_id _) = true
is_early (create_temp_failed _) = true
is_early (append_temp_failed _) = true
is_early (refresh_temp_failed _) = true
is_early _ = false

module _ (svc : Service) (prefixes : Prefixes) (laws : Laws svc) (id : Bytes) where
  open svc use {World, Session, Value, Failure}

  -- Where the error is an early one, the session is as it was in `w`.
  abbrev Keeps : World → World × Outcome Session Failure → Type 0
  Keeps w r =
      (e : RewindError Failure)
      → r.1.error ≡ some e
      → is_early e ≡ true
      → svc.get id r.0 ≡ svc.get id w

  append_all-late :
      (kept : List (Event Value)) (s : Session) (w : World) (e : RewindError Failure)
      → (append_all svc prefixes append_failed refresh_failed id kept s w).1 ≡ inl e
      → is_early e ≡ false
  unfolding append_all
  append_all-late [] s w e h = cc
  append_all-late (ev ∷ kept) s w e h = elim (Option-cases (svc.append_event s ev w).1) [
    | inr (f, m) ↦ ground arith
    | inl m ↦ elim (Sum-cases (svc.get id (svc.append_event s ev w).0)) [
      | inl (f, g) ↦ ground arith
      | inr (s', g) ↦ append_all-late kept s' (svc.append_event s ev w).0 e (ground arith)
    ]
  ]

  write_new-late :
      (kept : List (Event Value)) (w : World) (e : RewindError Failure)
      → (write_new svc prefixes id kept w).1 ≡ inl e
      → is_early e ≡ false
  unfolding write_new
  write_new-late kept w e h = elim (Sum-cases (svc.create id (replay_state prefixes kept) w).1) [
    | inl (f, m) ↦ ground arith
    | inr (s, m) ↦
        append_all-late kept s (svc.create id (replay_state prefixes kept) w).0 e (ground arith)
  ]

  clean_up-late :
      (temp : Bytes) (s : Session) (w : World) (e : RewindError Failure)
      → (clean_up svc prefixes id temp s w).1.error ≡ some e
      → is_early e ≡ false
  unfolding clean_up fetch_session
  clean_up-late temp s w e h = ground arith

  recreate-late :
      (temp : Bytes) (kept : List (Event Value)) (w : World) (e : RewindError Failure)
      → (recreate svc prefixes id temp kept w).1.error ≡ some e
      → is_early e ≡ false
  unfolding recreate
  recreate-late temp kept w e h = elim (Sum-cases (write_new svc prefixes id kept w).1) [
    | inl (f, m) ↦ ground (arith, write_new-late kept w f m)
    | inr (s, m) ↦ clean_up-late temp s (write_new svc prefixes id kept w).0 e (ground arith)
  ]

  replace_session-late :
      (temp : Bytes) (kept : List (Event Value)) (w : World) (e : RewindError Failure)
      → (replace_session svc prefixes id temp kept w).1.error ≡ some e
      → is_early e ≡ false
  unfolding replace_session
  replace_session-late temp kept w e h = elim (Option-cases (svc.delete id w).1) [
    | inl m ↦ recreate-late temp kept (svc.delete id w).0 e (ground arith)
    | inr (f, m) ↦ ground arith
  ]

  write_temp-apart :
      (temp : Bytes) (kept : List (Event Value)) (w : World)
      → temp ≢ id
      → svc.get id (write_temp svc prefixes temp kept w).0 ≡ svc.get id w
  unfolding write_temp
  write_temp-apart temp kept w n =
      let w1 = (svc.create temp [] w).0 in
      let apart = laws.create_apart temp id [] w n in
      elim (Sum-cases (svc.create temp [] w).1) [
        | inl (f, m) ↦
            let same : (write_temp svc prefixes temp kept w).0 ≡ w1 = ground arith in
            ap (svc.get id) same ∙ apart
        | inr (s, m) ↦
            let same : (write_temp svc prefixes temp kept w).0
                ≡ (append_all svc prefixes append_temp_failed refresh_temp_failed temp kept s
                    w1).0 =
              ground arith in
            let (empty, current) = laws.created temp [] w s m in
            ap (svc.get id) same
            ∙ append_all-apart svc prefixes laws append_temp_failed refresh_temp_failed temp id kept
                s w1 n (laws.named temp w1 s current)
            ∙ apart
      ]

  swap-Keeps :
      (temp : Bytes) (kept : List (Event Value)) (w : World)
      → temp ≢ id
      → Keeps w (swap svc prefixes id temp kept w)
  unfolding swap
  swap-Keeps temp kept w n e h early = elim (Sum-cases (write_temp svc prefixes temp kept w).1) [
    | inl (f, m) ↦
        let same : (swap svc prefixes id temp kept w).0 ≡ (write_temp svc prefixes temp kept w).0 =
          ground arith in
        ap (svc.get id) same ∙ write_temp-apart temp kept w n
    | inr (s, m) ↦
        let late =
          replace_session-late temp kept (write_temp svc prefixes temp kept w).0 e (ground arith) in
        absurd (ground arith)
  ]

  apply_rewind-Keeps :
      (s : Session) (i : ℕ) (w : World)
      → IsFresh svc prefixes laws id
      → Keeps w (apply_rewind svc prefixes id s i w)
  unfolding apply_rewind
  apply_rewind-Keeps s i w fresh e h early =
      elim (Sum-cases (keep_events 0 (suc i) (svc.events s))) [
        | inl (j, m) ↦
            let same : (apply_rewind svc prefixes id s i w).0 ≡ w = ground arith in
            ap (svc.get id) same
        | inr (kept, m) ↦ elim (Sum-cases (svc.generate_id w).1) [
          | inl (f, m') ↦
              let same : (apply_rewind svc prefixes id s i w).0 ≡ (svc.generate_id w).0 =
                ground arith in
              ap (svc.get id) same ∙ laws.generate_apart id w
          | inr (x, m') ↦
              let temp = bytes "rewind-tmp-" ++ x in
              let w1 = (svc.generate_id w).0 in
              let same : apply_rewind svc prefixes id s i w ≡ swap svc prefixes id temp kept w1 =
                ground arith in
              ap (λ (r : World × Outcome Session Failure). svc.get id r.0) same
              ∙ swap-Keeps temp kept w1 (fresh w x m') e
                  (sym (ap (λ (r : World × Outcome Session Failure). r.1.error) same) ∙ h) early
              ∙ laws.generate_apart id w
        ]
      ]

  rewind-none :
      (target : Bytes) (w : World) (s : Session)
      → svc.get id w ≡ inr s
      → find_event 0 target (svc.events s) ≡ none
      → (rewind svc prefixes id target w).0 ≡ w
  unfolding rewind fetch_session find_event
  rewind-none target w s g f = ground arith

  -- Where a rewind fails before it deletes the session, with an error that no later step reports,
  -- the session is still what it was, if the service keeps its promises and the temporary session
  -- has a name of its own.
  pub rewind_keeps_session :
      (target : Bytes) (w : World)
      → IsFresh svc prefixes laws id
      → (e : RewindError Failure) → (rewind svc prefixes id target w).1.error ≡ some e
      → is_early e ≡ true
      → svc.get id (rewind svc prefixes id target w).0 ≡ svc.get id w
  unfolding rewind fetch_session
  rewind_keeps_session target w fresh e h early = elim (Sum-cases (svc.get id w)) [
    | inl (f, g) ↦
        let same : (rewind svc prefixes id target w).0 ≡ w = ground arith in ap (svc.get id) same
    | inr (s, g) ↦ elim (Option-cases (find_event 0 target (svc.events s))) [
      | inl n ↦ ap (svc.get id) (rewind-none target w s g n)
      | inr (i, n) ↦
          let same = rewind-found svc prefixes laws id target w s i g n in
          ap (λ (r : World × Outcome Session Failure). svc.get id r.0) same
          ∙ apply_rewind-Keeps s i w fresh e
              (sym (ap (λ (r : World × Outcome Session Failure). r.1.error) same) ∙ h) early
    ]
  ]
