-- ===== src/Session/Rewind/Swap.antt =====
-- What a rewind leaves in the session service, where the service keeps its promises.
use adk_go_pkg.Base.{
  Option, none, some, List, [], ◌∷◌, ◌++◌, append-nil, append_assoc, Bytes, ◌⊎◌, inl, inr, ◌≡◌, ◌≢◌,
  refl, sym, ◌∙◌, arith, map, All, Option-cases,
}
use mathlib.Core.Path.{subst}
use adk_go_pkg.Base.Map.{Map}
use adk_go_pkg.Session.Rewind.{
  Event, Service, Prefixes, RewindError, Outcome, append_failed, refresh_failed, replay_state,
  fetch_session, append_all, write_new, clean_up, recreate,
}

-- What the documentation of the ADK's session service says of its calls.
pub record Laws (svc : Service) : Type 1 where
  -- The events as a session holds them.
  pub Stored : Event svc.Value → Type 0
  pub stored :
      (id : Bytes) (w : svc.World) (s : svc.Session)
      → svc.get id w ≡ inr s
      → All
          (λ (o : Option (Event svc.Value)). elim o [ none ↦ Unit {0} | some ev ↦ Stored ev ])
          (svc.events s)
  pub named :
      (id : Bytes) (w : svc.World) (s : svc.Session) → svc.get id w ≡ inr s → svc.id_of s ≡ id
  -- A created session is empty, and is what Get returns from then on.
  pub created :
      (id : Bytes) (state : Map svc.Value) (w : svc.World) (s : svc.Session)
      → (svc.create id state w).1 ≡ inr s
      → (svc.events s ≡ []) × (svc.get id (svc.create id state w).0 ≡ inr s)
  -- An event that a session held is appended as it is.
  pub appended :
      (id : Bytes) (s s' : svc.Session) (ev : Event svc.Value) (w : svc.World)
      → Stored ev
      → svc.get id w ≡ inr s
      → (svc.append_event s ev w).1 ≡ none
      → svc.get id (svc.append_event s ev w).0 ≡ inr s'
      → svc.events s' ≡ svc.events s ++ some ev ∷ []
  -- A call on one session leaves the others.
  pub create_apart :
      (id j : Bytes) (state : Map svc.Value) (w : svc.World)
      → id ≢ j
      → svc.get j (svc.create id state w).0 ≡ svc.get j w
  pub append_apart :
      (s : svc.Session) (j : Bytes) (ev : Event svc.Value) (w : svc.World)
      → svc.id_of s ≢ j
      → svc.get j (svc.append_event s ev w).0 ≡ svc.get j w
  pub delete_apart :
      (id j : Bytes) (w : svc.World) → id ≢ j → svc.get j (svc.delete id w).0 ≡ svc.get j w
  pub generate_apart : (j : Bytes) (w : svc.World) → svc.get j (svc.generate_id w).0 ≡ svc.get j w

pub Sum-cases : {A B : Type 0} (x : A ⊎ B) → ((a : A) × (x ≡ inl a)) ⊎ ((b : B) × (x ≡ inr b))
Sum-cases (inl a) = inl (a, refl)
Sum-cases (inr b) = inr (b, refl)

module _ (svc : Service) (prefixes : Prefixes) (laws : Laws svc) where
  open svc use {World, Session, Value, Failure}

  abbrev Error : Type 0
  Error = RewindError Failure

  -- Get returns this session, with these events.
  record Holds (id : Bytes) (s : Session) (evs : List (Option (Event Value))) (w : World)
      : Type 0 where
    current : svc.get id w ≡ inr s
    has : svc.events s ≡ evs

  module _ (refused lost : Failure → Error) (id : Bytes) where
    abbrev after : Session → Event Value → World → World
    after s ev w = (svc.append_event s ev w).0

    append_all-cons :
        (ev : Event Value) (kept : List (Event Value)) (s s1 : Session) (w : World)
        → (svc.append_event s ev w).1 ≡ none
        → svc.get id (after s ev w) ≡ inr s1
        → append_all svc prefixes refused lost id (ev ∷ kept) s w
          ≡ append_all svc prefixes refused lost id kept s1 (after s ev w)
    unfolding append_all
    append_all-cons ev kept s s1 w n g = ground arith

    append_all-refused :
        (ev : Event Value) (kept : List (Event Value)) (s : Session) (w : World) (f : Failure)
        → (svc.append_event s ev w).1 ≡ some f
        → append_all svc prefixes refused lost id (ev ∷ kept) s w ≡ (after s ev w, inl (refused f))
    unfolding append_all
    append_all-refused ev kept s w f n = ground arith

    append_all-lost :
        (ev : Event Value) (kept : List (Event Value)) (s : Session) (w : World) (f : Failure)
        → (svc.append_event s ev w).1 ≡ none
        → svc.get id (after s ev w) ≡ inl f
        → append_all svc prefixes refused lost id (ev ∷ kept) s w ≡ (after s ev w, inl (lost f))
    unfolding append_all
    append_all-lost ev kept s w f n g = ground arith

    append_all-Holds :
        (kept : List (Event Value)) (done : List (Option (Event Value))) (s s' : Session)
        (w w' : World)
        → All laws.Stored kept
        → Holds id s done w
        → append_all svc prefixes refused lost id kept s w ≡ (w', inr s')
        → Holds id s' (done ++ map some kept) w'
    unfolding append_all
    append_all-Holds [] done s s' w w' hs h e =
        let same : s ≡ s' = ground arith in
        let same_world : w ≡ w' = ground arith in
        record {
          current = rw (sym same_world, sym same) h.current;
          has = rw (append-nil, sym same) h.has;
        }
    append_all-Holds (ev ∷ kept) done s s' w w' (st, hs) h e =
        elim (Option-cases (svc.append_event s ev w).1) [
          | inl n ↦ elim (Sum-cases (svc.get id (after s ev w))) [
            | inl (f, g) ↦ absurd (ground (arith, append_all-lost ev kept s w f n g))
            | inr (s1, g) ↦ rw (sym (append_assoc done (some ev ∷ []) (map some kept))) (
                append_all-Holds kept (done ++ some ev ∷ []) s1 s' (after s ev w) w' hs
                  (record {
                    current = g;
                    has = laws.appended id s s1 ev w st h.current n g ∙ rw h.has;
                  })
                  (sym (append_all-cons ev kept s s1 w n g) ∙ e))
          ]
          | inr (f, n) ↦ absurd (ground (arith, append_all-refused ev kept s w f n))
        ]

    pub append_all-apart :
        (j : Bytes) (kept : List (Event Value)) (s : Session) (w : World)
        → id ≢ j
        → svc.id_of s ≡ id
        → svc.get j (append_all svc prefixes refused lost id kept s w).0 ≡ svc.get j w
    unfolding append_all
    append_all-apart j [] s w n e = refl
    append_all-apart j (ev ∷ kept) s w n e =
        let other : svc.id_of s ≢ j = λ h. n (sym e ∙ h) in
        let apart = laws.append_apart s j ev w other in
        elim (Option-cases (svc.append_event s ev w).1) [
          | inl m ↦ elim (Sum-cases (svc.get id (after s ev w))) [
            | inl (f, g) ↦ rw (append_all-lost ev kept s w f m g) apart
            | inr (s1, g) ↦ rw (append_all-cons ev kept s s1 w m g) (
                append_all-apart j kept s1 (after s ev w) n (laws.named id (after s ev w) s1 g)
                ∙ apart)
          ]
          | inr (f, m) ↦ rw (append_all-refused ev kept s w f m) apart
        ]

  -- A result without an error comes with the session that Get returns, which has these events.
  abbrev pub Rewound :
      Bytes → List (Option (Event Value)) → World × Outcome Session Failure → Type 0
  Rewound id evs r =
      r.1.error ≡ none
      → (s : Session) × (r.1.session ≡ some s) × (svc.get id r.0 ≡ inr s) × (svc.events s ≡ evs)

  clean_up-ok :
      (id temp : Bytes) (s s1 : Session) (w : World)
      → (svc.delete temp w).1 ≡ none
      → svc.get id (svc.delete temp w).0 ≡ inr s1
      → clean_up svc prefixes id temp s w
        ≡ ((svc.delete temp w).0, record { session = some s1; error = none })
  unfolding clean_up fetch_session
  clean_up-ok id temp s s1 w n g = ground arith

  clean_up-Rewound :
      (id temp : Bytes) (s : Session) (evs : List (Option (Event Value))) (w : World)
      → temp ≢ id
      → Holds id s evs w
      → Rewound id evs (clean_up svc prefixes id temp s w)
  unfolding clean_up
  clean_up-Rewound id temp s evs w n h = elim (Option-cases (svc.delete temp w).1) [
    | inl m ↦
        let g = laws.delete_apart temp id w n ∙ h.current in
        rw (clean_up-ok id temp s s w m g) (λ e. (s, refl, g, h.has))
    | inr (f, m) ↦ λ e. absurd (ground arith)
  ]

  module _ (id : Bytes) (kept : List (Event Value)) (w : World) where
    abbrev made : World
    made = (svc.create id (replay_state prefixes kept) w).0

    write_new-ok :
        (s : Session)
        → (svc.create id (replay_state prefixes kept) w).1 ≡ inr s
        → write_new svc prefixes id kept w
          ≡ append_all svc prefixes append_failed refresh_failed id kept s made
    unfolding write_new
    write_new-ok s g = ground arith

    write_new-Holds :
        (s : Session)
        → All laws.Stored kept
        → (write_new svc prefixes id kept w).1 ≡ inr s
        → Holds id s (map some kept) (write_new svc prefixes id kept w).0
    unfolding write_new
    write_new-Holds s st e = elim (Sum-cases (svc.create id (replay_state prefixes kept) w).1) [
      | inl (f, g) ↦ absurd (ground arith)
      | inr (s1, g) ↦
          let (empty, current) = laws.created id (replay_state prefixes kept) w s1 g in
          rw (write_new-ok s1 g) (
            append_all-Holds append_failed refresh_failed id kept [] s1 s made
              (append_all svc prefixes append_failed refresh_failed id kept s1 made).0 st
              (record { current = current; has = empty }) (ground (arith, write_new-ok s1 g)))
    ]

    pub recreate-Rewound :
        (temp : Bytes)
        → temp ≢ id
        → All laws.Stored kept
        → Rewound id (map some kept) (recreate svc prefixes id temp kept w)
    unfolding recreate
    recreate-Rewound temp n st = elim (Sum-cases (write_new svc prefixes id kept w).1) [
      | inl (f, g) ↦ λ e. absurd (ground arith)
      | inr (s, g) ↦ subst (Rewound id (map some kept)) (ground arith) (
          clean_up-Rewound id temp s (map some kept) (write_new svc prefixes id kept w).0 n
            (write_new-Holds s st g))
    ]
