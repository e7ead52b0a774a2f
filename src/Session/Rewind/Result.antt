-- ===== src/Session/Rewind/Result.antt =====
-- What a rewind returns where it reports no error.
use adk_go_pkg.Base.{
  ℕ, zero, suc, Option, none, some, List, [], ◌∷◌, ◌++◌, Bytes, bytes, inl, inr, ◌≡◌, ◌≢◌, ap,
  arith, map, take, All, Option-cases,
}
use mathlib.Core.Path.{subst}
use adk_go_pkg.Session.Rewind.{
  Event, Service, Prefixes, write_temp, replace_session, swap, apply_rewind, keep_events,
}
use adk_go_pkg.Session.Rewind.Swap.{Laws, Rewound, Sum-cases, recreate-Rewound}

module _ {V : Type 0} where
  take-keep_events :
      (i n : ℕ) (evs : List (Option (Event V))) (kept : List (Event V))
      → keep_events i n evs ≡ inr kept
      → map some kept ≡ take n evs
  unfolding keep_events
  take-keep_events i zero evs kept e = ground arith
  take-keep_events i (suc n) [] kept e = cc
  take-keep_events i (suc n) (none ∷ evs) kept e = cc
  take-keep_events i (suc n) (some ev ∷ evs) kept e = elim (Sum-cases (keep_events (suc i) n evs)) [
    | inl (j, g) ↦ absurd (ground arith)
    | inr (r, g) ↦
        let same : kept ≡ ev ∷ r = ground arith in
        rw same (ap (◌∷◌ (some ev)) (take-keep_events (suc i) n evs r g))
  ]

  All-keep_events :
      (P : Event V → Type 0) (i n : ℕ) (evs : List (Option (Event V))) (kept : List (Event V))
      → keep_events i n evs ≡ inr kept
      → All (λ (o : Option (Event V)). elim o [ none ↦ Unit {0} | some ev ↦ P ev ]) evs
      → All P kept
  unfolding keep_events
  All-keep_events P i zero evs kept e h = let same : kept ≡ [] = ground arith in rw same tt
  All-keep_events P i (suc n) [] kept e h = cc
  All-keep_events P i (suc n) (none ∷ evs) kept e h = cc
  All-keep_events P i (suc n) (some ev ∷ evs) kept e (h, hs) =
      elim (Sum-cases (keep_events (suc i) n evs)) [
        | inl (j, g) ↦ absurd (ground arith)
        | inr (r, g) ↦
            let same : kept ≡ ev ∷ r = ground arith in
            rw same (h, All-keep_events P (suc i) n evs r g hs)
      ]

module _ (svc : Service) (prefixes : Prefixes) (laws : Laws svc) (id : Bytes) where
  open svc use {World, Session, Value, Failure}

  replace_session-Rewound :
      (temp : Bytes) (kept : List (Event Value)) (w : World)
      → temp ≢ id
      → All laws.Stored kept
      → Rewound svc prefixes laws id (map some kept) (replace_session svc prefixes id temp kept w)
  unfolding replace_session
  replace_session-Rewound temp kept w n st = elim (Option-cases (svc.delete id w).1) [
    | inl m ↦
        subst (Rewound svc prefixes laws id (map some kept)) (ground arith)
          (recreate-Rewound svc prefixes laws id kept (svc.delete id w).0 temp n st)
    | inr (f, m) ↦ λ e. absurd (ground arith)
  ]

  swap-Rewound :
      (temp : Bytes) (kept : List (Event Value)) (w : World)
      → temp ≢ id
      → All laws.Stored kept
      → Rewound svc prefixes laws id (map some kept) (swap svc prefixes id temp kept w)
  unfolding swap
  swap-Rewound temp kept w n st = elim (Sum-cases (write_temp svc prefixes temp kept w).1) [
    | inl (f, m) ↦ λ e. absurd (ground arith)
    | inr (s, m) ↦
        subst (Rewound svc prefixes laws id (map some kept)) (ground arith)
          (replace_session-Rewound temp kept (write_temp svc prefixes temp kept w).0 n st)
  ]

  -- The name of a temporary session is not the session's own.
  abbrev pub IsFresh : Type 0
  IsFresh = (w : World) (x : Bytes) → (svc.generate_id w).1 ≡ inr x → bytes "rewind-tmp-" ++ x ≢ id

  pub apply_rewind-Rewound :
      (s : Session) (i : ℕ) (w : World)
      → IsFresh
      → svc.get id w ≡ inr s
      → Rewound svc prefixes laws id
          (take (suc i) (svc.events s))
          (apply_rewind svc prefixes id s i w)
  unfolding apply_rewind
  apply_rewind-Rewound s i w fresh g = elim (Sum-cases (keep_events 0 (suc i) (svc.events s))) [
    | inl (j, m) ↦ λ e. absurd (ground arith)
    | inr (kept, m) ↦ elim (Sum-cases (svc.generate_id w).1) [
      | inl (f, m') ↦ λ e. absurd (ground arith)
      | inr (x, m') ↦
          subst (Rewound svc prefixes laws id (take (suc i) (svc.events s))) (ground arith) (
            subst
              (λ evs.
                Rewound svc prefixes laws id evs
                  (swap svc prefixes id (bytes "rewind-tmp-" ++ x) kept (svc.generate_id w).0))
              (take-keep_events 0 (suc i) (svc.events s) kept m)
              (swap-Rewound (bytes "rewind-tmp-" ++ x) kept (svc.generate_id w).0 (fresh w x m') (
                All-keep_events laws.Stored 0 (suc i) (svc.events s) kept m
                  (laws.stored id w s g))))
    ]
  ]
