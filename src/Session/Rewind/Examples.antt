-- ===== src/Session/Rewind/Examples.antt =====
-- Rewinding in a service that keeps its sessions in a map: a test, and uses of the theorems.
use adk_go_pkg.Base.{
  ℕ, suc, ◌<◌, Option, none, some, List, [], ◌∷◌, ◌++◌, Bytes, bytes, str_eq, str_eq_iff, inl, inr,
  ◌≡◌, ◌≢◌, refl, arith, length, take, All, has_prefix, str_eq_refl, Option-cases,
}
use adk_go_pkg.Base.Int.{pos}
use adk_go_pkg.Base.Map.{Map, lookup, insert, delete, unique, lookup-insert, lookup-delete}
use adk_go_pkg.Session.Rewind.{
  Event, Service, Prefixes, nil_event, is_scoped, replay_state, rewind, rewind_to_index,
}
use adk_go_pkg.Session.Rewind.Replay.{lookup-replay_state}
use adk_go_pkg.Session.Rewind.Swap.{Laws}
use adk_go_pkg.Session.Rewind.Result.{IsFresh}
use adk_go_pkg.Session.Rewind.Target.{Splits, rewind_lem, rewind_to_index_lem}
use adk_go_pkg.Session.Rewind.Failure.{rewind_keeps_session}

abbrev Events : Type 0
Events = List (Option (Event ℕ))

abbrev memory : Service
memory = record {
  World = Map Events;
  Session = Bytes × Events;
  Value = ℕ;
  Failure = Unit {0};
  id_of = λ s. s.0;
  events = λ s. s.1;
  get = λ id w. elim (lookup id w) [ none ↦ inl tt | some evs ↦ inr (id, evs) ];
  create = λ id state w. (insert id [] w, inr (id, []));
  append_event = λ s ev w. elim (lookup s.0 w) [
    | none ↦ (w, some tt)
    | some evs ↦ (insert s.0 (evs ++ some ev ∷ []) w, none)
  ];
  delete = λ id w. (delete id w, none);
  generate_id = λ w. (w, inr (bytes "0"));
}

All_tt :
    (evs : Events)
    → All (λ (o : Option (Event ℕ)). elim o [ none ↦ Unit {0} | some ev ↦ Unit {0} ]) evs
All_tt [] = tt
All_tt (none ∷ evs) = (tt, All_tt evs)
All_tt (some ev ∷ evs) = (tt, All_tt evs)

memory-appended :
    (id : Bytes) (s s' : Bytes × Events) (ev : Event ℕ) (w : Map Events)
    → memory.get id w ≡ inr s
    → memory.get id (memory.append_event s ev w).0 ≡ inr s'
    → s'.1 ≡ s.1 ++ some ev ∷ []
memory-appended id s s' ev w g h = elim (Option-cases (lookup id w)) [
  | inl n ↦ absurd (ground arith)
  | inr (evs, n) ↦ ground (arith, lookup-insert id id (evs ++ some ev ∷ []) w, str_eq_refl id)
]

memory-append_apart :
    (s : Bytes × Events) (j : Bytes) (ev : Event ℕ) (w : Map Events)
    → s.0 ≢ j
    → memory.get j (memory.append_event s ev w).0 ≡ memory.get j w
memory-append_apart s j ev w n = elim (Option-cases (lookup s.0 w)) [
  | inl m ↦ ground arith
  | inr (evs, m) ↦ ground (arith, lookup-insert s.0 j (evs ++ some ev ∷ []) w, str_eq_iff s.0 j)
]

memory-Laws : Laws memory
memory-Laws = record {
  Stored = λ ev. Unit;
  stored = λ id w s h. All_tt s.1;
  named = λ id w s h. ground arith;
  created = λ id state w s h.
      (ground arith, ground (arith, lookup-insert {V = Events} id id [] w, str_eq_refl id));
  appended = λ id s s' ev w st g n h. memory-appended id s s' ev w g h;
  create_apart =
      λ id j state w n. ground (arith, lookup-insert {V = Events} id j [] w, str_eq_iff id j);
  append_apart = memory-append_apart;
  delete_apart = λ id j w n. ground (arith, lookup-delete id j w, str_eq_iff id j);
  generate_apart = λ j w. refl;
}

abbrev prefixes : Prefixes
prefixes = record { app = bytes "app:"; user = bytes "user:"; temp = bytes "temp:" }

abbrev event_of : Bytes → ℕ → Event ℕ
event_of id n = record { id = id; state_delta = (bytes "n", n) ∷ (bytes "user:n", n) ∷ [] }

abbrev world : Map Events
world =
    (
      bytes "s",
      some (event_of (bytes "a") 1)
          ∷ some (event_of (bytes "b") 2)
          ∷ some (event_of (bytes "c") 3)
          ∷ [],
    )
    ∷ (bytes "holey", none ∷ some (event_of (bytes "b") 2) ∷ [])
    ∷ []

s-IsFresh : IsFresh memory prefixes memory-Laws (bytes "s")
s-IsFresh w x e h = ground arith

holey-IsFresh : IsFresh memory prefixes memory-Laws (bytes "holey")
holey-IsFresh w x e h = ground arith

rewind_lem_example :
    (s s' : Bytes × Events) × (found : Splits (bytes "b") s.1) × (memory.get (bytes "s") world
      ≡ inr s)
    × ((rewind memory prefixes (bytes "s") (bytes "b") world).1.session ≡ some s')
    × (memory.get (bytes "s") (rewind memory prefixes (bytes "s") (bytes "b") world).0 ≡ inr s')
    × (s'.1 ≡ found.before ++ some found.event ∷ [])
unfolding rewind lookup insert delete str_eq
rewind_lem_example =
    rewind_lem memory prefixes memory-Laws (bytes "s") (bytes "b") world s-IsFresh refl

rewind_to_index_lem_example :
    (s s' : Bytes × Events) × (i : ℕ) × (memory.get (bytes "s") world ≡ inr s)
    × (pos 1 ≡ pos i)
    × (i < length s.1)
    × ((rewind_to_index memory prefixes (bytes "s") (pos 1) world).1.session ≡ some s')
    × (memory.get (bytes "s") (rewind_to_index memory prefixes (bytes "s") (pos 1) world).0
        ≡ inr s')
    × (s'.1 ≡ take (suc i) s.1)
unfolding rewind_to_index lookup insert delete str_eq
rewind_to_index_lem_example =
    rewind_to_index_lem memory prefixes memory-Laws (bytes "s") (pos 1) world s-IsFresh refl

rewind_keeps_session_example :
    memory.get (bytes "holey") (rewind memory prefixes (bytes "holey") (bytes "b") world).0
    ≡ memory.get (bytes "holey") world
unfolding rewind lookup str_eq
rewind_keeps_session_example =
    rewind_keeps_session memory prefixes memory-Laws (bytes "holey") (bytes "b") world holey-IsFresh
      (nil_event 0) refl refl

lookup-replay_state_example :
    lookup
      (bytes "n")
      (replay_state prefixes (event_of (bytes "a") 1 ∷ event_of (bytes "b") 2 ∷ []))
    ≡ some 2
unfolding unique str_eq is_scoped has_prefix lookup
lookup-replay_state_example =
    lookup-replay_state prefixes (bytes "n") (event_of (bytes "a") 1 ∷ event_of (bytes "b") 2 ∷ [])
      (refl, (refl, tt))
