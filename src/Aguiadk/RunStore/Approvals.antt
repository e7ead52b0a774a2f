-- ===== src/Aguiadk/RunStore/Approvals.antt =====
-- approvalsFromResume: the decisions that the entries of a resume carry. The entry type and the
-- status `resolved` are those of the AG-UI SDK.
use adk_go_pkg.Base.{
  Bool, true, false, Option, none, some, List, [], ◌∷◌, ◌++◌, Bytes, bytes, str_eq, str_eq_iff, ◌≡◌,
  ◌≢◌, ◌⊎◌, refl, All, arith, inl, inr, Bool-cases, if◌then◌else◌,
}
use adk_go_pkg.Base.Map.{Map, lookup, insert, lookup-insert}
use adk_go_pkg.Value
use adk_go_pkg.Value.{Value, Fields}

pub record ResumeEntry (F : Type 0) : Type 0 where
  pub interrupt_id : Bytes
  pub status : Bytes
  pub payload : Value F

module _ {F : Type 0} where
  -- `m, ok := payload.(map[string]any)`, then `v, ok := m["approved"].(bool)`
  unfoldable pub carried : Value F → Option Bool
  carried (Value.map m) = elim (Value.get (bytes "approved") m) [
    | none ↦ none
    | some v ↦ elim v [ Value.bool b ↦ some b | _ ↦ none ]
  ]
  carried _ = none

module _ {F : Type 0} (resolved : Bytes) where
  -- What the body of the loop stores for one entry.
  unfoldable pub approved : ResumeEntry F → Bool
  unfolding carried
  approved e =
      if str_eq e.status resolved
      then (elim (carried e.payload) [ none ↦ true | some b ↦ b ])
      else false

  unfoldable pub approvals_from : Map Bool → List (ResumeEntry F) → Map Bool
  unfolding approved
  approvals_from m [] = m
  approvals_from m (e ∷ es) = approvals_from (insert e.interrupt_id (approved e) m) es

  unfoldable pub approvals_from_resume : List (ResumeEntry F) → Map Bool
  unfolding approvals_from
  approvals_from_resume = approvals_from []

-- What a resume says of an interrupt, without the code.
module _ {F : Type 0} (resolved : Bytes) where
  -- An entry that is not resolved denies; a resolved one says what its payload has under
  -- `approved`, and approves if that has no Boolean.
  pub data Decides (e : ResumeEntry F) : Bool → Type 0 where
    unresolved : str_eq e.status resolved ≡ false → Decides e false
    says :
        {m : Fields F} {b : Bool}
        → e.status ≡ resolved
        → e.payload ≡ Value.map m
        → Value.get (bytes "approved") m ≡ some (Value.bool b)
        → Decides e b
    silent :
        e.status ≡ resolved
        → ((m : Fields F) (b : Bool)
            → e.payload ≡ Value.map m
            → Value.get (bytes "approved") m ≢ some (Value.bool b))
        → Decides e true

  abbrev pub NamesNone : Bytes → List (ResumeEntry F) → Type 0
  NamesNone id es = All (λ e. str_eq e.interrupt_id id ≡ false) es

  -- No entry names the interrupt, or the last one that names it decides.
  pub data Decided (id : Bytes) : List (ResumeEntry F) → Option Bool → Type 0 where
    unnamed : {es : List (ResumeEntry F)} → NamesNone id es → Decided id es none
    last :
        (before after : List (ResumeEntry F)) {e : ResumeEntry F} {d : Bool}
        → e.interrupt_id ≡ id
        → NamesNone id after
        → Decides e d
        → Decided id (before ++ e ∷ after) (some d)

  -- What the entry under `approved` is, if there is one.
  entry-Decides :
      (e : ResumeEntry F) (m : Fields F)
      → e.status ≡ resolved
      → e.payload ≡ Value.map m
      → (v : Option (Value F)) → Value.get (bytes "approved") m ≡ v
      → let b : Option Bool = elim v [
        | none ↦ none
        | some v ↦ elim v [ Value.bool b ↦ some b | _ ↦ none ]
      ] in
        Decides e (elim b [ none ↦ true | some b ↦ b ])
  entry-Decides e m r p none g = silent r (λ m' b p' g'. absurd (cc))
  entry-Decides e m r p (some (Value.bool b)) g = says r p g
  entry-Decides e m r p (some Value.null) g = silent r (λ m' b p' g'. absurd (cc))
  entry-Decides e m r p (some (Value.string _)) g = silent r (λ m' b p' g'. absurd (cc))
  entry-Decides e m r p (some (Value.float64 _)) g = silent r (λ m' b p' g'. absurd (cc))
  entry-Decides e m r p (some (Value.int _)) g = silent r (λ m' b p' g'. absurd (cc))
  entry-Decides e m r p (some (Value.map _)) g = silent r (λ m' b p' g'. absurd (cc))
  entry-Decides e m r p (some (Value.list _)) g = silent r (λ m' b p' g'. absurd (cc))
  entry-Decides e m r p (some (Value.other _)) g = silent r (λ m' b p' g'. absurd (cc))

  payload-Decides :
      (e : ResumeEntry F)
      → e.status ≡ resolved
      → (v : Value F) → e.payload ≡ v
      → Decides e (elim (carried v) [ none ↦ true | some b ↦ b ])
  unfolding carried
  payload-Decides e r (Value.map m) p = entry-Decides e m r p _ refl
  payload-Decides e r Value.null p = silent r (λ m b p' g. absurd (cc))
  payload-Decides e r (Value.bool _) p = silent r (λ m b p' g. absurd (cc))
  payload-Decides e r (Value.string _) p = silent r (λ m b p' g. absurd (cc))
  payload-Decides e r (Value.float64 _) p = silent r (λ m b p' g. absurd (cc))
  payload-Decides e r (Value.int _) p = silent r (λ m b p' g. absurd (cc))
  payload-Decides e r (Value.list _) p = silent r (λ m b p' g. absurd (cc))
  payload-Decides e r (Value.other _) p = silent r (λ m b p' g. absurd (cc))

  approved-Decides : (e : ResumeEntry F) → Decides e (approved resolved e)
  unfolding approved
  approved-Decides e = elim (Bool-cases (str_eq e.status resolved)) [
    | inl h ↦ rw h (payload-Decides e ((str_eq_iff e.status resolved).0 h) e.payload refl)
    | inr h ↦ rw h (unresolved h)
  ]

  Decided-cons :
      (id : Bytes) (e : ResumeEntry F) {es : List (ResumeEntry F)} {d : Bool}
      → Decided id es (some d)
      → Decided id (e ∷ es) (some d)
  Decided-cons id e (last before after n a h) = last (e ∷ before) after n a h

  Decided-from :
      (id : Bytes) (m : Map Bool) (es : List (ResumeEntry F))
      → (NamesNone id es × (lookup id (approvals_from resolved m es) ≡ lookup id m))
        ⊎ ((d : Bool) × Decided id es (some d)
            × (lookup id (approvals_from resolved m es) ≡ some d))
  unfolding approvals_from
  Decided-from id m [] = inl (tt, refl)
  Decided-from id m (e ∷ es) =
      let d = approved resolved e in
      let put = lookup-insert e.interrupt_id id d m in
      elim (Decided-from id (insert e.interrupt_id d m) es) [
        | inr (x, h, l) ↦ inr (x, Decided-cons id e h, l)
        | inl (n, l) ↦ elim (Bool-cases (str_eq e.interrupt_id id)) [
          | inl same ↦ inr (
            d,
            last [] es ((str_eq_iff e.interrupt_id id).0 same) n (approved-Decides e),
            ground (arith, l, put),
          )
          | inr other ↦ inl ((other, n), ground (arith, l, put))
        ]
      ]

  -- approvalsFromResume gives each interrupt the decision of the last entry that names it, and
  -- none to an interrupt that no entry names. An entry that is not resolved denies; a resolved
  -- one approves, unless its payload is a map with `approved` false.
  pub lookup-approvals :
      (id : Bytes) (es : List (ResumeEntry F))
      → Decided id es (lookup id (approvals_from_resume resolved es))
  unfolding approvals_from_resume lookup
  lookup-approvals id es = elim (Decided-from id [] es) [
    | inl (n, l) ↦ rw l (unnamed n)
    | inr (d, h, l) ↦ rw l h
  ]

  -- Some entry names the interrupt.
  abbrev pub IsNamed : Bytes → List (ResumeEntry F) → Type 0
  IsNamed id [] = ⊥
  IsNamed id (e ∷ es) = (str_eq e.interrupt_id id ≡ true) ⊎ IsNamed id es

  not_both : (id : Bytes) (es : List (ResumeEntry F)) → IsNamed id es → NamesNone id es → ⊥
  not_both id [] h n = h
  not_both id (e ∷ es) (inl h) (n, ns) = cc
  not_both id (e ∷ es) (inr h) (n, ns) = not_both id es h ns

  pub Decided-IsNamed :
      (id : Bytes) (es : List (ResumeEntry F))
      → IsNamed id es
      → (d : Bool) × Decided id es (some d)
        × (lookup id (approvals_from_resume resolved es) ≡ some d)
  unfolding approvals_from_resume
  Decided-IsNamed id es h = elim (Decided-from id [] es) [
    | inl (n, l) ↦ absurd (not_both id es h n)
    | inr found ↦ found
  ]

  pub undecided-NamesNone :
      (id : Bytes) (es : List (ResumeEntry F))
      → NamesNone id es
      → lookup id (approvals_from_resume resolved es) ≡ none
  unfolding approvals_from_resume lookup
  undecided-NamesNone id es h = from [] es h
    where
      from :
          (m : Map Bool) (es : List (ResumeEntry F))
          → NamesNone id es
          → lookup id (approvals_from resolved m es) ≡ lookup id m
      from m [] h = refl
      from m (e ∷ es) (n, ns) = ground (
        arith,
        from (insert e.interrupt_id (approved resolved e) m) es ns,
        lookup-insert e.interrupt_id id (approved resolved e) m,
      )
