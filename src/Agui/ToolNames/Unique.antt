-- ===== src/Agui/ToolNames/Unique.antt =====
-- agui/mcp_naming.go: the loop of MakeUniqueToolName.
use Prim.Native.Nat.{◌≤◌, ◌<◌}
use adk_go_pkg.Base.{
  ℕ, zero, suc, ◌+◌, ◌^◌, true, false, some, List, Bytes, str_eq, str_eq_iff, length, ◌≡◌, ◌==◌,
  ◌⊎◌, arith, inl, inr, Bool-cases,
}
use adk_go_pkg.Base.Map.{Map, has_key, insert, delete, has_key-delete, length-delete_present}
use adk_go_pkg.Agui.ToolNames.{
  max_tool_name_length, numbered, try_names, base_name, make_unique_tool_name,
}
use adk_go_pkg.Agui.ToolNames.Numbered.{
  numbered_injective, length-numbered, length-base_name, all_allowed, all_allowed-base_name,
  all_allowed-numbered,
}

-- A number from i on, below i + n, whose name is not used.
abbrev IsFree : Bytes → ℕ → ℕ → Map (Unit {0}) → Type 0
IsFree base i n used =
    (j : ℕ) × ((i ≤ j) × ((j < i + n) × (has_key (numbered base j) used ≡ false)))

some-IsFree :
    (base : Bytes) (n i : ℕ) (used : Map (Unit {0})) → length used < n → IsFree base i n used
some-IsFree base zero i used h = absurd (omega arith)
some-IsFree base (suc n) i used h = elim (Bool-cases (has_key (numbered base i) used)) [
  | inr e ↦ (i, (omega arith, (omega arith, e)))
  | inl e ↦
      let name = numbered base i in
      let shorter = length-delete_present name used e in
      let (j, (a, (b, f))) = some-IsFree base n (i + 1) (delete name used) (omega arith) in
      let other : str_eq name (numbered base j) ≡ false =
        elim (Bool-cases (str_eq name (numbered base j))) [
          | inl same ↦
              let e' : i ≡ j =
                numbered_injective base i j (ground (arith, str_eq_iff name (numbered base j))) in
              absurd (omega arith)
          | inr apart ↦ apart
        ] in
      (j, (omega arith, (omega arith, ground (arith, has_key-delete name (numbered base j) used))))
]

-- What is returned: a name that was not used, with the properties of the names that are tried.
abbrev IsFresh : Bytes → Map (Unit {0}) → Type 0
IsFresh name used =
    (has_key name used ≡ false) × ((length name ≤ max_tool_name_length) × (all_allowed name ≡ true))

try_names_free :
    (base name : Bytes) (n i : ℕ) (used : Map (Unit {0}))
    → i + n < 10 ^ 19
    → all_allowed base ≡ true
    → length name ≤ max_tool_name_length
    → all_allowed name ≡ true
    → (has_key name used ≡ false) ⊎ IsFree base i n used
    → (found : Bytes) × ((try_names (suc n) base name i used ≡ some (found, insert found tt used))
        × IsFresh found used)
unfolding try_names
try_names_free base name n i used g ab ln an (inl free) = (name, (ground arith, (free, (ln, an))))
try_names_free base name zero i used g ab ln an (inr (j, (a, (b, f)))) = absurd (omega arith)
try_names_free base name (suc n) i used g ab ln an (inr (j, (a, (b, f)))) =
    elim (Bool-cases (has_key name used)) [
      | inr e ↦ (name, (ground arith, (e, (ln, an))))
      | inl e ↦
          let next : (has_key (numbered base i) used ≡ false) ⊎ IsFree base (i + 1) n used =
            elim (Bool-cases (j == i)) [
              | inl same ↦ inl (ground arith)
              | inr other ↦ inr (j, (ground arith, (ground arith, f)))
            ] in
          let (found, (t, fresh)) =
            try_names_free base (numbered base i) n (i + 1) used (omega arith) ab
              (length-numbered base i (omega arith)) (all_allowed-numbered base i ab) next in
          (found, (ground arith, fresh))
    ]

-- MakeUniqueToolName ends, with a name that was not used, that has at most 64 bytes, all of them
-- letters, digits, "_" or "-", and that it adds to the used names, provided that the used names
-- are fewer than 10 ^ 19 - 3.
pub make_unique_tool_name_lem :
    (runes : Bytes → List ℕ) (server tool : Bytes) (used : Map (Unit {0}))
    → length used + 3 < 10 ^ 19
    → (name : Bytes) × ((make_unique_tool_name runes server tool used
          ≡ some (name, insert name tt used))
        × ((has_key name used ≡ false)
            × ((length name ≤ max_tool_name_length) × (all_allowed name ≡ true))))
unfolding make_unique_tool_name
make_unique_tool_name_lem runes server tool used h =
    let base = base_name runes server tool in
    let (name, (t, fresh)) =
      try_names_free base base (length used + 1) 2 used (omega arith)
        (all_allowed-base_name runes server tool) (length-base_name runes server tool)
        (all_allowed-base_name runes server tool)
        (inr (some-IsFree base (length used + 1) 2 used (omega arith))) in
    (name, (ground (arith, t), fresh))
