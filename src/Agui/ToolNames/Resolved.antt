-- ===== src/Agui/ToolNames/Resolved.antt =====
-- agui/mcp_middleware.go: the names that resolveTools gives.
use Prim.Native.Nat.{◌≤◌, ◌<◌}
use adk_go_pkg.Base.{
  ℕ, ◌+◌, ◌^◌, false, some, List, [], ◌∷◌, Bytes, str_eq, length, ◌≡◌, refl, arith, map,
}
use adk_go_pkg.Base.Map.{Map, has_key, insert, has_key-insert, length-insert}
use adk_go_pkg.Agui.ToolNames.{max_tool_name_length, ListedTool, ResolvedTool, resolve_tools}
use adk_go_pkg.Agui.ToolNames.Unique.{make_unique_tool_name_lem}

-- None of the names is the given one.
abbrev pub AllOther : {Tool : Type 0} → Bytes → List (ResolvedTool Tool) → Type 0
AllOther name [] = Unit
AllOther name (t ∷ ts) = (str_eq name t.namespaced_name ≡ false) × AllOther name ts

-- The names are short, none of them is used, and no two are alike.
abbrev pub IsSeparate : {Tool : Type 0} → Map (Unit {0}) → List (ResolvedTool Tool) → Type 0
IsSeparate used [] = Unit
IsSeparate used (t ∷ ts) =
    (has_key t.namespaced_name used ≡ false)
    × ((length t.namespaced_name ≤ max_tool_name_length)
        × (AllOther t.namespaced_name ts × IsSeparate used ts))

narrowed :
    {Tool : Type 0} (name : Bytes) (used : Map (Unit {0})) (ts : List (ResolvedTool Tool))
    → IsSeparate (insert name tt used) ts
    → AllOther name ts × IsSeparate used ts
narrowed name used [] h = (tt, tt)
narrowed name used (t ∷ ts) (h, (l, (o, s))) =
    let k = has_key-insert name t.namespaced_name tt used in
    let (o', s') = narrowed name used ts s in
    ((ground (arith, h, k), o'), (ground (arith, h, k), (l, (o, s'))))

-- resolveTools gives each listed tool, in order, a name of at most 64 bytes; no name is that of
-- a tool of the request, and no two are alike, provided that all tools together are fewer than
-- 10 ^ 19 - 3.
pub resolve_tools_lem :
    {Tool : Type 0} (runes : Bytes → List ℕ) (ts : List (ListedTool Tool)) (used : Map (Unit {0}))
    → length used + length ts + 3 < 10 ^ 19
    → (out : List (ResolvedTool Tool)) × ((resolve_tools runes ts used ≡ some out)
        × ((map (λ t. t.listed) out ≡ ts) × IsSeparate used out))
unfolding resolve_tools map
resolve_tools_lem runes [] used h = ([], (refl, (refl, tt)))
resolve_tools_lem runes (t ∷ ts) used h =
    let (name, (e, (fresh, (short, _)))) =
      make_unique_tool_name_lem runes t.server_id t.tool_name used (omega arith) in
    let used' = insert name tt used in
    let size = length-insert name tt used in
    let (rest, (e', (m, s))) = resolve_tools_lem runes ts used' (ground (arith, size)) in
    let (o, s') = narrowed name used rest s in
    let first : ResolvedTool _ = record { listed = t; namespaced_name = name } in
    (first ∷ rest, (ground (arith, e, e'), (ground (arith, m), (fresh, (short, (o, s'))))))
