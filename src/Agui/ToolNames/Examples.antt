-- ===== src/Agui/ToolNames/Examples.antt =====
-- agui/mcp_naming.go on concrete names.
use adk_go_pkg.Base.{
  ℕ, ◌≤◌, true, false, some, List, [], ◌∷◌, Bytes, bytes, length, map, is_empty, str_eq, decimal,
  ◌≡◌, refl, arith,
}
use adk_go_pkg.Base.Map.{Map, has_key, insert}
use adk_go_pkg.Agui.ToolNames.{
  max_tool_name_length, sanitize_segment, make_unique_tool_name, ListedTool, ResolvedTool,
  resolve_tools,
}
use adk_go_pkg.Agui.ToolNames.Numbered.{all_allowed}
use adk_go_pkg.Agui.ToolNames.Unique.{make_unique_tool_name_lem}
use adk_go_pkg.Agui.ToolNames.Resolved.{IsSeparate, resolve_tools_lem}

abbrev ascii : Bytes → List ℕ
ascii s = s

abbrev in_use : Map (Unit {0})
in_use = (bytes "mcp__a__b", tt) ∷ (bytes "mcp__a__b_2", tt) ∷ []

sanitize_test : sanitize_segment ascii (bytes "_a/b c_") ≡ bytes "a_b_c"
unfolding sanitize_segment is_empty
sanitize_test = refl

third_test :
    make_unique_tool_name ascii (bytes "a") (bytes "b") in_use
    ≡ some (bytes "mcp__a__b_3", insert (bytes "mcp__a__b_3") tt in_use)
unfolding make_unique_tool_name is_empty str_eq decimal has_key
third_test = refl

make_unique_tool_name_lem_example :
    (name : Bytes) × ((make_unique_tool_name ascii (bytes "a") (bytes "b") in_use
        ≡ some (name, insert name tt in_use))
      × ((has_key name in_use ≡ false)
          × ((length name ≤ max_tool_name_length) × (all_allowed name ≡ true))))
make_unique_tool_name_lem_example =
    make_unique_tool_name_lem ascii (bytes "a") (bytes "b") in_use (omega arith)

abbrev tool : Bytes → ListedTool Bytes
tool server = record { mcp_tool = bytes "t"; tool_name = bytes "b"; server_id = server }

resolve_tools_lem_example :
    (out : List (ResolvedTool Bytes)) × ((resolve_tools ascii
          (tool (bytes "a") ∷ tool (bytes "a/") ∷ [])
          in_use
        ≡ some out)
      × ((map (λ t. t.listed) out ≡ (tool (bytes "a") ∷ tool (bytes "a/") ∷ []))
          × IsSeparate in_use out))
resolve_tools_lem_example =
    resolve_tools_lem ascii (tool (bytes "a") ∷ tool (bytes "a/") ∷ []) in_use (omega arith)
