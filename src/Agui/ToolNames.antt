-- ===== src/Agui/ToolNames.antt =====
-- agui/mcp_naming.go and resolveTools of agui/mcp_middleware.go: the names under which tools of
-- MCP servers are offered. The decoding of a
-- string into runes is the standard library's; an int is a number, and the theorems bound it.
pub mod Numbered
pub mod Unique
pub mod Resolved
mod Examples
use adk_go_pkg.Base.{
  ℕ, zero, suc, ◌+◌, ◌-◌, Bool, true, false, ◌&&◌, ◌||◌, Option, none, some, List, [], ◌∷◌, ◌++◌,
  Bytes, bytes, decimal, is_empty, length, take, leb, ltb, ◌==◌, if◌then◌else◌,
}
use adk_go_pkg.Base.Map.{Map, has_key, insert}

abbrev pub max_tool_name_length : ℕ
max_tool_name_length = 64

-- [a-zA-Z0-9_-]
abbrev pub is_allowed : ℕ → Bool
is_allowed r =
    (leb b'a' r && leb r b'z')
    || ((leb b'A' r && leb r b'Z') || ((leb b'0' r && leb r b'9') || (r == b'_' || r == b'-')))

unfoldable pub replace_others : List ℕ → Bytes
replace_others [] = []
replace_others (r ∷ text) = (if is_allowed r then r else b'_') ∷ replace_others text

unfoldable pub trim_left : Bytes → Bytes
trim_left [] = []
trim_left (c ∷ s) = let rest = trim_left s in if c == b'_' then rest else c ∷ s

unfoldable pub trim_right : Bytes → Bytes
unfolding is_empty
trim_right [] = []
trim_right (c ∷ s) = let rest = trim_right s in if is_empty rest && c == b'_' then [] else c ∷ rest

-- SanitizeSegment
unfoldable pub sanitize_segment : (Bytes → List ℕ) → Bytes → Bytes
unfolding replace_others trim_left trim_right
sanitize_segment runes s = trim_right (trim_left (replace_others (runes s)))

-- The name that is tried with the number i.
unfoldable pub numbered : Bytes → ℕ → Bytes
unfolding decimal
numbered base i =
    let suffix = bytes "_" ++ decimal i in
    if ltb max_tool_name_length (length base + length suffix)
    then take (max_tool_name_length - length suffix) base ++ suffix
    else base ++ suffix

-- The loop of MakeUniqueToolName; `none` if the fuel is used up.
unfoldable pub try_names : ℕ → Bytes → Bytes → ℕ → Map (Unit {0}) → Option (Bytes × Map (Unit {0}))
unfolding numbered has_key insert
try_names zero base name i used = none
try_names (suc fuel) base name i used =
    let rest = try_names fuel base (numbered base i) (i + 1) used in
    if has_key name used then rest else some (name, insert name tt used)

unfoldable pub base_name : (Bytes → List ℕ) → Bytes → Bytes → Bytes
unfolding sanitize_segment
base_name runes server tool = take max_tool_name_length (
    bytes "mcp__" ++ (sanitize_segment runes server ++ (bytes "__" ++ sanitize_segment runes tool)))

-- MakeUniqueToolName, which extends the names that are used.
unfoldable pub make_unique_tool_name :
    (Bytes → List ℕ) → Bytes → Bytes → Map (Unit {0}) → Option (Bytes × Map (Unit {0}))
unfolding try_names base_name
make_unique_tool_name runes server tool used =
    let base = base_name runes server tool in try_names (length used + 2) base base 2 used

-- A tool as the middleware lists it: what an MCP server says of it, and of which server it is.
pub record ListedTool (Tool : Type 0) : Type 0 where
  pub mcp_tool : Tool
  pub tool_name : Bytes
  pub server_id : Bytes

pub record ResolvedTool (Tool : Type 0) : Type 0 where
  pub listed : ListedTool Tool
  pub namespaced_name : Bytes

-- resolveTools, with the tools that the servers list, and the names of the tools of the request.
unfoldable pub resolve_tools :
    {Tool : Type 0}
    → (Bytes → List ℕ)
    → List (ListedTool Tool)
    → Map (Unit {0})
    → Option (List (ResolvedTool Tool))
unfolding make_unique_tool_name
resolve_tools runes [] used = some []
resolve_tools runes (t ∷ ts) used =
    elim (make_unique_tool_name runes t.server_id t.tool_name used) [
      | none ↦ none
      | some (name, used') ↦ elim (resolve_tools runes ts used') [
        | none ↦ none
        | some rest ↦ some (record { listed = t; namespaced_name = name } ∷ rest)
      ]
    ]
