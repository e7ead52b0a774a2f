-- ===== src/Artifact/Disk.antt =====
-- What artifact/file/file.go uses of os.Root and io/fs: a tree of directories under the root. A
-- failure is one that the tree explains: a missing entry, or one of the wrong kind.
pub mod Focus
pub mod Frame
pub mod Remove
use adk_go_pkg.Base.{
  Bool, true, false, Option, none, some, List, [], ◌∷◌, ◌++◌, Bytes, str_eq, ltb, ◌==◌,
  if◌then◌else◌,
}

abbrev pub FilePath : Type 0
FilePath = List Bytes

mutual
  pub data Node : Type 0 where
    file : Bytes → Node
    dir : Entries → Node

  pub data Entries : Type 0 where
    end : Entries
    entry : Bytes → Node → Entries → Entries

unfoldable pub get : Bytes → Entries → Option Node
get s end = none
get s (entry t n es) = if str_eq t s then some n else get s es

unfoldable pub put : Bytes → Node → Entries → Entries
put s n end = entry s n end
put s n (entry t m es) = if str_eq t s then entry s n es else entry t m (put s n es)

unfoldable pub drop : Bytes → Entries → Entries
drop s end = end
drop s (entry t m es) = if str_eq t s then drop s es else entry t m (drop s es)

-- `blocked`: the path leads through a file.
pub data Found : Type 0 where
  missing blocked : Found
  found : Node → Found

unfoldable pub find : FilePath → Node → Found
unfolding get
find [] n = found n
find (s ∷ p) (file _) = blocked
find (s ∷ p) (dir es) = elim (get s es) [ none ↦ missing | some n ↦ find p n ]

abbrev pub child : Bytes → Entries → Node
child s es = elim (get s es) [ none ↦ dir end | some n ↦ n ]

-- The node put at the path, with the directories above it; `none` if a file is in the way.
unfoldable pub graft : FilePath → Node → Node → Option Node
unfolding put get
graft [] x n = some x
graft (s ∷ p) x (file _) = none
graft (s ∷ p) x (dir es) = elim (graft p x (child s es)) [
  | none ↦ none
  | some c ↦ some (dir (put s c es))
]

-- Root.MkdirAll
unfoldable pub mkdir_all : FilePath → Node → Option Node
unfolding find graft
mkdir_all p root = elim (find p root) [
  | missing ↦ graft p (dir end) root
  | blocked ↦ none
  | found n ↦ elim n [ file _ ↦ none | dir _ ↦ some root ]
]

-- A file may be created or overwritten; a directory is no file.
abbrev pub takes_file : Option Node → Bool
takes_file none = true
takes_file (some (file _)) = true
takes_file (some (dir _)) = false

-- Root.WriteFile: the directory must exist.
unfoldable pub write_file : FilePath → Bytes → Node → Option Node
unfolding get put
write_file [] bytes n = none
write_file (s ∷ p) bytes (file _) = none
write_file (s ∷ []) bytes (dir es) =
    if takes_file (get s es) then some (dir (put s (file bytes) es)) else none
write_file (s ∷ t ∷ p) bytes (dir es) = elim (get s es) [
  | none ↦ none
  | some c ↦ elim (write_file (t ∷ p) bytes c) [ none ↦ none | some c' ↦ some (dir (put s c' es)) ]
]

-- Root.RemoveAll of a path below the root.
unfoldable pub remove_all : FilePath → Node → Node
unfolding get put drop
remove_all [] n = n
remove_all (s ∷ p) (file bytes) = file bytes
remove_all (s ∷ []) (dir es) = dir (drop s es)
remove_all (s ∷ t ∷ p) (dir es) = elim (get s es) [
  | none ↦ dir es
  | some c ↦ dir (put s (remove_all (t ∷ p) c) es)
]

-- Names in the order of their bytes.
unfoldable pub name_leb : Bytes → Bytes → Bool
name_leb [] t = true
name_leb (a ∷ s) [] = false
name_leb (a ∷ s) (b ∷ t) = if ltb a b then true else if a == b then name_leb s t else false

unfoldable pub insert_name : Bytes → Node → Entries → Entries
unfolding name_leb
insert_name s n end = entry s n end
insert_name s n (entry t m es) =
    let rest = insert_name s n es in
    if name_leb s t then entry s n (entry t m es) else entry t m rest

-- The entries as fs.ReadDir lists them.
unfoldable pub sorted : Entries → Entries
unfolding insert_name
sorted end = end
sorted (entry s n es) = insert_name s n (sorted es)
