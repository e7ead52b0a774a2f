-- ===== src/Artifact/Disk/Frame.antt =====
-- os.Root: the operations seen from a path that parts from theirs.
use adk_go_pkg.Base.{
  true, false, some, [], ◌∷◌, Bytes, str_eq, str_eq_iff, ◌≡◌, ◌∙◌, arith, inl, inr, Bool-cases,
}
use adk_go_pkg.Artifact.Disk.{
  FilePath, Node, file, dir, Entries, end, get, put, find, child, graft, mkdir_all, write_file,
}
use adk_go_pkg.Artifact.Disk.Focus.{diverges, get-put_ne, graft_step, find-put, write_step}

find-child :
    (s : Bytes) (p q : FilePath) (es : Entries)
    → diverges p q ≡ true
    → find q (child s es) ≡ find (s ∷ q) (dir es)
unfolding find diverges get
find-child s [] q es h = cc
find-child s (u ∷ p) [] es h = cc
find-child s (u ∷ p) (t ∷ q) es h = ground arith

find-put_ne :
    (s t : Bytes) (q : FilePath) (c : Node) (es : Entries)
    → str_eq s t ≡ false
    → find (t ∷ q) (dir (put s c es)) ≡ find (t ∷ q) (dir es)
unfolding find
find-put_ne s t q c es h = ground (arith, get-put_ne s t c es)

pub find-graft_ne :
    (p q : FilePath) (x root r : Node)
    → diverges p q ≡ true
    → graft p x root ≡ some r
    → find q r ≡ find q root
unfolding graft diverges
find-graft_ne [] q x root r h g = cc
find-graft_ne (s ∷ p) [] x root r h g = cc
find-graft_ne (s ∷ p) (t ∷ q) x (file _) r h g = cc
find-graft_ne (s ∷ p) (t ∷ q) x (dir es) r h g =
    let (c, (g', e)) = graft_step s p x r es g in
    elim (Bool-cases (str_eq s t)) [
      | inl same ↦
          let h' : diverges p q ≡ true = ground arith in
          let f : find (s ∷ q) r ≡ find (s ∷ q) (dir es) = rw e (
            find-put s q c es
            ∙ find-graft_ne p q x (child s es) c h' g'
            ∙ find-child s p q es h') in
          ground (arith, str_eq_iff s t, f)
      | inr other ↦ rw e (find-put_ne s t q c es other)
    ]

pub find-mkdir_all_ne :
    (p q : FilePath) (root r : Node)
    → diverges p q ≡ true
    → mkdir_all p root ≡ some r
    → find q r ≡ find q root
unfolding mkdir_all
find-mkdir_all_ne p q root r h g = ground (arith, find-graft_ne p q (dir end) root r)

pub find-write_file_ne :
    (p q : FilePath) (text : Bytes) (root r : Node)
    → diverges p q ≡ true
    → write_file p text root ≡ some r
    → find q r ≡ find q root
unfolding write_file diverges find
find-write_file_ne [] q text root r h w = cc
find-write_file_ne (s ∷ p) [] text root r h w = cc
find-write_file_ne (s ∷ p) (t ∷ q) text (file _) r h w = ground arith
find-write_file_ne (s ∷ []) (t ∷ q) text (dir es) r h w =
    ground (arith, find-put_ne s t q (file text) es)
find-write_file_ne (s ∷ u ∷ p) (t ∷ q) text (dir es) r h w =
    let (n, (e, (c, (w', e')))) = write_step s u p text r es w in
    elim (Bool-cases (str_eq s t)) [
      | inl same ↦
          let h' : diverges (u ∷ p) q ≡ true = ground arith in
          let f : find (s ∷ q) r ≡ find (s ∷ q) (dir es) =
            rw e'
              (find-put s q c es ∙ find-write_file_ne (u ∷ p) q text n c h' w' ∙ ground arith) in
          ground (arith, str_eq_iff s t, f)
      | inr other ↦ rw e' (find-put_ne s t q c es other)
    ]
