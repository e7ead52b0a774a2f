-- ===== src/Artifact/Disk/Remove.antt =====
-- Root.RemoveAll: what is gone and what stays.
use adk_go_pkg.Base.{
  true, false, none, [], ◌∷◌, ◌++◌, Bytes, str_eq, str_eq_iff, str_eq_refl, ◌≡◌, ◌≢◌, refl, arith,
  inl, inr, Bool-cases, Option-cases,
}
use adk_go_pkg.Artifact.Disk.{
  FilePath, Node, file, dir, Entries, end, entry, get, drop, missing, blocked, find, remove_all,
}
use adk_go_pkg.Artifact.Disk.Focus.{diverges, get-put_ne, find-put}

get-drop_self : (s : Bytes) (es : Entries) → get s (drop s es) ≡ none
unfolding get drop
get-drop_self s end = refl
get-drop_self s (entry t n es) = ground (arith, get-drop_self s es)

get-drop_ne : (s t : Bytes) (es : Entries) → str_eq s t ≡ false → get t (drop s es) ≡ get t es
unfolding get drop
get-drop_ne s t end h = refl
get-drop_ne s t (entry u n es) h =
    ground
      (arith, str_eq_iff u s, str_eq_iff u t, str_eq_iff s t, str_eq_refl s, get-drop_ne s t es)

-- Nothing is left below a path that was removed.
pub find-remove_all :
    (s : Bytes) (p q : FilePath) (root : Node)
    → find ((s ∷ p) ++ q) root ≢ blocked
    → find ((s ∷ p) ++ q) (remove_all (s ∷ p) root) ≡ missing
unfolding find remove_all
find-remove_all s p q (file text) h = absurd (ground arith)
find-remove_all s [] q (dir es) h = ground (arith, get-drop_self s es)
find-remove_all s (t ∷ p) q (dir es) h = elim (Option-cases (get s es)) [
  | inl e ↦ ground arith
  | inr (c, e) ↦
      let rest = find-remove_all t p q c (λ b. h (ground arith)) in
      ground (arith, find-put s ((t ∷ p) ++ q) (remove_all (t ∷ p) c) es)
]

pub find-remove_all_ne :
    (p q : FilePath) (root : Node) → diverges p q ≡ true → find q (remove_all p root) ≡ find q root
unfolding find remove_all diverges
find-remove_all_ne [] q root h = cc
find-remove_all_ne (s ∷ p) [] root h = cc
find-remove_all_ne (s ∷ p) (t ∷ q) (file text) h = ground arith
find-remove_all_ne (s ∷ []) (t ∷ q) (dir es) h = ground (arith, get-drop_ne s t es)
find-remove_all_ne (s ∷ u ∷ p) (t ∷ q) (dir es) h = elim (Option-cases (get s es)) [
  | inl e ↦ ground arith
  | inr (c, e) ↦ elim (Bool-cases (str_eq s t)) [
    | inl same ↦ ground (
      arith,
      str_eq_iff s t,
      find-remove_all_ne (u ∷ p) q c,
      find-put s q (remove_all (u ∷ p) c) es,
    )
    | inr other ↦ ground (arith, get-put_ne s t (remove_all (u ∷ p) c) es)
  ]
]
