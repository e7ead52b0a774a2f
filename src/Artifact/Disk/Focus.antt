-- ===== src/Artifact/Disk/Focus.antt =====
-- The operations on a tree, seen from a directory in it and from the rest of it.
use adk_go_pkg.Base.{
  Bool, true, false, Option, none, some, [], ◌∷◌, ◌++◌, Bytes, str_eq, str_eq_refl, str_eq_iff,
  if◌then◌else◌, ◌≡◌, ◌⊎◌, refl, ◌∙◌, arith, Option-cases, inl, inr,
}
use adk_go_pkg.Artifact.Disk.{
  FilePath, Node, file, dir, Entries, end, entry, get, put, Found, missing, blocked, found, find,
  child, graft, write_file,
}

pub get-put_self : (s : Bytes) (n : Node) (es : Entries) → get s (put s n es) ≡ some n
unfolding get put
get-put_self s n end = ground (arith, str_eq_refl s)
get-put_self s n (entry t m es) = ground (arith, str_eq_refl s, get-put_self s n es)

pub get-put_ne :
    (s t : Bytes) (n : Node) (es : Entries) → str_eq s t ≡ false → get t (put s n es) ≡ get t es
unfolding get put
get-put_ne s t n end h = ground arith
get-put_ne s t n (entry u m es) h =
    ground
      (arith, str_eq_iff u s, str_eq_iff u t, str_eq_iff s t, str_eq_refl s, get-put_ne s t n es)

pub find-append :
    (p q : FilePath) (root n : Node) → find p root ≡ found n → find (p ++ q) root ≡ find q n
unfolding find
find-append [] q root n h = ground arith
find-append (s ∷ p) q (file _) n h = cc
find-append (s ∷ p) q (dir es) n h = elim (Option-cases (get s es)) [
  | inl e ↦ ground arith
  | inr (c, e) ↦ ground (arith, find-append p q c n)
]

pub find-append_missing :
    (p q : FilePath) (root : Node) → find p root ≡ missing → find (p ++ q) root ≡ missing
unfolding find
find-append_missing [] q root h = cc
find-append_missing (s ∷ p) q (file _) h = cc
find-append_missing (s ∷ p) q (dir es) h = elim (Option-cases (get s es)) [
  | inl e ↦ ground arith
  | inr (c, e) ↦ ground (arith, find-append_missing p q c)
]

pub Found-cases : (f : Found) → (f ≡ missing) ⊎ ((f ≡ blocked) ⊎ ((n : Node) × (f ≡ found n)))
Found-cases missing = inl refl
Found-cases blocked = inr (inl refl)
Found-cases (found n) = inr (inr (n, refl))

-- The directory at a path, or the one that would be made there.
abbrev pub there : Found → Option Entries
there missing = some end
there (found (dir es)) = some es
there _ = none

there_fresh : (p : FilePath) → there (find p (dir end)) ≡ some end
unfolding find get
there_fresh [] = refl
there_fresh (s ∷ p) = refl

there-child :
    (s : Bytes) (p : FilePath) (es es' : Entries)
    → there (find (s ∷ p) (dir es)) ≡ some es'
    → there (find p (child s es)) ≡ some es'
unfolding find
there-child s p es es' h = ground (arith, there_fresh p)

pub graft_step :
    (s : Bytes) (p : FilePath) (x r : Node) (es : Entries)
    → graft (s ∷ p) x (dir es) ≡ some r
    → (c : Node) × ((graft p x (child s es) ≡ some c) × (r ≡ dir (put s c es)))
unfolding graft
graft_step s p x r es g = elim (Option-cases (graft p x (child s es))) [
  | inl e ↦ absurd (ground arith)
  | inr (c, e) ↦ (c, (e, ground arith))
]

pub find-put :
    (s : Bytes) (p : FilePath) (c : Node) (es : Entries)
    → find (s ∷ p) (dir (put s c es)) ≡ find p c
unfolding find
find-put s p c es = ground (arith, get-put_self s c es)

-- What happens below a directory in which a subtree is put.
pub graft-append :
    (p q : FilePath) (x root r : Node) (es : Entries)
    → there (find p root) ≡ some es
    → graft (p ++ q) x root ≡ some r
    → (c : Node) × ((graft q x (dir es) ≡ some c) × (find p r ≡ found c))
unfolding find graft
graft-append [] q x (file _) r es h g = cc
graft-append [] q x (dir es) r es' h g = (r, (ground arith, refl))
graft-append (s ∷ p) q x (file _) r es h g = cc
graft-append (s ∷ p) q x (dir es) r es' h g =
    let (k, (g', e)) = graft_step s (p ++ q) x r es g in
    let (c, (gq, f)) = graft-append p q x (child s es) k es' (there-child s p es es' h) g' in
    (c, (gq, rw e (find-put s p k es ∙ f)))

pub write_step :
    (s t : Bytes) (p : FilePath) (text : Bytes) (r : Node) (es : Entries)
    → write_file (s ∷ t ∷ p) text (dir es) ≡ some r
    → (n : Node) × ((get s es ≡ some n)
        × ((c : Node) × ((write_file (t ∷ p) text n ≡ some c) × (r ≡ dir (put s c es)))))
unfolding write_file
write_step s t p text r es h = elim (Option-cases (get s es)) [
  | inl e ↦ absurd (ground arith)
  | inr (n, e) ↦ elim (Option-cases (write_file (t ∷ p) text n)) [
    | inl e' ↦ absurd (ground arith)
    | inr (c, e') ↦ (n, (e, (c, (e', ground arith))))
  ]
]

-- And where a file is written.
pub write_file-append :
    (p : FilePath) (t : Bytes) (q : FilePath) (text : Bytes) (root r n : Node)
    → find p root ≡ found n
    → write_file (p ++ t ∷ q) text root ≡ some r
    → (c : Node) × ((write_file (t ∷ q) text n ≡ some c) × (find p r ≡ found c))
unfolding find
write_file-append [] t q text root r n h w = (r, (ground arith, refl))
write_file-append (s ∷ p) t q text (file _) r n h w = cc
write_file-append (s ∷ []) t q text (dir es) r n h w =
    let (m, (e, (c, (w', e')))) = write_step s t q text r es w in
    (c, (ground arith, rw e' (find-put s [] c es)))
write_file-append (s ∷ u ∷ p) t q text (dir es) r n h w =
    let (m, (e, (k, (w', e')))) = write_step s u (p ++ t ∷ q) text r es w in
    let (c, (wq, f)) = write_file-append (u ∷ p) t q text m k n (ground arith) w' in
    (c, (wq, rw e' (find-put s (u ∷ p) k es ∙ f)))

-- Two paths part before either ends.
unfoldable pub diverges : FilePath → FilePath → Bool
diverges (s ∷ p) (t ∷ q) = if str_eq s t then diverges p q else true
diverges _ _ = false

pub diverges-append : (p q rest : FilePath) → diverges p q ≡ true → diverges p (q ++ rest) ≡ true
unfolding diverges
diverges-append [] q rest h = cc
diverges-append (s ∷ p) [] rest h = cc
diverges-append (s ∷ p) (t ∷ q) rest h = ground (arith, diverges-append p q rest)

pub diverges-append_left :
    (p q rest : FilePath) → diverges p q ≡ true → diverges (p ++ rest) q ≡ true
unfolding diverges
diverges-append_left [] q rest h = cc
diverges-append_left (s ∷ p) [] rest h = cc
diverges-append_left (s ∷ p) (t ∷ q) rest h = ground (arith, diverges-append_left p q rest)
