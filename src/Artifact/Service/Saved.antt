-- ===== src/Artifact/Service/Saved.antt =====
-- artifact/file/file.go: the directory of an artifact's versions around a Save.
use adk_go_pkg.Base.{
  false, none, some, [], ◌∷◌, ◌++◌, Bytes, str_eq, str_eq_iff, ◌≡◌, ◌≢◌, ◌∙◌, ap, arith, inl, inr,
  Bool-cases, Option-cases,
}
use mathlib.Core.Path.{subst}
use adk_go_pkg.Base.Int.{ℤ}
use adk_go_pkg.Artifact.Disk.{
  FilePath, Node, file, dir, Entries, end, entry, get, put, found, find, graft, mkdir_all,
  write_file,
}
use adk_go_pkg.Artifact.Disk.Focus.{
  there, get-put_self, find-append, graft-append, write_file-append, find-append_missing,
  Found-cases,
}
use adk_go_pkg.Artifact.Versions.{parse_int, int_leb}
use adk_go_pkg.Artifact.Versions.Order.{AllLt}
use adk_go_pkg.Artifact.Service.{metadata_json, versions_in}

skipped :
    (t : Bytes) (e es : Entries)
    → parse_int t ≡ none
    → versions_in (entry t (dir e) es) ≡ versions_in es
unfolding versions_in
skipped t e es h = ground arith

counted :
    (t : Bytes) (u : ℤ) (e es : Entries)
    → parse_int t ≡ some u
    → versions_in (entry t (dir e) es) ≡ u ∷ versions_in es
unfolding versions_in
counted t u e es h = ground arith

-- The number of a directory that there is, is among the versions.
pub number_below :
    (s : Bytes) (v m : ℤ) (d es : Entries)
    → parse_int s ≡ some v
    → get s es ≡ some (dir d)
    → AllLt m (versions_in es)
    → int_leb m v ≡ false
unfolding get versions_in
number_below s v m d end p g b = cc
number_below s v m d (entry t (file f) es) p g b = elim (Bool-cases (str_eq t s)) [
  | inl same ↦ absurd (ground arith)
  | inr other ↦ number_below s v m d es p (ground arith) b
]
number_below s v m d (entry t (dir e) es) p g b = elim (Option-cases (parse_int t)) [
  | inl none_here ↦
      let b' : AllLt m (versions_in es) = subst (AllLt m) (skipped t e es none_here) b in
      elim (Bool-cases (str_eq t s)) [
        | inl same ↦ absurd (ground (arith, str_eq_iff t s))
        | inr other ↦ number_below s v m d es p (ground arith) b'
      ]
  | inr (u, here) ↦
      let b' : (int_leb m u ≡ false) × AllLt m (versions_in es) =
        subst (AllLt m) (counted t u e es here) b in
      elim (Bool-cases (str_eq t s)) [
        | inl same ↦ ground (arith, str_eq_iff t s, b'.0)
        | inr other ↦ number_below s v m d es p (ground arith) b'.1
      ]
]

versions_in-put_new :
    (s : Bytes) (v : ℤ) (d es : Entries)
    → parse_int s ≡ some v
    → get s es ≡ none
    → versions_in (put s (dir d) es) ≡ versions_in es ++ v ∷ []
unfolding get put versions_in
versions_in-put_new s v d end p g = ground arith
versions_in-put_new s v d (entry t (file _) es) p g = ground (arith, versions_in-put_new s v d es p)
versions_in-put_new s v d (entry t (dir _) es) p g = ground (arith, versions_in-put_new s v d es p)

versions_in-put_again :
    (s : Bytes) (d d' es : Entries)
    → get s es ≡ some (dir d)
    → versions_in (put s (dir d') es) ≡ versions_in es
unfolding get put versions_in
versions_in-put_again s d d' end g = cc
versions_in-put_again s d d' (entry t (file _) es) g =
    ground (arith, str_eq_iff t s, versions_in-put_again s d d' es)
versions_in-put_again s d d' (entry t (dir e) es) g =
    ground (arith, str_eq_iff t s, versions_in-put_again s d d' es)

-- A directory whose number is new does not exist before MkdirAll makes it.
mkdir_new :
    (h : FilePath) (s : Bytes) (root r : Node) (es : Entries)
    → there (find h root) ≡ some es
    → ((d : Entries) → get s es ≢ some (dir d))
    → mkdir_all (h ++ s ∷ []) root ≡ some r
    → (get s es ≡ none) × (graft (h ++ s ∷ []) (dir end) root ≡ some r)
unfolding mkdir_all find get
mkdir_new h s root r es t fresh m = elim (Found-cases (find h root)) [
  | inl away ↦ (ground arith, ground (arith, find-append_missing h (s ∷ []) root away))
  | inr (inl barred) ↦ absurd (ground arith)
  | inr (inr (file f, at)) ↦ absurd (ground arith)
  | inr (inr (dir es', at)) ↦
      let below : find (h ++ s ∷ []) root ≡ find (s ∷ []) (dir es') =
        find-append h (s ∷ []) root (dir es') at in
      elim (Option-cases (get s es')) [
        | inl e ↦ (ground arith, ground arith)
        | inr (file f, e) ↦ absurd (ground arith)
        | inr (dir d, e) ↦ absurd (ground (arith, fresh d))
      ]
]

-- The directory of a version: its content and its metadata.
abbrev pub version_files : Bytes → Bytes → Bytes → Entries
version_files name text meta = entry name (file text) (entry metadata_json (file meta) end)

-- The entries of the versions' directory once a version is written.
pub record IsSaved (h : FilePath) (s : Bytes) (v : ℤ) (files es : Entries) (r : Node) : Type 0 where
  pub after : Entries
  pub at_home : find h r ≡ found (dir after)
  pub version_dir : get s after ≡ some (dir files)
  pub numbered : versions_in after ≡ versions_in es ++ v ∷ []

pub saved :
    (h : FilePath) (s name text meta : Bytes) (v : ℤ) (root r1 r2 r3 : Node) (es : Entries)
    → there (find h root) ≡ some es
    → parse_int s ≡ some v
    → ((d : Entries) → get s es ≢ some (dir d))
    → str_eq name metadata_json ≡ false
    → mkdir_all (h ++ s ∷ []) root ≡ some r1
    → write_file (h ++ s ∷ name ∷ []) text r1 ≡ some r2
    → write_file (h ++ s ∷ metadata_json ∷ []) meta r2 ≡ some r3
    → IsSaved h s v (version_files name text meta) es r3
unfolding graft write_file get put str_eq
saved h s name text meta v root r1 r2 r3 es t p fresh named m w1 w2 =
    let (new, g) = mkdir_new h s root r1 es t fresh m in
    let (c1, (g1, f1)) = graft-append h (s ∷ []) (dir end) root r1 es t g in
    let es1 = put s (dir end) es in
    let e1 : c1 ≡ dir es1 = ground arith in
    let (c2, (g2, f2)) = write_file-append h s (name ∷ []) text r1 r2 c1 f1 w1 in
    let d2 = entry name (file text) end in
    let es2 = put s (dir d2) es1 in
    let e2 : c2 ≡ dir es2 = ground (arith, get-put_self s (dir end) es) in
    let (c3, (g3, f3)) = write_file-append h s (metadata_json ∷ []) meta r2 r3 c2 f2 w2 in
    let d3 = version_files name text meta in
    let es3 = put s (dir d3) es2 in
    let e3 : c3 ≡ dir es3 = ground (arith, get-put_self s (dir d2) es1) in
    record {
      after = es3;
      at_home = f3 ∙ ap found e3;
      version_dir = get-put_self s (dir d3) es2;
      numbered =
          versions_in-put_again s d2 d3 es2 (get-put_self s (dir d2) es1)
          ∙ versions_in-put_again s end d2 es1 (get-put_self s (dir end) es)
          ∙ versions_in-put_new s v end es p new;
    }
