-- ===== src/Artifact/Service/Deleted.antt =====
-- artifact/file/file.go: Delete, seen through Load.
use adk_go_pkg.Base.{
  true, ◌&&◌, List, [], ◌∷◌, ◌++◌, bytes, if◌then◌else◌, ◌≡◌, ◌≢◌, sym, arith, inl, inr, Bool-cases,
}
use mathlib.Core.Path.{subst}
use adk_go_pkg.Base.Int.{ℤ, pos}
use adk_go_pkg.Artifact.Disk.{FilePath, Node, missing, blocked, find, remove_all}
use adk_go_pkg.Artifact.Disk.Focus.{Found-cases, diverges-append}
use adk_go_pkg.Artifact.Disk.Remove.{find-remove_all, find-remove_all_ne}
use adk_go_pkg.Artifact.Names.{versions_dir}
use adk_go_pkg.Artifact.Versions.{last_version}
use adk_go_pkg.Artifact.Service.{
  ok, error, not_found, Key, Env, home_of, list_versions, latest_version, load, target_version,
  valid_key, delete,
}
use adk_go_pkg.Artifact.Service.Places.{
  same_place, is_plain_key, dir_of, dir_below, home_same, dir-home_apart,
}
use adk_go_pkg.Artifact.Service.Frame.{IsSameBelow, load_same}

not_blocked :
    (p : FilePath) (root : Node) (vs : List ℤ)
    → list_versions p root ≡ ok vs
    → find p root ≢ blocked
unfolding list_versions
not_blocked p root vs l b = ground arith

find-remove_home :
    (k : Key) (root : Node)
    → is_plain_key k ≡ true
    → find (home_of k) root ≢ blocked
    → find (home_of k) (remove_all (dir_of k) root) ≡ missing
unfolding versions_dir
find-remove_home k root plain h =
    let (s, (p, e)) = dir_below k plain in
    let v : FilePath = bytes "versions" ∷ [] in
    subst
      (λ (d : FilePath). find (d ++ v) root ≢ blocked → find (d ++ v) (remove_all d root) ≡ missing)
      (sym e) (find-remove_all s p v root) h

nothing_left :
    (k : Key) (r : Node)
    → find (home_of k) r ≡ missing
    → target_version k (pos 0) r ≡ error not_found
unfolding target_version latest_version list_versions last_version
nothing_left k r e = ground arith

module _ (env : Env) where
  removes :
      (k : Key) (root r : Node) → delete env k root ≡ (r, ok tt) → r ≡ remove_all (dir_of k) root
  unfolding delete
  removes k root r h = elim (Bool-cases (env.validate_key k && valid_key k)) [
    | inl e ↦ elim (Found-cases (find (dir_of k) root)) [
      | inl away ↦ ground arith
      | inr (inl barred) ↦ absurd (ground arith)
      | inr (inr (n, at)) ↦ ground arith
    ]
    | inr e ↦ absurd (ground arith)
  ]

  not_loaded :
      (k : Key) (r : Node)
      → (env.validate_load k (pos 0) && valid_key k) ≡ true
      → find (home_of k) r ≡ missing
      → load env k (pos 0) r ≡ error not_found
  unfolding load
  not_loaded k r g e = ground (arith, nothing_left k r e)

  -- After a Delete that succeeds, Load of the latest version of the same artifact gives the
  -- error that there is none, and of any other artifact what it gave before. Conditions: user,
  -- session and file names are single steps of a path; the versions of the deleted artifact
  -- could be listed; the Load passes the checks.
  pub delete_refines :
      (k k' : Key) (root r : Node) (vs : List ℤ)
      → is_plain_key k ≡ true
      → is_plain_key k' ≡ true
      → (env.validate_load k' (pos 0) && valid_key k') ≡ true
      → list_versions (home_of k) root ≡ ok vs
      → delete env k root ≡ (r, ok tt)
      → load env k' (pos 0) r
        ≡ (if same_place k k' then error not_found else load env k' (pos 0) root)
  delete_refines k k' root r vs p p' g l h =
      let e = removes k root r h in
      elim (Bool-cases (same_place k k')) [
        | inl same ↦
            let gone : find (home_of k) r ≡ missing =
              rw e (find-remove_home k root p (not_blocked (home_of k) root vs l)) in
            rw same (
              not_loaded k' r g
                (subst (λ (q : FilePath). find q r ≡ missing) (home_same k k' p p' same) gone))
        | inr apart ↦
            let kept : IsSameBelow (home_of k') r root = (λ q. rw e (
              find-remove_all_ne (dir_of k) (home_of k' ++ q) root
                (diverges-append (dir_of k) (home_of k') q (dir-home_apart k k' p p' apart)))) in
            rw apart (load_same env k' (pos 0) r root kept)
      ]
