-- ===== src/Artifact/Service/Refines.antt =====
-- artifact/file/file.go: the service as a map from artifacts to their last parts.
use adk_go_pkg.Base.{
  true, false, ◌&&◌, some, List, [], ◌∷◌, ◌++◌, Bytes, bytes, str_eq, is_empty, if◌then◌else◌, ◌≡◌,
  ◌∙◌, ap, sym, arith, inl, inr, Bool-cases,
}
use mathlib.Core.Path.{subst}
use adk_go_pkg.Base.Int.{ℤ, pos}
use adk_go_pkg.Artifact.Disk.{FilePath, Node}
use adk_go_pkg.Artifact.Disk.Focus.{diverges-append}
use adk_go_pkg.Artifact.Names.{is_step, has_separator, has_separator-append}
use adk_go_pkg.Artifact.Versions.{format_int}
use adk_go_pkg.Artifact.Versions.Order.{InRange}
use adk_go_pkg.Artifact.Service.{
  ok, error, Part, Key, Env, Content, home_of, content_of, metadata_json, list_versions,
  latest_version, save, load, load_version, load_content, read_metadata, target_version, valid_key,
  versions,
}
use adk_go_pkg.Artifact.Service.Written.{name_of, mime_of}
use adk_go_pkg.Artifact.Service.RoundTrip.{KeepsType, is_plain, load_after_save}
use adk_go_pkg.Artifact.Service.Places.{same_place, is_plain_key, home_same, home_apart}
use adk_go_pkg.Artifact.Service.Frame.{
  IsNamed, IsSameBelow, Result-cases, find-save_ne, load_same, versions_same,
}

text_name : (s : Bytes) → is_step s ≡ true → is_step (s ++ bytes ".txt") ≡ true
unfolding is_step str_eq has_separator is_empty
text_name [] h = absurd (ground arith)
text_name (c ∷ []) h = ground arith
text_name (c ∷ d ∷ []) h = ground arith
text_name (c ∷ d ∷ e ∷ s) h = ground (arith, has_separator-append s (bytes ".txt"))

plain-IsNamed : (k : Key) (part : Part) → is_plain_key k ≡ true → IsNamed k part
unfolding is_plain_key content_of
plain-IsNamed k part plain c e = ground (arith, text_name k.file_name)

target_alike :
    (k k' : Key) (r : Node)
    → home_of k ≡ home_of k'
    → target_version k (pos 0) r ≡ target_version k' (pos 0) r
unfolding target_version
target_alike k k' r e = ground (arith, ap (λ (h : FilePath). latest_version h r) e)

module _ (env : Env) where
  open env use {Time}

  same_below :
      (now : Time) (k k' : Key) (part : Part) (root : Node)
      → is_plain_key k ≡ true
      → is_plain_key k' ≡ true
      → same_place k k' ≡ false
      → IsSameBelow (home_of k') (save env now k part root).0 root
  same_below now k k' part root p p' apart q =
      find-save_ne env (home_of k' ++ q) now k part root
        (diverges-append (home_of k) (home_of k') q (home_apart k k' p p' apart))
        (plain-IsNamed k part p)

  -- A Save, whether it succeeds or fails and at whatever step, changes neither what Load gives
  -- for any version of another artifact nor its versions, provided that user, session and file
  -- names are single steps of a path.
  pub save_elsewhere :
      (now : Time) (k k' : Key) (part : Part) (v : ℤ) (root : Node)
      → is_plain_key k ≡ true
      → is_plain_key k' ≡ true
      → same_place k k' ≡ false
      → (load env k' v (save env now k part root).0 ≡ load env k' v root)
        × (versions env k' (save env now k part root).0 ≡ versions env k' root)
  save_elsewhere now k k' part v root p p' apart =
      let r = (save env now k part root).0 in
      let same = same_below now k k' part root p p' apart in
      (load_same env k' v r root same, versions_same env k' r root same)

  load_version_alike :
      (k k' : Key) (v : ℤ) (r : Node)
      → home_of k ≡ home_of k'
      → load_version env k v r ≡ load_version env k' v r
  unfolding load_version
  load_version_alike k k' v r e =
      ap
        (λ (h : FilePath). elim (read_metadata env (h ++ format_int v ∷ []) r) [
          | error x ↦ error x
          | ok m ↦ load_content env (h ++ format_int v ∷ []) m r
        ])
        e

  load_latest_alike :
      (k k' : Key) (r : Node)
      → (env.validate_load k (pos 0) && valid_key k) ≡ true
      → (env.validate_load k' (pos 0) && valid_key k') ≡ true
      → home_of k ≡ home_of k'
      → load env k (pos 0) r ≡ load env k' (pos 0) r
  unfolding load
  load_latest_alike k k' r g g' e =
      let t = target_alike k k' r e in
      elim (Result-cases (target_version k (pos 0) r)) [
        | inl (x, f) ↦ ground (arith, t)
        | inr (u, f) ↦ ground (arith, t, load_version_alike k k' u r e)
      ]

  save_valid :
      (now : Time) (k : Key) (part : Part) (v : ℤ) (root r : Node)
      → save env now k part root ≡ (r, ok v)
      → valid_key k ≡ true
  unfolding save
  save_valid now k part v root r h = elim (Bool-cases (env.validate_save k part && valid_key k)) [
    | inl e ↦ ground arith
    | inr e ↦ absurd (ground arith)
  ]

  -- After a Save that succeeds, the latest version of the same artifact, from whatever
  -- application and, for an artifact of the user, session it is asked for, is the part that was
  -- saved, and that of any other artifact is what it was. Conditions: user, session and file
  -- names are single steps of a path; the part is a text, or a blob of another type than
  -- text/plain; its file is not called metadata.json; the versions before could be listed and
  -- the largest was not negative and below the maximum of int64; encoding and decoding the
  -- metadata keep the type; the Load passes the checks.
  pub save_refines :
      (now : Time) (k k' : Key) (part : Part) (c : Content) (v : ℤ) (root r : Node) (vs : List ℤ)
      → is_plain_key k ≡ true
      → is_plain_key k' ≡ true
      → InRange vs
      → str_eq (name_of c) metadata_json ≡ false
      → is_plain part ≡ true
      → KeepsType env (mime_of c)
      → env.validate_load k (pos 0) ≡ true
      → env.validate_key k ≡ true
      → (env.validate_load k' (pos 0) && valid_key k') ≡ true
      → content_of k part ≡ some c
      → list_versions (home_of k) root ≡ ok vs
      → save env now k part root ≡ (r, ok v)
      → load env k' (pos 0) r ≡ (if same_place k k' then ok part else load env k' (pos 0) root)
  save_refines now k k' part c v root r vs p p' range named plain keeps lv kv lv' content l h =
      elim (Bool-cases (same_place k k')) [
        | inl same ↦
            let (back, _) =
              load_after_save env now k part c v root r vs range (plain-IsNamed k part p c content)
                named plain keeps lv kv content l h in
            let valid : (env.validate_load k (pos 0) && valid_key k) ≡ true =
              ground (arith, save_valid now k part v root r h) in
            rw same (load_latest_alike k' k r lv' valid (sym (home_same k k' p p' same)) ∙ back)
        | inr apart ↦
            let (kept, _) = save_elsewhere now k k' part (pos 0) root p p' apart in
            rw apart
              (subst (λ t. load env k' (pos 0) t ≡ load env k' (pos 0) root) (ap (λ t. t.0) h) kept)
      ]
