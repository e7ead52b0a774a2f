-- ===== src/Artifact/Service/RoundTrip.antt =====
-- artifact/file/file.go: Save, seen through Load and Versions of the same artifact.
use adk_go_pkg.Base.{
  Bool, true, false, ◌&&◌, not, Option, none, some, List, [], ◌∷◌, ◌++◌, Bytes, str_eq, str_eq_refl,
  is_empty, if◌then◌else◌, ◌≡◌, refl, ◌∙◌, ap, arith,
}
use adk_go_pkg.Base.Int.{ℤ, pos}
use adk_go_pkg.Artifact.Disk.{
  FilePath, Node, file, dir, Entries, get, found, find, sorted, insert_name,
}
use adk_go_pkg.Artifact.Disk.Focus.{find-append}
use adk_go_pkg.Artifact.Names.{is_step}
use adk_go_pkg.Artifact.Versions.{format_int, sort_versions}
use adk_go_pkg.Artifact.Versions.Order.{InRange, sort_next, last-append}
use adk_go_pkg.Artifact.Service.{
  ok, Part, Key, Env, Metadata, home_of, Content, content_of, metadata_json, Blob, text_plain,
  versions_in, list_versions, latest_version, save, read_metadata, metadata_of, load, load_version,
  load_content, target_version, content_file, part_of, valid_key, versions,
}
use adk_go_pkg.Artifact.Service.Saved.{version_files}
use adk_go_pkg.Artifact.Service.Written.{name_of, text_of, mime_of, Written, save-Written}

-- A part that the stored bytes and type can stand for.
unfoldable pub is_plain : Part → Bool
is_plain part =
    if is_empty part.text
    then (elim part.inline_data [ none ↦ false | some b ↦ not (str_eq b.mime_type text_plain) ])
    else elim part.inline_data [ none ↦ true | some b ↦ false ]

module _ (env : Env) where
  open env use {Time, encode, decode}

  -- What is read of the metadata that was written: its type (encoding/json keeps a string of
  -- valid UTF-8 as it is).
  pub record KeepsType (mime : Bytes) : Type 0 where
    pub read_back :
        (m : Metadata Time) (text : Bytes)
        → m.mime_type ≡ mime
        → encode m ≡ some text
        → (m' : Metadata Time) × ((decode text ≡ some m') × (m'.mime_type ≡ mime))

  content_of_version :
      (name text meta : Bytes)
      → str_eq name metadata_json ≡ false
      → content_file (sorted (version_files name text meta)) ≡ some (file text)
  unfolding content_file sorted insert_name
  content_of_version name text meta h = ground (arith, str_eq_refl metadata_json)

  -- What reading a version back takes.
  module _ (now : Time) (k : Key) (c : Content) (v : ℤ) (es : Entries) (r : Node)
      (w : Written env now k c v es r) where
    abbrev version_dir : FilePath
    version_dir = home_of k ++ format_int v ∷ []

    version_step :
        find (format_int v ∷ []) (dir w.stored.after)
        ≡ found (dir (version_files (name_of c) (text_of c) w.meta))
    unfolding find
    version_step = ground (arith, w.stored.version_dir)

    version_found : find version_dir r ≡ found (dir (version_files (name_of c) (text_of c) w.meta))
    version_found =
        find-append (home_of k) (format_int v ∷ []) r (dir w.stored.after) w.stored.at_home
        ∙ version_step

    metadata_step :
        str_eq (name_of c) metadata_json ≡ false
        → find (metadata_json ∷ []) (dir (version_files (name_of c) (text_of c) w.meta))
          ≡ found (file w.meta)
    unfolding find get
    metadata_step named = ground (arith, str_eq_refl metadata_json)

    metadata_found :
        str_eq (name_of c) metadata_json ≡ false
        → find (version_dir ++ metadata_json ∷ []) r ≡ found (file w.meta)
    metadata_found named =
        find-append version_dir (metadata_json ∷ []) r _ version_found ∙ metadata_step named

    load_version_back :
        str_eq (name_of c) metadata_json ≡ false
        → KeepsType (mime_of c)
        → (m : Metadata Time) × ((load_version env k v r ≡ ok (part_of env m (text_of c)))
            × (m.mime_type ≡ mime_of c))
    unfolding load_version load_content read_metadata
    load_version_back named keeps =
        let (m, (e, t)) =
          keeps.read_back (metadata_of env now k v (mime_of c)) w.meta refl w.encoded in
        let read : read_metadata env version_dir r ≡ ok m = ground (arith, metadata_found named) in
        (
          m,
          (
            ground (
              arith,
              read,
              version_found,
              content_of_version (name_of c) (text_of c) w.meta named,
            ),
            t,
          ),
        )

    pub listed_after : list_versions (home_of k) r ≡ ok (sort_versions (versions_in es) ++ v ∷ [])
    unfolding list_versions
    listed_after = ground (
      arith,
      w.stored.at_home,
      ap sort_versions w.stored.numbered ∙ sort_next v (versions_in es) w.next.above,
    )

  part_back_of :
      (k : Key) (t : Bytes) (d : Option Blob) (c : Content) (m : Metadata Time)
      → is_plain (record { text = t; inline_data = d }) ≡ true
      → content_of k (record { text = t; inline_data = d }) ≡ some c
      → m.mime_type ≡ mime_of c
      → part_of env m (text_of c) ≡ record { text = t; inline_data = d }
  unfolding part_of is_plain content_of is_empty
  part_back_of k [] none c m plain content e = absurd (ground arith)
  part_back_of k [] (some b) (name, text, mime) m plain content e = ground arith
  part_back_of k (x ∷ xs) none (name, text, mime) m plain content e =
      ground (arith, str_eq_refl text_plain)
  part_back_of k (x ∷ xs) (some b) c m plain content e = absurd (ground arith)

  part_back :
      (k : Key) (part : Part) (c : Content) (m : Metadata Time)
      → is_plain part ≡ true
      → content_of k part ≡ some c
      → m.mime_type ≡ mime_of c
      → part_of env m (text_of c) ≡ part
  part_back k part = part_back_of k part.text part.inline_data

  target_back :
      (k : Key) (v : ℤ) (r : Node) (vs : List ℤ)
      → list_versions (home_of k) r ≡ ok (vs ++ v ∷ [])
      → target_version k (pos 0) r ≡ ok v
  unfolding target_version latest_version
  target_back k v r vs l = ground (arith, last-append v vs)

  versions_listed :
      (k : Key) (v : ℤ) (r : Node) (vs : List ℤ)
      → (env.validate_key k && valid_key k) ≡ true
      → list_versions (home_of k) r ≡ ok (vs ++ v ∷ [])
      → versions env k r ≡ ok (vs ++ v ∷ [])
  unfolding versions
  versions_listed k v r [] allowed l = ground arith
  versions_listed k v r (w ∷ vs) allowed l = ground arith

  -- After a Save that succeeds, Load of the latest version gives the part that was saved, and
  -- Versions gives the versions before, then the version that Save returned. Conditions: the
  -- file of the content has a name that is a single step of a path and not metadata.json; the
  -- part is a text, or a blob of another type than text/plain; the versions before could be
  -- listed and the largest was not negative and below the maximum of int64; encoding and
  -- decoding the metadata keep the type; the requests pass the checks.
  pub load_after_save :
      (now : Time) (k : Key) (part : Part) (c : Content) (v : ℤ) (root r : Node) (vs : List ℤ)
      → InRange vs
      → is_step (name_of c) ≡ true
      → str_eq (name_of c) metadata_json ≡ false
      → is_plain part ≡ true
      → KeepsType (mime_of c)
      → env.validate_load k (pos 0) ≡ true
      → env.validate_key k ≡ true
      → content_of k part ≡ some c
      → list_versions (home_of k) root ≡ ok vs
      → save env now k part root ≡ (r, ok v)
      → (load env k (pos 0) r ≡ ok part) × (versions env k r ≡ ok (vs ++ v ∷ []))
  unfolding load versions
  load_after_save now k part c v root r vs range step named plain keeps lv kv content l h =
      let (es, (e, w)) = save-Written env now k part c v root r vs range step named content l h in
      let after : list_versions (home_of k) r ≡ ok (vs ++ v ∷ []) =
        rw e (listed_after now k c v es r w) in
      let (m, (lb, mt)) = load_version_back now k c v es r w named keeps in
      (
        ground
            (arith, w.valid, target_back k v r vs after, lb, part_back k part c m plain content mt),
        versions_listed k v r vs (ground (arith, w.valid)) after,
      )
