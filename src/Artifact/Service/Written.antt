-- ===== src/Artifact/Service/Written.antt =====
-- artifact/file/file.go: what Save has made and written when it succeeds.
use adk_go_pkg.Base.{
  true, false, ◌&&◌, some, List, [], ◌∷◌, ◌++◌, Bytes, str_eq, append_assoc, ◌≡◌, ◌∙◌, ap, sym,
  arith, inl, inr, Bool-cases, Option-cases,
}
use mathlib.Core.Path.{subst}
use adk_go_pkg.Base.Int.{ℤ}
use adk_go_pkg.Artifact.Disk.{FilePath, Node, file, dir, Entries, end, find, mkdir_all, write_file}
use adk_go_pkg.Artifact.Disk.Focus.{Found-cases, there}
use adk_go_pkg.Artifact.Names.{extend, extend_step, is_step}
use adk_go_pkg.Artifact.Versions.{format_int, parse_int, sort_versions, next_version}
use adk_go_pkg.Artifact.Versions.Order.{InRange, IsNext, int_leb_refl, next_version-IsNext}
use adk_go_pkg.Artifact.Versions.Decimal.{parse_int-format_int}
use adk_go_pkg.Artifact.Service.{
  ok, Part, Key, Env, home_of, Content, content_of, metadata_json, versions_in, list_versions, save,
  save_version, write_version, write_metadata, metadata_of, valid_key,
}
use adk_go_pkg.Artifact.Service.Saved.{IsSaved, saved, version_files, number_below}

abbrev pub name_of : Content → Bytes
name_of (name, _, _) = name

abbrev pub text_of : Content → Bytes
text_of (_, text, _) = text

abbrev pub mime_of : Content → Bytes
mime_of (_, _, mime) = mime

module _ (env : Env) where
  open env use {Time, encode, decode}

  -- What Save makes and writes when it succeeds.
  record Steps (now : Time) (k : Key) (c : Content) (v : ℤ) (root r : Node) : Type 0 where
    meta : Bytes
    r1 : Node
    r2 : Node
    encoded : encode (metadata_of env now k v (mime_of c)) ≡ some meta
    made : mkdir_all (home_of k ++ format_int v ∷ []) root ≡ some r1
    wrote :
        write_file (extend (home_of k ++ format_int v ∷ []) (name_of c)) (text_of c) r1 ≡ some r2
    noted : write_file ((home_of k ++ format_int v ∷ []) ++ metadata_json ∷ []) meta r2 ≡ some r

  write_version-Steps :
      (now : Time) (k : Key) (c : Content) (v w : ℤ) (root r1 r : Node)
      → mkdir_all (home_of k ++ format_int v ∷ []) root ≡ some r1
      → write_version env now k v (home_of k ++ format_int v ∷ []) c r1 ≡ (r, ok w)
      → (w ≡ v) × Steps now k c v root r
  unfolding write_version write_metadata
  write_version-Steps now k (name, text, mime) v w root r1 r made h =
      let p = home_of k ++ format_int v ∷ [] in
      elim (Option-cases (write_file (extend p name) text r1)) [
        | inl e ↦ absurd (ground arith)
        | inr (r2, e3) ↦ elim (Option-cases (encode (metadata_of env now k v mime))) [
          | inl e ↦ absurd (ground arith)
          | inr (meta, e4) ↦ elim (Option-cases (write_file (p ++ metadata_json ∷ []) meta r2)) [
            | inl e ↦ absurd (ground arith)
            | inr (r3, e5) ↦ (
              ground arith,
              record {
                meta = meta;
                r1 = r1;
                r2 = r2;
                encoded = e4;
                made = made;
                wrote = e3;
                noted = ground arith;
              },
            )
          ]
        ]
      ]

  save_version-Steps :
      (now : Time) (k : Key) (part : Part) (c : Content) (v w : ℤ) (root r : Node)
      → content_of k part ≡ some c
      → save_version env now k part v root ≡ (r, ok w)
      → (w ≡ v) × Steps now k c v root r
  unfolding save_version
  save_version-Steps now k part c v w root r content h =
      elim (Option-cases (mkdir_all (home_of k ++ format_int v ∷ []) root)) [
        | inl e ↦ absurd (ground arith)
        | inr (r1, e) ↦ write_version-Steps now k c v w root r1 r e (ground arith)
      ]

  listed :
      (h : FilePath) (root : Node) (vs : List ℤ)
      → list_versions h root ≡ ok vs
      → (es : Entries) × ((there (find h root) ≡ some es) × (vs ≡ sort_versions (versions_in es)))
  unfolding list_versions versions_in sort_versions
  listed h root vs e = elim (Found-cases (find h root)) [
    | inl away ↦ (end, (ground arith, ground arith))
    | inr (inl barred) ↦ absurd (ground arith)
    | inr (inr (file f, at)) ↦ absurd (ground arith)
    | inr (inr (dir es, at)) ↦ (es, (ground arith, ground arith))
  ]

  save-Steps :
      (now : Time) (k : Key) (part : Part) (c : Content) (v : ℤ) (root r : Node) (vs : List ℤ)
      → content_of k part ≡ some c
      → list_versions (home_of k) root ≡ ok vs
      → save env now k part root ≡ (r, ok v)
      → (valid_key k ≡ true) × ((v ≡ next_version vs) × Steps now k c v root r)
  unfolding save
  save-Steps now k part c v root r vs content l h =
      elim (Bool-cases (env.validate_save k part && valid_key k)) [
        | inl e ↦
            let u = next_version vs in
            let (w, steps) = save_version-Steps now k part c u v root r content (ground arith) in
            (ground arith, (w, subst (λ u. Steps now k c u root r) (sym w) steps))
        | inr e ↦ absurd (ground arith)
      ]

  -- Save wrote the two files of a version behind the versions that there were.
  pub record Written (now : Time) (k : Key) (c : Content) (v : ℤ) (es : Entries) (r : Node)
      : Type 0 where
    pub meta : Bytes
    pub encoded : encode (metadata_of env now k v (mime_of c)) ≡ some meta
    pub valid : valid_key k ≡ true
    pub next : IsNext v (versions_in es)
    pub stored :
        IsSaved (home_of k) (format_int v) v (version_files (name_of c) (text_of c) meta) es r

  pub save-Written :
      (now : Time) (k : Key) (part : Part) (c : Content) (v : ℤ) (root r : Node) (vs : List ℤ)
      → InRange vs
      → is_step (name_of c) ≡ true
      → str_eq (name_of c) metadata_json ≡ false
      → content_of k part ≡ some c
      → list_versions (home_of k) root ≡ ok vs
      → save env now k part root ≡ (r, ok v)
      → (es : Entries) × ((vs ≡ sort_versions (versions_in es)) × Written now k c v es r)
  save-Written now k part c v root r vs range step named content l h =
      let (es, (t, e)) = listed (home_of k) root vs l in
      let (valid, (w, steps)) = save-Steps now k part c v root r vs content l h in
      let next : IsNext v (versions_in es) =
        subst (λ u. IsNext u (versions_in es)) (sym (w ∙ ap next_version e))
          (next_version-IsNext (versions_in es) (subst InRange e range)) in
      let s = format_int v in
      let p = home_of k in
      let reads : parse_int s ≡ some v =
        rw next.value (parse_int-format_int next.number next.in_range) in
      (
        es,
        (
          e,
          record {
            meta = steps.meta;
            encoded = steps.encoded;
            valid = valid;
            next = next;
            stored =
                saved p s (name_of c) (text_of c) steps.meta v root steps.r1 steps.r2 r es t reads
                  (λ d g.
                    absurd
                      (ground (arith, number_below s v v d es reads g next.above, int_leb_refl v)))
                  named steps.made
                  (subst (λ q. write_file q (text_of c) steps.r1 ≡ some steps.r2)
                    (extend_step (p ++ s ∷ []) (name_of c) step
                      ∙ append_assoc p (s ∷ []) (name_of c ∷ []))
                    steps.wrote)
                  (subst (λ q. write_file q steps.meta steps.r2 ≡ some r)
                    (append_assoc p (s ∷ []) (metadata_json ∷ [])) steps.noted);
          },
        ),
      )
