-- ===== src/Artifact/Service/Frame.antt =====
-- artifact/file/file.go: Save, seen from outside the directory of its artifact.
use adk_go_pkg.Base.{
  zero, suc, true, ◌&&◌, some, [], ◌∷◌, ◌++◌, Bytes, append_assoc, ◌≡◌, ◌⊎◌, append-nil, refl, ap,
  arith, inl, inr, Bool-cases, Option-cases,
}
use adk_go_pkg.Base.Int.{ℤ, pos, negsuc}
use adk_go_pkg.Artifact.Disk.{FilePath, Node, find, mkdir_all, write_file}
use adk_go_pkg.Artifact.Disk.Focus.{diverges, diverges-append_left}
use adk_go_pkg.Artifact.Disk.Frame.{find-mkdir_all_ne, find-write_file_ne}
use adk_go_pkg.Artifact.Names.{extend, extend_step, is_step}
use adk_go_pkg.Artifact.Versions.{format_int, next_version}
use adk_go_pkg.Artifact.Service.{
  Result, ok, error, Failure, Part, Key, Env, Metadata, home_of, Content, content_of, metadata_json,
  list_versions, latest_version, save, save_version, write_version, write_metadata, read_metadata,
  metadata_of, load, load_version, load_content, target_version, valid_key, versions,
}
use adk_go_pkg.Artifact.Service.Written.{name_of}

-- The content of a part, if it has one, is stored under a plain name.
abbrev pub IsNamed : Key → Part → Type 0
IsNamed k part = (c : Content) → content_of k part ≡ some c → is_step (name_of c) ≡ true

-- Two trees that look the same below a directory.
abbrev pub IsSameBelow : FilePath → Node → Node → Type 0
IsSameBelow h r r' = (q : FilePath) → find (h ++ q) r ≡ find (h ++ q) r'

pub Result-cases :
    {A : Type 0} (x : Result A) → ((e : Failure) × (x ≡ error e)) ⊎ ((a : A) × (x ≡ ok a))
Result-cases (error e) = inl (e, refl)
Result-cases (ok a) = inr (a, refl)

module _ (env : Env) where
  open env use {Time, encode, decode}

  module _ (q h : FilePath) (d : diverges h q ≡ true) where
    find-write_metadata_ne :
        (s : Bytes) (m : Metadata Time) (root r : Node)
        → write_metadata env (h ++ s ∷ []) m root ≡ some r
        → find q r ≡ find q root
    unfolding write_metadata
    find-write_metadata_ne s m root r w = elim (Option-cases (encode m)) [
      | inl e ↦ absurd (ground arith)
      | inr (text, e) ↦
          let d' =
            diverges-append_left (h ++ s ∷ []) q (metadata_json ∷ [])
              (diverges-append_left h q (s ∷ []) d) in
          find-write_file_ne ((h ++ s ∷ []) ++ metadata_json ∷ []) q text root r d' (ground arith)
    ]

    find-write_version_ne :
        (now : Time) (k : Key) (v : ℤ) (s : Bytes) (c : Content) (root : Node)
        → is_step (name_of c) ≡ true
        → find q (write_version env now k v (h ++ s ∷ []) c root).0 ≡ find q root
    unfolding write_version
    find-write_version_ne now k v s (name, text, mime) root step =
        let p = h ++ s ∷ [] in
        let d' = diverges-append_left p q (name ∷ []) (diverges-append_left h q (s ∷ []) d) in
        elim (Option-cases (write_file (extend p name) text root)) [
          | inl e ↦ ground arith
          | inr (r, e) ↦
              let f : find q r ≡ find q root =
                find-write_file_ne (p ++ name ∷ []) q text root r d'
                  (ground (arith, extend_step p name)) in
              elim (Option-cases (write_metadata env p (metadata_of env now k v mime) r)) [
                | inl e' ↦ ground arith
                | inr (r', e') ↦
                    ground (arith, find-write_metadata_ne s (metadata_of env now k v mime) r r' e')
              ]
        ]

  find-save_version_ne :
      (q : FilePath) (now : Time) (k : Key) (part : Part) (v : ℤ) (root : Node)
      → diverges (home_of k) q ≡ true
      → IsNamed k part
      → find q (save_version env now k part v root).0 ≡ find q root
  unfolding save_version
  find-save_version_ne q now k part v root d named =
      let h = home_of k in
      let s = format_int v in
      elim (Option-cases (mkdir_all (h ++ s ∷ []) root)) [
        | inl e ↦ ground arith
        | inr (r, e) ↦
            let f : find q r ≡ find q root =
              find-mkdir_all_ne (h ++ s ∷ []) q root r (diverges-append_left h q (s ∷ []) d) e in
            elim (Option-cases (content_of k part)) [
              | inl e' ↦ ground arith
              | inr (c, e') ↦ ground (arith, find-write_version_ne q h d now k v s c r (named c e'))
            ]
      ]

  pub find-save_ne :
      (q : FilePath) (now : Time) (k : Key) (part : Part) (root : Node)
      → diverges (home_of k) q ≡ true
      → IsNamed k part
      → find q (save env now k part root).0 ≡ find q root
  unfolding save
  find-save_ne q now k part root d named =
      elim (Bool-cases (env.validate_save k part && valid_key k)) [
        | inl e ↦ elim (Result-cases (list_versions (home_of k) root)) [
          | inl (x, f) ↦ ground arith
          | inr (vs, f) ↦
              ground (arith, find-save_version_ne q now k part (next_version vs) root d named)
        ]
        | inr e ↦ ground arith
      ]

  list_versions_same :
      (h : FilePath) (r r' : Node) → IsSameBelow h r r' → list_versions h r ≡ list_versions h r'
  unfolding list_versions
  list_versions_same h r r' same =
      ground (arith, ap (λ p. find p r) (append-nil h), ap (λ p. find p r') (append-nil h), same [])

  read_metadata_same :
      (h : FilePath) (s : Bytes) (r r' : Node)
      → IsSameBelow h r r'
      → read_metadata env (h ++ s ∷ []) r ≡ read_metadata env (h ++ s ∷ []) r'
  unfolding read_metadata
  read_metadata_same h s r r' same =
      ground (arith, append_assoc h (s ∷ []) (metadata_json ∷ []), same (s ∷ metadata_json ∷ []))

  load_content_same :
      (h : FilePath) (s : Bytes) (m : Metadata Time) (r r' : Node)
      → IsSameBelow h r r'
      → load_content env (h ++ s ∷ []) m r ≡ load_content env (h ++ s ∷ []) m r'
  unfolding load_content
  load_content_same h s m r r' same = ground (arith, same (s ∷ []))

  load_version_same :
      (k : Key) (v : ℤ) (r r' : Node)
      → IsSameBelow (home_of k) r r'
      → load_version env k v r ≡ load_version env k v r'
  unfolding load_version
  load_version_same k v r r' same =
      let s = format_int v in
      let e = read_metadata_same (home_of k) s r r' same in
      elim (Result-cases (read_metadata env (home_of k ++ s ∷ []) r)) [
        | inl (x, f) ↦ ground (arith, e)
        | inr (m, f) ↦ ground (arith, e, load_content_same (home_of k) s m r r' same)
      ]

  target_version_same :
      (k : Key) (v : ℤ) (r r' : Node)
      → IsSameBelow (home_of k) r r'
      → target_version k v r ≡ target_version k v r'
  unfolding target_version latest_version
  target_version_same k (pos zero) r r' same =
      ground (arith, list_versions_same (home_of k) r r' same)
  target_version_same k (pos (suc n)) r r' same = refl
  target_version_same k (negsuc n) r r' same = refl

  pub load_same :
      (k : Key) (v : ℤ) (r r' : Node)
      → IsSameBelow (home_of k) r r'
      → load env k v r ≡ load env k v r'
  unfolding load
  load_same k v r r' same =
      let e = target_version_same k v r r' same in
      elim (Result-cases (target_version k v r)) [
        | inl (x, f) ↦ ground (arith, e)
        | inr (u, f) ↦ ground (arith, e, load_version_same k u r r' same)
      ]

  pub versions_same :
      (k : Key) (r r' : Node) → IsSameBelow (home_of k) r r' → versions env k r ≡ versions env k r'
  unfolding versions
  versions_same k r r' same = ground (arith, list_versions_same (home_of k) r r' same)
