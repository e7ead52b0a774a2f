-- ===== src/Artifact/Service/Places.antt =====
-- artifact/file/file.go: which requests name the same artifact.
use adk_go_pkg.Base.{
  Bool, true, false, ◌&&◌, ◌||◌, [], ◌∷◌, ◌++◌, Bytes, bytes, str_eq, str_eq_iff, has_prefix,
  if◌then◌else◌, ◌≡◌, ◌∙◌, ap, sym, arith, inl, inr, Bool-cases,
}
use adk_go_pkg.Artifact.Disk.{FilePath}
use adk_go_pkg.Artifact.Disk.Focus.{diverges, diverges-append, diverges-append_left}
use adk_go_pkg.Artifact.Names.{extend_step, is_step, artifact_dir, versions_dir}
use adk_go_pkg.Artifact.Service.{Key, home_of}

-- The artifacts of a user are shared by the sessions.
abbrev pub of_user : Key → Bool
of_user k = has_prefix k.file_name (bytes "user:")

unfoldable pub same_place : Key → Key → Bool
unfolding str_eq has_prefix
same_place k k' =
    str_eq k.user_id k'.user_id
    && (str_eq k.file_name k'.file_name && (of_user k || str_eq k.session_id k'.session_id))

-- The names are single steps of a path.
unfoldable pub is_plain_key : Key → Bool
unfolding is_step
is_plain_key k = is_step k.user_id && (is_step k.session_id && is_step k.file_name)

abbrev pub dir_of : Key → FilePath
dir_of k = artifact_dir k.user_id k.session_id k.file_name

unfoldable pub place : Key → FilePath
unfolding has_prefix
place k =
    if of_user k
    then bytes "users" ∷ k.user_id ∷ bytes "artifacts" ∷ k.file_name ∷ []
    else bytes "users"
      ∷ k.user_id
      ∷ bytes "sessions"
      ∷ k.session_id
      ∷ bytes "artifacts"
      ∷ k.file_name
      ∷ []

dir_of-place : (k : Key) → is_plain_key k ≡ true → dir_of k ≡ place k
unfolding artifact_dir place is_plain_key
dir_of-place k plain =
    let (u, s, f) : (is_step k.user_id ≡ true)
        × (is_step k.session_id ≡ true)
        × (is_step k.file_name ≡ true) =
      ground arith in
    ground (
      arith,
      extend_step (bytes "users" ∷ []) k.user_id u,
      extend_step (bytes "users" ∷ k.user_id ∷ bytes "artifacts" ∷ []) k.file_name f,
      extend_step (bytes "users" ∷ k.user_id ∷ bytes "sessions" ∷ []) k.session_id s,
      extend_step
          (bytes "users" ∷ k.user_id ∷ bytes "sessions" ∷ k.session_id ∷ bytes "artifacts" ∷ [])
          k.file_name f,
    )

place_same : (k k' : Key) → same_place k k' ≡ true → place k ≡ place k'
unfolding place same_place
place_same k k' h = ground (
  arith,
  str_eq_iff k.user_id k'.user_id,
  str_eq_iff k.file_name k'.file_name,
  str_eq_iff k.session_id k'.session_id,
)

place_apart : (k k' : Key) → same_place k k' ≡ false → diverges (place k) (place k') ≡ true
unfolding place same_place diverges str_eq
place_apart k k' h = ground (arith, str_eq_iff k.file_name k'.file_name)

dir_same :
    (k k' : Key)
    → is_plain_key k ≡ true
    → is_plain_key k' ≡ true
    → same_place k k' ≡ true
    → dir_of k ≡ dir_of k'
dir_same k k' p p' h = dir_of-place k p ∙ place_same k k' h ∙ sym (dir_of-place k' p')

pub dir_apart :
    (k k' : Key)
    → is_plain_key k ≡ true
    → is_plain_key k' ≡ true
    → same_place k k' ≡ false
    → diverges (dir_of k) (dir_of k') ≡ true
dir_apart k k' p p' h = rw (dir_of-place k p, dir_of-place k' p') (place_apart k k' h)

pub home_same :
    (k k' : Key)
    → is_plain_key k ≡ true
    → is_plain_key k' ≡ true
    → same_place k k' ≡ true
    → home_of k ≡ home_of k'
unfolding versions_dir
home_same k k' p p' h = ap (λ (q : FilePath). q ++ bytes "versions" ∷ []) (dir_same k k' p p' h)

pub dir-home_apart :
    (k k' : Key)
    → is_plain_key k ≡ true
    → is_plain_key k' ≡ true
    → same_place k k' ≡ false
    → diverges (dir_of k) (home_of k') ≡ true
unfolding versions_dir
dir-home_apart k k' p p' h =
    diverges-append (dir_of k) (dir_of k') (bytes "versions" ∷ []) (dir_apart k k' p p' h)

pub home_apart :
    (k k' : Key)
    → is_plain_key k ≡ true
    → is_plain_key k' ≡ true
    → same_place k k' ≡ false
    → diverges (home_of k) (home_of k') ≡ true
unfolding versions_dir
home_apart k k' p p' h =
    diverges-append_left (dir_of k) (home_of k') (bytes "versions" ∷ [])
      (dir-home_apart k k' p p' h)

-- The directory of an artifact is not the root itself.
pub dir_below :
    (k : Key) → is_plain_key k ≡ true → (s : Bytes) × ((p : FilePath) × (dir_of k ≡ s ∷ p))
unfolding place
dir_below k plain = elim (Bool-cases (of_user k)) [
  | inl e ↦
      let p : FilePath = k.user_id ∷ bytes "artifacts" ∷ k.file_name ∷ [] in
      (bytes "users", (p, ground (arith, dir_of-place k plain)))
  | inr e ↦
      let p : FilePath =
        k.user_id ∷ bytes "sessions" ∷ k.session_id ∷ bytes "artifacts" ∷ k.file_name ∷ [] in
      (bytes "users", (p, ground (arith, dir_of-place k plain)))
]
