-- ===== src/Artifact/Service.antt =====
-- artifact/file/file.go and artifact/file/metadata.go: the operations of the artifact service on
-- the tree below its root. An error is its kind. CustomMetadata, which Save never sets, is left
-- out.
pub mod Saved
pub mod Written
pub mod RoundTrip
pub mod Places
pub mod Frame
pub mod Refines
pub mod Deleted
mod Examples
use adk_go_pkg.Base.{
  ℕ, zero, suc, Bool, true, false, ◌&&◌, not, Option, none, some, List, [], ◌∷◌, ◌++◌, Bytes, bytes,
  str_eq, is_empty, if◌then◌else◌,
}
use adk_go_pkg.Base.Int.{ℤ, pos, negsuc}
use adk_go_pkg.Base.Map.{Map, insert}
use adk_go_pkg.Artifact.Disk.{
  FilePath, Node, file, dir, Entries, end, entry, Found, missing, blocked, found, find, mkdir_all,
  write_file, remove_all, sorted, name_leb,
}
use adk_go_pkg.Artifact.Names.{
  extend, artifact_dir, versions_dir, valid_file_name, valid_path_segment,
}
use adk_go_pkg.Artifact.Versions.{format_int, parse_int, sort_versions, last_version, next_version}

pub data Failure : Type 0 where
  invalid not_found broken : Failure

pub data Result (A : Type 0) : Type 0 where
  error : Failure → Result A
  ok : A → Result A

pub record Blob : Type 0 where
  pub payload : Bytes
  pub mime_type : Bytes

pub record Part : Type 0 where
  pub text : Bytes
  pub inline_data : Option Blob

-- VersionMetadata
pub record Metadata (Time : Type 0) : Type 0 where
  pub version : ℤ
  pub file_name : Bytes
  pub mime_type : Bytes
  pub create_time : Time
  pub canonical_uri : Bytes

-- artifact.ArtifactVersion
pub record ArtifactVersion (Time : Type 0) : Type 0 where
  pub version : ℤ
  pub canonical_uri : Bytes
  pub create_time : Time
  pub mime_type : Bytes

-- The fields that every request has.
pub record Key : Type 0 where
  pub app_name : Bytes
  pub user_id : Bytes
  pub session_id : Bytes
  pub file_name : Bytes

-- Functions of the ADK and of Go's packages: the Validate methods of the requests (true is no
-- error), and the JSON encoding of metadata.
pub record Env : Type 1 where
  pub Time : Type 0
  pub validate_save : Key → Part → Bool
  pub validate_load : Key → ℤ → Bool
  pub validate_key : Key → Bool
  pub validate_list : Key → Bool
  pub encode : Metadata Time → Option Bytes
  pub decode : Bytes → Option (Metadata Time)

abbrev pub valid_owner : Key → Bool
valid_owner k = valid_path_segment k.user_id && valid_path_segment k.session_id

abbrev pub valid_key : Key → Bool
valid_key k = valid_owner k && valid_file_name k.file_name

abbrev pub home_of : Key → FilePath
home_of k = versions_dir k.user_id k.session_id k.file_name

-- The numbers among the names of directories.
unfoldable pub versions_in : Entries → List ℤ
versions_in end = []
versions_in (entry s n es) =
    let rest = versions_in es in
    elim n [ file _ ↦ rest | dir _ ↦ elim (parse_int s) [ none ↦ rest | some v ↦ v ∷ rest ] ]

-- listVersions
unfoldable pub list_versions : FilePath → Node → Result (List ℤ)
unfolding find versions_in sort_versions
list_versions p root = elim (find p root) [
  | missing ↦ ok []
  | blocked ↦ error broken
  | found n ↦ elim n [ file _ ↦ error broken | dir es ↦ ok (sort_versions (versions_in es)) ]
]

-- latestVersion: `none` if there are no versions.
unfoldable pub latest_version : FilePath → Node → Result (Option ℤ)
unfolding list_versions last_version
latest_version p root = elim (list_versions p root) [
  | error e ↦ error e
  | ok vs ↦ ok (last_version vs)
]

abbrev pub metadata_json : Bytes
metadata_json = bytes "metadata.json"

abbrev pub text_plain : Bytes
text_plain = bytes "text/plain"

abbrev pub Content : Type 0
Content = Bytes × Bytes × Bytes

-- The name, the bytes and the type of a content; a nil blob is what Validate refuses.
unfoldable pub content_of : Key → Part → Option Content
content_of k p =
    if is_empty p.text
    then (elim p.inline_data [ none ↦ none | some b ↦ some (k.file_name, b.payload, b.mime_type) ])
    else some (k.file_name ++ bytes ".txt", p.text, text_plain)

-- canonicalURI
unfoldable pub canonical_uri : Key → ℤ → Bytes
unfolding format_int
canonical_uri k v =
    bytes "file://"
    ++ (k.app_name
        ++ (bytes "/"
            ++ (k.user_id
                ++ (bytes "/"
                    ++ (k.session_id
                        ++ (bytes "/" ++ (k.file_name ++ (bytes "/" ++ format_int v))))))))

-- A Result beside the tree as the operation leaves it.
abbrev pub Step : Type 0 → Type 0
Step A = Node × Result A

-- The version that a request means: 0 is the latest.
unfoldable pub target_version : Key → ℤ → Node → Result ℤ
unfolding latest_version versions_dir
target_version k (pos zero) root = elim (latest_version (home_of k) root) [
  | error e ↦ error e
  | ok v ↦ elim v [ none ↦ error not_found | some v ↦ ok v ]
]
target_version k (pos (suc n)) root = ok (pos (suc n))
target_version k (negsuc n) root = ok (negsuc n)

-- The first entry that is not the metadata.
unfoldable pub content_file : Entries → Option Node
content_file end = none
content_file (entry s n es) =
    let rest = content_file es in if str_eq s metadata_json then rest else some n

-- The names of directories, collected in a map.
unfoldable pub names_in : Entries → Map (Unit {0}) → Map (Unit {0})
names_in end names = names
names_in (entry s n es) names = elim n [
  | file _ ↦ names_in es names
  | dir _ ↦ names_in es (insert s tt names)
]

-- collectArtifactNames
unfoldable pub collect_artifact_names : FilePath → Node → Map (Unit {0}) → Result (Map (Unit {0}))
unfolding find names_in
collect_artifact_names p root names = elim (find p root) [
  | missing ↦ ok names
  | blocked ↦ error broken
  | found n ↦ elim n [ file _ ↦ error broken | dir es ↦ ok (names_in es names) ]
]

unfoldable pub insert_sorted : Bytes → List Bytes → List Bytes
unfolding name_leb
insert_sorted s [] = s ∷ []
insert_sorted s (t ∷ ts) =
    let rest = insert_sorted s ts in if name_leb s t then s ∷ t ∷ ts else t ∷ rest

unfoldable pub sorted_names : Map (Unit {0}) → List Bytes
unfolding insert_sorted
sorted_names [] = []
sorted_names ((s, _) ∷ names) = insert_sorted s (sorted_names names)

module _ (env : Env) where
  open env use {Time, encode, decode}

  -- writeMetadata
  unfoldable pub write_metadata : FilePath → Metadata Time → Node → Option Node
  unfolding write_file
  write_metadata p m root = elim (encode m) [
    | none ↦ none
    | some text ↦ write_file (p ++ metadata_json ∷ []) text root
  ]

  -- readMetadata
  unfoldable pub read_metadata : FilePath → Node → Result (Metadata Time)
  unfolding find
  read_metadata p root = elim (find (p ++ metadata_json ∷ []) root) [
    | missing ↦ error not_found
    | blocked ↦ error broken
    | found n ↦ elim n [
      | dir _ ↦ error broken
      | file text ↦ elim (decode text) [ none ↦ error broken | some m ↦ ok m ]
    ]
  ]

  abbrev pub metadata_of : Time → Key → ℤ → Bytes → Metadata Time
  metadata_of now k v mime = record {
    version = v;
    file_name = k.file_name;
    mime_type = mime;
    create_time = now;
    canonical_uri = canonical_uri k v;
  }

  -- The two files of a version, in its directory.
  unfoldable pub write_version : Time → Key → ℤ → FilePath → Content → Node → Step ℤ
  unfolding write_file write_metadata extend
  write_version now k v p (name, text, mime) root = elim (write_file (extend p name) text root) [
    | none ↦ (root, error broken)
    | some r ↦ elim (write_metadata p (metadata_of now k v mime) r) [
      | none ↦ (r, error broken)
      | some r' ↦ (r', ok v)
    ]
  ]

  unfoldable pub save_version : Time → Key → Part → ℤ → Node → Step ℤ
  unfolding mkdir_all content_of write_version versions_dir
  save_version now k part v root =
      let p = home_of k ++ format_int v ∷ [] in
      elim (mkdir_all p root) [
        | none ↦ (root, error broken)
        | some r ↦ elim (content_of k part) [
          | none ↦ (r, error broken)
          | some c ↦ write_version now k v p c r
        ]
      ]

  -- Save
  unfoldable pub save : Time → Key → Part → Node → Step ℤ
  unfolding list_versions next_version save_version valid_path_segment valid_file_name versions_dir
  save now k part root =
      if env.validate_save k part && valid_key k
      then (elim (list_versions (home_of k) root) [
        | error e ↦ (root, error e)
        | ok vs ↦ save_version now k part (next_version vs) root
      ])
      else (root, error invalid)

  unfoldable pub part_of : Metadata Time → Bytes → Part
  part_of m text =
      if str_eq m.mime_type text_plain then record { text = text; inline_data = none } else record {
        text = [];
        inline_data = some (record { payload = text; mime_type = m.mime_type });
      }

  unfoldable pub load_content : FilePath → Metadata Time → Node → Result Part
  unfolding find content_file sorted part_of
  load_content p m root = elim (find p root) [
    | missing ↦ error broken
    | blocked ↦ error broken
    | found n ↦ elim n [
      | file _ ↦ error broken
      | dir es ↦ elim (content_file (sorted es)) [
        | none ↦ error broken
        | some c ↦ elim c [ dir _ ↦ error broken | file text ↦ ok (part_of m text) ]
      ]
    ]
  ]

  unfoldable pub load_version : Key → ℤ → Node → Result Part
  unfolding read_metadata load_content format_int versions_dir
  load_version k v root =
      let p = home_of k ++ format_int v ∷ [] in
      elim (read_metadata p root) [ error e ↦ error e | ok m ↦ load_content p m root ]

  -- Load
  unfoldable pub load : Key → ℤ → Node → Result Part
  unfolding target_version load_version valid_path_segment valid_file_name
  load k v root =
      if env.validate_load k v && valid_key k
      then (elim (target_version k v root) [ error e ↦ error e | ok v' ↦ load_version k v' root ])
      else error invalid

  abbrev artifact_version : Metadata Time → ArtifactVersion Time
  artifact_version m = record {
    version = m.version;
    canonical_uri = m.canonical_uri;
    create_time = m.create_time;
    mime_type = m.mime_type;
  }

  -- GetArtifactVersion
  unfoldable pub get_artifact_version : Key → ℤ → Node → Result (ArtifactVersion Time)
  unfolding target_version read_metadata format_int versions_dir valid_path_segment valid_file_name
  get_artifact_version k v root =
      if env.validate_load k v && valid_key k
      then (elim (target_version k v root) [
        | error e ↦ error e
        | ok v' ↦ elim (read_metadata (home_of k ++ format_int v' ∷ []) root) [
          | error e ↦ error e
          | ok m ↦ ok (artifact_version m)
        ]
      ])
      else error invalid

  -- Versions
  unfoldable pub versions : Key → Node → Result (List ℤ)
  unfolding list_versions versions_dir valid_path_segment valid_file_name
  versions k root =
      if env.validate_key k && valid_key k
      then (elim (list_versions (home_of k) root) [
        | error e ↦ error e
        | ok vs ↦ elim vs [ [] ↦ error not_found | v ∷ vs ↦ ok (v ∷ vs) ]
      ])
      else error invalid

  -- Delete
  unfoldable pub delete : Key → Node → Step (Unit {0})
  unfolding find remove_all artifact_dir valid_path_segment valid_file_name
  delete k root =
      if env.validate_key k && valid_key k
      then (let at = artifact_dir k.user_id k.session_id k.file_name in
          elim (find at root) [
            | blocked ↦ (root, error broken)
            | missing ↦ (remove_all at root, ok tt)
            | found _ ↦ (remove_all at root, ok tt)
          ])
      else (root, error invalid)

  -- List
  unfoldable pub list_artifacts : Key → Node → Result (List Bytes)
  unfolding collect_artifact_names sorted_names valid_path_segment extend
  list_artifacts k root =
      if env.validate_list k && valid_owner k
      then (let home = extend (bytes "users" ∷ []) k.user_id in
          let sessions =
            extend (home ++ bytes "sessions" ∷ []) k.session_id ++ bytes "artifacts" ∷ [] in
          elim (collect_artifact_names sessions root []) [
            | error e ↦ error e
            | ok names ↦ elim (collect_artifact_names (home ++ bytes "artifacts" ∷ []) root names) [
              | error e ↦ error e
              | ok names' ↦ ok (sorted_names names')
            ]
          ])
      else error invalid
