-- ===== src/Artifact/Names.antt =====
-- artifact/file/file.go: the directories of an artifact, and the checks of names.
use adk_go_pkg.Base.{
  Bool, true, false, ◌&&◌, ◌||◌, not, List, [], ◌∷◌, ◌++◌, Bytes, bytes, str_eq, has_prefix,
  is_empty, ◌==◌, if◌then◌else◌, ◌≡◌, refl, arith,
}
use adk_go_pkg.Artifact.Disk.{FilePath}

-- What stands between the slashes.
unfoldable pub segments : Bytes → List Bytes
segments [] = [] ∷ []
segments (c ∷ s) =
    let rest = segments s in
    if c == b'/' then [] ∷ rest else (elim rest [ [] ↦ (c ∷ []) ∷ [] | w ∷ ws ↦ (c ∷ w) ∷ ws ])

abbrev pub stays : Bytes → Bool
stays s = is_empty s || str_eq s (bytes ".")

abbrev pub climbs : Bytes → Bool
climbs s = str_eq s (bytes "..")

unfoldable pub parent : FilePath → FilePath
parent [] = []
parent (s ∷ []) = []
parent (s ∷ t ∷ p) = s ∷ parent (t ∷ p)

unfoldable pub resolve : FilePath → List Bytes → FilePath
unfolding parent
resolve p [] = p
resolve p (s ∷ ss) =
    if stays s
    then resolve p ss
    else if climbs s
    then resolve (parent p) ss
    else resolve (p ++ s ∷ []) ss

-- filepath.Join of a clean path and a name, which cleans the result.
unfoldable pub extend : FilePath → Bytes → FilePath
unfolding segments resolve
extend p name = resolve p (segments name)

-- artifactDir
unfoldable pub artifact_dir : Bytes → Bytes → Bytes → FilePath
unfolding extend
artifact_dir user_id session_id file_name =
    let home = extend (bytes "users" ∷ []) user_id in
    if has_prefix file_name (bytes "user:")
    then extend (home ++ bytes "artifacts" ∷ []) file_name
    else extend (extend (home ++ bytes "sessions" ∷ []) session_id ++ bytes "artifacts" ∷ [])
        file_name

-- versionsDir
unfoldable pub versions_dir : Bytes → Bytes → Bytes → FilePath
unfolding artifact_dir
versions_dir user_id session_id file_name =
    artifact_dir user_id session_id file_name ++ bytes "versions" ∷ []

-- The segments of a cleaned relative path, last first.
unfoldable pub clean_relative : List Bytes → List Bytes → List Bytes
clean_relative done [] = done
clean_relative done (s ∷ ss) =
    if stays s
    then clean_relative done ss
    else if climbs s
    then (elim done [
      | [] ↦ clean_relative (s ∷ []) ss
      | t ∷ ts ↦ if climbs t then clean_relative (s ∷ t ∷ ts) ss else clean_relative ts ss
    ])
    else clean_relative (s ∷ done) ss

-- Whether the last segment begins with two dots.
unfoldable pub dots_last : List Bytes → Bool
dots_last [] = false
dots_last (s ∷ []) = has_prefix s (bytes "..")
dots_last (s ∷ t ∷ ss) = dots_last (t ∷ ss)

-- validateFileName
unfoldable pub valid_file_name : Bytes → Bool
unfolding segments clean_relative dots_last
valid_file_name name =
    not (has_prefix name (bytes "/")) && not (dots_last (clean_relative [] (segments name)))

unfoldable pub has_dots : Bytes → Bool
has_dots [] = false
has_dots (c ∷ s) = has_prefix (c ∷ s) (bytes "..") || has_dots s

unfoldable pub has_separator : Bytes → Bool
has_separator [] = false
has_separator (c ∷ s) = (c == b'/' || c == b'\\') || has_separator s

-- validatePathSegment
unfoldable pub valid_path_segment : Bytes → Bool
unfolding has_dots has_separator
valid_path_segment name =
    not (is_empty name)
    && (not (has_prefix name (bytes "/")) && (not (has_dots name) && not (has_separator name)))

-- A name that is one step of a path.
unfoldable pub is_step : Bytes → Bool
unfolding has_separator
is_step s = not (stays s) && (not (climbs s) && not (has_separator s))

pub has_separator-append :
    (s t : Bytes)
    → has_separator s ≡ false
    → has_separator t ≡ false
    → has_separator (s ++ t) ≡ false
unfolding has_separator
has_separator-append [] t h g = g
has_separator-append (c ∷ s) t h g = ground (arith, has_separator-append s t)

segments_of_step : (s : Bytes) → has_separator s ≡ false → segments s ≡ s ∷ []
unfolding segments has_separator
segments_of_step [] h = refl
segments_of_step (c ∷ s) h = ground (arith, segments_of_step s)

pub extend_step : (p : FilePath) (s : Bytes) → is_step s ≡ true → extend p s ≡ p ++ s ∷ []
unfolding extend resolve is_step
extend_step p s h = ground (arith, segments_of_step s)
