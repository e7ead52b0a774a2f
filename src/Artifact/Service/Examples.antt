-- ===== src/Artifact/Service/Examples.antt =====
-- artifact/file/file.go on concrete trees.
use adk_go_pkg.Base.{
  true, none, some, [], ◌∷◌, Bytes, bytes, if◌then◌else◌, ◌≡◌, refl, is_empty, has_prefix, str_eq,
  inl, inr, arith,
}
use adk_go_pkg.Base.Int.{pos}
use adk_go_pkg.Base.Map.{insert}
use adk_go_pkg.Artifact.Names.{is_step}
use adk_go_pkg.Artifact.Versions.{format_int, parse_int}
use adk_go_pkg.Artifact.Disk.{Node, dir, end}
use adk_go_pkg.Artifact.Service.{
  ok, error, not_found, invalid, broken, Part, Key, Env, content_of, text_plain, list_versions,
  list_artifacts, save, load, versions, delete,
}
use adk_go_pkg.Artifact.Service.Places.{same_place, is_plain_key}
use adk_go_pkg.Artifact.Service.RoundTrip.{KeepsType, is_plain, load_after_save}
use adk_go_pkg.Artifact.Service.Refines.{save_elsewhere, save_refines}
use adk_go_pkg.Artifact.Service.Deleted.{delete_refines}

-- A host that encodes the type of the metadata alone.
abbrev host : Env
host = record {
  Time = Unit {0};
  validate_save = λ k part. true;
  validate_load = λ k v. true;
  validate_key = λ k. true;
  validate_list = λ k. true;
  encode = λ m. some m.mime_type;
  decode = λ text. some (record {
    version = pos 0;
    file_name = [];
    mime_type = text;
    create_time = tt;
    canonical_uri = [];
  });
}

host-KeepsType : (mime : Bytes) → KeepsType host mime
host-KeepsType mime = record {
  read_back = λ m text e h. (
    record {
      version = pos 0;
      file_name = [];
      mime_type = text;
      create_time = tt;
      canonical_uri = [];
    },
    (refl, ground (arith, e, h)),
  );
}

abbrev key : Bytes → Bytes → Key
key session name = record {
  app_name = bytes "app";
  user_id = bytes "ann";
  session_id = session;
  file_name = name;
}

abbrev notes : Key
notes = key (bytes "s1") (bytes "notes")

abbrev profile : Key
profile = key (bytes "s1") (bytes "user:profile")

abbrev profile_again : Key
profile_again = key (bytes "s2") (bytes "user:profile")

abbrev text_part : Bytes → Part
text_part text = record { text = text; inline_data = none }

abbrev image : Part
image = record {
  text = [];
  inline_data = some (record { payload = 137 ∷ 80 ∷ []; mime_type = bytes "image/png" });
}

abbrev once : Node
unfolding save
once = (save host tt notes (text_part (bytes "one")) (dir end)).0

abbrev twice : Node
unfolding save
twice = (save host tt notes (text_part (bytes "two")) once).0

abbrev both : Node
unfolding save
both = (save host tt profile image twice).0

versions_test : versions host notes twice ≡ ok (pos 0 ∷ pos 1 ∷ [])
unfolding versions twice is_empty has_prefix str_eq format_int parse_int insert
versions_test = refl

load_old_test : load host notes (pos 1) both ≡ ok (text_part (bytes "two"))
unfolding load both is_empty has_prefix str_eq format_int parse_int insert
load_old_test = refl

list_test : list_artifacts host notes both ≡ ok (bytes "notes" ∷ bytes "user:profile" ∷ [])
unfolding list_artifacts both is_empty has_prefix str_eq format_int parse_int insert
list_test = refl

-- A name that climbs is refused; the name "." is not.
climbing_test : (delete host (key (bytes "s1") (bytes "../s2")) both) ≡ (both, error invalid)
unfolding delete both is_empty has_prefix str_eq format_int parse_int insert
climbing_test = refl

dot_test :
    load host notes (pos 0) (delete host (key (bytes "s1") (bytes ".")) both).0 ≡ error not_found
unfolding load delete both is_empty has_prefix str_eq format_int parse_int insert
dot_test = refl

-- The content of a file that is called like the metadata is the metadata.
metadata_json_test :
    load host
      (key (bytes "s1") (bytes "metadata.json"))
      (pos 0)
      (save host tt (key (bytes "s1") (bytes "metadata.json")) image (dir end)).0
    ≡ error broken
unfolding load save is_empty has_prefix str_eq format_int parse_int
metadata_json_test = refl

save_elsewhere_example :
    (load host profile (pos 0) (save host tt notes image both).0 ≡ load host profile (pos 0) both)
    × (versions host profile (save host tt notes image both).0 ≡ versions host profile both)
unfolding both is_empty has_prefix str_eq format_int parse_int insert is_plain_key same_place
save_elsewhere_example = save_elsewhere host tt notes profile image (pos 0) both refl refl refl

load_after_save_example :
    (load host notes (pos 0) twice ≡ ok (text_part (bytes "two")))
    × (versions host notes twice ≡ ok (pos 0 ∷ pos 1 ∷ []))
unfolding save twice once list_versions content_of is_empty has_prefix str_eq format_int parse_int
    insert is_step is_plain
load_after_save_example =
    load_after_save host tt notes (text_part (bytes "two"))
      (bytes "notes.txt", bytes "two", text_plain) (pos 1) once twice (pos 0 ∷ [])
      (inr (0, (refl, omega arith))) refl refl refl (host-KeepsType text_plain) refl refl refl refl
      refl

save_refines_example :
    load host profile_again (pos 0) both
    ≡ (if same_place profile profile_again then ok image else load host profile_again (pos 0) twice)
unfolding save both twice once list_versions content_of is_empty has_prefix str_eq format_int
    parse_int insert is_plain_key is_plain
save_refines_example =
    save_refines host tt profile profile_again image
      (bytes "user:profile", 137 ∷ 80 ∷ [], bytes "image/png") (pos 0) twice both [] refl refl
      (inl refl) refl refl (host-KeepsType (bytes "image/png")) refl refl refl refl refl refl

delete_refines_example :
    load host notes (pos 0) (delete host profile both).0
    ≡ (if same_place profile notes then error not_found else load host notes (pos 0) both)
unfolding delete both twice once list_versions content_of is_empty has_prefix str_eq format_int
    parse_int insert is_plain_key
delete_refines_example =
    delete_refines host profile notes both (delete host profile both).0 (pos 0 ∷ []) refl refl refl
      refl refl
