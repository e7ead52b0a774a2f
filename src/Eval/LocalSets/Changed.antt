-- ===== src/Eval/LocalSets/Changed.antt =====
-- eval/local_eval_sets_manager.go: a change of one eval set, seen through GetEvalSet.
use adk_go_pkg.Base.{
  Bool, not, sym, true, false, ◌&&◌, some, [], ◌∷◌, ◌++◌, Bytes, bytes, str_eq, str_eq_iff,
  is_empty, if◌then◌else◌, ◌≡◌, refl, ◌∙◌, arith, inl, inr, Bool-cases,
}
use adk_go_pkg.Artifact.Disk.{FilePath, Node, find, mkdir_all, write_file}
use adk_go_pkg.Artifact.Disk.Focus.{diverges}
use adk_go_pkg.Artifact.Disk.Frame.{find-mkdir_all_ne, find-write_file_ne}
use adk_go_pkg.Artifact.Names.{extend_step}
use adk_go_pkg.Eval.EvalSets.{EvalSet}
use adk_go_pkg.Eval.EvalSets
use adk_go_pkg.Eval.LocalSets.{
  ok, err, broken, cases_valid, validate_path_segment, eval_dir, eval_set_path, validate_and_path,
  Codec, load_eval_set_from_file, save_eval_set, get_eval_set, change_set,
}
use adk_go_pkg.Eval.LocalSets.Stored.{
  suffix, find-write_file_self, path_of_valid, str_eq-append, find-mkdir_all_below, IsRead,
  load_same, load_saved, save_steps, valid_is_step,
}

abbrev IsValidPair : Bytes → Bytes → Type 0
IsValidPair app id = (validate_path_segment app && validate_path_segment id) ≡ true

dir_of_valid : (app id : Bytes) → IsValidPair app id → eval_dir app ≡ app ∷ bytes "eval" ∷ []
unfolding eval_dir
dir_of_valid app id h = ground (arith, extend_step [] app, valid_is_step app)

abbrev place : Bytes → Bytes → FilePath
place app id = app ∷ bytes "eval" ∷ (id ++ suffix) ∷ []

places_apart :
    (app id app' id' : Bytes)
    → (str_eq app app' && str_eq id id') ≡ false
    → diverges (place app id) (place app' id') ≡ true
unfolding diverges str_eq
places_apart app id app' id' h = ground (arith, str_eq-append id id' suffix)

made_elsewhere :
    (app app' id' : Bytes) (root r : Node)
    → mkdir_all (app ∷ bytes "eval" ∷ []) root ≡ some r
    → find (place app' id') r ≡ find (place app' id') root
unfolding diverges
made_elsewhere app app' id' root r m = elim (Bool-cases (str_eq app app')) [
  | inl same ↦
      let f = find-mkdir_all_below (app ∷ bytes "eval" ∷ []) (id' ++ suffix) [] root r m in
      ground (arith, f, str_eq_iff app app')
  | inr apart ↦ find-mkdir_all_ne (app ∷ bytes "eval" ∷ []) (place app' id') root r (ground arith) m
]

picked : {A : Type 0} {b : Bool} {x : A} (y : A) → b ≡ true → (if b then x else y) ≡ x
picked y e = rw e refl

left_out : {A : Type 0} {b : Bool} (x : A) {y : A} → b ≡ false → (if b then x else y) ≡ y
left_out x e = rw e refl

module _ {C F T : Type 0} (codec : Codec C F T) where
  got :
      (app id : Bytes) (root : Node)
      → IsValidPair app id
      → get_eval_set codec app id root ≡ load_eval_set_from_file codec (place app id) root
  unfolding get_eval_set validate_and_path
  got app id root v = ground (arith, path_of_valid app id v)

  not_got :
      (app id : Bytes) (root r : Node)
      → (validate_path_segment app && validate_path_segment id) ≡ false
      → get_eval_set codec app id r ≡ get_eval_set codec app id root
  unfolding get_eval_set validate_and_path
  not_got app id root r v = ground arith

  was_valid :
      (app id : Bytes) (root : Node) (s : EvalSet C T)
      → get_eval_set codec app id root ≡ ok s
      → IsValidPair app id
  unfolding get_eval_set validate_and_path
  was_valid app id root s g =
      elim (Bool-cases (validate_path_segment app && validate_path_segment id)) [
        | inl e ↦ e
        | inr e ↦ absurd (ground arith)
      ]

  -- What the change gave was saved.
  saved :
      (app id : Bytes) (change : EvalSet C T → EvalSets.Result (EvalSet C T)) (root r : Node)
      (s s' : EvalSet C T)
      → get_eval_set codec app id root ≡ ok s
      → change s ≡ EvalSets.ok s'
      → change_set codec app id change root ≡ (r, ok tt)
      → save_eval_set codec app (eval_set_path app id) s' root ≡ (r, ok tt)
  unfolding change_set
  saved app id change root r s s' g e h = ground (arith, g, e, h)

  same_place :
      (app id app' id' : Bytes) (r : Node)
      → (str_eq app app' && str_eq id id') ≡ true
      → get_eval_set codec app' id' r ≡ get_eval_set codec app id r
  same_place app id app' id' r same = ground (arith, str_eq_iff app app', str_eq_iff id id')

  elsewhere :
      (app id app' id' : Bytes) (root r : Node)
      → (str_eq app app' && str_eq id id') ≡ false
      → (IsValidPair app' id' → find (place app' id') r ≡ find (place app' id') root)
      → get_eval_set codec app' id' r ≡ get_eval_set codec app' id' root
  elsewhere app id app' id' root r apart f =
      elim (Bool-cases (validate_path_segment app' && validate_path_segment id')) [
        | inl v ↦
            got app' id' r v
            ∙ load_same codec (place app' id') root r (f v)
            ∙ sym (got app' id' root v)
        | inr v ↦ not_got app' id' root r v
      ]

  -- When one of AddEvalCase, UpdateEvalCase and DeleteEvalCase of the manager on disk succeeds and
  -- the function that it applies to the stored eval set gives s', GetEvalSet then gives s' if s'
  -- has an identifier and each of its cases has exactly one of a conversation and a scenario, and
  -- an error if not; for every other application and identifier it gives what it gave before.
  -- Condition: JSON reads back s', and does not read its text, an object, as a slice.
  pub change_set_lem :
      (app id app' id' : Bytes) (change : EvalSet C T → EvalSets.Result (EvalSet C T))
      (root r : Node) (s s' : EvalSet C T)
      → get_eval_set codec app id root ≡ ok s
      → change s ≡ EvalSets.ok s'
      → IsRead codec s'
      → change_set codec app id change root ≡ (r, ok tt)
      → get_eval_set codec app' id' r ≡ (
          if str_eq app app' && str_eq id id'
          then (if not (is_empty s'.eval_set_id) && cases_valid codec s'.eval_cases
              then ok s'
              else err broken)
          else get_eval_set codec app' id' root)
  change_set_lem app id app' id' change root r s s' g e reads h =
      let saving = saved app id change root r s s' g e h in
      let (r1, (text, (m, (c, w)))) =
        save_steps codec app (eval_set_path app id) s' root r saving in
      let v = was_valid app id root s g in
      let w' : write_file (place app id) text r1 ≡ some r =
        ground (arith, w, path_of_valid app id v) in
      let m' : mkdir_all (app ∷ bytes "eval" ∷ []) root ≡ some r1 =
        ground (arith, m, dir_of_valid app id v) in
      let back =
        load_saved codec (place app id) r s' text reads c
          (find-write_file_self (place app id) text r1 r w') in
      elim (Bool-cases (str_eq app app' && str_eq id id')) [
        | inl same ↦ same_place app id app' id' r same ∙ got app id r v ∙ back ∙ sym (picked _ same)
        | inr apart ↦
            elsewhere app id app' id' root r apart (λ v'.
              find-write_file_ne (place app id) (place app' id') text r1 r
                (places_apart app id app' id' apart) w'
              ∙ made_elsewhere app app' id' root r1 m')
            ∙ sym (left_out _ apart)
      ]
