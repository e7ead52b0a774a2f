-- ===== src/Eval/LocalSets/Stored.antt =====
-- eval/local_eval_sets_manager.go: paths, and saving and loading one file.
use adk_go_pkg.Base.{
  true, false, ◌&&◌, not, none, if◌then◌else◌, some, [], ◌∷◌, ◌++◌, Bytes, bytes, str_eq,
  str_eq_iff, str_eq_refl, is_empty, length, length-append, ◌≡◌, refl, ◌∙◌, ap, sym, arith, inl,
  inr, Bool-cases, Option-cases,
}
use adk_go_pkg.Artifact.Disk.{
  FilePath, Node, file, dir, found, find, end, graft, child, mkdir_all, write_file,
}
use adk_go_pkg.Artifact.Disk.Focus.{
  find-append, find-append_missing, Found-cases, graft_step, get-put_self, find-put, write_step,
}
use adk_go_pkg.Artifact.Names.{extend_step, is_step, has_separator, has_separator-append}
use adk_go_pkg.Eval.EvalSets.{EvalSet}
use adk_go_pkg.Eval.OldFormat.{convert_eval_set_to_new_schema}
use adk_go_pkg.Eval.LocalSets.{
  ok, err, broken, has_unsafe, validate_path_segment, eval_dir, eval_set_path, Codec, cases_valid,
  read_eval_set, unmarshal_eval_set, load_eval_set_from_file, save_eval_set,
}

pub find-write_file_self :
    (p : FilePath) (text : Bytes) (root r : Node)
    → write_file p text root ≡ some r
    → find p r ≡ found (file text)
unfolding write_file find
find-write_file_self [] text root r h = cc
find-write_file_self (s ∷ p) text (file _) r h = absurd (ground arith)
find-write_file_self (s ∷ []) text (dir es) r h = ground (arith, get-put_self s (file text) es)
find-write_file_self (s ∷ t ∷ p) text (dir es) r h =
    let (n, (e, (c, (w, e')))) = write_step s t p text r es h in
    rw e' (find-put s (t ∷ p) c es ∙ find-write_file_self (t ∷ p) text n c w)

has_separator_of_unsafe : (s : Bytes) → has_unsafe s ≡ false → has_separator s ≡ false
unfolding has_unsafe has_separator
has_separator_of_unsafe [] h = refl
has_separator_of_unsafe (c ∷ s) h = ground (arith, has_separator_of_unsafe s)

pub valid_is_step : (s : Bytes) → validate_path_segment s ≡ true → is_step s ≡ true
unfolding validate_path_segment is_step
valid_is_step s h = ground (arith, has_separator_of_unsafe s)

abbrev pub suffix : Bytes
suffix = bytes ".evalset.json"

file_is_step : (s : Bytes) → is_step s ≡ true → is_step (s ++ suffix) ≡ true
unfolding is_step str_eq has_separator is_empty
file_is_step [] h = absurd (ground arith)
file_is_step (c ∷ []) h = ground arith
file_is_step (c ∷ d ∷ []) h = ground arith
file_is_step (c ∷ d ∷ e ∷ s) h = ground (arith, has_separator-append s suffix)

pub path_of_valid :
    (app id : Bytes)
    → (validate_path_segment app && validate_path_segment id) ≡ true
    → eval_set_path app id ≡ app ∷ bytes "eval" ∷ (id ++ suffix) ∷ []
unfolding eval_set_path eval_dir
path_of_valid app id h = ground (
  arith,
  extend_step [] app,
  extend_step (app ∷ bytes "eval" ∷ []) (id ++ suffix),
  valid_is_step app,
  valid_is_step id,
  file_is_step id,
)

pub str_eq-append : (s t u : Bytes) → str_eq (s ++ u) (t ++ u) ≡ str_eq s t
unfolding str_eq
str_eq-append [] [] u = str_eq_refl u
str_eq-append [] (c ∷ t) u = elim (Bool-cases (str_eq u (c ∷ t ++ u))) [
  | inl e ↦ absurd (longer (ap length ((str_eq_iff u (c ∷ t ++ u)).0 e)))
  | inr e ↦ e
]
  where
    longer : length u ≡ length (c ∷ t ++ u) → ⊥
    longer e = ground (arith, length-append (c ∷ t) u)
str_eq-append (c ∷ s) [] u = elim (Bool-cases (str_eq (c ∷ s ++ u) u)) [
  | inl e ↦ absurd (longer (ap length ((str_eq_iff (c ∷ s ++ u) u).0 e)))
  | inr e ↦ e
]
  where
    longer : length (c ∷ s ++ u) ≡ length u → ⊥
    longer e = ground (arith, length-append (c ∷ s) u)
str_eq-append (c ∷ s) (d ∷ t) u = ground (arith, str_eq-append s t u)

find-graft_self : (p : FilePath) (x root r : Node) → graft p x root ≡ some r → find p r ≡ found x
unfolding graft find
find-graft_self [] x root r g = ground arith
find-graft_self (s ∷ p) x (file _) r g = cc
find-graft_self (s ∷ p) x (dir es) r g =
    let (c, (g', e)) = graft_step s p x r es g in
    rw e (find-put s p c es ∙ find-graft_self p x (child s es) c g')

pub find-mkdir_all_below :
    (p : FilePath) (s : Bytes) (t : FilePath) (root r : Node)
    → mkdir_all p root ≡ some r
    → find (p ++ s ∷ t) r ≡ find (p ++ s ∷ t) root
unfolding mkdir_all find
find-mkdir_all_below p s t root r m = elim (Found-cases (find p root)) [
  | inl away ↦
      let g : graft p (dir end) root ≡ some r = ground arith in
      let made : find p r ≡ found (dir end) = find-graft_self p (dir end) root r g in
      find-append p (s ∷ t) r (dir end) made ∙ sym (find-append_missing p (s ∷ t) root away)
  | inr (inl barred) ↦ absurd (ground arith)
  | inr (inr (file f, at)) ↦ absurd (ground arith)
  | inr (inr (dir es, at)) ↦ ground arith
]

-- Of one eval set: encoding/json reads back what it wrote (for values of valid UTF-8), and does
-- not read what it
-- wrote, an object, not into a slice.
pub record IsRead {C F T : Type 0} (codec : Codec C F T) (s : EvalSet C T) : Type 0 where
  pub read_back : (text : Bytes) → codec.encode s ≡ some text → codec.decode text ≡ some s
  pub not_old : (text : Bytes) → codec.encode s ≡ some text → codec.old.old_cases text ≡ none

module _ {C F T : Type 0} (codec : Codec C F T) where
  pub load_same :
      (p : FilePath) (root r : Node)
      → find p r ≡ find p root
      → load_eval_set_from_file codec p r ≡ load_eval_set_from_file codec p root
  unfolding load_eval_set_from_file
  load_same p root r e = ground (arith, e)

  pub load_saved :
      (p : FilePath) (r : Node) (s : EvalSet C T) (text : Bytes)
      → IsRead codec s
      → codec.encode s ≡ some text
      → find p r ≡ found (file text)
      → load_eval_set_from_file codec p r ≡ (
          if not (is_empty s.eval_set_id) && cases_valid codec s.eval_cases
          then ok s
          else err broken)
  unfolding load_eval_set_from_file unmarshal_eval_set read_eval_set convert_eval_set_to_new_schema
  load_saved p r s text reads e f = ground (arith, f, reads.read_back text e, reads.not_old text e)

  -- The two writes of saveEvalSet.
  pub save_steps :
      (app : Bytes) (p : FilePath) (s : EvalSet C T) (root r : Node)
      → save_eval_set codec app p s root ≡ (r, ok tt)
      → (r1 : Node) × ((text : Bytes) × ((mkdir_all (eval_dir app) root ≡ some r1)
            × ((codec.encode s ≡ some text) × (write_file p text r1 ≡ some r))))
  unfolding save_eval_set
  save_steps app p s root r h = elim (Option-cases (mkdir_all (eval_dir app) root)) [
    | inl e ↦ absurd (ground arith)
    | inr (r1, e) ↦ elim (Option-cases (codec.encode s)) [
      | inl e' ↦ absurd (ground arith)
      | inr (text, e') ↦ elim (Option-cases (write_file p text r1)) [
        | inl e'' ↦ absurd (ground arith)
        | inr (r2, e'') ↦ (r1, (text, (e, (e', ground arith))))
      ]
    ]
  ]
