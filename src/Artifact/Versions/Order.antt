-- ===== src/Artifact/Versions/Order.antt =====
-- artifact/file/file.go: the order of versions.
use adk_go_pkg.Base.{
  ℕ, ◌+◌, ◌≤◌, true, false, none, some, List, [], ◌∷◌, ◌++◌, ◌≡◌, ◌≢◌, ◌⊎◌, ◌<◌, refl, arith, inl,
  inr, Bool-cases,
}
use adk_go_pkg.Base.Int.{ℤ, pos}
use adk_go_pkg.Artifact.Versions.{
  max_int64, int_leb, insert_version, sort_versions, last_version, next_version, succ64,
}

int_leb_trans : (a b c : ℤ) → int_leb a b ≡ true → int_leb b c ≡ true → int_leb a c ≡ true
unfolding int_leb
int_leb_trans a b c p q = ground arith

int_leb_total : (a b : ℤ) → int_leb a b ≡ false → int_leb b a ≡ true
unfolding int_leb
int_leb_total a b p = ground arith

pub int_leb_refl : (a : ℤ) → int_leb a a ≡ true
unfolding int_leb
int_leb_refl a = ground arith

-- All versions are at most m.
abbrev pub AllLeb : ℤ → List ℤ → Type 0
AllLeb m [] = Unit
AllLeb m (v ∷ vs) = (int_leb v m ≡ true) × AllLeb m vs

abbrev IsSorted : List ℤ → Type 0
IsSorted [] = Unit
IsSorted (v ∷ []) = Unit
IsSorted (v ∷ w ∷ ws) = (int_leb v w ≡ true) × IsSorted (w ∷ ws)

insert_last :
    (v x : ℤ) (ws : List ℤ)
    → int_leb v x ≡ true
    → insert_version v (ws ++ x ∷ []) ≡ insert_version v ws ++ x ∷ []
unfolding insert_version
insert_last v x [] h = ground arith
insert_last v x (w ∷ ws) h = ground (arith, insert_last v x ws)

sort_last :
    (x : ℤ) (vs : List ℤ) → AllLeb x vs → sort_versions (vs ++ x ∷ []) ≡ sort_versions vs ++ x ∷ []
unfolding sort_versions insert_version
sort_last x [] h = refl
sort_last x (v ∷ vs) (h, hs) = rw (sort_last x vs hs) (insert_last v x (sort_versions vs) h)

pub last-append : (x : ℤ) (vs : List ℤ) → last_version (vs ++ x ∷ []) ≡ some x
unfolding last_version
last-append x [] = refl
last-append x (v ∷ []) = refl
last-append x (v ∷ w ∷ ws) = last-append x (w ∷ ws)

insert-IsSorted : (v : ℤ) (ws : List ℤ) → IsSorted ws → IsSorted (insert_version v ws)
unfolding insert_version
insert-IsSorted v [] h = tt
insert-IsSorted v (w ∷ []) h = elim (Bool-cases (int_leb v w)) [
  | inl e ↦ rw e (e, tt)
  | inr e ↦ rw e (int_leb_total v w e, tt)
]
insert-IsSorted v (w ∷ x ∷ xs) (h, hs) = elim (Bool-cases (int_leb v w)) [
  | inl e ↦ rw e (e, (h, hs))
  | inr e ↦ rw e (
      let rest = insert-IsSorted v (x ∷ xs) hs in
      elim (Bool-cases (int_leb v x)) [
        | inl e' ↦ rw e' (int_leb_total v w e, (e', hs))
        | inr e' ↦ rw e' (h, (rw e' at rest))
      ])
]

sort-IsSorted : (vs : List ℤ) → IsSorted (sort_versions vs)
unfolding sort_versions
sort-IsSorted [] = tt
sort-IsSorted (v ∷ vs) = insert-IsSorted v (sort_versions vs) (sort-IsSorted vs)

last_bounds :
    (m : ℤ) (v : ℤ) (vs : List ℤ)
    → IsSorted (v ∷ vs)
    → last_version (v ∷ vs) ≡ some m
    → AllLeb m (v ∷ vs)
unfolding last_version
last_bounds m v [] h e = (ground (arith, int_leb_refl v), tt)
last_bounds m v (w ∷ ws) (h, hs) e =
    let (b, bs) = last_bounds m w ws hs e in (int_leb_trans v w m h b, (b, bs))

AllLeb-insert_version :
    (m v : ℤ) (ws : List ℤ) → AllLeb m (insert_version v ws) → (int_leb v m ≡ true) × AllLeb m ws
unfolding insert_version
AllLeb-insert_version m v [] h = h
AllLeb-insert_version m v (w ∷ ws) h = elim (Bool-cases (int_leb v w)) [
  | inl e ↦ rw e at h
  | inr e ↦
      let (b, bs) : (int_leb w m ≡ true) × AllLeb m (insert_version v ws) = rw e at h in
      let (c, cs) = AllLeb-insert_version m v ws bs in (c, (b, cs))
]

AllLeb-sort_versions : (m : ℤ) (vs : List ℤ) → AllLeb m (sort_versions vs) → AllLeb m vs
unfolding sort_versions
AllLeb-sort_versions m [] h = tt
AllLeb-sort_versions m (v ∷ vs) h =
    let (b, bs) = AllLeb-insert_version m v (sort_versions vs) h in
    (b, AllLeb-sort_versions m vs bs)

-- There are no versions, or the last one is not negative and not the largest.
abbrev pub InRange : List ℤ → Type 0
InRange vs =
    (last_version vs ≡ none) ⊎ ((n : ℕ) × ((last_version vs ≡ some (pos n)) × (n < max_int64)))

sorted_bounds : (m : ℤ) (vs : List ℤ) → last_version (sort_versions vs) ≡ some m → AllLeb m vs
unfolding last_version
sorted_bounds m vs e = AllLeb-sort_versions m vs (bounds (sort_versions vs) (sort-IsSorted vs) e)
  where
    bounds : (ws : List ℤ) → IsSorted ws → last_version ws ≡ some m → AllLeb m ws
    bounds [] h e = tt
    bounds (w ∷ ws) h e = last_bounds m w ws h e

nothing_sorted : (vs : List ℤ) → last_version (sort_versions vs) ≡ none → vs ≡ []
unfolding sort_versions insert_version last_version
nothing_sorted [] h = refl
nothing_sorted (v ∷ vs) h = absurd (ground (arith, ends v (sort_versions vs)))
  where
    ends_cons : (v : ℤ) (vs : List ℤ) → last_version (v ∷ vs) ≢ none
    ends_cons v [] e = cc
    ends_cons v (w ∷ ws) e = ends_cons w ws e

    ends : (v : ℤ) (ws : List ℤ) → last_version (insert_version v ws) ≢ none
    ends v [] e = cc
    ends v (w ∷ ws) e = elim (Bool-cases (int_leb v w)) [
      | inl h ↦ ends_cons v (w ∷ ws) (rw h at e)
      | inr h ↦ ends_cons w (insert_version v ws) (rw h at e)
    ]

-- All versions are smaller than m.
abbrev pub AllLt : ℤ → List ℤ → Type 0
AllLt m [] = Unit
AllLt m (v ∷ vs) = (int_leb m v ≡ false) × AllLt m vs

AllLt-of_AllLeb : (n : ℕ) (vs : List ℤ) → AllLeb (pos n) vs → AllLt (pos (n + 1)) vs
unfolding int_leb
AllLt-of_AllLeb n [] b = tt
AllLt-of_AllLeb n (v ∷ vs) (b, bs) = (ground arith, AllLt-of_AllLeb n vs bs)

AllLeb-of_AllLt : (m : ℤ) (vs : List ℤ) → AllLt m vs → AllLeb m vs
AllLeb-of_AllLt m [] b = tt
AllLeb-of_AllLt m (v ∷ vs) (b, bs) = (int_leb_total m v b, AllLeb-of_AllLt m vs bs)

-- What Save assigns is larger than any version that there is, and in the range of int64.
pub record IsNext (v : ℤ) (vs : List ℤ) : Type 0 where
  pub number : ℕ
  pub value : v ≡ pos number
  pub in_range : number ≤ max_int64
  pub above : AllLt v vs

pub next_version-IsNext :
    (vs : List ℤ) → InRange (sort_versions vs) → IsNext (next_version (sort_versions vs)) vs
unfolding next_version succ64
next_version-IsNext vs (inl e) = record {
  number = 0;
  value = ground arith;
  in_range = omega arith;
  above = rw (nothing_sorted vs e) tt;
}
next_version-IsNext vs (inr (n, (e, h))) =
    let next : next_version (sort_versions vs) ≡ pos (n + 1) = ground arith in
    record {
      number = n + 1;
      value = next;
      in_range = omega arith;
      above = rw next (AllLt-of_AllLeb n vs (sorted_bounds (pos n) vs e));
    }

-- The sorted versions with the one that Save assigns.
pub sort_next :
    (v : ℤ) (vs : List ℤ) → AllLt v vs → sort_versions (vs ++ v ∷ []) ≡ sort_versions vs ++ v ∷ []
sort_next v vs h = sort_last v vs (AllLeb-of_AllLt v vs h)
