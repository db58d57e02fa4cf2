-- ===== src/Winfs/Listing/Sorted.antt =====
-- `DirSnapshot::new` of src/winfs/dirlist.rs: the names ascend, none is `.` or `..`, and the first
-- entry of every name is there.
use hf_mount.Base.{
  ◌≡◌, refl, true, false, inl, inr, List, [], ◌∷◌, arith, Text, ◌==◌, text_eq, text_beq_iff,
  Bool-cases,
}
use hf_mount.Winfs.Listing.{
  text_leb, is_dots, without_dots, insert_sorted, sort_by_name, dedup_after, dedup_by_name, new,
}

pub text_leb_refl : (a : Text) → text_leb a a ≡ true
unfolding text_leb
text_leb_refl [] = refl
text_leb_refl (x ∷ a) = ground (arith, text_leb_refl a)

pub text_leb_trans :
    (a b c : Text) → text_leb a b ≡ true → text_leb b c ≡ true → text_leb a c ≡ true
unfolding text_leb
text_leb_trans [] b c h k = refl
text_leb_trans (x ∷ a) [] c h k = absurd (ground arith)
text_leb_trans (x ∷ a) (y ∷ b) [] h k = absurd (ground arith)
text_leb_trans (x ∷ a) (y ∷ b) (z ∷ c) h k = ground (arith, text_leb_trans a b c)

pub text_leb_total : (a b : Text) → text_leb a b ≡ false → text_leb b a ≡ true
unfolding text_leb
text_leb_total [] b h = absurd (ground arith)
text_leb_total (x ∷ a) [] h = refl
text_leb_total (x ∷ a) (y ∷ b) h = ground (arith, text_leb_total a b)

pub text_leb_antisym : (a b : Text) → text_leb a b ≡ true → text_leb b a ≡ true → a ≡ b
unfolding text_leb
text_leb_antisym [] [] h k = refl
text_leb_antisym [] (y ∷ b) h k = absurd (ground arith)
text_leb_antisym (x ∷ a) [] h k = absurd (ground arith)
text_leb_antisym (x ∷ a) (y ∷ b) h k = ground (arith, text_leb_antisym a b)

behind_of_from : (a b : Text) → text_leb a b ≡ true → (a == b) ≡ false → text_leb b a ≡ false
behind_of_from a b h other = elim (Bool-cases (text_leb b a)) [
  | inr behind ↦ behind
  | inl below ↦ ground (arith, (text_beq_iff a b).1 (text_leb_antisym a b h below))
]

behind_trans : (a b c : Text) → text_leb a b ≡ true → text_leb c b ≡ false → text_leb c a ≡ false
behind_trans a b c h k = elim (Bool-cases (text_leb c a)) [
  | inr behind ↦ behind
  | inl below ↦ ground (arith, text_leb_trans c a b below h)
]

module _ {ℓ} {T : Type ℓ} where
  -- Every name stands at or behind the name.
  abbrev AreFrom : Text → List (Text × T) → Type 0
  AreFrom name [] = Unit
  AreFrom name (e ∷ entries) = (text_leb name e.0 ≡ true) × AreFrom name entries

  abbrev AreAscending : List (Text × T) → Type 0
  AreAscending [] = Unit
  AreAscending (e ∷ entries) = AreFrom e.0 entries × AreAscending entries

  -- Every name stands behind the name.
  abbrev pub AreBehind : Text → List (Text × T) → Type 0
  AreBehind name [] = Unit
  AreBehind name (e ∷ entries) = (text_leb e.0 name ≡ false) × AreBehind name entries

  -- Each name stands behind all before it, and none is `.` or `..`.
  abbrev pub IsSorted : List (Text × T) → Type 0
  IsSorted [] = Unit
  IsSorted (e ∷ entries) = (is_dots e.0 ≡ false) × AreBehind e.0 entries × IsSorted entries

  abbrev AreReal : List (Text × T) → Type 0
  AreReal [] = Unit
  AreReal (e ∷ entries) = (is_dots e.0 ≡ false) × AreReal entries

  without_dots-AreReal : (entries : List (Text × T)) → AreReal (without_dots entries)
  unfolding without_dots
  without_dots-AreReal [] = tt
  without_dots-AreReal (e ∷ entries) = elim (Bool-cases (is_dots e.0)) [
    | inl dots ↦ rw dots (without_dots-AreReal entries)
    | inr real ↦ rw real (real, without_dots-AreReal entries)
  ]

  AreFrom-trans :
      (a b : Text) (entries : List (Text × T))
      → text_leb a b ≡ true
      → AreFrom b entries
      → AreFrom a entries
  AreFrom-trans a b [] h from = tt
  AreFrom-trans a b (e ∷ entries) h from =
      (text_leb_trans a b e.0 h from.0, AreFrom-trans a b entries h from.1)

  insert_sorted-AreFrom :
      (name : Text) (e : Text × T) (entries : List (Text × T))
      → text_leb name e.0 ≡ true
      → AreFrom name entries
      → AreFrom name (insert_sorted e entries)
  unfolding insert_sorted
  insert_sorted-AreFrom name e [] h from = (h, tt)
  insert_sorted-AreFrom name e (d ∷ entries) h from = elim (Bool-cases (text_leb e.0 d.0)) [
    | inl before ↦ rw before (h, (from.0, from.1))
    | inr after ↦ rw after (from.0, insert_sorted-AreFrom name e entries h from.1)
  ]

  insert_sorted-AreAscending :
      (e : Text × T) (entries : List (Text × T))
      → AreAscending entries
      → AreAscending (insert_sorted e entries)
  unfolding insert_sorted
  insert_sorted-AreAscending e [] up = (tt, tt)
  insert_sorted-AreAscending e (d ∷ entries) up = elim (Bool-cases (text_leb e.0 d.0)) [
    | inl before ↦ rw before ((before, AreFrom-trans e.0 d.0 entries before up.0), (up.0, up.1))
    | inr after ↦ rw after (
      insert_sorted-AreFrom d.0 e entries (text_leb_total e.0 d.0 after) up.0,
      insert_sorted-AreAscending e entries up.1,
    )
  ]

  insert_sorted-AreReal :
      (e : Text × T) (entries : List (Text × T))
      → is_dots e.0 ≡ false
      → AreReal entries
      → AreReal (insert_sorted e entries)
  unfolding insert_sorted
  insert_sorted-AreReal e [] real all = (real, tt)
  insert_sorted-AreReal e (d ∷ entries) real all = elim (Bool-cases (text_leb e.0 d.0)) [
    | inl before ↦ rw before (real, (all.0, all.1))
    | inr after ↦ rw after (all.0, insert_sorted-AreReal e entries real all.1)
  ]

  sort-AreAscending : (entries : List (Text × T)) → AreAscending (sort_by_name entries)
  unfolding sort_by_name
  sort-AreAscending [] = tt
  sort-AreAscending (e ∷ entries) =
      insert_sorted-AreAscending e (sort_by_name entries) (sort-AreAscending entries)

  sort-AreReal : (entries : List (Text × T)) → AreReal entries → AreReal (sort_by_name entries)
  unfolding sort_by_name
  sort-AreReal [] all = tt
  sort-AreReal (e ∷ entries) all =
      insert_sorted-AreReal e (sort_by_name entries) all.0 (sort-AreReal entries all.1)

  AreBehind-trans :
      (a b : Text) (entries : List (Text × T))
      → text_leb a b ≡ true
      → AreBehind b entries
      → AreBehind a entries
  AreBehind-trans a b [] h behind = tt
  AreBehind-trans a b (e ∷ entries) h behind =
      (behind_trans a b e.0 h behind.0, AreBehind-trans a b entries h behind.1)

  dedup_after-IsSorted :
      (last : Text) (entries : List (Text × T))
      → AreFrom last entries
      → AreAscending entries
      → AreReal entries
      → AreBehind last (dedup_after last entries) × IsSorted (dedup_after last entries)
  unfolding dedup_after
  dedup_after-IsSorted last [] from up real = (tt, tt)
  dedup_after-IsSorted last (e ∷ entries) from up real = elim (Bool-cases (last == e.0)) [
    | inl same ↦ rw same (dedup_after-IsSorted last entries from.1 up.1 real.1)
    | inr other ↦
        let (behind, sorted) = dedup_after-IsSorted e.0 entries up.0 up.1 real.1 in
        rw other (
          (
            behind_of_from last e.0 from.0 other,
            AreBehind-trans last e.0 (dedup_after e.0 entries) from.0 behind,
          ),
          (real.0, behind, sorted),
        )
  ]

  dedup-IsSorted :
      (entries : List (Text × T))
      → AreAscending entries
      → AreReal entries
      → IsSorted (dedup_by_name entries)
  dedup-IsSorted [] up real = tt
  dedup-IsSorted (e ∷ entries) up real =
      let (behind, sorted) = dedup_after-IsSorted e.0 entries up.0 up.1 real.1 in
      (real.0, behind, sorted)

  -- Whatever the listing is, the names of the snapshot strictly ascend, and `.` and `..` are not
  -- among them.
  pub new-IsSorted : (entries : List (Text × T)) → IsSorted (new entries).entries
  unfolding new
  new-IsSorted entries =
      dedup-IsSorted (sort_by_name (without_dots entries))
        (sort-AreAscending (without_dots entries))
        (sort-AreReal (without_dots entries) (without_dots-AreReal entries))
