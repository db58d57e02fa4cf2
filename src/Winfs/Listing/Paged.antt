-- ===== src/Winfs/Listing/Paged.antt =====
-- `page_after` of src/winfs/dirlist.rs: pages of any size add up to the directory.
use hf_mount.Base.{
  ℕ, zero, suc, ◌<◌, ◌≡◌, refl, sym, ◌∙◌, ap, Bool, false, inl, inr, Option, none, some, List, [],
  ◌∷◌, ◌++◌, arith, length, take, drop, length-drop, if◌then◌else◌, Text, codes, ◌==◌, text_eq,
  Bool-cases,
}
use mathlib.Core.Path.{subst}
use mathlib.Core.List.{append_assoc}
use hf_mount.Inode.Entry.{is_empty}
use hf_mount.Winfs.Listing.{text_leb, is_dots, DirSnapshot, partition_point, page_after, new}
use hf_mount.Winfs.Listing.Sorted.{text_leb_refl, text_leb_total, AreBehind, IsSorted, new-IsSorted}

module _ {ℓ} {T : Type ℓ} where
  behind_point :
      (name : Text) (entries : List (Text × T))
      → AreBehind name entries
      → partition_point name entries ≡ 0
  unfolding partition_point
  behind_point name [] behind = refl
  behind_point name (e ∷ entries) behind = rw behind.0 refl

  AreBehind-append :
      (name : Text) (a : List (Text × T)) (e : Text × T) (b : List (Text × T))
      → AreBehind name (a ++ e ∷ b)
      → text_leb e.0 name ≡ false
  AreBehind-append name [] e b behind = behind.0
  AreBehind-append name (d ∷ a) e b behind = AreBehind-append name a e b behind.1

  drop_point :
      (a : List (Text × T)) (e : Text × T) (b : List (Text × T))
      → IsSorted (a ++ e ∷ b)
      → drop (partition_point e.0 (a ++ e ∷ b)) (a ++ e ∷ b) ≡ b
  unfolding partition_point
  drop_point [] e b sorted = rw (text_leb_refl e.0, behind_point e.0 b sorted.1) refl
  drop_point (d ∷ a) e b sorted =
      rw (text_leb_total e.0 d.0 (AreBehind-append d.0 a e b sorted.1)) (drop_point a e b sorted.2)

  IsSorted-append :
      (a : List (Text × T)) (e : Text × T) (b : List (Text × T))
      → IsSorted (a ++ e ∷ b)
      → is_dots e.0 ≡ false
  IsSorted-append [] e b sorted = sorted.0
  IsSorted-append (d ∷ a) e b sorted = IsSorted-append a e b sorted.2

  page_after_entry :
      (s : DirSnapshot T) (a : List (Text × T)) (e : Text × T) (b : List (Text × T))
      (with_dots : Bool)
      → IsSorted s.entries
      → s.entries ≡ a ++ e ∷ b
      → (page_after s (some e.0) with_dots).entries ≡ b
  unfolding page_after
  page_after_entry s a e b with_dots sorted parts =
      let sorted' = subst IsSorted parts sorted in
      let real = IsSorted-append a e b sorted' in
      let cut : drop (partition_point e.0 s.entries) s.entries ≡ b =
        ap (λ l. drop (partition_point e.0 l) l) parts ∙ drop_point a e b sorted' in
      elim (Bool-cases (e.0 == codes ".")) [
        | inl dot ↦ absurd (ground arith)
        | inr other ↦ elim (Bool-cases (e.0 == codes "..")) [
          | inl dot_dot ↦ absurd (ground arith)
          | inr name ↦ rw (other, name) cut
        ]
      ]

  -- The name of the last entry, the marker of the next page.
  abbrev marker_of : Option Text → List (Text × T) → Option Text
  marker_of marker [] = marker
  marker_of marker (e ∷ entries) = marker_of (some e.0) entries

  -- An enumeration that takes `suc size` entries of each page, until a page has none.
  unfoldable pub enumerate : ℕ → ℕ → DirSnapshot T → Option Text → Bool → List (Text × T)
  enumerate zero size s marker with_dots = []
  enumerate (suc fuel) size s marker with_dots =
      let page = take (suc size) (page_after s marker with_dots).entries in
      if is_empty page then [] else page ++ enumerate fuel size s (marker_of marker page) with_dots

  take_and_drop : (n : ℕ) (l : List (Text × T)) → take n l ++ drop n l ≡ l
  take_and_drop zero l = refl
  take_and_drop (suc n) [] = refl
  take_and_drop (suc n) (e ∷ l) = ap (◌∷◌ e) (take_and_drop n l)

  -- After a page, the next one starts behind it.
  next_page :
      (s : DirSnapshot T) (a : List (Text × T)) (e : Text × T) (p b : List (Text × T))
      (with_dots : Bool)
      → IsSorted s.entries
      → s.entries ≡ a ++ e ∷ (p ++ b)
      → (page_after s (marker_of (some e.0) p) with_dots).entries ≡ b
  next_page s a e [] b with_dots sorted parts = page_after_entry s a e b with_dots sorted parts
  next_page s a e (d ∷ p) b with_dots sorted parts =
      next_page s (a ++ e ∷ []) d p b with_dots sorted
        (parts ∙ sym (append_assoc a (e ∷ []) (d ∷ (p ++ b))))

  enumerate_step :
      (fuel size : ℕ) (s : DirSnapshot T) (marker : Option Text) (with_dots : Bool) (e : Text × T)
      (rest : List (Text × T))
      → (page_after s marker with_dots).entries ≡ e ∷ rest
      → enumerate (suc fuel) size s marker with_dots
        ≡ (e ∷ take size rest)
          ++ enumerate fuel size s (marker_of (some e.0) (take size rest)) with_dots
  unfolding enumerate
  enumerate_step fuel size s marker with_dots e rest page =
      ap
        (λ l.
          if is_empty (take (suc size) l)
          then []
          else take (suc size) l
            ++ enumerate fuel size s (marker_of marker (take (suc size) l)) with_dots)
        page

  enumerate_rest :
      (fuel size : ℕ) (s : DirSnapshot T) (marker : Option Text) (with_dots : Bool)
      (a rest : List (Text × T))
      → IsSorted s.entries
      → s.entries ≡ a ++ rest
      → (page_after s marker with_dots).entries ≡ rest
      → length rest < fuel
      → enumerate fuel size s marker with_dots ≡ rest
  unfolding enumerate
  enumerate_rest zero size s marker with_dots a rest sorted parts page enough = absurd (omega arith)
  enumerate_rest (suc fuel) size s marker with_dots a [] sorted parts page enough =
      ap
        (λ l.
          if is_empty (take (suc size) l)
          then []
          else take (suc size) l
            ++ enumerate fuel size s (marker_of marker (take (suc size) l)) with_dots)
        page
  enumerate_rest (suc fuel) size s marker with_dots a (e ∷ rest) sorted parts page enough =
      let p = take size rest in
      let b = drop size rest in
      let whole : s.entries ≡ a ++ e ∷ (p ++ b) =
        parts ∙ ap (λ l. a ++ e ∷ l) (sym (take_and_drop size rest)) in
      enumerate_step fuel size s marker with_dots e rest page
      ∙ ap (λ l. (e ∷ p) ++ l)
          (enumerate_rest fuel size s (marker_of (some e.0) p) with_dots (a ++ e ∷ p) b sorted
            (whole ∙ sym (append_assoc a (e ∷ p) b)) (next_page s a e p b with_dots sorted whole)
            (omega (arith, length-drop {ℓ} size rest)))
      ∙ ap (◌∷◌ e) (take_and_drop size rest)

  -- Whatever the size of the pages, an enumeration that goes on behind the last entry of each page
  -- returns every entry of the snapshot once, in order, and ends. Fuel of one page for each entry and
  -- one more is enough.
  pub enumerate_lem :
      (fuel size : ℕ) (listing : List (Text × T)) (with_dots : Bool)
      → length (new listing).entries < fuel
      → enumerate fuel size (new listing) none with_dots ≡ (new listing).entries
  enumerate_lem fuel size listing with_dots enough =
      enumerate_rest fuel size (new listing) none with_dots [] (new listing).entries
        (new-IsSorted listing) refl (unfold page_after in refl) enough
