-- ===== src/Winfs/Listing/Named.antt =====
-- `DirSnapshot::new` of src/winfs/dirlist.rs keeps the first entry of every name.
use hf_mount.Base.{
  ◌≡◌, length, refl, sym, ◌∙◌, ap, true, false, inl, inr, none, some, List, [], ◌∷◌, arith,
  if◌then◌else◌, Text, ◌==◌, text_eq, text_beq_iff, Bool-cases,
}
use hf_mount.Winfs.Listing.{
  text_leb, is_dots, without_dots, insert_sorted, sort_by_name, dedup_after, dedup_by_name, new,
  get,
}
use hf_mount.Winfs.Listing.Sorted.{text_leb_refl, new-IsSorted}
use hf_mount.Winfs.Listing.Search.{find_name, binary_search_lem}

-- A name that does not stand before another is not that name.
not_equal : (a b : Text) → text_leb a b ≡ false → (a == b) ≡ false
not_equal a b h = elim (Bool-cases (a == b)) [
  | inr other ↦ other
  | inl same ↦
      let e : a ≡ b = (text_beq_iff a b).0 same in
      let k : text_leb a b ≡ true = ap (λ c. text_leb a c) (sym e) ∙ text_leb_refl a in ground arith
]

same_name : (a b name : Text) → (a == b) ≡ true → (a == name) ≡ (b == name)
same_name a b name h = ap (λ (c : Text). c == name) ((text_beq_iff a b).0 h)

module _ {ℓ} {T : Type ℓ} (name : Text) where
  find-without_dots :
      (entries : List (Text × T))
      → find_name name (without_dots entries)
        ≡ (if is_dots name then none else find_name name entries)
  unfolding find_name without_dots
  find-without_dots [] = ground arith
  find-without_dots (e ∷ entries) = elim (Bool-cases (e.0 == name)) [
    | inl here ↦
        let same : is_dots e.0 ≡ is_dots name = ap is_dots ((text_beq_iff e.0 name).0 here) in
        elim (Bool-cases (is_dots name)) [
          | inl dots ↦ rw (here, same, dots) (find-without_dots entries ∙ rw dots refl)
          | inr real ↦ rw (here, same, real) (rw here refl)
        ]
    | inr other ↦ elim (Bool-cases (is_dots e.0)) [
      | inl dots ↦ rw (other, dots) (find-without_dots entries)
      | inr real ↦ rw (other, real) (rw other (find-without_dots entries))
    ]
  ]

  find-insert_sorted :
      (e : Text × T) (entries : List (Text × T))
      → find_name name (insert_sorted e entries)
        ≡ (if e.0 == name then some e.1 else find_name name entries)
  unfolding find_name insert_sorted
  find-insert_sorted e [] = refl
  find-insert_sorted e (d ∷ entries) = elim (Bool-cases (text_leb e.0 d.0)) [
    | inl before ↦ rw before refl
    | inr after ↦ elim (Bool-cases (d.0 == name)) [
      | inr other ↦ rw (after, other) (find-insert_sorted e entries)
      | inl here ↦
          let is_name : d.0 ≡ name = (text_beq_iff d.0 name).0 here in
          let differs : (e.0 == name) ≡ false =
            ap (λ (c : Text). e.0 == c) (sym is_name) ∙ not_equal e.0 d.0 after in
          rw (after, here, differs) refl
    ]
  ]

  find-sort_by_name :
      (entries : List (Text × T)) → find_name name (sort_by_name entries) ≡ find_name name entries
  unfolding find_name sort_by_name
  find-sort_by_name [] = refl
  find-sort_by_name (e ∷ entries) =
      find-insert_sorted e (sort_by_name entries)
      ∙ ap (λ o. if e.0 == name then some e.1 else o) (find-sort_by_name entries)

  find-dedup_after :
      (last : Text) (entries : List (Text × T))
      → (last == name) ≡ false
      → find_name name (dedup_after last entries) ≡ find_name name entries
  unfolding find_name dedup_after
  find-dedup_after last [] h = refl
  find-dedup_after last (e ∷ entries) h = elim (Bool-cases (last == e.0)) [
    | inl same ↦
        let other : (e.0 == name) ≡ false = sym (same_name last e.0 name same) ∙ h in
        rw (same, other) (find-dedup_after last entries h)
    | inr new_name ↦ elim (Bool-cases (e.0 == name)) [
      | inl here ↦ rw (new_name, here) refl
      | inr other ↦ rw (new_name, other) (find-dedup_after e.0 entries other)
    ]
  ]

  find-dedup_by_name :
      (entries : List (Text × T)) → find_name name (dedup_by_name entries) ≡ find_name name entries
  unfolding find_name
  find-dedup_by_name [] = refl
  find-dedup_by_name (e ∷ entries) = elim (Bool-cases (e.0 == name)) [
    | inl here ↦ rw here refl
    | inr other ↦ rw other (find-dedup_after e.0 entries other)
  ]

  find-new :
      (entries : List (Text × T))
      → find_name name (new entries).entries
        ≡ (if is_dots name then none else find_name name entries)
  unfolding new
  find-new entries =
      find-dedup_by_name (sort_by_name (without_dots entries))
      ∙ find-sort_by_name (without_dots entries)
      ∙ find-without_dots entries

  -- Looking a name up in the snapshot by binary search finds the first entry of that name in the
  -- listing; only `.` and `..` are never found.
  pub get-new :
      (entries : List (Text × T))
      → get (new entries) name ≡ (if is_dots name then none else find_name name entries)
  unfolding get
  get-new entries =
      binary_search_lem name (length (new entries).entries) (new entries).entries (omega arith)
        (new-IsSorted entries)
      ∙ find-new entries
