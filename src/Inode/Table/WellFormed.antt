-- ===== src/Inode/Table/WellFormed.antt =====
-- The invariant of the inode table, and that insertion keeps it.
use mathlib.Core.Path.{subst}
use hf_mount.Base.{
  ℕ, ◌+◌, ◌<◌, ◌≡◌, ◌⊎◌, refl, sym, ◌∙◌, inl, inr, none, some, arith, Text, if◌then◌else◌, ◌==◌,
  nat_eq, text_eq, nat_beq_iff, text_beq_iff, Option-cases, Bool-cases, u64_mod, add64, add64_exact,
}
use hf_mount.Base.HashMap
use hf_mount.Base.HashMap.{get-insert, get-remove, get-modify}
use hf_mount.Inode.Entry.{InodeEntry}
use hf_mount.Inode.Table.{InodeTable, get, on_entry}

-- Every entry stands under its own inode number, below the next one to give; every path of the
-- reverse lookup leads to an entry that has that path.
pub record IsWellFormed (t : InodeTable) : Type 0 where
  pub keyed : (i : ℕ) (e : InodeEntry) → get t i ≡ some e → e.inode ≡ i
  pub below : (i : ℕ) (e : InodeEntry) → get t i ≡ some e → i < t.next_inode
  pub pathed :
      (p : Text) (i : ℕ)
      → HashMap.get t.path_to_inode p ≡ some i
      → (e : InodeEntry) × (get t i ≡ some e) × (e.full_path ≡ p)

module _ (t : InodeTable) (i : ℕ) (f : InodeEntry → InodeEntry) where
  -- The entry at `j` after a change at `i`.
  pub get-on_entry :
      (j : ℕ)
      → get (on_entry t i f) j
        ≡ (if i == j then elim (get t i) [ none ↦ none | some e ↦ some (f e) ] else get t j)
  unfolding on_entry
  get-on_entry j = get-modify t.inodes i f j

  on_entry_back :
      (j : ℕ) (e : InodeEntry)
      → get (on_entry t i f) j ≡ some e
      → (old : InodeEntry) × (get t j ≡ some old) × ((e ≡ old) ⊎ (e ≡ f old))
  on_entry_back j e h = elim (Bool-cases (i == j)) [
    | inr other ↦ (e, ground (arith, get-on_entry j), inl refl)
    | inl same ↦ elim (Option-cases (get t i)) [
      | inl absent ↦ absurd (ground (arith, get-on_entry j))
      | inr (old, present) ↦ (
        old,
        subst (λ k. get t k ≡ some old) ((nat_beq_iff i j).0 same) present,
        inr (ground (arith, get-on_entry j)),
      )
    ]
  ]

  on_entry_forth :
      (j : ℕ) (old : InodeEntry)
      → get t j ≡ some old
      → (e : InodeEntry) × (get (on_entry t i f) j ≡ some e) × ((e ≡ old) ⊎ (e ≡ f old))
  on_entry_forth j old h = elim (Bool-cases (i == j)) [
    | inr other ↦ (old, get-on_entry j ∙ rw (other, h), inl refl)
    | inl same ↦
        let here : get t i ≡ some old =
          subst (λ k. get t k ≡ some old) (sym ((nat_beq_iff i j).0 same)) h in
        (f old, get-on_entry j ∙ rw (same, here), inr refl)
  ]

  -- A change of an entry that leaves its number and its path keeps the invariant.
  pub on_entry-IsWellFormed :
      ((e : InodeEntry) → ((f e).inode ≡ e.inode) × ((f e).full_path ≡ e.full_path))
      → IsWellFormed t
      → IsWellFormed (on_entry t i f)
  on_entry-IsWellFormed same v = record {
    keyed = λ j e h.
        let (old, present, which) = on_entry_back j e h in
        ground (arith, v.keyed j old present, same old, which);
    below = λ j e h.
        let (old, present, which) = on_entry_back j e h in unfold on_entry in v.below j old present;
    pathed = λ p j h.
        let (old, present, path) = v.pathed p j (unfold on_entry in h) in
        let (e, here, which) = on_entry_forth j old present in
        (e, here, ground (arith, same old, which));
  }

-- A new entry under a fresh number and a path that no other entry is looked up by.
pub added-IsWellFormed :
    (t : InodeTable) (e : InodeEntry) (counter : ℕ)
    → e.inode ≡ t.next_inode
    → t.next_inode + 1 < u64_mod
    → IsWellFormed t
    → IsWellFormed (record t {
      inodes = HashMap.insert t.inodes t.next_inode e;
      path_to_inode = HashMap.insert t.path_to_inode e.full_path t.next_inode;
      next_inode = add64 t.next_inode 1;
      touch_counter = counter;
    })
added-IsWellFormed t e counter num room v =
    let next : add64 t.next_inode 1 ≡ t.next_inode + 1 = add64_exact t.next_inode 1 room in
    record {
      keyed = λ j e' h. ground (arith, get-insert t.inodes t.next_inode e j, v.keyed j e');
      below = λ j e' h. ground (arith, get-insert t.inodes t.next_inode e j, v.below j e', next);
      pathed = λ p j h. elim (Bool-cases (e.full_path == p)) [
        | inl new_path ↦ (
          e,
          ground (
            arith,
            get-insert t.path_to_inode e.full_path t.next_inode p,
            get-insert t.inodes t.next_inode e j,
          ),
          (text_beq_iff e.full_path p).0 new_path,
        )
        | inr old_path ↦
            let (old, present, path) =
              v.pathed p j
                (ground (arith, get-insert t.path_to_inode e.full_path t.next_inode p)) in
            let low : j < t.next_inode = v.below j old present in
            (old, ground (arith, get-insert t.inodes t.next_inode e j), path)
      ];
    }
