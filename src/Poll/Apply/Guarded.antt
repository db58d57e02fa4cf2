-- ===== src/Poll/Apply/Guarded.antt =====
-- `remove_remote_file` of src/virtual_fs/poll.rs leaves local writes alone.
use hf_mount.Base.{
  ℕ, zero, suc, ◌≡◌, refl, sym, ◌∙◌, ap, true, false, inl, inr, some, List, [], map, arith,
  eq_of_some, Text, ◌==◌, nat_eq, text_eq, nat_beq_iff, Bool-cases, Option-cases,
}
use hf_mount.Poll.Apply.Kept.{
  AreLeaves, KeepsLeaf, IsKept, StaysAt, on_entry-StaysAt, on_entry-AreLeaves, by_name-IsKept,
  detached-IsKept, unlinked-IsKept,
}
use mathlib.Core.Path.{subst}
use hf_mount.Base.HashMap
use hf_mount.Inode.Entry.{
  InodeEntry, DirChild, SystemTime, is_dirty, remove_child_by_name, child_path,
}
use hf_mount.Inode.Table.{InodeTable, get, on_entry, has_open_handles}
use hf_mount.Inode.Table.WellFormed.{IsWellFormed}
use hf_mount.Inode.Tree.Kept.{unlink_one-IsWellFormed, remove-IsWellFormed}
use hf_mount.Inode.Tree.{
  unlinked, unlink_child, unlink_one, detached_child, detach_from_parent, removed, extend, sweep,
  listed, remove,
}
use hf_mount.Inode.Tree.Sweep.{get-removed}
use hf_mount.Poll.Apply.{Inval, remove_remote_file}

-- What a loop over remote changes keeps, for one entry that was there.
pub record IsGuarded (t : InodeTable) (j : ℕ) (e : InodeEntry) : Type 0 where
  pub well_formed : IsWellFormed t
  pub leaves : AreLeaves t
  pub stays : StaysAt t j e

pub keeps_leaf : (f : InodeEntry → InodeEntry) → ((x : InodeEntry) → IsKept x (f x)) → KeepsLeaf f
keeps_leaf f kept x = ((kept x).kind, (kept x).leaf)

unlink_child_kept :
    (t : InodeTable) (parent : ℕ) (name : Text) (now : SystemTime) (child : ℕ) (path : Text) (j : ℕ)
    (e : InodeEntry)
    → AreLeaves t
    → StaysAt t j e
    → AreLeaves (unlink_child t parent name now child path).0
      × StaysAt (unlink_child t parent name now child path).0 j e
unfolding unlink_child
unlink_child_kept t parent name now child path j e leaves stays =
    let f : InodeEntry → InodeEntry = λ p. (remove_child_by_name p name).0 in
    let named = on_entry t parent f in
    let unmapped = record named { path_to_inode = HashMap.remove named.path_to_inode path } in
    let leaves1 : AreLeaves unmapped =
      on_entry-AreLeaves t parent f (keeps_leaf f (by_name-IsKept name)) leaves in
    let stays1 : StaysAt unmapped j e =
      on_entry-StaysAt t parent j f e (by_name-IsKept name) stays in
    elim (Option-cases (get unmapped child)) [
      | inl absent ↦ rw (absent, unlink_child) (leaves1, stays1)
      | inr (x, there) ↦
          rw (there, unlink_child)
            (
              on_entry-AreLeaves unmapped child (unlinked now)
                  (keeps_leaf (unlinked now) (unlinked-IsKept now)) leaves1,
              on_entry-StaysAt unmapped child j (unlinked now) e (unlinked-IsKept now) stays1,
            )
    ]

unlink_one-IsGuarded :
    (t : InodeTable) (parent : ℕ) (name : Text) (now : SystemTime) (j : ℕ) (e : InodeEntry)
    → IsGuarded t j e
    → IsGuarded (unlink_one t parent name now).0 j e
unlink_one-IsGuarded t parent name now j e g =
    let (leaves, stays) = unlink_one_kept in
    record {
      well_formed = unlink_one-IsWellFormed t parent name now g.well_formed;
      leaves = leaves;
      stays = stays;
    }
  where
    unlink_one_kept :
        AreLeaves (unlink_one t parent name now).0 × StaysAt (unlink_one t parent name now).0 j e
    unlink_one_kept =
        unfold unlink_one in
        elim (Option-cases (get t parent)) [
          | inl absent ↦ rw (absent, unlink_one) (g.leaves, g.stays)
          | inr (p, there) ↦ elim (Option-cases (HashMap.get p.child_index name)) [
            | inl no_child ↦ rw (there, unlink_one) (rw (no_child, unlink_one) (g.leaves, g.stays))
            | inr (child, named) ↦
                rw (there, unlink_one)
                  (rw (named, unlink_one)
                    (unlink_child_kept t parent name now child (child_path p.full_path name) j e
                      g.leaves g.stays))
          ]
        ]

sweep_nothing : (fuel : ℕ) (t : InodeTable) → sweep fuel t [] ≡ t
unfolding sweep
sweep_nothing zero t = refl
sweep_nothing (suc fuel) t = refl

-- The removal of an entry without children.
pub remove_leaf :
    (t : InodeTable) (ino : ℕ) (x : InodeEntry)
    → get t ino ≡ some x
    → x.children ≡ []
    → (remove t ino).0 ≡ on_entry (removed t ino x) x.parent (detached_child ino x.kind false)
unfolding remove detach_from_parent extend
remove_leaf t ino x there leaf =
    rw (there, remove)
      (ap
          (λ l.
            sweep (listed t.inodes)
              (on_entry (removed t ino x) x.parent (detached_child ino x.kind false))
              (extend [] (map (λ (c : DirChild). c.ino) l)))
          leaf
        ∙ sweep_nothing (listed t.inodes)
            (on_entry (removed t ino x) x.parent (detached_child ino x.kind false)))

remove-IsGuarded :
    (t : InodeTable) (ino j : ℕ) (e x : InodeEntry)
    → get t ino ≡ some x
    → x.children ≡ []
    → (ino == j) ≡ false
    → IsGuarded t j e
    → IsGuarded (remove t ino).0 j e
remove-IsGuarded t ino j e x there leaf other g =
    let f = detached_child ino x.kind false in
    let left : AreLeaves (removed t ino x) =
      λ i y h. g.leaves i y (ground (arith, get-removed t ino x i)) in
    let (y, present, kept) = g.stays in
    let stays : StaysAt (removed t ino x) j e =
      (y, get-removed t ino x j ∙ rw other present, kept) in
    let same = sym (remove_leaf t ino x there leaf) in
    record {
      well_formed = remove-IsWellFormed t ino g.well_formed;
      leaves = subst AreLeaves same (
          on_entry-AreLeaves (removed t ino x) x.parent f
            (keeps_leaf f (detached-IsKept ino x.kind)) left);
      stays =
          subst (λ u. StaysAt u j e) same
            (on_entry-StaysAt (removed t ino x) x.parent j f e (detached-IsKept ino x.kind) stays);
    }

-- An entry that keeps the local content of a dirty one is dirty.
kept_dirty : (e x : InodeEntry) → is_dirty e ≡ true → IsKept e x → is_dirty x ≡ true
kept_dirty e x dirty k = rw k.local.generation dirty

-- A clean entry is not the dirty one.
pub clean_elsewhere :
    (t : InodeTable) (ino j : ℕ) (e x : InodeEntry)
    → is_dirty e ≡ true
    → get t ino ≡ some x
    → is_dirty x ≡ false
    → IsGuarded t j e
    → (ino == j) ≡ false
clean_elsewhere t ino j e x dirty there clean g = elim (Bool-cases (ino == j)) [
  | inr other ↦ other
  | inl same ↦
      let (y, present, kept) = g.stays in
      let is_y : x ≡ y =
        eq_of_some
          (sym there ∙ subst (λ k. get t k ≡ some y) (sym ((nat_beq_iff ino j).0 same)) present) in
      let y_clean : is_dirty y ≡ false = ap is_dirty (sym is_y) ∙ clean in
      absurd (ground (arith, kept_dirty e y dirty kept))
]

pub remove_remote_file-IsGuarded :
    (t : InodeTable) (now : SystemTime) (ino : ℕ) (invals : List Inval) (j : ℕ) (e : InodeEntry)
    → is_dirty e ≡ true
    → ((x : InodeEntry) → get t ino ≡ some x → x.children ≡ [])
    → IsGuarded t j e
    → IsGuarded (remove_remote_file t now ino invals).0 j e
unfolding remove_remote_file
remove_remote_file-IsGuarded t now ino invals j e dirty leaf g = elim (Option-cases (get t ino)) [
  | inl absent ↦ rw (absent, remove_remote_file) g
  | inr (x, there) ↦ elim (Bool-cases (is_dirty x)) [
    | inl local ↦ rw (there, remove_remote_file) (rw local g)
    | inr clean ↦ elim (Bool-cases (has_open_handles t ino)) [
      | inl held ↦
          rw (there, remove_remote_file)
            (rw (clean, held) (unlink_one-IsGuarded t x.parent x.name now j e g))
      | inr closed ↦
          rw (there, remove_remote_file)
            (rw (clean, closed)
              (remove-IsGuarded t ino j e x there (leaf x there)
                (clean_elsewhere t ino j e x dirty there clean g) g))
    ]
  ]
]
