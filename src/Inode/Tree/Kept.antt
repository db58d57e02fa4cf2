-- ===== src/Inode/Tree/Kept.antt =====
-- Unlink, move and removal in src/virtual_fs/inode.rs keep the invariant of the inode table.
use hf_mount.Base.{
  ℕ, zero, suc, ◌≡◌, refl, Bool, false, not, ◌&&◌, inl, inr, List, [], ◌∷◌, arith, if◌then◌else◌,
  if_keeps, Text, ◌==◌, nat_eq, text_eq, Option-cases,
}
use hf_mount.Base.HashMap
use hf_mount.Base.HashMap.{get-remove}
use hf_mount.Inode.Entry.{
  InodeEntry, InodeKind, SystemTime, child_path, is_directory, add_child, remove_child_by_ino,
  remove_child_by_name,
}
use hf_mount.Inode.Table.{InodeTable, get, on_entry, is_some_and}
use hf_mount.Inode.Table.WellFormed.{IsWellFormed, on_entry-IsWellFormed}
use hf_mount.Inode.Evict.Kept.{dropped-IsWellFormed}
use hf_mount.Inode.Tree.{
  unlinked, unlink_child, unlink_one, add_link, drop_link, move_child, detached_child,
  detach_from_parent, child_inos, removed, extend, sweep, listed, remove,
}

-- What the invariant reads of an entry.
abbrev AreSame : InodeEntry → InodeEntry → Type 0
AreSame e e' = (e'.inode ≡ e.inode) × (e'.full_path ≡ e.full_path)

by_name_same : (name : Text) (p : InodeEntry) → AreSame p (remove_child_by_name p name).0
unfolding remove_child_by_name
by_name_same name p = ground arith

by_ino_same : (ino : ℕ) (p : InodeEntry) → AreSame p (remove_child_by_ino p ino).0
unfolding remove_child_by_ino
by_ino_same ino p = ground arith

unmapped-IsWellFormed :
    (t : InodeTable) (path : Text)
    → IsWellFormed t
    → IsWellFormed (record t { path_to_inode = HashMap.remove t.path_to_inode path })
unmapped-IsWellFormed t path v = record {
  keyed = v.keyed;
  below = v.below;
  pathed = λ p i h. v.pathed p i (ground (arith, get-remove t.path_to_inode path p));
}

unlink_child-IsWellFormed :
    (t : InodeTable) (parent : ℕ) (name : Text) (now : SystemTime) (child : ℕ) (full_path : Text)
    → IsWellFormed t
    → IsWellFormed (unlink_child t parent name now child full_path).0
unfolding unlink_child unlinked
unlink_child-IsWellFormed t parent name now child full_path v =
    let named = on_entry t parent (λ p. (remove_child_by_name p name).0) in
    let unmapped = record named { path_to_inode = HashMap.remove named.path_to_inode full_path } in
    let kept : IsWellFormed unmapped =
      unmapped-IsWellFormed named full_path
        (on_entry-IsWellFormed t parent _ (by_name_same name) v) in
    elim (Option-cases (get unmapped child)) [
      | inl absent ↦ rw (absent, unlink_child) kept
      | inr (e, there) ↦
          rw (there, unlink_child)
            (on_entry-IsWellFormed unmapped child (unlinked now) (λ x. (refl, refl)) kept)
    ]

-- `unlink_one` keeps the invariant of the table.
pub unlink_one-IsWellFormed :
    (t : InodeTable) (parent : ℕ) (name : Text) (now : SystemTime)
    → IsWellFormed t
    → IsWellFormed (unlink_one t parent name now).0
unfolding unlink_one
unlink_one-IsWellFormed t parent name now v = elim (Option-cases (get t parent)) [
  | inl absent ↦ rw (absent, unlink_one) v
  | inr (p, there) ↦ elim (Option-cases (HashMap.get p.child_index name)) [
    | inl no_child ↦ rw (there, unlink_one) (rw (no_child, unlink_one) v)
    | inr (child, named) ↦
        rw (there, unlink_one)
          (rw (named, unlink_one)
            (unlink_child-IsWellFormed t parent name now child (child_path p.full_path name) v))
  ]
]

-- `move_child` keeps the invariant of the table.
pub move_child-IsWellFormed :
    (t : InodeTable) (ino old_parent : ℕ) (old_name : Text) (new_parent : ℕ) (new_name : Text)
    → IsWellFormed t
    → IsWellFormed (move_child t ino old_parent old_name new_parent new_name)
unfolding move_child
move_child-IsWellFormed t ino old_parent old_name new_parent new_name v =
    let is_dir = is_some_and (get t ino) (λ e. is_directory e.kind) in
    let detached = on_entry t old_parent (λ p. (remove_child_by_name p old_name).0) in
    let attached = on_entry detached new_parent (λ p. add_child p ino new_name) in
    let kept : IsWellFormed attached =
      on_entry-IsWellFormed detached new_parent _ (λ e. unfold add_child in (refl, refl))
        (on_entry-IsWellFormed t old_parent _ (by_name_same old_name) v) in
    let unlinked' = on_entry attached old_parent drop_link in
    let linked =
      if is_dir && not (old_parent == new_parent)
      then on_entry unlinked' new_parent add_link
      else attached in
    on_entry-IsWellFormed linked ino _ (λ e. (refl, refl))
      (if_keeps IsWellFormed (is_dir && not (old_parent == new_parent))
        (on_entry-IsWellFormed unlinked' new_parent add_link (λ e. (refl, refl))
          (on_entry-IsWellFormed attached old_parent drop_link (λ e. (refl, refl)) kept))
        kept)

detached_same :
    (child : ℕ) (kind : InodeKind) (invalidate : Bool) (p : InodeEntry)
    → AreSame p (detached_child child kind invalidate p)
unfolding detached_child
detached_same child kind invalidate p = ground (arith, by_ino_same child p)

sweep-IsWellFormed :
    (fuel : ℕ) (t : InodeTable) (stack : List ℕ)
    → IsWellFormed t
    → IsWellFormed (sweep fuel t stack)
unfolding sweep
sweep-IsWellFormed zero t stack v = v
sweep-IsWellFormed (suc fuel) t [] v = v
sweep-IsWellFormed (suc fuel) t (ino ∷ stack) v = elim (Option-cases (get t ino)) [
  | inl absent ↦ rw (absent, sweep) (sweep-IsWellFormed fuel t stack v)
  | inr (e, there) ↦
      rw (there, sweep)
        (sweep-IsWellFormed fuel (removed t ino e) (extend stack (child_inos e))
          (unfold removed in dropped-IsWellFormed t ino e there v))
]

-- `remove` keeps the invariant of the table.
pub remove-IsWellFormed :
    (t : InodeTable) (ino : ℕ) → IsWellFormed t → IsWellFormed (remove t ino).0
unfolding remove detach_from_parent
remove-IsWellFormed t ino v = elim (Option-cases (get t ino)) [
  | inl absent ↦ rw (absent, remove) v
  | inr (e, there) ↦
      rw (there, remove)
        (sweep-IsWellFormed (listed t.inodes)
          (on_entry (removed t ino e) e.parent (detached_child ino e.kind false))
          (extend [] (child_inos e))
          (on_entry-IsWellFormed (removed t ino e) e.parent _ (detached_same ino e.kind false)
            (unfold removed in dropped-IsWellFormed t ino e there v)))
]
