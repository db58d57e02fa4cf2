-- ===== src/Inode/Table/Insert.antt =====
-- `InodeTable::insert` of src/virtual_fs/inode.rs: what can be looked up afterwards.
use mathlib.Core.Path.{subst}
use hf_mount.Base.{
  ℕ, ◌+◌, ◌<◌, ◌≡◌, refl, sym, ◌∙◌, ap, inl, inr, none, some, arith, Text, nat_eq, text_eq,
  text_beq_iff, Option-cases, u64_mod, add64,
}
use hf_mount.Base.HashMap
use hf_mount.Base.HashMap.{get-insert}
use hf_mount.Inode.Entry.{InodeEntry, SystemTime, Instant, add_child}
use hf_mount.Inode.Table.{
  InodeTable, NewEntry, get, on_entry, get_by_path, lookup_child, entry_of, adopt, insert,
}
use hf_mount.Inode.Table.WellFormed.{
  IsWellFormed, get-on_entry, on_entry-IsWellFormed, added-IsWellFormed,
}

module _ (t : InodeTable) (parent : ℕ) (name full_path : Text) (n : NewEntry) (now : SystemTime)
    (instant : Instant) where
  abbrev inserted : InodeTable
  inserted = (insert t parent name full_path n now instant).0

  abbrev ino : ℕ
  ino = (insert t parent name full_path n now instant).1

  -- The table with the new inode, before the parent gets the child.
  added : InodeTable
  added = record t {
    inodes =
        HashMap.insert t.inodes t.next_inode
          (entry_of t.next_inode parent name full_path n t.touch_counter now instant);
    path_to_inode = HashMap.insert t.path_to_inode full_path t.next_inode;
    next_inode = add64 t.next_inode 1;
    touch_counter = add64 t.touch_counter 1;
  }

  insert_new :
      HashMap.get t.path_to_inode full_path ≡ none
      → insert t parent name full_path n now instant
        ≡ (on_entry added parent (adopt t.next_inode name n.kind), t.next_inode)
  unfolding insert added
  insert_new absent = rw (absent, insert)

  insert_existing :
      (existing : ℕ)
      → HashMap.get t.path_to_inode full_path ≡ some existing
      → insert t parent name full_path n now instant
        ≡ (on_entry t existing (λ e. record e { last_revalidated = some instant }), existing)
  unfolding insert
  insert_existing existing present = rw (present, insert)

  -- `insert` keeps the invariant of the table, as long as the inode counter is not exhausted.
  pub insert-IsWellFormed : t.next_inode + 1 < u64_mod → IsWellFormed t → IsWellFormed inserted
  insert-IsWellFormed room v = elim (Option-cases (HashMap.get t.path_to_inode full_path)) [
    | inr (existing, present) ↦
        subst (λ r. IsWellFormed r.0) (sym (insert_existing existing present))
          (on_entry-IsWellFormed t existing _ (λ e. (refl, refl)) v)
    | inl absent ↦
        subst (λ r. IsWellFormed r.0) (sym (insert_new absent))
          (on_entry-IsWellFormed added parent _ (λ e. unfold adopt add_child in ground arith)
            (unfold added entry_of in
              added-IsWellFormed t
                (entry_of t.next_inode parent name full_path n t.touch_counter now instant)
                (add64 t.touch_counter 1) refl room v))
  ]

  -- What an insertion leaves for later lookups.
  pub record IsFound : Type 0 where
    pub free : get t ino ≡ none
    pub entry : InodeEntry
    pub at_ino : get inserted ino ≡ some entry
    pub at_path : get_by_path inserted full_path ≡ some entry
    pub at_name : lookup_child inserted parent name ≡ some entry
    pub placed : (entry.inode ≡ ino) × (entry.parent ≡ parent) × (entry.full_path ≡ full_path)
    pub data_kept : (entry.kind ≡ n.kind) × (entry.size ≡ n.size) × (entry.xet_hash ≡ n.xet_hash)
    pub owned : (entry.mode ≡ n.mode) × (entry.uid ≡ n.uid) × (entry.gid ≡ n.gid)
    pub stamped : (entry.mtime ≡ n.mtime) × (entry.atime ≡ n.mtime) × (entry.ctime ≡ now)

  module _ (v : IsWellFormed t) (p : InodeEntry) (there : get t parent ≡ some p) where
    free_number : get t t.next_inode ≡ none
    free_number = elim (Option-cases (get t t.next_inode)) [
      | inl free ↦ free
      | inr (e, taken) ↦ absurd (omega (arith, v.below t.next_inode e taken))
    ]

    new_entry : InodeEntry
    new_entry = entry_of t.next_inode parent name full_path n t.touch_counter now instant

    result : InodeTable
    result = on_entry added parent (adopt t.next_inode name n.kind)

    result_new : get result t.next_inode ≡ some new_entry
    unfolding result new_entry added
    result_new =
        get-on_entry added parent (adopt t.next_inode name n.kind) t.next_inode
        ∙ ground
            (arith, v.below parent p there, get-insert t.inodes t.next_inode new_entry t.next_inode)

    result_parent : get result parent ≡ some (adopt t.next_inode name n.kind p)
    unfolding result new_entry added
    result_parent =
        get-on_entry added parent (adopt t.next_inode name n.kind) parent
        ∙ ground (arith, v.below parent p there, get-insert t.inodes t.next_inode new_entry parent)

    result_path : HashMap.get result.path_to_inode full_path ≡ some t.next_inode
    unfolding result on_entry added
    result_path =
        get-insert t.path_to_inode full_path t.next_inode full_path
        ∙ ground (arith, text_beq_iff full_path full_path)

    adopted_index :
        HashMap.get (adopt t.next_inode name n.kind p).child_index name ≡ some t.next_inode
    unfolding adopt add_child
    adopted_index =
        ground (arith, get-insert p.child_index name t.next_inode name, text_beq_iff name name)

    result_by_path : get_by_path result full_path ≡ some new_entry
    unfolding get_by_path
    result_by_path = rw (result_path, get_by_path) result_new

    result_by_name : lookup_child result parent name ≡ some new_entry
    unfolding lookup_child
    result_by_name = rw (result_parent, lookup_child) (rw (adopted_index, lookup_child) result_new)

    -- Insertion of a new path under a parent that is there takes an inode number that was free;
    -- afterwards the path, and the name under the parent, lead to one entry with the given kind, size,
    -- hash, mode, owner and time.
    pub insert-IsFound : HashMap.get t.path_to_inode full_path ≡ none → IsFound
    insert-IsFound absent =
        let same = insert_new absent in
        let at_result : inserted ≡ result =
          ap (λ (r : InodeTable × ℕ). r.0) same ∙ unfold result in refl in
        let at_number : ino ≡ t.next_inode = ap (λ (r : InodeTable × ℕ). r.1) same in
        record {
          free = rw at_number free_number;
          entry = new_entry;
          at_ino = rw (at_result, at_number) result_new;
          at_path = rw at_result result_by_path;
          at_name = rw at_result result_by_name;
          placed = (
            rw at_number (unfold new_entry entry_of in refl),
            unfold new_entry entry_of in refl,
            unfold new_entry entry_of in refl,
          );
          data_kept = unfold new_entry entry_of in (refl, refl, refl);
          owned = unfold new_entry entry_of in (refl, refl, refl);
          stamped = unfold new_entry entry_of in (refl, refl, refl);
        }
