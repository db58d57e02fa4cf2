-- ===== src/Inode/Evict/Kept.antt =====
-- Eviction and `remove_orphan` of src/virtual_fs/inode.rs keep the invariant of the table.
use hf_mount.Base.{
  ℕ, ◌≡◌, ◌≢◌, sym, ◌∙◌, ap, inl, inr, some, arith, ◌==◌, nat_eq, text_eq, nat_beq_iff,
  text_beq_iff, Option-cases, Bool-cases, nat_beq,
}
use hf_mount.Base.HashMap
use hf_mount.Base.HashMap.{get-remove}
use hf_mount.Inode.Entry.{InodeEntry, remove_child_by_ino}
use hf_mount.Inode.Table.{InodeTable, get}
use hf_mount.Inode.Table.WellFormed.{IsWellFormed, on_entry-IsWellFormed}
use hf_mount.Inode.Evict.{is_evictable, forget_child, evict, evict_if_safe, unmap, remove_orphan}

-- A table without one entry and without the mapping of its path.
pub dropped-IsWellFormed :
    (t : InodeTable) (ino : ℕ) (entry : InodeEntry)
    → get t ino ≡ some entry
    → IsWellFormed t
    → IsWellFormed (record t {
      inodes = HashMap.remove t.inodes ino;
      path_to_inode = HashMap.remove t.path_to_inode entry.full_path;
    })
dropped-IsWellFormed t ino entry there v = record {
  keyed = λ j e h. v.keyed j e (ground (arith, get-remove t.inodes ino j));
  below = λ j e h. v.below j e (ground (arith, get-remove t.inodes ino j));
  pathed = λ p j h.
      let (e, present, path) =
        v.pathed p j (ground (arith, get-remove t.path_to_inode entry.full_path p)) in
      (
        e,
        get-remove t.inodes ino j
            ∙ ground (
              arith,
              get-remove t.path_to_inode entry.full_path p,
              nat_beq_iff ino j,
              text_beq_iff entry.full_path p,
            ),
        path,
      );
}

forget_child_same :
    (ino : ℕ) (p : InodeEntry)
    → ((forget_child ino p).inode ≡ p.inode) × ((forget_child ino p).full_path ≡ p.full_path)
unfolding forget_child remove_child_by_ino
forget_child_same ino p = ground arith

-- `evict_if_safe` keeps the invariant.
pub evict_if_safe-IsWellFormed :
    (t : InodeTable) (ino : ℕ) → IsWellFormed t → IsWellFormed (evict_if_safe t ino).0
unfolding evict_if_safe evict
evict_if_safe-IsWellFormed t ino v = elim (Option-cases (get t ino)) [
  | inl absent ↦ rw (absent, evict_if_safe) v
  | inr (entry, there) ↦ elim (Bool-cases (is_evictable entry)) [
    | inr unsafe ↦ rw (there, evict_if_safe) (rw unsafe v)
    | inl safe ↦
        rw (there, evict_if_safe)
          (rw safe (
            on_entry-IsWellFormed _ entry.parent (forget_child ino) (forget_child_same ino)
              (dropped-IsWellFormed t ino entry there v)))
  ]
]

-- Only the entry gone, where its path leads to another inode or nowhere.
kept_path-IsWellFormed :
    (t : InodeTable) (ino : ℕ) (entry : InodeEntry)
    → get t ino ≡ some entry
    → HashMap.get t.path_to_inode entry.full_path ≢ some ino
    → IsWellFormed t
    → IsWellFormed (record t { inodes = HashMap.remove t.inodes ino })
kept_path-IsWellFormed t ino entry there other v = record {
  keyed = λ j e h. v.keyed j e (ground (arith, get-remove t.inodes ino j));
  below = λ j e h. v.below j e (ground (arith, get-remove t.inodes ino j));
  pathed = λ p j h.
      let (e, present, path) = v.pathed p j h in
      (
        e,
        get-remove t.inodes ino j ∙ elim (Bool-cases (ino == j)) [
          | inr b ↦ rw b present
          | inl self ↦
              let same : ino ≡ j = (nat_beq_iff ino j).0 self in
              let mine : entry ≡ e = cc in
              absurd (
                other (
                  ap (HashMap.get t.path_to_inode)
                    (ap (λ (x : InodeEntry). x.full_path) mine ∙ path)
                  ∙ h
                  ∙ ap some (sym same)))
        ],
        path,
      );
}

-- `remove_orphan` keeps the invariant, also where a new file has taken the orphan's path.
pub remove_orphan-IsWellFormed :
    (t : InodeTable) (ino : ℕ) → IsWellFormed t → IsWellFormed (remove_orphan t ino).0
unfolding remove_orphan unmap
remove_orphan-IsWellFormed t ino v = elim (Option-cases (get t ino)) [
  | inl absent ↦ rw (absent, remove_orphan) v
  | inr (entry, there) ↦ elim (Bool-cases (nat_beq entry.nlink 0)) [
    | inr linked ↦ rw (there, remove_orphan) (rw linked v)
    | inl orphan ↦
        rw (there, remove_orphan)
          (rw orphan (elim (Option-cases (HashMap.get t.path_to_inode entry.full_path)) [
            | inl unmapped ↦
                rw (unmapped, unmap) (kept_path-IsWellFormed t ino entry there (λ h. cc) v)
            | inr (m, mapped) ↦ elim (Bool-cases (m == ino)) [
              | inl self ↦ rw (mapped, unmap) (rw self (dropped-IsWellFormed t ino entry there v))
              | inr b ↦
                  rw (mapped, unmap)
                    (rw b (
                      kept_path-IsWellFormed t ino entry there
                        (λ h. ground (arith, nat_beq_iff m ino)) v))
            ]
          ]))
  ]
]
