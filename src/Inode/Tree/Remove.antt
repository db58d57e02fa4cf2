-- ===== src/Inode/Tree/Remove.antt =====
-- `remove` of src/virtual_fs/inode.rs takes a whole subtree.
use hf_mount.Base.{ℕ, false, Text, ◌≡◌, ◌≢◌, false, ◌⊎◌, Option, none, some, nat_eq, text_eq}
use hf_mount.Base.HashMap
use hf_mount.Base.HashMap.{HashMap}
use hf_mount.Inode.Entry.{InodeEntry}
use hf_mount.Inode.Tree.Cleared.{Descends, at_path}
use hf_mount.Inode.Table.{InodeTable, get}
use hf_mount.Inode.Tree.{removed, detached_child, detach_from_parent}
use hf_mount.Inode.Tree.Detached.{HasLost}

-- What `remove` leaves: all that is below the inode is gone, with its paths, and nothing else changes
-- but the parent, which has lost the child.
pub record IsRemoved (t : InodeTable) (ino : ℕ) (e : InodeEntry) (r : InodeTable) : Type 0 where
  pub gone : (j : ℕ) → Descends t ino j → get r j ≡ none
  pub unmapped :
      (j : ℕ) (x : InodeEntry) → Descends t ino j → get t j ≡ some x → at_path r x.full_path ≡ none
  pub kept : (j : ℕ) → e.parent ≢ j → (get r j ≡ get t j) ⊎ Descends t ino j
  pub parent_told :
      (p : InodeEntry)
      → get t e.parent ≡ some p
      → ((q : InodeEntry) × (get r e.parent ≡ some q) × HasLost ino e.kind p q)
        ⊎ Descends t ino e.parent
  pub mapped :
      (p : Text)
      → (at_path r p ≡ at_path t p)
        ⊎ ((j : ℕ) × (x : InodeEntry) × Descends t ino j × (get t j ≡ some x) × (x.full_path ≡ p))

module _ (t : InodeTable) (ino : ℕ) (e : InodeEntry) (there : get t ino ≡ some e) where
  abbrev detached : InodeTable
  detached = detach_from_parent (removed t ino e) e.parent ino e.kind false

  abbrev without_child : Option InodeEntry → Option InodeEntry
  without_child v = elim v [ none ↦ none | some p ↦ some (detached_child ino e.kind false p) ]
