-- ===== src/Inode/Evict/Safe.antt =====
-- Eviction in src/virtual_fs/inode.rs takes only what is safe to take.
use hf_mount.Base.{ℕ, ◌<◌, [], ◌≡◌, false, none, some, ◌==◌, nat_eq, text_eq}
use hf_mount.Base.HashMap
use hf_mount.Inode.Entry.{InodeEntry, file, find_ino}
use hf_mount.Inode.Entry.Children.{IsDistinct}
use hf_mount.Inode.Table.{InodeTable, get}

abbrev dropped : InodeTable → ℕ → InodeEntry → InodeTable
dropped t ino entry = record t {
  inodes = HashMap.remove t.inodes ino;
  path_to_inode = HashMap.remove t.path_to_inode entry.full_path;
}

-- A linked, clean regular file that the kernel has released, without pending deletes.
pub record IsSafe (e : InodeEntry) : Type 0 where
  pub regular : e.kind ≡ file
  pub released : e.eviction.nlookup ≡ 0
  pub clean : e.dirty_generation ≡ 0
  pub no_deletes : e.pending_deletes ≡ []
  pub linked : 0 < e.nlink

-- What the parent becomes: it must list again, has no child of the inode, if none stood there twice,
-- and every other child as before; its own data stays.
pub record HasForgotten (ino : ℕ) (p q : InodeEntry) : Type 0 where
  pub listing : q.children_loaded_at ≡ none
  pub forgotten : IsDistinct p.children → find_ino q.children ino ≡ none
  pub others : (i : ℕ) → (ino == i) ≡ false → find_ino q.children i ≡ find_ino p.children i
  pub data_kept :
      (q.inode ≡ p.inode)
      × (q.parent ≡ p.parent)
      × (q.full_path ≡ p.full_path)
      × (q.kind ≡ p.kind)
      × (q.nlink ≡ p.nlink)
      × (q.dirty_generation ≡ p.dirty_generation)

-- What an eviction that happened did.
pub record IsEvicted (t : InodeTable) (ino parent : ℕ) (r : InodeTable) : Type 0 where
  pub gone : get r ino ≡ none
  pub parent_told :
      (ino == parent) ≡ false
      → (p : InodeEntry) → get t parent ≡ some p
      → (q : InodeEntry) × (get r parent ≡ some q) × HasForgotten ino p q
  pub others : (j : ℕ) → (ino == j) ≡ false → (parent == j) ≡ false → get r j ≡ get t j
