-- ===== src/Inode/Evict.antt =====
-- Eviction in src/virtual_fs/inode.rs: `evict_if_safe`, `remove_orphan`, `lru_candidates` and
-- `staging_gc_candidates`.
pub mod Safe
pub mod Kept
use hf_mount.Base.{
  ℕ, zero, suc, ◌+◌, Bool, true, false, not, ◌&&◌, ◌||◌, Option, none, some, List, [], ◌∷◌, map,
  ltb, leb, nat_beq, length, if◌then◌else◌, Text, ◌==◌, nat_eq, text_eq,
}
use hf_mount.Base.HashMap
use hf_mount.Inode.Entry.{InodeEntry, is_file, is_dirty, is_empty, remove_child_by_ino}
use hf_mount.Inode.Table.{InodeTable, get, on_entry, is_some_and}

-- The safety predicate of `evict_if_safe`.
unfoldable pub is_evictable : InodeEntry → Bool
is_evictable e =
    is_file e.kind
    && (nat_beq e.eviction.nlookup 0
        && (not (is_dirty e) && (is_empty e.pending_deletes && ltb 0 e.nlink)))

-- What the parent of an evicted inode gets: the child gone, and its listing to be fetched again.
unfoldable pub forget_child : ℕ → InodeEntry → InodeEntry
forget_child ino p = record (remove_child_by_ino p ino).0 { children_loaded_at = none }

unfoldable pub evict : InodeTable → ℕ → InodeEntry → InodeTable
evict t ino entry =
    on_entry
      (record t {
        inodes = HashMap.remove t.inodes ino;
        path_to_inode = HashMap.remove t.path_to_inode entry.full_path;
      })
      entry.parent (forget_child ino)

unfoldable pub evict_if_safe : InodeTable → ℕ → InodeTable × Bool
evict_if_safe t ino = elim (get t ino) [
  | none ↦ (t, false)
  | some entry ↦ if is_evictable entry then (evict t ino entry, true) else (t, false)
]

-- The mapping of the path goes only while it still points at the orphan.
unfoldable pub unmap : InodeTable → Text → ℕ → InodeTable
unmap t path ino = elim (HashMap.get t.path_to_inode path) [
  | none ↦ t
  | some mapped ↦
      if mapped == ino then record t { path_to_inode = HashMap.remove t.path_to_inode path } else t
]

unfoldable pub remove_orphan : InodeTable → ℕ → InodeTable × Bool
remove_orphan t ino = elim (get t ino) [
  | none ↦ (t, false)
  | some entry ↦
      if nat_beq entry.nlink 0
      then (unmap (record t { inodes = HashMap.remove t.inodes ino }) entry.full_path ino, true)
      else (t, false)
]

-- `(last_touched, inode)`, in the order of the tuples.
abbrev pub stamp_leb : ℕ × ℕ → ℕ × ℕ → Bool
stamp_leb a b = ltb a.0 b.0 || (nat_beq a.0 b.0 && leb a.1 b.1)

-- A `BinaryHeap` as the list of its items, the greatest first, and its `push` and `pop`.
unfoldable pub push : List (ℕ × ℕ) → ℕ × ℕ → List (ℕ × ℕ)
push [] a = a ∷ []
push (b ∷ heap) a = if stamp_leb b a then a ∷ b ∷ heap else b ∷ push heap a

abbrev pub pop : List (ℕ × ℕ) → List (ℕ × ℕ)
pop [] = []
pop (a ∷ heap) = heap

-- `sort_by_key(|&(ts, _)| ts)`, stable.
unfoldable pub sorted_in : ℕ × ℕ → List (ℕ × ℕ) → List (ℕ × ℕ)
sorted_in a [] = a ∷ []
sorted_in a (b ∷ l) = if leb a.0 b.0 then a ∷ b ∷ l else b ∷ sorted_in a l

unfoldable pub sort_by_stamp : List (ℕ × ℕ) → List (ℕ × ℕ)
sort_by_stamp [] = []
sort_by_stamp (a ∷ l) = sorted_in a (sort_by_stamp l)

-- A regular file that is linked, clean, closed, and has no pending deletes.
unfoldable pub is_reclaimable : InodeEntry → Bool
is_reclaimable e =
    is_file e.kind
    && (ltb 0 e.nlink
        && (not (is_dirty e) && (is_empty e.pending_deletes && nat_beq e.eviction.open_handles 0)))

abbrev pub stamp : InodeEntry → ℕ × ℕ
stamp e = (e.eviction.last_touched, e.inode)

-- The loop of `lru_candidates`: the heap keeps the `max` oldest.
unfoldable pub oldest : ℕ → List InodeEntry → List (ℕ × ℕ) → List (ℕ × ℕ)
oldest max [] heap = heap
oldest max (e ∷ entries) heap =
    let pushed = push heap (stamp e) in
    oldest max entries
      (if is_reclaimable e then (if ltb max (length pushed) then pop pushed else pushed) else heap)

-- The second pass: names of the inodes that are still there.
unfoldable pub resolve : InodeTable → List (ℕ × ℕ) → List (ℕ × ℕ × Text)
resolve t [] = []
resolve t ((ts, ino) ∷ picks) = elim (get t ino) [
  | none ↦ resolve t picks
  | some e ↦ (ino, e.parent, e.name) ∷ resolve t picks
]

unfoldable pub lru_candidates : InodeTable → ℕ → List (ℕ × ℕ × Text)
lru_candidates t max =
    if nat_beq max 0
    then []
    else resolve t (sort_by_stamp (oldest max (HashMap.values t.inodes) []))

unfoldable pub reclaimable_stamps : List InodeEntry → List (ℕ × ℕ)
reclaimable_stamps [] = []
reclaimable_stamps (e ∷ entries) =
    let rest = reclaimable_stamps entries in if is_reclaimable e then stamp e ∷ rest else rest

unfoldable pub staging_gc_candidates : InodeTable → List ℕ
staging_gc_candidates t =
    map (λ pick. pick.1) (sort_by_stamp (reclaimable_stamps (HashMap.values t.inodes)))
