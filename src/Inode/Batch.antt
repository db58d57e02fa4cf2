-- ===== src/Inode/Batch.antt =====
-- `evict_batch_if_safe` of src/virtual_fs/inode.rs.
use hf_mount.Base.{
  ℕ, refl, Bool, true, false, ◌&&◌, inl, inr, none, some, List, [], ◌∷◌, ◌++◌, nat_beq,
  if◌then◌else◌, ◌==◌, nat_eq, text_eq, Option-cases,
}
use hf_mount.Base.HashMap
use hf_mount.Base.HashMap.{HashMap}
use hf_mount.Inode.Entry.{InodeEntry, DirChild}
use hf_mount.Inode.Table.{InodeTable, get, on_entry}
use hf_mount.Inode.Table.WellFormed.{IsWellFormed, on_entry-IsWellFormed}
use hf_mount.Inode.Evict.{is_evictable}
use hf_mount.Inode.Evict.Kept.{dropped-IsWellFormed}

-- The safety predicate of the batch: that of `evict_if_safe`, and no open handle.
unfoldable pub is_eligible : InodeEntry → Bool
is_eligible e = is_evictable e && nat_beq e.eviction.open_handles 0

-- A `HashSet` of inodes, as a list.
unfoldable pub contains : List ℕ → ℕ → Bool
contains [] i = false
contains (j ∷ set) i = let later = contains set i in if j == i then true else later

-- `by_parent.entry(parent).or_default().insert(ino)`
unfoldable pub insert_in : HashMap ℕ (List ℕ) → ℕ → ℕ → HashMap ℕ (List ℕ)
insert_in by_parent parent ino = elim (HashMap.get by_parent parent) [
  | none ↦ HashMap.insert by_parent parent (ino ∷ [])
  | some set ↦ if contains set ino then by_parent else HashMap.insert by_parent parent (ino ∷ set)
]

-- The first loop: the eligible inodes by their parents.
unfoldable pub by_parent : InodeTable → List ℕ → HashMap ℕ (List ℕ) → HashMap ℕ (List ℕ)
by_parent t [] groups = groups
by_parent t (ino ∷ inos) groups = by_parent t inos (elim (get t ino) [
  | none ↦ groups
  | some e ↦ if is_eligible e then insert_in groups e.parent ino else groups
])

-- One inode of the second loop.
unfoldable pub take_out : InodeTable → ℕ → ℕ → InodeTable × List ℕ
take_out t parent ino = elim (get t ino) [
  | none ↦ (t, [])
  | some e ↦ (
    on_entry
        (record t {
          inodes = HashMap.remove t.inodes ino;
          path_to_inode = HashMap.remove t.path_to_inode e.full_path;
        })
        parent (λ p. record p { child_index = HashMap.remove p.child_index e.name }),
    ino ∷ [],
  )
]

unfoldable pub take_out_set : InodeTable → ℕ → List ℕ → InodeTable × List ℕ
take_out_set t parent [] = (t, [])
take_out_set t parent (ino ∷ set) =
    let (t', out) = take_out t parent ino in
    let (t'', outs) = take_out_set t' parent set in (t'', out ++ outs)

unfoldable pub take_out_all : InodeTable → HashMap ℕ (List ℕ) → InodeTable × List ℕ
take_out_all t [] = (t, [])
take_out_all t ((parent, set) ∷ groups) =
    let (t', out) = take_out_set t parent set in
    let (t'', outs) = take_out_all t' groups in (t'', out ++ outs)

-- `children.retain(|c| !evicted_set.contains(&c.ino))`
unfoldable pub retain : List DirChild → List ℕ → List DirChild
retain [] set = []
retain (c ∷ cs) set = let rest = retain cs set in if contains set c.ino then rest else c ∷ rest

abbrev pub refreshed : List ℕ → InodeEntry → InodeEntry
refreshed set p = record p { children = retain p.children set; children_loaded_at = none }

-- The third loop. `shrink_children` only gives memory back.
unfoldable pub refresh_all : InodeTable → HashMap ℕ (List ℕ) → InodeTable
refresh_all t [] = t
refresh_all t ((parent, set) ∷ groups) = refresh_all (on_entry t parent (refreshed set)) groups

unfoldable pub evict_batch_if_safe : InodeTable → List ℕ → InodeTable × List ℕ
evict_batch_if_safe t inos =
    let groups = by_parent t inos [] in
    let (t', evicted) = take_out_all t groups in (refresh_all t' groups, evicted)

take_out-IsWellFormed :
    (t : InodeTable) (parent ino : ℕ) → IsWellFormed t → IsWellFormed (take_out t parent ino).0
unfolding take_out
take_out-IsWellFormed t parent ino v = elim (Option-cases (get t ino)) [
  | inl absent ↦ rw (absent, take_out) v
  | inr (e, there) ↦
      rw (there, take_out)
        (on_entry-IsWellFormed _ parent _ (λ p. (refl, refl))
          (dropped-IsWellFormed t ino e there v))
]

take_out_set-IsWellFormed :
    (t : InodeTable) (parent : ℕ) (set : List ℕ)
    → IsWellFormed t
    → IsWellFormed (take_out_set t parent set).0
unfolding take_out_set
take_out_set-IsWellFormed t parent [] v = v
take_out_set-IsWellFormed t parent (ino ∷ set) v =
    take_out_set-IsWellFormed (take_out t parent ino).0 parent set
      (take_out-IsWellFormed t parent ino v)

take_out_all-IsWellFormed :
    (t : InodeTable) (groups : HashMap ℕ (List ℕ))
    → IsWellFormed t
    → IsWellFormed (take_out_all t groups).0
unfolding take_out_all
take_out_all-IsWellFormed t [] v = v
take_out_all-IsWellFormed t ((parent, set) ∷ groups) v =
    take_out_all-IsWellFormed (take_out_set t parent set).0 groups
      (take_out_set-IsWellFormed t parent set v)

refresh_all-IsWellFormed :
    (t : InodeTable) (groups : HashMap ℕ (List ℕ))
    → IsWellFormed t
    → IsWellFormed (refresh_all t groups)
unfolding refresh_all
refresh_all-IsWellFormed t [] v = v
refresh_all-IsWellFormed t ((parent, set) ∷ groups) v =
    refresh_all-IsWellFormed (on_entry t parent (refreshed set)) groups
      (on_entry-IsWellFormed t parent (refreshed set) (λ p. (refl, refl)) v)

-- Eviction of a batch keeps the invariant of the table, whatever inodes it is asked for.
pub evict_batch_if_safe-IsWellFormed :
    (t : InodeTable) (inos : List ℕ) → IsWellFormed t → IsWellFormed (evict_batch_if_safe t inos).0
unfolding evict_batch_if_safe
evict_batch_if_safe-IsWellFormed t inos v =
    let groups = by_parent t inos [] in
    refresh_all-IsWellFormed (take_out_all t groups).0 groups (take_out_all-IsWellFormed t groups v)
