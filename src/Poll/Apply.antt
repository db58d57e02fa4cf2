-- ===== src/Poll/Apply.antt =====
-- `apply_follow_changes` of src/virtual_fs/poll.rs and the helpers that it shares with the poll
-- round. The kernel's invalidations are the list of calls of the invalidator; a set of inodes is the
-- list of its members, the last one first. `mtime_from_str` is an argument.
pub mod Kept
pub mod Guarded
pub mod Loop
pub mod Cleared
use hf_mount.Base.{
  ℕ, zero, suc, Bool, true, false, not, Option, none, some, List, [], ◌∷◌, ◌++◌, map, length,
  if◌then◌else◌, Text, nat_eq, text_eq, ◌==◌,
}
use mathlib.Core.Option
use hf_mount.Base.HashMap
use hf_mount.Base.HashMap.{HashMap}
use hf_mount.Inode.Entry.{InodeEntry, SystemTime, Instant, is_empty, is_file, is_dirty}
use hf_mount.Inode.Table.{
  InodeTable, get, get_by_path, has_open_handles, is_children_loaded, invalidate_children,
}
use hf_mount.Inode.Batch.{contains}
use hf_mount.Inode.Remote.{merge_remote_file}
use hf_mount.Inode.Tree.{unlink_one, remove, has_slash, parent_path, nearest_dir_ancestor}
use hf_mount.Follow.Stream.{FollowOp, delete, FollowChange}

pub data InvalKind : Type 0 where
  pages attr_only : InvalKind

abbrev pub Inval : Type 0
Inval = ℕ × InvalKind

unfoldable pub queue_file_invalidation : InodeTable → ℕ → List Inval → List Inval
queue_file_invalidation t ino invals =
    invals ++ (ino, if has_open_handles t ino then attr_only else pages) ∷ []

-- `now` is the clock that `unlink_one` reads.
unfoldable pub remove_remote_file :
    InodeTable → SystemTime → ℕ → List Inval → InodeTable × List Inval × Bool
remove_remote_file t now ino invals = elim (get t ino) [
  | none ↦ (t, invals, false)
  | some e ↦
      let queued = queue_file_invalidation t ino (invals ++ (e.parent, pages) ∷ []) in
      if is_dirty e
      then (t, invals, false)
      else if has_open_handles t ino
      then ((unlink_one t e.parent e.name now).0, queued, true)
      else ((remove t ino).0, queued, true)
]

-- What a batch has done to the table, and what it will invalidate.
pub record Applied : Type 0 where
  pub table : InodeTable
  pub invals : List Inval
  pub dirs : List ℕ

unfoldable pub insert_dir : List ℕ → ℕ → List ℕ
insert_dir dirs dir = if contains dirs dir then dirs else dir ∷ dirs

-- The inode of a file that the table has under the path, and whether it is dirty.
unfoldable pub materialized : InodeTable → Text → Option (ℕ × Bool)
materialized t path = elim (get_by_path t path) [
  | none ↦ none
  | some e ↦ if is_file e.kind then some (e.inode, is_dirty e) else none
]

abbrev pub or_else {ℓ} : {A : Type ℓ} → Option A → Option A → Option A
or_else none b = b
or_else (some a) b = some a

abbrev pub is_delete : FollowOp → Bool
is_delete delete = true
is_delete _ = false

-- An `Add` or `Update` of a file that is there and clean.
unfoldable pub apply_update : (Text → SystemTime) → FollowChange → Applied → ℕ → Applied
apply_update mtime_from_str change s ino =
    let mtime = Option.map mtime_from_str (or_else change.mtime change.uploaded_at) in
    let (t, merged) = merge_remote_file s.table ino change.xet_hash change.size mtime in
    if merged
    then record s { table = t; invals = queue_file_invalidation t ino s.invals }
    else record s { table = t }

unfoldable pub apply_delete : SystemTime → Applied → ℕ → Applied
apply_delete now s ino =
    let (t, invals, done) = remove_remote_file s.table now ino s.invals in
    record s { table = t; invals = invals }

unfoldable pub apply_missing : FollowChange → Applied → Applied
apply_missing change s =
    let dir = (nearest_dir_ancestor s.table change.path).0 in
    if is_children_loaded s.table dir then record s { dirs = insert_dir s.dirs dir } else s

-- The body of the loop over the changes.
unfoldable pub apply_change : (Text → SystemTime) → SystemTime → FollowChange → Applied → Applied
apply_change mtime_from_str now change s = elim (materialized s.table change.path) [
  | none ↦ apply_missing change s
  | some (ino, dirty) ↦
      if dirty
      then s
      else if is_delete change.op
      then apply_delete now s ino
      else apply_update mtime_from_str change s ino
]

unfoldable pub apply_changes :
    (Text → SystemTime) → SystemTime → List FollowChange → Applied → Applied
apply_changes mtime_from_str now [] s = s
apply_changes mtime_from_str now (change ∷ changes) s =
    apply_changes mtime_from_str now changes (apply_change mtime_from_str now change s)

unfoldable pub invalidate_all : InodeTable → List ℕ → InodeTable
invalidate_all t [] = t
invalidate_all t (dir ∷ dirs) = invalidate_all (invalidate_children t dir) dirs

abbrev pub NegativeCache : Type 0
NegativeCache = HashMap Text Instant

-- The loop over a path and its ancestors; the parent of a path is shorter.
unfoldable pub clear_path : ℕ → NegativeCache → Text → NegativeCache
clear_path zero nc path = nc
clear_path (suc fuel) nc path =
    let left = HashMap.remove nc path in
    let above = clear_path fuel left (parent_path path) in if has_slash path then above else left

unfoldable pub clear_negative : NegativeCache → List FollowChange → NegativeCache
clear_negative nc [] = nc
clear_negative nc (change ∷ changes) =
    if is_delete change.op
    then clear_negative nc changes
    else if is_empty nc
    then nc
    else clear_negative (clear_path (suc (length change.path)) nc change.path) changes

-- The table, the negative cache and the calls of the invalidator.
unfoldable pub apply_follow_changes :
    (Text → SystemTime)
    → SystemTime
    → List FollowChange
    → InodeTable
    → NegativeCache
    → InodeTable × NegativeCache × List Inval
apply_follow_changes mtime_from_str now changes t nc =
    let s =
      apply_changes mtime_from_str now changes (record { table = t; invals = []; dirs = [] }) in
    (
      invalidate_all s.table s.dirs,
      clear_negative nc changes,
      s.invals ++ map (λ dir. (dir, pages)) s.dirs,
    )
