-- ===== src/Poll/Diff.antt =====
-- `apply_poll_diff` of src/virtual_fs/poll.rs. The table is read for the snapshot and written later,
-- each under its lock; `u` is the table at the second time. `now` is the clock, and the remote paths
-- are walked in the order of the listing.
pub mod Bare
pub mod Guarded
use hf_mount.Base.{
  ℕ, zero, suc, Bool, true, false, not, ◌&&◌, ◌||◌, Option, none, some, List, [], ◌∷◌, ◌++◌, map,
  length, if◌then◌else◌, Text, codes, nat_eq, text_eq, ◌==◌, nat_beq,
}
use mathlib.Core.Option
use hf_mount.Base.HashMap
use hf_mount.Base.HashMap.{HashMap}
use hf_mount.Inode.Entry.{InodeEntry, SystemTime, Instant, is_empty, slash}
use hf_mount.Inode.Table.{InodeTable, get, get_by_path, is_children_loaded}
use hf_mount.Inode.Batch.{contains}
use hf_mount.Inode.Remote.{update_remote_file, file_snapshot}
use hf_mount.Inode.Tree.{parent_path, nearest_dir_ancestor}
use hf_mount.Flush.Deletes.{starts_with}
use hf_mount.Poll.Apply.{
  InvalKind, pages, Inval, NegativeCache, queue_file_invalidation, remove_remote_file,
  invalidate_all,
}

pub record TreeEntry : Type 0 where
  pub path : Text
  pub entry_type : Text
  pub size : Option ℕ
  pub xet_hash : Option Text
  pub oid : Option Text
  pub mtime : Option Text

-- The files of the listing by their paths; the last one of a path counts.
unfoldable pub remote_map : List TreeEntry → HashMap Text TreeEntry → HashMap Text TreeEntry
remote_map [] m = m
remote_map (r ∷ entries) m =
    remote_map entries (if r.entry_type == codes "file" then HashMap.insert m r.path r else m)

pub record Update : Type 0 where
  pub ino : ℕ
  pub hash : Option Text
  pub etag : Option Text
  pub size : ℕ
  pub mtime : SystemTime

-- What the comparison of one file of the snapshot gives.
pub data Change : Type 0 where
  unchanged : Change
  update : Update → Change
  deletion : ℕ → Change

abbrev pub is_some {ℓ} : {A : Type ℓ} → Option A → Bool
is_some none = false
is_some (some a) = true

abbrev pub same_text : Option Text → Option Text → Bool
same_text none none = true
same_text (some a) (some b) = a == b
same_text _ _ = false

abbrev pub or_zero : Option ℕ → ℕ
or_zero none = 0
or_zero (some n) = n

abbrev pub time_or : SystemTime → Option SystemTime → SystemTime
time_or now none = now
time_or now (some t) = t

abbrev pub has_text : List Text → Text → Bool
has_text [] p = false
has_text (q ∷ set) p = q == p || has_text set p

-- By the content hash where there is one on either side, else by the blob's id; and by the size.
unfoldable pub is_changed : Option Text → Option Text → ℕ → TreeEntry → Bool
is_changed local_hash local_etag local_size remote =
    let changed =
      if is_some local_hash || is_some remote.xet_hash
      then not (same_text remote.xet_hash local_hash)
      else not (same_text remote.oid local_etag) in
    changed || not (nat_beq (or_zero remote.size) local_size)

-- A file of the snapshot that is not dirty and stands in the listing.
unfoldable pub compare_remote :
    (Text → SystemTime) → SystemTime → ℕ → Option Text → Option Text → ℕ → TreeEntry → Change
compare_remote mtime_from_str now ino local_hash local_etag local_size remote =
    if is_changed local_hash local_etag local_size remote
    then update (record {
      ino = ino;
      hash = remote.xet_hash;
      etag = remote.oid;
      size = or_zero remote.size;
      mtime = time_or now (Option.map mtime_from_str remote.mtime);
    })
    else unchanged

unfoldable pub compare_one :
    (Text → SystemTime)
    → SystemTime
    → HashMap Text TreeEntry
    → List Text
    → ℕ × Text × Option Text × Option Text × ℕ × Bool
    → Change
compare_one mtime_from_str now remote polled (ino, path, hash, etag, size, dirty) =
    if dirty then unchanged else elim (HashMap.get remote path) [
      | some r ↦ compare_remote mtime_from_str now ino hash etag size r
      | none ↦ if has_text polled (parent_path path) then deletion ino else unchanged
    ]

abbrev pub put_change : Change → List Update × List ℕ → List Update × List ℕ
put_change unchanged r = r
put_change (update u) (updates, deletions) = (u ∷ updates, deletions)
put_change (deletion ino) (updates, deletions) = (updates, ino ∷ deletions)

-- Phase 1: the updates and the deletions.
unfoldable pub diff :
    (Text → SystemTime)
    → SystemTime
    → HashMap Text TreeEntry
    → List Text
    → List (ℕ × Text × Option Text × Option Text × ℕ × Bool)
    → List Update × List ℕ
diff mtime_from_str now remote polled [] = ([], [])
diff mtime_from_str now remote polled (row ∷ rows) =
    put_change (compare_one mtime_from_str now remote polled row)
      (diff mtime_from_str now remote polled rows)

-- Phase 2.
unfoldable pub apply_updates : List Update → InodeTable × List Inval → InodeTable × List Inval
apply_updates [] s = s
apply_updates (x ∷ updates) (t, invals) =
    let t' = (update_remote_file t x.ino x.hash x.etag x.size x.mtime).0 in
    apply_updates updates (t', queue_file_invalidation t' x.ino invals)

unfoldable pub apply_deletions :
    SystemTime → List ℕ → InodeTable × List Inval → InodeTable × List Inval
apply_deletions now [] s = s
apply_deletions now (ino ∷ inos) (t, invals) =
    let (t', invals', done) = remove_remote_file t now ino invals in
    apply_deletions now inos (t', invals')

-- Phase 3: the loaded directories that miss a remote path, and their paths.
unfoldable pub missing_dirs : InodeTable → List TreeEntry → List ℕ × List Text → List ℕ × List Text
missing_dirs t [] found = found
missing_dirs t (r ∷ entries) (dirs, paths) =
    let (dir, dir_path) = nearest_dir_ancestor t r.path in
    missing_dirs t entries (
      if not (is_some (get_by_path t r.path))
        && (is_children_loaded t dir && not (contains dirs dir))
      then (dir ∷ dirs, paths ++ dir_path ∷ [])
      else (dirs, paths))

-- `nc.retain(..)` for one directory.
unfoldable pub retain_outside : Text → NegativeCache → NegativeCache
retain_outside dir_path [] = []
retain_outside dir_path ((k, at) ∷ nc) =
    let rest = retain_outside dir_path nc in
    if is_empty dir_path || (starts_with k (dir_path ++ slash ∷ []) || k == dir_path)
    then rest
    else (k, at) ∷ rest

unfoldable pub retain_all : List Text → NegativeCache → NegativeCache
retain_all [] nc = nc
retain_all (dir_path ∷ paths) nc = retain_all paths (retain_outside dir_path nc)

-- Phases 2 to 4, on the table at the time of the write lock.
unfoldable pub apply_diff :
    SystemTime
    → List TreeEntry
    → List Update × List ℕ
    → InodeTable
    → NegativeCache
    → InodeTable × NegativeCache × List Inval
apply_diff now entries (updates, deletions) u nc =
    let (t, invals) = apply_deletions now deletions (apply_updates updates (u, [])) in
    let (dirs, paths) = missing_dirs t entries ([], []) in
    (invalidate_all t dirs, retain_all paths nc, invals ++ map (λ dir. (dir, pages)) dirs)

unfoldable pub apply_poll_diff :
    (Text → SystemTime)
    → SystemTime
    → List TreeEntry
    → List Text
    → InodeTable
    → InodeTable
    → NegativeCache
    → InodeTable × NegativeCache × List Inval
apply_poll_diff mtime_from_str now entries polled t u nc =
    apply_diff now entries
      (diff mtime_from_str now (remote_map entries []) polled (file_snapshot t)) u nc
