-- ===== src/Staging.antt =====
-- The collection of staging files: `gc` and `gc_one` of src/virtual_fs/staging.rs on the `StagingDir`
-- of src/xet.rs. Which removals the operating system refuses, and what other operations do to the
-- inode table while the lock of an inode is waited for, are arguments.
pub mod Collected
pub mod Budget
use hf_mount.Base.{
  ℕ, zero, suc, ◌+◌, ◌-◌, Bool, true, false, not, ◌&&◌, Option, none, some, List, [], ◌∷◌, ltb,
  nat_beq, if◌then◌else◌, saturating_add64, nat_eq,
}
use hf_mount.Base.HashMap
use hf_mount.Base.HashMap.{HashMap}
use hf_mount.Inode.Entry.{InodeEntry, is_dirty}
use hf_mount.Inode.Table.{InodeTable, get, is_some_and}
use hf_mount.Inode.Evict.{staging_gc_candidates}

-- The sizes of the files that are there, and the counters.
pub record StagingDir : Type 0 where
  pub files : HashMap ℕ ℕ
  pub bytes_used : ℕ
  pub max_bytes : ℕ

unfoldable pub is_over_limit : StagingDir → Bool
is_over_limit dir = ltb 0 dir.max_bytes && ltb dir.max_bytes dir.bytes_used

unfoldable pub file_size : StagingDir → ℕ → ℕ
file_size dir ino = elim (HashMap.get dir.files ino) [ none ↦ 0 | some size ↦ size ]

unfoldable pub resize_bytes : StagingDir → ℕ → ℕ → StagingDir
resize_bytes dir old size = record dir { bytes_used = saturating_add64 (dir.bytes_used - old) size }

-- What happens outside of the collection: `others` is what is done to the table while the lock of the
-- inode is waited for.
pub record Outside : Type 0 where
  pub removes : ℕ → Bool
  pub others : ℕ → InodeTable → InodeTable

unfoldable pub try_remove : Outside → StagingDir → ℕ → StagingDir × Bool
try_remove w dir ino = elim (HashMap.get dir.files ino) [
  | none ↦ (dir, false)
  | some size ↦
      let without = record dir { files = HashMap.remove dir.files ino } in
      if w.removes ino then (resize_bytes without size 0, true) else (dir, false)
]

abbrev pub is_clean : InodeTable → ℕ → Bool
is_clean t ino = is_some_and (get t ino) (λ e. not (is_dirty e))

unfoldable pub gc_one : Outside → StagingDir → InodeTable → ℕ → StagingDir × InodeTable × Bool
gc_one w dir t ino =
    let later = w.others ino t in
    let (left, removed) = try_remove w dir ino in
    if not (is_over_limit dir)
    then (dir, t, false)
    else if is_clean later ino
    then (left, later, removed)
    else (dir, later, false)

-- The loop of `gc` over the candidates, with its count.
unfoldable pub gc_loop : Outside → List ℕ → StagingDir → InodeTable → StagingDir × InodeTable × ℕ
gc_loop w [] dir t = (dir, t, 0)
gc_loop w (ino ∷ inos) dir t =
    let (dir', t', removed) = gc_one w dir t ino in
    let skipped = gc_loop w inos dir t in
    let (left, later, count) = gc_loop w inos dir' t' in
    if not (is_over_limit dir)
    then (dir, t, 0)
    else if nat_beq (file_size dir ino) 0
    then skipped
    else (left, later, if removed then count + 1 else count)

unfoldable pub gc : Outside → StagingDir → InodeTable → StagingDir × InodeTable × ℕ
gc w dir t =
    if not (is_over_limit dir) then (dir, t, 0) else gc_loop w (staging_gc_candidates t) dir t
