-- ===== src/Flush/Batch.antt =====
-- `flush_batch` of src/virtual_fs/flush.rs. The inode table is read and written under its lock; what
-- other operations do to it while the upload and the commit wait is an argument, and so is what the
-- disk and the Hub answer. The collection of staging files at the end leaves the table alone.
pub mod Dedup
pub mod Order
pub mod Settled
pub mod Answered
use hf_mount.Base.{
  ℕ, zero, suc, ◌+◌, Bool, true, false, not, ◌&&◌, Option, none, some, List, [], ◌∷◌, ◌++◌, length,
  take, drop, cons_some, nat_beq, leb, if◌then◌else◌, Text, ◌==◌, nat_eq, text_eq, codes,
}
use mathlib.Core.List.{reverse}
use hf_mount.Base.HashMap
use hf_mount.Base.HashMap.{HashMap}
use hf_mount.Inode.Entry.{InodeEntry, SystemTime, Instant, is_empty, is_dirty, apply_commit}
use hf_mount.Inode.Table.{InodeTable, get, on_entry}

-- `BatchOp`, of the two kinds that a flush sends.
pub data BatchOp : Type 0 where
  add_file : Text → Text → ℕ → BatchOp
  delete_file : Text → BatchOp

pub record FlushItem : Type 0 where
  pub ino : ℕ
  pub full_path : Text
  pub pending_deletes : List Text
  pub dirty_generation : ℕ
  pub prev_xet_hash : Option Text

-- `XetFileInfo`, the answer to an upload.
pub record Uploaded : Type 0 where
  pub hash : Text
  pub size : ℕ

unfoldable pub contains : List ℕ → ℕ → Bool
contains [] i = false
contains (j ∷ set) i = let later = contains set i in if j == i then true else later

-- `filter(|ino| seen.insert(*ino))`
unfoldable pub first_seen : List ℕ → List ℕ → List ℕ
first_seen seen [] = []
first_seen seen (i ∷ inos) =
    let again = first_seen seen inos in
    let fresh = i ∷ first_seen (i ∷ seen) inos in if contains seen i then again else fresh

unfoldable pub deduped : List ℕ → List ℕ
deduped pending = reverse (first_seen [] (reverse pending))

-- The errors of the last flush by inode.
abbrev pub Errors : Type 0
Errors = HashMap ℕ Text

-- One inode of the snapshot; `staged` says whether its staging file exists.
unfoldable pub snapshot_one : InodeTable → (ℕ → Bool) → ℕ → Option FlushItem × Option Text
snapshot_one t staged ino = elim (get t ino) [
  | none ↦ (none, none)
  | some e ↦
      if nat_beq e.nlink 0
      then (none, none)
      else if not (is_dirty e)
      then (none, none)
      else if not (staged ino)
      then (none, some (codes "staging file missing for " ++ e.full_path))
      else (
        some (record {
          ino = ino;
          full_path = e.full_path;
          pending_deletes = e.pending_deletes;
          dirty_generation = e.dirty_generation;
          prev_xet_hash = e.xet_hash;
        }),
        none,
      )
]

abbrev pub note_error : Errors → ℕ → Option Text → Errors
note_error errors ino none = errors
note_error errors ino (some message) = HashMap.insert errors ino message

-- `to_flush`, and the errors that the snapshot leaves.
unfoldable pub snapshot : InodeTable → (ℕ → Bool) → List ℕ → Errors → List FlushItem × Errors
snapshot t staged [] errors = ([], errors)
snapshot t staged (ino ∷ inos) errors =
    let (item, message) = snapshot_one t staged ino in
    let (items, errors') = snapshot t staged inos (note_error errors ino message) in
    (cons_some item items, errors')

abbrev pub upload_chunk_size : ℕ
upload_chunk_size = 500

-- The loop over the chunks; `upload` answers a chunk, with one result for each file as the source
-- asserts. `none` is an upload that failed.
unfoldable pub upload_chunks :
    ℕ → (List FlushItem → Option (List Uploaded)) → List FlushItem → Option (List Uploaded)
upload_chunks fuel upload [] = some []
upload_chunks zero upload (item ∷ items) = none
upload_chunks (suc fuel) upload (item ∷ items) =
    elim (upload (take upload_chunk_size (item ∷ items))) [
      | none ↦ none
      | some results ↦ elim (upload_chunks fuel upload (drop upload_chunk_size (item ∷ items))) [
        | none ↦ none
        | some more ↦ some (results ++ more)
      ]
    ]

-- `to_flush.iter().zip(upload_results.iter())`
unfoldable pub zip : List FlushItem → List Uploaded → List (FlushItem × Uploaded)
zip [] results = []
zip (item ∷ items) [] = []
zip (item ∷ items) (info ∷ results) = (item, info) ∷ zip items results

abbrev pub same_hash : Option Text → Text → Bool
same_hash none hash = false
same_hash (some previous) hash = previous == hash

unfoldable pub is_unchanged : FlushItem × Uploaded → Bool
is_unchanged (item, info) = is_empty item.pending_deletes && same_hash item.prev_xet_hash info.hash

abbrev pub delete_ops_of : List Text → List BatchOp
delete_ops_of [] = []
delete_ops_of (path ∷ paths) = delete_file path ∷ delete_ops_of paths

-- The loop that fills `ops` and `delete_ops`.
unfoldable pub build_ops : ℕ → List (FlushItem × Uploaded) → List BatchOp × List BatchOp
build_ops mtime_ms [] = ([], [])
build_ops mtime_ms ((item, info) ∷ rest) =
    let (ops, delete_ops) = build_ops mtime_ms rest in
    if is_unchanged (item, info) then (ops, delete_ops) else (
      add_file item.full_path info.hash mtime_ms ∷ ops,
      delete_ops_of item.pending_deletes ++ delete_ops,
    )

-- `ops.append(&mut delete_ops)`
unfoldable pub batch_ops : ℕ → List (FlushItem × Uploaded) → List BatchOp
batch_ops mtime_ms pairs = (build_ops mtime_ms pairs).0 ++ (build_ops mtime_ms pairs).1

-- The two loops over `apply_commit`: for the unchanged files, and for the others.
unfoldable pub apply_commits :
    Bool → SystemTime → Instant → List (FlushItem × Uploaded) → InodeTable → InodeTable
apply_commits which now instant [] t = t
apply_commits which now instant ((item, info) ∷ rest) t = apply_commits which now instant rest (
    if (if which then is_unchanged (item, info) else not (is_unchanged (item, info)))
    then on_entry t item.ino
        (λ e. apply_commit e info.hash info.size item.dirty_generation now instant)
    else t)

unfoldable pub fail_all : List FlushItem → Text → Errors → Errors
fail_all [] message errors = errors
fail_all (item ∷ items) message errors =
    fail_all items message (HashMap.insert errors item.ino message)

unfoldable pub fail_changed : List (FlushItem × Uploaded) → Text → Errors → Errors
fail_changed [] message errors = errors
fail_changed ((item, info) ∷ rest) message errors =
    fail_changed rest message
      (if is_unchanged (item, info) then errors else HashMap.insert errors item.ino message)

-- What happens outside of the flush: the staging files, the uploads, the clock, the answer of the
-- Hub to a batch, the error texts, and what other operations do to the table in the meantime.
pub record Outside : Type 0 where
  pub staged : ℕ → Bool
  pub upload : List FlushItem → Option (List Uploaded)
  pub commit : List BatchOp → Bool
  pub mtime_ms : ℕ
  pub now : SystemTime
  pub instant : Instant
  pub upload_error : Text
  pub commit_error : Text
  pub during_upload : InodeTable → InodeTable
  pub during_commit : InodeTable → InodeTable

-- After the uploads.
unfoldable pub commit_batch :
    Outside → List (FlushItem × Uploaded) → InodeTable → Errors → InodeTable × Errors
commit_batch w pairs t errors =
    let ops = batch_ops w.mtime_ms pairs in
    let t1 = apply_commits true w.now w.instant pairs t in
    let t2 = w.during_commit t1 in
    if is_empty ops
    then (t1, errors)
    else if w.commit ops
    then (apply_commits false w.now w.instant pairs t2, errors)
    else (t2, fail_changed pairs (codes "commit failed: " ++ w.commit_error) errors)

unfoldable pub flush_batch : Outside → List ℕ → InodeTable → Errors → InodeTable × Errors
flush_batch w pending t errors =
    let (to_flush, errors') = snapshot t w.staged (deduped pending) errors in
    let t1 = w.during_upload t in
    if is_empty to_flush
    then (t, errors')
    else elim (upload_chunks (length to_flush) w.upload to_flush) [
      | none ↦ (t1, fail_all to_flush (codes "upload failed: " ++ w.upload_error) errors')
      | some results ↦
          if is_empty results
          then (t1, errors')
          else commit_batch w (zip to_flush results) t1 errors'
    ]
