-- ===== src/Flush/Batch/Answered.antt =====
-- The answer of the Hub to a batch of src/virtual_fs/flush.rs: a commit marks its files clean, a
-- refusal reports every one of them.
use hf_mount.Base.{
  ℕ, ◌≡◌, refl, ◌∙◌, ap, Bool, true, false, not, ◌&&◌, ◌||◌, inl, inr, some, List, [], ◌∷◌, ◌++◌,
  arith, if◌then◌else◌, Text, codes, ◌==◌, nat_eq, Bool-cases,
}
use hf_mount.Base.HashMap
use hf_mount.Base.HashMap.{get-insert}
use hf_mount.Inode.Entry.{InodeEntry, is_empty}
use hf_mount.Inode.Entry.Commit.{IsCommitted}
use hf_mount.Inode.Table.{InodeTable, get}
use hf_mount.Flush.Batch.{
  FlushItem, Uploaded, Errors, Outside, is_unchanged, build_ops, batch_ops, apply_commits,
  fail_changed, commit_batch,
}
use hf_mount.Flush.Batch.Settled.{IsOnly, apply_commits-IsCommitted}

-- A changed pair sends something.
build_ops_sent :
    (mtime_ms : ℕ) (pairs : List (FlushItem × Uploaded)) (item : FlushItem) (info : Uploaded)
    → IsOnly item info pairs
    → is_unchanged (item, info) ≡ false
    → is_empty (build_ops mtime_ms pairs).0 ≡ false
unfolding build_ops
build_ops_sent mtime_ms [] item info only changed = absurd only
build_ops_sent mtime_ms ((i, u) ∷ pairs) item info (inl (here, absent)) changed =
    let same : is_unchanged (i, u) ≡ false = ap is_unchanged here ∙ changed in rw same refl
build_ops_sent mtime_ms ((i, u) ∷ pairs) item info (inr (other, only)) changed =
    elim (Bool-cases (is_unchanged (i, u))) [
      | inl skipped ↦ rw skipped (build_ops_sent mtime_ms pairs item info only changed)
      | inr kept ↦ rw kept refl
    ]

is_empty-append {ℓ} : {A : Type ℓ} (a b : List A) → is_empty a ≡ false → is_empty (a ++ b) ≡ false
is_empty-append [] b h = cc
is_empty-append (x ∷ a) b h = refl

batch_ops_sent :
    (mtime_ms : ℕ) (pairs : List (FlushItem × Uploaded)) (item : FlushItem) (info : Uploaded)
    → IsOnly item info pairs
    → is_unchanged (item, info) ≡ false
    → is_empty (batch_ops mtime_ms pairs) ≡ false
unfolding batch_ops
batch_ops_sent mtime_ms pairs item info only changed =
    is_empty-append (build_ops mtime_ms pairs).0 (build_ops mtime_ms pairs).1
      (build_ops_sent mtime_ms pairs item info only changed)

-- If the Hub accepts the batch, a changed file whose entry still has the generation of the snapshot
-- after the wait becomes clean, with the hash and the size of its upload and no old path left.
pub commit_batch-IsCommitted :
    (w : Outside) (pairs : List (FlushItem × Uploaded)) (t : InodeTable) (errors : Errors)
    (item : FlushItem) (info : Uploaded) (e : InodeEntry)
    → IsOnly item info pairs
    → is_unchanged (item, info) ≡ false
    → w.commit (batch_ops w.mtime_ms pairs) ≡ true
    → get (w.during_commit (apply_commits true w.now w.instant pairs t)) item.ino ≡ some e
    → e.dirty_generation ≡ item.dirty_generation
    → (e' : InodeEntry) × (get (commit_batch w pairs t errors).0 item.ino ≡ some e')
      × IsCommitted e' info.hash info.size
unfolding commit_batch
commit_batch-IsCommitted w pairs t errors item info e only changed accepted there same =
    rw (batch_ops_sent w.mtime_ms pairs item info only changed, accepted)
      (apply_commits-IsCommitted false w.now w.instant pairs
        (w.during_commit (apply_commits true w.now w.instant pairs t)) item info e only
        (rw changed refl) there same)

-- The inode is one of a changed file of the batch.
unfoldable pub has_changed : ℕ → List (FlushItem × Uploaded) → Bool
has_changed j [] = false
has_changed j (p ∷ pairs) = (not (is_unchanged p) && p.0.ino == j) || has_changed j pairs

get-fail_changed :
    (pairs : List (FlushItem × Uploaded)) (message : Text) (errors : Errors) (j : ℕ)
    → HashMap.get (fail_changed pairs message errors) j
      ≡ (if has_changed j pairs then some message else HashMap.get errors j)
unfolding fail_changed has_changed
get-fail_changed [] message errors j = refl
get-fail_changed ((item, info) ∷ pairs) message errors j =
    elim (Bool-cases (is_unchanged (item, info))) [
      | inl skipped ↦ rw (skipped, fail_changed) (get-fail_changed pairs message errors j)
      | inr kept ↦
          rw (kept, fail_changed)
            (get-fail_changed pairs message (HashMap.insert errors item.ino message) j
              ∙ ground (arith, get-insert errors item.ino message j))
    ]

-- If the Hub refuses the batch, the table is what the others left of it, every changed file has the
-- error, and the errors of all other inodes are as they were.
pub commit_batch_refused :
    (w : Outside) (pairs : List (FlushItem × Uploaded)) (t : InodeTable) (errors : Errors)
    (item : FlushItem) (info : Uploaded) (j : ℕ)
    → IsOnly item info pairs
    → is_unchanged (item, info) ≡ false
    → w.commit (batch_ops w.mtime_ms pairs) ≡ false
    → ((commit_batch w pairs t errors).0
        ≡ w.during_commit (apply_commits true w.now w.instant pairs t))
      × (HashMap.get (commit_batch w pairs t errors).1 j ≡ (
          if has_changed j pairs
          then some (codes "commit failed: " ++ w.commit_error)
          else HashMap.get errors j))
unfolding commit_batch
commit_batch_refused w pairs t errors item info j only changed refused =
    rw (batch_ops_sent w.mtime_ms pairs item info only changed, refused)
      (refl, get-fail_changed pairs (codes "commit failed: " ++ w.commit_error) errors j)
