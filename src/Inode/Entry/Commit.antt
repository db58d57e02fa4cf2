-- ===== src/Inode/Entry/Commit.antt =====
-- The dirty generation of an inode: a commit clears it only if nothing was written since.
use hf_mount.Base.{
  ℕ, zero, suc, ◌+◌, ◌<◌, ◌≡◌, refl, ◌∙◌, true, false, some, [], arith, Text, u64_mod,
  saturating_add64, saturating_add64_exact,
}
use hf_mount.Inode.Entry.{InodeEntry, SystemTime, Instant, is_dirty, set_dirty, apply_commit}

-- `n` writes after the generation was read.
unfoldable pub writes : ℕ → InodeEntry → InodeEntry
writes zero e = e
writes (suc n) e = writes n (set_dirty e)

writes_generation :
    (n : ℕ) (e : InodeEntry)
    → e.dirty_generation + n < u64_mod
    → (writes n e).dirty_generation ≡ e.dirty_generation + n
unfolding writes set_dirty
writes_generation zero e h = omega arith
writes_generation (suc n) e h =
    let next : saturating_add64 e.dirty_generation 1 ≡ e.dirty_generation + 1 =
      saturating_add64_exact e.dirty_generation 1 ∙ omega arith in
    omega (arith, writes_generation n (set_dirty e) (omega arith))

-- A write leaves everything but the generation as it was.
writes_content :
    (n : ℕ) (e : InodeEntry)
    → writes n e ≡ record e { dirty_generation = (writes n e).dirty_generation }
unfolding writes set_dirty
writes_content zero e = refl
writes_content (suc n) e = writes_content n (set_dirty e)

-- The entry shows the commit: clean, with the new hash and size and nothing left to delete.
pub record IsCommitted (e : InodeEntry) (hash : Text) (size : ℕ) : Type 0 where
  pub clean : is_dirty e ≡ false
  pub hash_set : e.xet_hash ≡ some hash
  pub size_set : e.size ≡ size
  pub current : e.staging_is_current ≡ true
  pub nothing_pending : e.pending_deletes ≡ []

-- The entry shows nothing of the commit: dirty as before, its content fields untouched.
pub record IsUntouched (e e' : InodeEntry) (generation : ℕ) : Type 0 where
  pub dirty : is_dirty e' ≡ true
  pub same_generation : e'.dirty_generation ≡ generation
  pub same_hash : e'.xet_hash ≡ e.xet_hash
  pub same_size : e'.size ≡ e.size
  pub same_staging : e'.staging_is_current ≡ e.staging_is_current
  pub same_pending : e'.pending_deletes ≡ e.pending_deletes

-- A commit with no write since its generation was read makes the entry clean, with the new hash
-- and size, a current staging copy and no pending deletes.
pub apply_commit-current :
    (e : InodeEntry) (hash : Text) (size : ℕ) (now : SystemTime) (instant : Instant)
    → IsCommitted (apply_commit e hash size e.dirty_generation now instant) hash size
unfolding apply_commit
apply_commit-current e hash size now instant = ground arith

-- A commit of the content that was there when the generation was read, with one or more writes
-- since: the entry stays dirty at the generation of the last write, and its hash, size, staging
-- flag and pending deletes stay. The generation must not reach the end of `u64`, where it
-- saturates.
pub apply_commit-writes :
    (n : ℕ) (e : InodeEntry) (hash : Text) (size : ℕ) (now : SystemTime) (instant : Instant)
    → e.dirty_generation + n < u64_mod
    → 0 < n
    → IsUntouched e
        (apply_commit (writes n e) hash size e.dirty_generation now instant)
        (e.dirty_generation + n)
apply_commit-writes n e hash size now instant h positive =
    rw (writes_content n e, writes_generation n e h) (unfold apply_commit in ground arith)
