-- ===== src/Flush/Batch/Settled.antt =====
-- What `flush_batch` of src/virtual_fs/flush.rs does to the inode table: a file is marked clean
-- only for the content that was uploaded.
use mathlib.Core.Path.{subst}
use hf_mount.Base.{
  ℕ, ◌≡◌, ◌≢◌, refl, ◌∙◌, ap, Bool, true, false, not, inl, inr, ◌⊎◌, some, List, [], ◌∷◌, arith,
  if◌then◌else◌, Text, ◌==◌, nat_eq, nat_beq_iff, Bool-cases,
}
use hf_mount.Inode.Entry.{InodeEntry, SystemTime, Instant, is_empty, is_dirty, apply_commit}
use hf_mount.Inode.Entry.Commit.{IsCommitted, apply_commit-current}
use hf_mount.Inode.Table.{InodeTable, get, on_entry}
use hf_mount.Inode.Table.WellFormed.{get-on_entry}
use hf_mount.Flush.Batch.{
  FlushItem, Uploaded, Errors, Outside, is_unchanged, batch_ops, apply_commits, commit_batch,
}

-- No pair of the batch carries the content of the inode at the generation.
abbrev pub IsNewer : ℕ → ℕ → List (FlushItem × Uploaded) → Type 0
IsNewer j generation [] = Unit
IsNewer j generation ((item, info) ∷ pairs) =
    ((item.ino ≡ j) → item.dirty_generation ≢ generation) × IsNewer j generation pairs

-- The local content of an entry, which a commit of older content must not touch.
pub record KeepsLocal (e e' : InodeEntry) : Type 0 where
  pub generation : e'.dirty_generation ≡ e.dirty_generation
  pub hash : e'.xet_hash ≡ e.xet_hash
  pub size : e'.size ≡ e.size
  pub staging : e'.staging_is_current ≡ e.staging_is_current
  pub pending : e'.pending_deletes ≡ e.pending_deletes

pub KeepsLocal-refl : (e : InodeEntry) → KeepsLocal e e
KeepsLocal-refl e = record {
  generation = refl;
  hash = refl;
  size = refl;
  staging = refl;
  pending = refl;
}

pub KeepsLocal-trans : (a b c : InodeEntry) → KeepsLocal a b → KeepsLocal b c → KeepsLocal a c
KeepsLocal-trans a b c p q = record {
  generation = q.generation ∙ p.generation;
  hash = q.hash ∙ p.hash;
  size = q.size ∙ p.size;
  staging = q.staging ∙ p.staging;
  pending = q.pending ∙ p.pending;
}

apply_commit-KeepsLocal :
    (e : InodeEntry) (hash : Text) (size generation : ℕ) (now : SystemTime) (instant : Instant)
    → generation ≢ e.dirty_generation
    → KeepsLocal e (apply_commit e hash size generation now instant)
unfolding apply_commit
apply_commit-KeepsLocal e hash size generation now instant newer = record {
  generation = ground arith;
  hash = ground arith;
  size = ground arith;
  staging = ground arith;
  pending = ground arith;
}

-- What one inode becomes when the function is applied at another or the same inode.
on_entry-found :
    (t : InodeTable) (ino j : ℕ) (f : InodeEntry → InodeEntry) (e : InodeEntry)
    → get t j ≡ some e
    → get (on_entry t ino f) j ≡ some (if ino == j then f e else e)
on_entry-found t ino j f e there = elim (Bool-cases (ino == j)) [
  | inr other ↦ get-on_entry t ino f j ∙ rw other there
  | inl same ↦ get-on_entry t ino f j ∙ rw (same, (nat_beq_iff ino j).0 same, there) refl
]

-- Whether a pair is written by one of the two passes.
abbrev picked : Bool → FlushItem × Uploaded → Bool
picked which p = if which then is_unchanged p else not (is_unchanged p)

pub apply_commits-KeepsLocal :
    (which : Bool) (now : SystemTime) (instant : Instant) (pairs : List (FlushItem × Uploaded))
    (t : InodeTable) (j : ℕ) (e : InodeEntry)
    → get t j ≡ some e
    → IsNewer j e.dirty_generation pairs
    → (e' : InodeEntry) × (get (apply_commits which now instant pairs t) j ≡ some e')
      × KeepsLocal e e'
unfolding apply_commits
apply_commits-KeepsLocal which now instant [] t j e there newer = (e, there, KeepsLocal-refl e)
apply_commits-KeepsLocal which now instant ((item, info) ∷ pairs) t j e there newer =
    elim (Bool-cases (picked which (item, info))) [
      | inr skipped ↦
          rw (skipped, apply_commits)
            (apply_commits-KeepsLocal which now instant pairs t j e there newer.1)
      | inl written ↦
          let f : InodeEntry → InodeEntry =
            λ x. apply_commit x info.hash info.size item.dirty_generation now instant in
          elim (Bool-cases (item.ino == j)) [
            | inr other ↦
                rw (written, apply_commits)
                  (apply_commits-KeepsLocal which now instant pairs (on_entry t item.ino f) j e
                    (on_entry-found t item.ino j f e there ∙ rw other refl) newer.1)
            | inl same ↦
                let old = newer.0 ((nat_beq_iff item.ino j).0 same) in
                let kept =
                  apply_commit-KeepsLocal e info.hash info.size item.dirty_generation now instant
                    old in
                let (e', found, kept') =
                  apply_commits-KeepsLocal which now instant pairs (on_entry t item.ino f) j (f e)
                    (on_entry-found t item.ino j f e there ∙ rw same refl)
                    (rw kept.generation newer.1) in
                rw (written, apply_commits) (e', found, KeepsLocal-trans e (f e) e' kept kept')
          ]
    ]

-- Dirty, with content that the batch does not carry.
pub record IsWritten (j : ℕ) (pairs : List (FlushItem × Uploaded)) (e : InodeEntry) : Type 0 where
  pub dirty : is_dirty e ≡ true
  pub newer : IsNewer j e.dirty_generation pairs

apply_commits-IsWritten :
    (which : Bool) (now : SystemTime) (instant : Instant) (pairs : List (FlushItem × Uploaded))
    (t : InodeTable) (j : ℕ) (e : InodeEntry)
    → get t j ≡ some e
    → IsWritten j pairs e
    → (e' : InodeEntry) × (get (apply_commits which now instant pairs t) j ≡ some e')
      × IsWritten j pairs e'
apply_commits-IsWritten which now instant pairs t j e there w =
    let (e', found, kept) = apply_commits-KeepsLocal which now instant pairs t j e there w.newer in
    (e', found, record { dirty = rw kept.generation w.dirty; newer = rw kept.generation w.newer })

-- A file that was written since the snapshot, and that others keep so while the commit waits, is
-- still dirty after the batch, whether the Hub accepts it or not: no local write is lost.
pub commit_batch-IsWritten :
    (w : Outside) (pairs : List (FlushItem × Uploaded)) (t : InodeTable) (errors : Errors) (j : ℕ)
    (e : InodeEntry)
    → get t j ≡ some e
    → IsWritten j pairs e
    → ((u : InodeTable) (x : InodeEntry)
        → get u j ≡ some x
        → IsWritten j pairs x
        → (y : InodeEntry) × (get (w.during_commit u) j ≡ some y) × IsWritten j pairs y)
    → (e' : InodeEntry) × (get (commit_batch w pairs t errors).0 j ≡ some e') × IsWritten j pairs e'
unfolding commit_batch
commit_batch-IsWritten w pairs t errors j e there written others =
    let t1 = apply_commits true w.now w.instant pairs t in
    let (e1, there1, written1) =
      apply_commits-IsWritten true w.now w.instant pairs t j e there written in
    let (e2, there2, written2) = others t1 e1 there1 written1 in
    elim (Bool-cases (is_empty (batch_ops w.mtime_ms pairs))) [
      | inl nothing ↦ rw nothing (e1, there1, written1)
      | inr sent ↦ elim (Bool-cases (w.commit (batch_ops w.mtime_ms pairs))) [
        | inr refused ↦ rw (sent, refused) (e2, there2, written2)
        | inl accepted ↦
            rw (sent, accepted)
              (apply_commits-IsWritten false w.now w.instant pairs (w.during_commit t1) j e2 there2
                written2)
      ]
    ]

-- No pair has the inode.
abbrev pub IsAbsent : ℕ → List (FlushItem × Uploaded) → Type 0
IsAbsent j [] = Unit
IsAbsent j (p ∷ pairs) = (p.0.ino ≢ j) × IsAbsent j pairs

-- The pair stands in the list, and no other pair has its inode.
abbrev pub IsOnly : FlushItem → Uploaded → List (FlushItem × Uploaded) → Type 0
IsOnly item info [] = ⊥
IsOnly item info (p ∷ pairs) =
    ((p ≡ (item, info)) × IsAbsent item.ino pairs) ⊎ ((p.0.ino ≢ item.ino) × IsOnly item info pairs)

not_same : (i j : ℕ) → i ≢ j → (i == j) ≡ false
not_same i j h = ground arith

-- The table after the pass has made up its mind about one pair.
abbrev passed : Bool → SystemTime → Instant → FlushItem × Uploaded → InodeTable → InodeTable
passed which now instant (item, info) t =
    if picked which (item, info)
    then on_entry t item.ino
        (λ e. apply_commit e info.hash info.size item.dirty_generation now instant)
    else t

passed_other :
    (which : Bool) (now : SystemTime) (instant : Instant) (p : FlushItem × Uploaded)
    (t : InodeTable) (j : ℕ)
    → p.0.ino ≢ j
    → get (passed which now instant p t) j ≡ get t j
passed_other which now instant (item, info) t j other =
    elim (Bool-cases (picked which (item, info))) [
      | inr skipped ↦ rw skipped refl
      | inl written ↦ rw written (get-on_entry t item.ino _ j ∙ rw (not_same item.ino j other) refl)
    ]

apply_commits-absent :
    (which : Bool) (now : SystemTime) (instant : Instant) (pairs : List (FlushItem × Uploaded))
    (t : InodeTable) (j : ℕ)
    → IsAbsent j pairs
    → get (apply_commits which now instant pairs t) j ≡ get t j
unfolding apply_commits
apply_commits-absent which now instant [] t j absent = refl
apply_commits-absent which now instant ((item, info) ∷ pairs) t j absent =
    apply_commits-absent which now instant pairs (passed which now instant (item, info) t) j
      absent.1
    ∙ passed_other which now instant (item, info) t j absent.0

-- The pass that writes the pair commits the entry that still has the generation of the snapshot.
pub apply_commits-IsCommitted :
    (which : Bool) (now : SystemTime) (instant : Instant) (pairs : List (FlushItem × Uploaded))
    (t : InodeTable) (item : FlushItem) (info : Uploaded) (e : InodeEntry)
    → IsOnly item info pairs
    → picked which (item, info) ≡ true
    → get t item.ino ≡ some e
    → e.dirty_generation ≡ item.dirty_generation
    → (e' : InodeEntry) × (get (apply_commits which now instant pairs t) item.ino ≡ some e')
      × IsCommitted e' info.hash info.size
unfolding apply_commits
apply_commits-IsCommitted which now instant [] t item info e only written there same = absurd only
apply_commits-IsCommitted which now instant (p ∷ pairs) t item info e (inl (here, absent)) written
      there same =
    let f : InodeEntry → InodeEntry =
      λ x. apply_commit x info.hash info.size item.dirty_generation now instant in
    let at : passed which now instant p t ≡ on_entry t item.ino f =
      ap (λ q. passed which now instant q t) here ∙ rw written refl in
    (
      f e,
      apply_commits-absent which now instant pairs (passed which now instant p t) item.ino absent
          ∙ ap (λ u. get u item.ino) at
          ∙ on_entry-found t item.ino item.ino f e there
          ∙ rw ((nat_beq_iff item.ino item.ino).1 refl) refl,
      subst
          (λ g. IsCommitted (apply_commit e info.hash info.size g now instant) info.hash info.size)
          same (apply_commit-current e info.hash info.size now instant),
    )
apply_commits-IsCommitted which now instant (p ∷ pairs) t item info e (inr (other, only)) written
      there same =
    apply_commits-IsCommitted which now instant pairs (passed which now instant p t) item info e
      only written (passed_other which now instant p t item.ino other ∙ there) same
