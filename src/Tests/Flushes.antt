-- ===== src/Tests/Flushes.antt =====
-- Runs of src/virtual_fs/flush.rs: a file that is flushed, and deletes that are queued.
use hf_mount.Base.{
  map, ◌≡◌, ◌≤◌, refl, Bool, true, false, Option, some, inl, List, [], ◌∷◌, arith, codes, pos, ◌∙◌,
  nat_eq, text_eq, saturating_add64_exact,
}
use hf_mount.Base.Equality.{text_beq}
use hf_mount.Base.HashMap
use hf_mount.Base.Word.{add64}
use hf_mount.Inode.Entry.{InodeEntry, set_dirty}
use hf_mount.Inode.Entry.Commit.{IsCommitted}
use hf_mount.Inode.Table
use hf_mount.Inode.Table.{InodeTable, get, on_entry}
use hf_mount.Inode.Table.WellFormed.{get-on_entry}
use hf_mount.Flush.Deletes.{Deletes, Event, enqueued, flushed, answered, run}
use hf_mount.Flush.Deletes.Accounted.{accounted, run-enqueued}
use hf_mount.Flush.Batch.{
  contains, deduped, FlushItem, Uploaded, Outside, apply_commits, commit_batch, is_unchanged,
}
use hf_mount.Flush.Debounce.{
  FlushSignal, Incoming, collect, flush_rounds, concat, signals_of, flush_rounds-signals,
}
use hf_mount.Flush.Batch.Dedup.{last_requests, deduped-last_requests}
use hf_mount.Flush.Batch.Settled.{IsWritten, IsOnly, commit_batch-IsWritten}
use hf_mount.Flush.Batch.Answered.{has_changed, commit_batch-IsCommitted, commit_batch_refused}
use hf_mount.Tests.Inodes.{d_f, with_file, file_entry, file_there}

abbrev no_deletes : Deletes
no_deletes = record { queue = record { queued = []; in_flight = 0 }; flying = []; deleted = [] }

-- A batch that fails while another path is queued.
abbrev failing : List Event
failing = enqueued (codes "a") ∷ flushed ∷ enqueued (codes "b") ∷ answered 0 false ∷ []

run-enqueued_example :
    accounted (codes "a") (run no_deletes (enqueued (codes "a") ∷ failing)) ≡ true
run-enqueued_example = run-enqueued (codes "a") no_deletes failing refl

abbrev item : FlushItem
item = record {
  ino = 3;
  full_path = d_f;
  pending_deletes = [];
  dirty_generation = 1;
  prev_xet_hash = some (1 ∷ []);
}

abbrev info : Uploaded
info = record { hash = 9 ∷ []; size = 4 }

-- Every file gets the same hash.
abbrev same_upload : List FlushItem → Option (List Uploaded)
same_upload items = some (map (λ i. info) items)

-- Nothing happens meanwhile, and the Hub accepts or refuses.
abbrev quiet : Bool → Outside
quiet accepted = record {
  staged = λ i. true;
  upload = same_upload;
  commit = λ ops. accepted;
  mtime_ms = 5;
  now = pos 8;
  instant = 7;
  upload_error = codes "upload";
  commit_error = codes "commit";
  during_upload = λ t. t;
  during_commit = λ t. t;
}

abbrev pub flushing : InodeTable
flushing = on_entry with_file 3 set_dirty

abbrev pub dirty_entry : InodeEntry
dirty_entry = set_dirty file_entry

pub dirty_there : get flushing 3 ≡ some dirty_entry
dirty_there = get-on_entry with_file 3 set_dirty 3 ∙ rw file_there refl

abbrev pairs : List (FlushItem × Uploaded)
pairs = (item, info) ∷ []

only : IsOnly item info pairs
only = inl (refl, tt)

pub generation_1 : dirty_entry.dirty_generation ≡ 1
unfolding set_dirty Table.new Table.insert HashMap.get HashMap.insert HashMap.remove HashMap.modify
    Table.on_entry text_beq add64 Table.entry_of
generation_1 = saturating_add64_exact 0 1

commit_batch-IsCommitted_example :
    (e' : InodeEntry) × (get (commit_batch (quiet true) pairs flushing []).0 3 ≡ some e')
    × IsCommitted e' (9 ∷ []) 4
unfolding apply_commits is_unchanged text_beq
commit_batch-IsCommitted_example =
    commit_batch-IsCommitted (quiet true) pairs flushing [] item info dirty_entry only refl refl
      dirty_there generation_1

commit_batch_refused_example :
    ((commit_batch (quiet false) pairs flushing []).0 ≡ flushing)
    × (HashMap.get (commit_batch (quiet false) pairs flushing []).1 3
        ≡ some (codes "commit failed: commit"))
unfolding apply_commits is_unchanged has_changed text_beq
commit_batch_refused_example =
    commit_batch_refused (quiet false) pairs flushing [] item info 3 only refl refl

-- The file is written once more while the flush runs.
abbrev rewritten : InodeTable
rewritten = on_entry flushing 3 set_dirty

rewritten_there : get rewritten 3 ≡ some (set_dirty dirty_entry)
rewritten_there = get-on_entry flushing 3 set_dirty 3 ∙ rw dirty_there refl

generation_2 : (set_dirty dirty_entry).dirty_generation ≡ 2
unfolding set_dirty
generation_2 = rw generation_1 (saturating_add64_exact 1 1)

still_dirty : IsWritten 3 pairs (set_dirty dirty_entry)
still_dirty = record {
  dirty = rw generation_2 refl;
  newer = (λ same. rw generation_2 (omega arith), tt);
}

commit_batch-IsWritten_example :
    (e' : InodeEntry) × (get (commit_batch (quiet true) pairs rewritten []).0 3 ≡ some e')
    × IsWritten 3 pairs e'
commit_batch-IsWritten_example =
    commit_batch-IsWritten (quiet true) pairs rewritten [] 3 (set_dirty dirty_entry) rewritten_there
      still_dirty (λ u x found written. (x, found, written))

deduped-last_requests_example : deduped (3 ∷ 4 ∷ 3 ∷ []) ≡ 4 ∷ 3 ∷ []
unfolding last_requests contains
deduped-last_requests_example = deduped-last_requests (3 ∷ 4 ∷ 3 ∷ [])

abbrev two_signals : Incoming
two_signals = (1, FlushSignal.dirty 3) ∷ (2, FlushSignal.wake_deletes) ∷ []

flush_rounds-signals_example :
    (concat (flush_rounds 2 5 9 two_signals) ≡ signals_of two_signals)
    × ((collect 5 9 0 two_signals).2 ≤ 9)
flush_rounds-signals_example = flush_rounds-signals 2 5 9 two_signals (omega arith)
