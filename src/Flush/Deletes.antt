-- ===== src/Flush/Deletes.antt =====
-- The queue of remote deletes in src/virtual_fs/flush.rs: `DeleteQueue`, `enqueue_delete`,
-- `cancel_delete`, `cancel_delete_prefix` and `flush_pending_deletes`. A flush takes the queue,
-- waits for the Hub, and settles the batch when the guard `InFlightDeletes` is dropped; other
-- operations and other flushes may run while it waits.
pub mod Accounted
use hf_mount.Base.{
  ℕ, zero, suc, ◌+◌, ◌-◌, Bool, true, false, not, Option, none, some, List, [], ◌∷◌, ◌++◌, length,
  if◌then◌else◌, Text, ◌==◌, text_eq, nat_beq,
}
use hf_mount.Inode.Entry.{is_empty}

pub record DeleteQueue : Type 0 where
  pub queued : List Text
  pub in_flight : ℕ

unfoldable pub enqueue_delete : DeleteQueue → Text → DeleteQueue
enqueue_delete q path = record q { queued = q.queued ++ path ∷ [] }

unfoldable pub starts_with : Text → Text → Bool
starts_with text [] = true
starts_with [] (p ∷ prefix) = false
starts_with (c ∷ text) (p ∷ prefix) =
    let rest = starts_with text prefix in if nat_beq c p then rest else false

-- `retain(|p| !revokes(p))`
unfoldable pub retain : (Text → Bool) → List Text → List Text
retain revokes [] = []
retain revokes (p ∷ paths) = let rest = retain revokes paths in if revokes p then rest else p ∷ rest

unfoldable pub cancel_delete : DeleteQueue → Text → DeleteQueue
cancel_delete q path = record q { queued = retain (λ p. p == path) q.queued }

unfoldable pub cancel_delete_prefix : DeleteQueue → Text → DeleteQueue
cancel_delete_prefix q prefix = record q { queued = retain (λ p. starts_with p prefix) q.queued }

abbrev pub pending_delete_count : DeleteQueue → ℕ
pending_delete_count q = length q.queued + q.in_flight

-- The first half of `flush_pending_deletes`; nothing is sent when the queue is empty.
unfoldable pub take_batch : DeleteQueue → DeleteQueue × Option (List Text)
take_batch q =
    if is_empty q.queued
    then (q, none)
    else (record { queued = []; in_flight = q.in_flight + length q.queued }, some q.queued)

-- `Drop for InFlightDeletes`.
unfoldable pub settle : DeleteQueue → List Text → Bool → DeleteQueue
settle q paths committed =
    let left = record q { in_flight = q.in_flight - length paths } in
    if committed then left else record left { queued = left.queued ++ paths }

-- The queue, the batches that wait for an answer, and the paths that the Hub has deleted.
pub record Deletes : Type 0 where
  pub queue : DeleteQueue
  pub flying : List (List Text)
  pub deleted : List Text

-- One step of a run; `answered i committed` settles the batch number `i`.
pub data Event : Type 0 where
  enqueued cancelled cancelled_prefix : Text → Event
  flushed : Event
  answered : ℕ → Bool → Event

unfoldable pub nth_batch : List (List Text) → ℕ → Option (List Text)
nth_batch [] i = none
nth_batch (b ∷ batches) zero = some b
nth_batch (b ∷ batches) (suc i) = nth_batch batches i

unfoldable pub drop_nth : List (List Text) → ℕ → List (List Text)
drop_nth [] i = []
drop_nth (b ∷ batches) zero = batches
drop_nth (b ∷ batches) (suc i) = b ∷ drop_nth batches i

unfoldable pub step : Deletes → Event → Deletes
step s (enqueued path) = record s { queue = enqueue_delete s.queue path }
step s (cancelled path) = record s { queue = cancel_delete s.queue path }
step s (cancelled_prefix prefix) = record s { queue = cancel_delete_prefix s.queue prefix }
step s flushed = elim ((take_batch s.queue).1) [
  | none ↦ s
  | some batch ↦ record s { queue = (take_batch s.queue).0; flying = batch ∷ s.flying }
]
step s (answered i committed) = elim (nth_batch s.flying i) [
  | none ↦ s
  | some batch ↦ record {
    queue = settle s.queue batch committed;
    flying = drop_nth s.flying i;
    deleted = if committed then s.deleted ++ batch else s.deleted;
  }
]

unfoldable pub run : Deletes → List Event → Deletes
run s [] = s
run s (e ∷ events) = run (step s e) events
