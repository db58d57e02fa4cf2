-- ===== src/Flush/Deletes/Accounted.antt =====
-- src/virtual_fs/flush.rs: no queued delete is lost, and the ones in flight are counted exactly.
use hf_mount.Base.{
  ℕ, zero, suc, ◌+◌, ◌≡◌, refl, ◌∙◌, ap, Bool, true, false, ◌||◌, inl, inr, some, List, [], ◌∷◌,
  ◌++◌, arith, length, Text, ◌==◌, text_eq, text_beq_iff, Bool-cases, Option-cases,
}
use hf_mount.Flush.Deletes.{
  Deletes, Event, enqueued, cancelled, cancelled_prefix, flushed, answered, enqueue_delete,
  starts_with, retain, cancel_delete, cancel_delete_prefix, take_batch, settle, nth_batch, drop_nth,
  step, run,
}
use hf_mount.Inode.Entry.{is_empty}

unfoldable pub total : List (List Text) → ℕ
total [] = 0
total (b ∷ batches) = length b + total batches

-- `in_flight` is the number of paths in the batches that wait for an answer.
abbrev pub IsCounted : Deletes → Type 0
IsCounted s = s.queue.in_flight ≡ total s.flying

total-drop_nth :
    (batches : List (List Text)) (i : ℕ) (b : List Text)
    → nth_batch batches i ≡ some b
    → total batches ≡ length b + total (drop_nth batches i)
unfolding total nth_batch drop_nth
total-drop_nth [] i b h = ground arith
total-drop_nth (a ∷ batches) zero b h = ground arith
total-drop_nth (a ∷ batches) (suc i) b h = omega (arith, total-drop_nth batches i b h)

step-IsCounted : (s : Deletes) (e : Event) → IsCounted s → IsCounted (step s e)
unfolding step enqueue_delete cancel_delete cancel_delete_prefix take_batch settle total
step-IsCounted s (enqueued path) h = h
step-IsCounted s (cancelled path) h = h
step-IsCounted s (cancelled_prefix prefix) h = h
step-IsCounted s flushed h = ground arith
step-IsCounted s (answered i committed) h = elim (Option-cases (nth_batch s.flying i)) [
  | inl nothing ↦ rw (nothing, step) h
  | inr (b, there) ↦
      let parts = total-drop_nth s.flying i b there in
      rw (there, step)
        (elim (Bool-cases committed) [
          | inl done ↦ rw done (omega arith)
          | inr again ↦ rw again (omega arith)
        ])
]

-- The path stands in the list.
unfoldable pub has : Text → List Text → Bool
has path [] = false
has path (p ∷ paths) = p == path || has path paths

unfoldable pub has_flying : Text → List (List Text) → Bool
has_flying path [] = false
has_flying path (b ∷ batches) = has path b || has_flying path batches

-- A delete is queued, sent, or done.
abbrev pub accounted : Text → Deletes → Bool
accounted path s = has path s.queue.queued || (has_flying path s.flying || has path s.deleted)

-- The event takes the path out of the queue on purpose.
abbrev pub revokes : Text → Event → Bool
revokes path (cancelled p) = path == p
revokes path (cancelled_prefix prefix) = starts_with path prefix
revokes path _ = false

abbrev pub any_revokes : Text → List Event → Bool
any_revokes path [] = false
any_revokes path (e ∷ events) = revokes path e || any_revokes path events

has-append : (path : Text) (a b : List Text) → has path (a ++ b) ≡ (has path a || has path b)
unfolding has
has-append path [] b = refl
has-append path (p ∷ a) b = ground (arith, has-append path a b)

has-retain :
    (path : Text) (test : Text → Bool) (paths : List Text)
    → test path ≡ false
    → has path (retain test paths) ≡ has path paths
unfolding has retain
has-retain path test [] h = refl
has-retain path test (p ∷ paths) h = elim (Bool-cases (p == path)) [
  | inl same ↦
      let e : p ≡ path = (text_beq_iff p path).0 same in
      let kept : test p ≡ false = ap test e ∙ h in
      rw kept (ground (arith, has-retain path test paths h))
  | inr other ↦ ground (arith, has-retain path test paths h)
]

has_flying-drop_nth :
    (path : Text) (batches : List (List Text)) (i : ℕ) (b : List Text)
    → nth_batch batches i ≡ some b
    → has_flying path batches ≡ (has path b || has_flying path (drop_nth batches i))
unfolding has_flying nth_batch drop_nth
has_flying-drop_nth path [] i b h = ground arith
has_flying-drop_nth path (a ∷ batches) zero b h = ground arith
has_flying-drop_nth path (a ∷ batches) (suc i) b h =
    ground (arith, has_flying-drop_nth path batches i b h)

step-accounted :
    (path : Text) (s : Deletes) (e : Event)
    → revokes path e ≡ false
    → accounted path s ≡ true
    → accounted path (step s e) ≡ true
unfolding step enqueue_delete cancel_delete cancel_delete_prefix take_batch settle has_flying
step-accounted path s (enqueued p) free h = ground (arith, has-append path s.queue.queued (p ∷ []))
step-accounted path s (cancelled p) free h =
    rw (has-retain path (λ q. q == p) s.queue.queued free) h
step-accounted path s (cancelled_prefix prefix) free h =
    rw (has-retain path (λ q. starts_with q prefix) s.queue.queued free) h
step-accounted path s flushed free h = elim (Bool-cases (is_empty s.queue.queued)) [
  | inl nothing ↦ rw (nothing, step) h
  | inr some_paths ↦ rw (some_paths, step) (unfold has in ground arith)
]
step-accounted path s (answered i committed) free h = elim (Option-cases (nth_batch s.flying i)) [
  | inl nothing ↦ rw (nothing, step) h
  | inr (b, there) ↦
      let parts = has_flying-drop_nth path s.flying i b there in
      rw (there, step)
        (elim (Bool-cases committed) [
          | inl done ↦ rw done (ground (arith, has-append path s.deleted b))
          | inr again ↦ rw again (ground (arith, has-append path s.queue.queued b))
        ])
]

-- However enqueues, cancellations, flushes and answers interleave, `in_flight` stays the number of
-- paths whose batch has not been answered, so the subtraction when a batch settles is exact.
pub run-IsCounted : (s : Deletes) (events : List Event) → IsCounted s → IsCounted (run s events)
unfolding run
run-IsCounted s [] h = h
run-IsCounted s (e ∷ events) h = run-IsCounted (step s e) events (step-IsCounted s e h)

run-accounted :
    (path : Text) (s : Deletes) (events : List Event)
    → any_revokes path events ≡ false
    → accounted path s ≡ true
    → accounted path (run s events) ≡ true
unfolding run
run-accounted path s [] free h = h
run-accounted path s (e ∷ events) free h =
    run-accounted path (step s e) events (ground arith) (step-accounted path s e (ground arith) h)

-- A path that is queued for deletion stays queued, in flight or deleted through every later run in
-- which no cancellation names it: a failed or abandoned batch puts it back.
pub run-enqueued :
    (path : Text) (s : Deletes) (events : List Event)
    → any_revokes path events ≡ false
    → accounted path (run s (enqueued path ∷ events)) ≡ true
unfolding run
run-enqueued path s events free = run-accounted path (step s (enqueued path)) events free (
    unfold step enqueue_delete has in
    ground (arith, has-append path s.queue.queued (path ∷ []), text_beq_iff path path))
