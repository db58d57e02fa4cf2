-- ===== src/Poll/Session.antt =====
-- `follow_remote_changes` of src/virtual_fs/poll.rs: where the next subscription resumes, how long to
-- wait, and when to fall back to polling. One iteration of its loop is a function of what the Hub
-- answers in it.
pub mod Served
pub mod Resumed
use hf_mount.Base.{
  ℕ, zero, suc, ◌+◌, min, Bool, true, false, not, ◌&&◌, ◌||◌, Option, none, some, List, [], ◌∷◌,
  leb, if◌then◌else◌, Text, text_eq, ◌==◌,
}
use hf_mount.Follow.Stream.{FollowChange, FollowEvent, ready, changes, reset, reconnect}
use hf_mount.Poll.Backoff
use hf_mount.Poll.Backoff.{Backoff}

pub data Resume : Type 0 where
  cursor : Text → Resume
  since live : Resume

abbrev pub is_since : Resume → Bool
is_since since = true
is_since _ = false

-- `matches!(resume, Resume::Live)`: the session after a live one goes back.
abbrev pub back_from_live : Resume → Resume
back_from_live live = since
back_from_live r = r

-- The variables of the loop.
pub record Session : Type 0 where
  pub resume : Resume
  pub skip_probe : Bool
  pub backoff : Backoff
  pub sessions_without_ready : ℕ
  pub last_revision : Option Text

abbrev pub retry_base : ℕ
retry_base = 10000000000

abbrev pub reconnect_floor : ℕ
reconnect_floor = 1000000000

abbrev pub max_sessions_without_ready : ℕ
max_sessions_without_ready = 3

unfoldable pub started : Option Text → Session
started last_revision = record {
  resume = since;
  skip_probe = elim last_revision [ none ↦ false | some rev ↦ true ];
  backoff = Backoff.new retry_base;
  sessions_without_ready = 0;
  last_revision = last_revision;
}

-- An absent cursor keeps the resume point.
abbrev pub resume_at : Option Text → Session → Session
resume_at none s = s
resume_at (some c) s = record s { resume = cursor c }

-- The inner loop over the events of a stream, which ends or breaks after the last one: the session,
-- the batches that are applied, and whether the stream was healthy.
unfoldable pub listen :
    List FollowEvent → Session → Bool → Session × List (List FollowChange) × Bool
listen [] s got_ready = (s, [], got_ready)
listen (ready c ∷ events) s got_ready =
    listen events
      (record (resume_at c s) { backoff = Backoff.reset s.backoff; sessions_without_ready = 0 })
      true
listen (changes c batch ∷ events) s got_ready =
    let (s', batches, healthy) = listen events (record s { resume = cursor c }) got_ready in
    (s', batch ∷ batches, healthy)
listen (reset ∷ events) s got_ready = (record s { resume = since }, [], true)
listen (reconnect c ∷ events) s got_ready = (resume_at c s, [], true)

-- The loop goes on after a delay, or the mount polls from now on.
pub data Outcome : Type 0 where
  again : Session → ℕ → Outcome
  stopped : Outcome

-- After the stream.
unfoldable pub after_stream : Session → Bool → Outcome
after_stream s healthy =
    let back = record s { resume = back_from_live s.resume } in
    let sessions = s.sessions_without_ready + 1 in
    if healthy
    then again back reconnect_floor
    else if leb max_sessions_without_ready sessions
    then stopped
    else again
        (record back { sessions_without_ready = sessions; backoff = (Backoff.next s.backoff).0 })
        (Backoff.next s.backoff).1

-- What `follow_events` answers: a stream with its events, no feed, status 400, or another error with
-- its `retry_after`.
pub data Connect : Type 0 where
  stream : List FollowEvent → Connect
  absent refused : Connect
  failed : Option ℕ → Connect

unfoldable pub refuse : Session → Outcome
refuse s = elim s.resume [
  | cursor c ↦ again (record s { resume = since }) 0
  | since ↦ again (record s { resume = live }) 0
  | live ↦ stopped
]

unfoldable pub connected : Session → Connect → Outcome × List (List FollowChange)
connected s (stream events) =
    let (s', batches, healthy) = listen events s false in (after_stream s' healthy, batches)
connected s absent = (stopped, [])
connected s refused = (refuse s, [])
connected s (failed none) =
    (again (record s { backoff = (Backoff.next s.backoff).0 }) (Backoff.next s.backoff).1, [])
connected s (failed (some hint)) = (again s (min hint (Backoff.max_delay s.backoff)), [])

abbrev pub same_revision : Option Text → Text → Bool
same_revision none rev = false
same_revision (some r) rev = r == rev

-- One iteration: the answer to the probe, whether a poll round that the probe asks for is complete,
-- and the answer to the subscription.
unfoldable pub iterate : Session → Option Text → Bool → Connect → Outcome × List (List FollowChange)
iterate s probe complete answer =
    let probing = is_since s.resume && not s.skip_probe in
    let taken = if is_since s.resume then record s { skip_probe = false } else s in
    if not probing then connected taken answer else elim probe [
      | none ↦ connected taken answer
      | some rev ↦
          if same_revision s.last_revision rev || complete
          then connected (record taken { last_revision = some rev }) answer
          else (
            again (record taken { backoff = (Backoff.next s.backoff).0 })
                (Backoff.next s.backoff).1,
            [],
          )
    ]
