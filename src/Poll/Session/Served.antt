-- ===== src/Poll/Session/Served.antt =====
-- What the Hub answers to the sessions of `follow_remote_changes` in src/virtual_fs/poll.rs, by the contract
-- that src/follow.rs documents, and the rounds of the loop over it.
use hf_mount.Base.{◌≡◌, Bool, ◌⊎◌, Option, none, some, List, [], ◌∷◌, ◌++◌, map, Text, text_eq}
use hf_mount.Follow.Stream.{FollowChange, FollowEvent, ready, changes, reconnect}
use hf_mount.Poll.Session.{Resume, cursor, Session, again, stopped, stream, iterate}

-- Batches with their cursors, as the feed has them.
abbrev pub Log : Type 0
Log = List (Text × List FollowChange)

abbrev pub batches : Log → List (List FollowChange)
batches log = map (λ e. e.1) log

-- The batches among the events of a stream.
abbrev pub batches_of : List FollowEvent → List (List FollowChange)
batches_of [] = []
batches_of (changes c batch ∷ events) = batch ∷ batches_of events
batches_of (_ ∷ events) = batches_of events

-- The contract of a stream. `from` is what the Hub has to send after a resume point. A stream sends the
-- next batches in order; each cursor that it gives, on a batch, `ready` or `reconnect`, resumes at
-- what is left then; it may end anywhere.
pub data Sends (from : Resume → Log) : Log → List FollowEvent → Log → Type 0 where
  ended : (left : Log) → Sends from left [] left
  sent :
      (c : Text) (batch : List FollowChange) (left left' : Log) (events : List FollowEvent)
      → from (cursor c) ≡ left
      → Sends from left events left'
      → Sends from ((c, batch) ∷ left) (changes c batch ∷ events) left'
  is_ready :
      (left left' : Log) (events : List FollowEvent)
      → Sends from left events left'
      → Sends from left (ready none ∷ events) left'
  is_ready_at :
      (c : Text) (left left' : Log) (events : List FollowEvent)
      → from (cursor c) ≡ left
      → Sends from left events left'
      → Sends from left (ready (some c) ∷ events) left'
  rotated : (left : Log) → Sends from left (reconnect none ∷ []) left
  rotated_at :
      (c : Text) (left : Log)
      → from (cursor c) ≡ left
      → Sends from left (reconnect (some c) ∷ []) left

-- One round of the loop: the answer to the probe, whether a poll round is complete, and the stream that
-- the Hub opens at a resume point.
pub record Round : Type 0 where
  pub probe : Option Text
  pub complete : Bool
  pub opened : Resume → List FollowEvent

-- Every stream keeps the contract, and the revision has not moved where the probe is answered.
abbrev pub AreHonest : (Resume → Log) → Text → List Round → Type 0
AreHonest from rev [] = Unit
AreHonest from rev (round ∷ rounds) =
    ((round.probe ≡ none) ⊎ (round.probe ≡ some rev))
    × ((r : Resume) → (left : Log) × Sends from (from r) (round.opened r) left)
    × AreHonest from rev rounds

-- The rounds of the loop: what is applied, and the events that came.
unfoldable pub sessions : List Round → Session → List (List FollowChange) × List FollowEvent
sessions [] s = ([], [])
sessions (round ∷ rounds) s =
    let events = round.opened s.resume in
    let (outcome, applied) = iterate s round.probe round.complete (stream events) in
    elim outcome [
      | stopped ↦ (applied, events)
      | again s' delay ↦
          let (more, later) = sessions rounds s' in (applied ++ more, events ++ later)
    ]
