-- ===== src/Poll/Session/Resumed.antt =====
-- The resume point of src/virtual_fs/poll.rs: over streams that break anywhere, every batch of changes
-- that the Hub sends is applied, and none is left out or comes twice.
use hf_mount.Base.{
  ◌≡◌, refl, sym, ◌∙◌, ap, Bool, true, false, inl, inr, ◌⊎◌, Option, none, some, List, [], ◌∷◌,
  ◌++◌, Text, Bool-cases, text_beq_iff, text_eq, if◌then◌else◌, leb, ◌+◌, not, ◌&&◌,
}
use mathlib.Core.List.{append_assoc}
use mathlib.Core.Path.{subst}
use hf_mount.Follow.Stream.{FollowChange, FollowEvent, ready, changes, reset, reconnect}
use hf_mount.Poll.Session.{
  started, Resume, cursor, since, back_from_live, Session, listen, Outcome, again, stopped,
  after_stream, stream, connected, iterate, same_revision, is_since, max_sessions_without_ready,
}
use hf_mount.Poll.Session.Served.{
  Log, batches, batches_of, Sends, ended, sent, is_ready, is_ready_at, rotated, rotated_at, Round,
  AreHonest, sessions,
}

batches_of-append : (a b : List FollowEvent) → batches_of (a ++ b) ≡ batches_of a ++ batches_of b
batches_of-append [] b = refl
batches_of-append (changes c batch ∷ a) b =
    ap (λ (l : List (List FollowChange)). batch ∷ l) (batches_of-append a b)
batches_of-append (ready c ∷ a) b = batches_of-append a b
batches_of-append (reset ∷ a) b = batches_of-append a b
batches_of-append (reconnect c ∷ a) b = batches_of-append a b

-- A session that resumes at what is left.
record IsAt (from : Resume → Log) (rev : Text) (left : Log) (s : Session) : Type 0 where
  at : from s.resume ≡ left
  not_live : back_from_live s.resume ≡ s.resume
  revision : s.last_revision ≡ some rev

record IsHeard (from : Resume → Log) (rev : Text) (events : List FollowEvent) (left left' : Log)
    (r : Session × List (List FollowChange) × Bool) : Type 0 where
  session : IsAt from rev left' r.0
  applied : r.1 ≡ batches_of events
  in_order : batches left ≡ batches_of events ++ batches left'

listen_lem :
    (from : Resume → Log) (rev : Text) (events : List FollowEvent) (left left' : Log) (s : Session)
    (got_ready : Bool)
    → Sends from left events left'
    → IsAt from rev left s
    → IsHeard from rev events left left' (listen events s got_ready)
unfolding listen
listen_lem from rev _ _ _ s got_ready (ended left) a = record {
  session = a;
  applied = refl;
  in_order = refl;
}
listen_lem from rev _ _ _ s got_ready (sent c batch left left' events here rest) a =
    let h =
      listen_lem from rev events left left' (record s { resume = cursor c }) got_ready rest
        (record { at = here; not_live = refl; revision = a.revision }) in
    record {
      session = h.session;
      applied = ap (λ (l : List (List FollowChange)). batch ∷ l) h.applied;
      in_order = ap (λ (l : List (List FollowChange)). batch ∷ l) h.in_order;
    }
listen_lem from rev _ _ _ s got_ready (is_ready left left' events rest) a =
    let h =
      listen_lem from rev events left left' _ true rest
        (record { at = a.at; not_live = a.not_live; revision = a.revision }) in
    record { session = h.session; applied = h.applied; in_order = h.in_order }
listen_lem from rev _ _ _ s got_ready (is_ready_at c left left' events here rest) a =
    let h =
      listen_lem from rev events left left' _ true rest
        (record { at = here; not_live = refl; revision = a.revision }) in
    record { session = h.session; applied = h.applied; in_order = h.in_order }
listen_lem from rev _ _ _ s got_ready (rotated left) a = record {
  session = a;
  applied = refl;
  in_order = refl;
}
listen_lem from rev _ _ _ s got_ready (rotated_at c left here) a = record {
  session = record { at = here; not_live = refl; revision = a.revision };
  applied = refl;
  in_order = refl;
}

-- The session after a round, if there is one.
abbrev Goes : (from : Resume → Log) (rev : Text) → Log → Outcome → Type 0
Goes from rev left (again s delay) = IsAt from rev left s
Goes from rev left stopped = Unit

after_stream-Goes :
    (from : Resume → Log) (rev : Text) (left : Log) (s : Session) (healthy : Bool)
    → IsAt from rev left s
    → Goes from rev left (after_stream s healthy)
unfolding after_stream
after_stream-Goes from rev left s healthy a =
    let back : IsAt from rev left (record s { resume = back_from_live s.resume }) = record {
      at = ap from a.not_live ∙ a.at;
      not_live = ap back_from_live a.not_live;
      revision = a.revision;
    } in
    elim (Bool-cases healthy) [
      | inl well ↦ rw well back
      | inr ill ↦
          elim (Bool-cases (leb max_sessions_without_ready (s.sessions_without_ready + 1))) [
            | inl over ↦ rw (ill, over) tt
            | inr under ↦
                rw (ill, under)
                  (record { at = back.at; not_live = back.not_live; revision = back.revision })
          ]
    ]

-- What a round does.
record IsRound (from : Resume → Log) (rev : Text) (events : List FollowEvent) (left left' : Log)
    (r : Outcome × List (List FollowChange)) : Type 0 where
  goes : Goes from rev left' r.0
  applied : r.1 ≡ batches_of events
  in_order : batches left ≡ batches_of events ++ batches left'

connected-IsRound :
    (from : Resume → Log) (rev : Text) (events : List FollowEvent) (left left' : Log) (s : Session)
    → Sends from left events left'
    → IsAt from rev left s
    → IsRound from rev events left left' (connected s (stream events))
unfolding connected
connected-IsRound from rev events left left' s honest a =
    let h = listen_lem from rev events left left' s false honest a in
    record {
      goes = after_stream-Goes from rev left' _ _ h.session;
      applied = h.applied;
      in_order = h.in_order;
    }

iterate-IsRound :
    (from : Resume → Log) (rev : Text) (events : List FollowEvent) (left left' : Log) (s : Session)
    (probe : Option Text) (complete : Bool)
    → (probe ≡ none) ⊎ (probe ≡ some rev)
    → Sends from left events left'
    → IsAt from rev left s
    → IsRound from rev events left left' (iterate s probe complete (stream events))
unfolding iterate
iterate-IsRound from rev events left left' s probe complete answer honest a =
    let taken = if is_since s.resume then record s { skip_probe = false } else s in
    let at_taken : IsAt from rev left taken = elim (Bool-cases (is_since s.resume)) [
      | inl here ↦ rw here (record { at = a.at; not_live = a.not_live; revision = a.revision })
      | inr other ↦ rw other a
    ] in
    let run = connected-IsRound from rev events left left' taken honest at_taken in
    elim (Bool-cases (is_since s.resume && not s.skip_probe)) [
      | inr idle ↦ rw idle run
      | inl probing ↦ elim answer [
        | inl unanswered ↦ rw probing (rw unanswered run)
        | inr answered ↦
            let same : same_revision s.last_revision rev ≡ true =
              ap (λ r. same_revision r rev) a.revision ∙ (text_beq_iff rev rev).1 refl in
            rw probing (
              rw answered (
                rw same (
                  connected-IsRound from rev events left left' _ honest
                    (record { at = at_taken.at; not_live = at_taken.not_live; revision = refl }))))
      ]
    ]

-- All that came is applied, and it is the beginning of what the Hub had to send.
pub record IsInOrder (log : Log) (r : List (List FollowChange) × List FollowEvent) : Type 0 where
  pub applied : r.0 ≡ batches_of r.1
  pub left : Log
  pub in_order : batches log ≡ r.0 ++ batches left

-- The claim of a step, over what the round does.
abbrev Answered : Log → Round → List Round → Session → Outcome × List (List FollowChange) → Type 0
Answered left round rounds s q = IsInOrder left (elim q.0 [
  | stopped ↦ (q.1, round.opened s.resume)
  | again s' delay ↦
      (q.1 ++ (sessions rounds s').0, round.opened s.resume ++ (sessions rounds s').1)
])

sessions_step :
    (from : Resume → Log) (rev : Text) (round : Round) (rounds : List Round) (left left' : Log)
    (s : Session) (r : Outcome × List (List FollowChange))
    → iterate s round.probe round.complete (stream (round.opened s.resume)) ≡ r
    → IsRound from rev (round.opened s.resume) left left' r
    → ((s' : Session) → IsAt from rev left' s' → IsInOrder left' (sessions rounds s'))
    → IsInOrder left (sessions (round ∷ rounds) s)
unfolding sessions
sessions_step from rev round rounds left left' s (stopped, applied) run b next =
    subst (Answered left round rounds s) (sym run) (record {
      applied = b.applied;
      left = left';
      in_order = b.in_order ∙ ap (λ l. l ++ batches left') (sym b.applied);
    })
sessions_step from rev round rounds left left' s (again s' delay, applied) run b next =
    let later = next s' b.goes in
    subst (Answered left round rounds s) (sym run) (record {
      applied =
          ap (λ l. l ++ (sessions rounds s').0) b.applied
          ∙ ap (λ l. batches_of (round.opened s.resume) ++ l) later.applied
          ∙ sym (batches_of-append (round.opened s.resume) (sessions rounds s').1);
      left = later.left;
      in_order =
          b.in_order
          ∙ ap (λ l. l ++ batches left') (sym b.applied)
          ∙ ap (λ l. applied ++ l) later.in_order
          ∙ sym (append_assoc applied (sessions rounds s').0 (batches later.left));
    })

sessions_from :
    (from : Resume → Log) (rev : Text) (rounds : List Round) (left : Log) (s : Session)
    → AreHonest from rev rounds
    → IsAt from rev left s
    → IsInOrder left (sessions rounds s)
sessions_from from rev [] left s honest a =
    unfold sessions in record { applied = refl; left = left; in_order = refl }
sessions_from from rev (round ∷ rounds) left s (probed, served, rest) a =
    let (left', sends) = served s.resume in
    let sends' : Sends from left (round.opened s.resume) left' =
      subst (λ l. Sends from l (round.opened s.resume) left') a.at sends in
    sessions_step from rev round rounds left left' s _ refl
      (iterate-IsRound from rev (round.opened s.resume) left left' s round.probe round.complete
        probed sends' a)
      (λ s' at. sessions_from from rev rounds left' s' rest at)

-- If every round opens a stream that keeps the contract, without a reset, whether it becomes ready or
-- not, whatever cursors it gives and wherever it breaks, and the probe never finds another revision
-- than the first one, then over any number of rounds every batch that comes is applied, and the batches applied are the first ones
-- after the first revision: none is skipped, none is applied twice, and their order is kept.
pub sessions-IsInOrder :
    (from : Resume → Log) (rev : Text) (rounds : List Round)
    → AreHonest from rev rounds
    → IsInOrder (from since) (sessions rounds (started (some rev)))
unfolding started
sessions-IsInOrder from rev rounds honest =
    sessions_from from rev rounds (from since) _ honest
      (record { at = refl; not_live = refl; revision = refl })
