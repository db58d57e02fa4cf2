-- ===== src/Tests/Polls.antt =====
-- The back-off of src/virtual_fs/poll.rs after eight failures, and two streams of a live follow.
use hf_mount.Base.Equality
use hf_mount.Follow.Stream.{FollowEvent, ready, changes}
use hf_mount.Poll.Session.{Resume, cursor, since, live, started}
use hf_mount.Poll.Session.Served.{Log, Sends, ended, sent, is_ready, is_ready_at, Round, sessions}
use hf_mount.Poll.Session.Resumed.{IsInOrder, sessions-IsInOrder}
use hf_mount.Base.{
  refl, inl, inr, none, some, List, [], ◌∷◌, codes, ◌≤◌, ◌≡◌, true, false, ◌==◌, text_eq,
  if◌then◌else◌, Bool-cases,
}
use hf_mount.Poll.Backoff.{new, delay, max_delay, is_backing_off, reset, failures, delay-failures}

delay-failures_example :
    (delay (failures 8 (reset (new 30000000000))) ≡ 1920000000000)
    × (delay (failures 8 (reset (new 30000000000))) ≤ max_delay (new 30000000000))
    × (is_backing_off (failures 8 (reset (new 30000000000))) ≡ true)
unfolding new
delay-failures_example = delay-failures 8 (new 30000000000)

-- A feed of two batches, and streams that break after one batch, once before they are ready.
abbrev second : Log
second = (codes "c2", []) ∷ []

abbrev from_there : Resume → Log
from_there (cursor c) = if c == codes "c1" then second else []
from_there since = (codes "c1", []) ∷ second
from_there live = []

abbrev one_batch : Log → List FollowEvent
one_batch [] = ready none ∷ []
one_batch (e ∷ log) = changes e.0 e.1 ∷ ready (some e.0) ∷ []

abbrev broken : Log → List FollowEvent
broken [] = []
broken (e ∷ log) = changes e.0 e.1 ∷ []

second_honest : (left : Log) × Sends from_there second (one_batch second) left
unfolding Equality.text_beq
second_honest =
    ([], sent (codes "c2") [] [] [] _ refl (is_ready_at (codes "c2") [] [] [] refl (ended [])))

served :
    (r : Resume) → (left : Log) × Sends from_there (from_there r) (one_batch (from_there r)) left
served (cursor c) = elim (Bool-cases (c == codes "c1")) [
  | inl first ↦ rw first second_honest
  | inr later ↦ rw later ([], is_ready [] [] [] (ended []))
]
served since =
    unfold Equality.text_beq in
    (
      second,
      sent (codes "c1") [] second second _ refl
          (is_ready_at (codes "c1") second second [] refl (ended second)),
    )
served live = ([], is_ready [] [] [] (ended []))

second_cut : (left : Log) × Sends from_there second (broken second) left
unfolding Equality.text_beq
second_cut = ([], sent (codes "c2") [] [] [] _ refl (ended []))

broken_honest :
    (r : Resume) → (left : Log) × Sends from_there (from_there r) (broken (from_there r)) left
broken_honest (cursor c) = elim (Bool-cases (c == codes "c1")) [
  | inl first ↦ rw first second_cut
  | inr later ↦ rw later ([], ended [])
]
broken_honest since =
    unfold Equality.text_beq in (second, sent (codes "c1") [] second second _ refl (ended second))
broken_honest live = ([], ended [])

abbrev rounds : List Round
rounds =
    record { probe = none; complete = false; opened = λ r. broken (from_there r) }
    ∷ record { probe = some (codes "r"); complete = false; opened = λ r. one_batch (from_there r) }
    ∷ []

sessions-IsInOrder_example :
    IsInOrder (from_there since) (sessions rounds (started (some (codes "r"))))
sessions-IsInOrder_example =
    sessions-IsInOrder from_there (codes "r") rounds
      (inl refl, broken_honest, (inr refl, served, tt))
