-- ===== src/Follow/Stream.antt =====
-- The typed events of src/follow.rs and `HttpFollowStream`, with `strict_descendant_rel` of
-- src/hub_api.rs. The two payloads that serde parses are arguments.
pub mod Rebased
pub mod Delivered
use hf_mount.Base.{
  ℕ, zero, suc, ◌+◌, ◌-◌, Bool, true, false, not, Option, none, some, List, [], ◌∷◌, ◌++◌, length,
  take, drop, cons_some, nat_beq, if◌then◌else◌, Text, codes, ◌==◌, text_eq,
}
use mathlib.Core.Option
use hf_mount.Inode.Entry.{is_empty}
use hf_mount.Follow.Sse.{SseEvent, SseParser, push}

pub data FollowOp : Type 0 where
  add : FollowOp
  update : FollowOp
  delete : FollowOp

pub record FollowChange : Type 0 where
  pub path : Text
  pub op : FollowOp
  pub size : Option ℕ
  pub xet_hash : Option Text
  pub uploaded_at : Option Text
  pub mtime : Option Text

pub data FollowEvent : Type 0 where
  ready : Option Text → FollowEvent
  changes : Text → List FollowChange → FollowEvent
  reset : FollowEvent
  reconnect : Option Text → FollowEvent

-- What is outside of the parsers: `String::from_utf8_lossy`, and serde's parsers of `CursorOnly` and
-- `ChangesData`.
pub record Parsers : Type 0 where
  pub from_utf8_lossy : List ℕ → Text
  pub cursor_only : Text → Option (Option Text)
  pub changes_data : Text → Option (Text × List FollowChange)

unfoldable pub parse_follow_event : Parsers → SseEvent → Option FollowEvent
parse_follow_event w raw =
    let cursor_data = if is_empty raw.event_data then codes "{}" else raw.event_data in
    if raw.event == codes "ready"
    then Option.map ready (w.cursor_only cursor_data)
    else if raw.event == codes "changes"
    then Option.map (λ d. changes d.0 d.1) (w.changes_data raw.event_data)
    else if raw.event == codes "reset"
    then some reset
    else if raw.event == codes "reconnect"
    then Option.map reconnect (w.cursor_only cursor_data)
    else none

unfoldable pub strip_prefix : Text → Text → Option Text
strip_prefix path [] = some path
strip_prefix [] (p ∷ prefix) = none
strip_prefix (c ∷ path) (p ∷ prefix) =
    let rest = strip_prefix path prefix in if nat_beq c p then rest else none

unfoldable pub strict_descendant_rel : Text → Text → Option Text
strict_descendant_rel path prefix = elim (strip_prefix path prefix) [
  | none ↦ none
  | some rest ↦ elim (strip_prefix rest (codes "/")) [
    | none ↦ none
    | some rel ↦ if is_empty rel then none else some rel
  ]
]

-- One change of `retain_mut`: `none` drops it.
unfoldable pub rebase_change : Text → FollowChange → Option FollowChange
rebase_change prefix change = elim (strict_descendant_rel change.path prefix) [
  | none ↦ none
  | some rel ↦ some (record change { path = drop (length change.path - length rel) change.path })
]

abbrev pub retain_mut {ℓ} : {A : Type ℓ} → (A → Option A) → List A → List A
retain_mut f [] = []
retain_mut f (x ∷ xs) = cons_some (f x) (retain_mut f xs)

unfoldable pub rebase : Text → List FollowChange → List FollowChange
rebase path_prefix batch =
    if is_empty path_prefix then batch else retain_mut (rebase_change path_prefix) batch

abbrev pub rebase_event : Text → FollowEvent → FollowEvent
rebase_event path_prefix (changes cursor batch) = changes cursor (rebase path_prefix batch)
rebase_event path_prefix event = event

-- The events that the raw events of a chunk add to `queued`.
unfoldable pub typed_events : Parsers → Text → List SseEvent → List FollowEvent
typed_events w path_prefix [] = []
typed_events w path_prefix (raw ∷ raws) =
    cons_some (Option.map (rebase_event path_prefix) (parse_follow_event w raw))
      (typed_events w path_prefix raws)

-- What the transport delivers: bytes of the body, or an error.
pub data Delivery : Type 0 where
  chunk : List ℕ → Delivery
  broken : Delivery

pub record HttpFollowStream : Type 0 where
  pub stream : List Delivery
  pub parser : SseParser
  pub queued : List FollowEvent
  pub path_prefix : Text

-- `Ok(Some(event))`, `Ok(None)` and `Err`.
pub data Next : Type 0 where
  event : FollowEvent → Next
  ended : Next
  error : Next

-- The loop of `next_event`, over what the transport still delivers.
unfoldable pub next_loop :
    Parsers → Text → SseParser → List FollowEvent → List Delivery → HttpFollowStream × Next
next_loop w path_prefix parser (e ∷ queued) stream = (
  record { stream = stream; parser = parser; queued = queued; path_prefix = path_prefix },
  event e,
)
next_loop w path_prefix parser [] [] =
    (record { stream = []; parser = parser; queued = []; path_prefix = path_prefix }, ended)
next_loop w path_prefix parser [] (broken ∷ stream) =
    (record { stream = stream; parser = parser; queued = []; path_prefix = path_prefix }, error)
next_loop w path_prefix parser [] (chunk bytes ∷ stream) =
    let (parser', raws) = push w.from_utf8_lossy parser bytes in
    next_loop w path_prefix parser' (typed_events w path_prefix raws) stream

abbrev pub next_event : Parsers → HttpFollowStream → HttpFollowStream × Next
next_event w s = next_loop w s.path_prefix s.parser s.queued s.stream
