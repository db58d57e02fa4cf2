-- ===== src/Follow/Sse.antt =====
-- `SseParser` of src/follow.rs. Bytes and characters are numbers; `String::from_utf8_lossy` is an
-- argument.
pub mod Bytewise
pub mod Framing
use hf_mount.Base.{
  ℕ, zero, suc, ◌+◌, ◌-◌, Bool, true, false, not, ◌&&◌, ◌||◌, Option, none, some, List, [], ◌∷◌,
  ◌++◌, length, take, drop, slice, cons_some, nat_beq, if◌then◌else◌, Text, codes, ◌==◌, text_eq,
}
use mathlib.Core.Option
use hf_mount.Inode.Entry.{is_empty}

pub record SseEvent : Type 0 where
  pub event : Text
  pub event_data : Text

pub record SseParser : Type 0 where
  pub buf : List ℕ
  pub scanned : ℕ
  pub event : Text
  pub event_data : Text

-- `SseParser::default()`
abbrev pub default : SseParser
default = record { buf = []; scanned = 0; event = []; event_data = [] }

unfoldable pub position : ℕ → List ℕ → Option ℕ
position b [] = none
position b (x ∷ xs) =
    let later = Option.map suc (position b xs) in if nat_beq x b then some 0 else later

unfoldable pub trim_end_matches : ℕ → Text → Text
trim_end_matches c [] = []
trim_end_matches c (x ∷ xs) =
    let rest = trim_end_matches c xs in if is_empty rest && nat_beq x c then [] else x ∷ rest

-- What stands before and behind the first `c`.
unfoldable pub split_once : ℕ → Text → Option (Text × Text)
split_once c [] = none
split_once c (x ∷ xs) =
    let later = Option.map (λ p. (x ∷ p.0, p.1)) (split_once c xs) in
    if nat_beq x c then some ([], xs) else later

-- `value.strip_prefix(' ').unwrap_or(value)`
unfoldable pub strip_space : Text → Text
strip_space [] = []
strip_space (c ∷ value) = if nat_beq c 32 then value else c ∷ value

abbrev pub is_comment : Text → Bool
is_comment [] = false
is_comment (c ∷ line) = nat_beq c 58

unfoldable pub field_and_value : Text → Text × Text
field_and_value line = elim (split_once 58 line) [
  | none ↦ (line, [])
  | some (field, value) ↦ (field, strip_space value)
]

unfoldable pub set_field : SseParser → Text × Text → SseParser
set_field p (field, value) =
    if field == codes "event"
    then record p { event = value }
    else if field == codes "data"
    then record p {
      event_data =
          (if is_empty p.event_data then p.event_data else p.event_data ++ 10 ∷ []) ++ value;
    }
    else p

-- The body of the loop, from the bytes of one line.
unfoldable pub take_line : (List ℕ → Text) → SseParser → List ℕ → SseParser × Option SseEvent
take_line from_utf8_lossy p bytes =
    let line = trim_end_matches 13 (from_utf8_lossy bytes) in
    if is_empty line
    then if not (is_empty p.event) || not (is_empty p.event_data)
      then (
        record p { event = []; event_data = [] },
        some (record { event = p.event; event_data = p.event_data }),
      )
      else (p, none)
    else if is_comment line
    then (p, none)
    else (set_field p (field_and_value line), none)

-- The loop, with the parser, `consumed` and the events at its end.
unfoldable pub push_loop : ℕ → (List ℕ → Text) → SseParser → ℕ → SseParser × ℕ × List SseEvent
push_loop zero from_utf8_lossy p consumed = (p, consumed, [])
push_loop (suc fuel) from_utf8_lossy p consumed = elim (position 10 (drop p.scanned p.buf)) [
  | none ↦ (p, consumed, [])
  | some pos ↦
      let end = p.scanned + pos in
      let bytes = slice p.buf consumed (end - consumed) in
      let (p', event) = take_line from_utf8_lossy (record p { scanned = end + 1 }) bytes in
      let (q, consumed', events) = push_loop fuel from_utf8_lossy p' (end + 1) in
      (q, consumed', cons_some event events)
]

-- `self.buf.drain(..consumed)` and what follows.
abbrev pub drain : SseParser × ℕ × List SseEvent → SseParser × List SseEvent
drain (p, consumed, events) =
    (record p { buf = drop consumed p.buf; scanned = length (drop consumed p.buf) }, events)

unfoldable pub push : (List ℕ → Text) → SseParser → List ℕ → SseParser × List SseEvent
push from_utf8_lossy p chunk =
    let loaded = record p { buf = p.buf ++ chunk } in
    drain (push_loop (suc (length loaded.buf)) from_utf8_lossy loaded 0)
