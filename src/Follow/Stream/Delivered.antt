-- ===== src/Follow/Stream/Delivered.antt =====
-- `next_event` of src/follow.rs delivers every event of the body, in order.
use hf_mount.Base.{
  ℕ, zero, suc, ◌<◌, ◌≡◌, refl, sym, ◌∙◌, ap, Option, none, some, List, [], ◌∷◌, ◌++◌, arith,
  length, cons_some, cons_some-append, Text, map,
}
use mathlib.Core.Option
use hf_mount.Follow.Sse.{SseEvent, SseParser, push}
use hf_mount.Follow.Sse.Bytewise.{feed_all}
use hf_mount.Follow.Sse.Framing.{IsScanned, push-feed_all, push-append}
use hf_mount.Follow.Stream.{
  FollowEvent, Parsers, chunk, HttpFollowStream, Next, event, ended, typed_events,
  parse_follow_event, rebase_event, next_loop, next_event,
}

-- The events of repeated calls, until one gives no event, and what that one gives.
unfoldable pub collect : ℕ → Parsers → HttpFollowStream → List FollowEvent × Option Next
collect zero w s = ([], none)
collect (suc fuel) w s =
    let (s', next) = next_event w s in
    elim next [
      | event e ↦ let (events, last) = collect fuel w s' in (e ∷ events, last)
      | other ↦ ([], some other)
    ]

abbrev pub concat : List (List ℕ) → List ℕ
concat [] = []
concat (bytes ∷ chunks) = bytes ++ concat chunks

typed_events-append :
    (w : Parsers) (path_prefix : Text) (a b : List SseEvent)
    → typed_events w path_prefix (a ++ b)
      ≡ typed_events w path_prefix a ++ typed_events w path_prefix b
unfolding typed_events
typed_events-append w path_prefix [] b = refl
typed_events-append w path_prefix (raw ∷ a) b =
    let first = Option.map (rebase_event path_prefix) (parse_follow_event w raw) in
    ap (cons_some first) (typed_events-append w path_prefix a b)
    ∙ sym (cons_some-append first (typed_events w path_prefix a) (typed_events w path_prefix b))

-- What the body still gives, after the queue.
abbrev pub remaining : Parsers → Text → SseParser → List (List ℕ) → List FollowEvent
remaining w path_prefix parser chunks =
    typed_events w path_prefix (push w.from_utf8_lossy parser (concat chunks)).1

remaining_cons :
    (w : Parsers) (path_prefix : Text) (parser : SseParser) (bytes : List ℕ)
    (chunks : List (List ℕ))
    → IsScanned parser
    → remaining w path_prefix parser (bytes ∷ chunks)
      ≡ typed_events w path_prefix (push w.from_utf8_lossy parser bytes).1
        ++ remaining w path_prefix (push w.from_utf8_lossy parser bytes).0 chunks
remaining_cons w path_prefix parser bytes chunks whole =
    ap (λ (r : SseParser × List SseEvent). typed_events w path_prefix r.1)
      (push-append w.from_utf8_lossy parser bytes (concat chunks) whole)
    ∙ typed_events-append w path_prefix (push w.from_utf8_lossy parser bytes).1
        (push w.from_utf8_lossy (push w.from_utf8_lossy parser bytes).0 (concat chunks)).1

remaining_none :
    (w : Parsers) (path_prefix : Text) (parser : SseParser)
    → IsScanned parser
    → remaining w path_prefix parser [] ≡ []
unfolding typed_events feed_all
remaining_none w path_prefix parser whole =
    ap (λ (r : SseParser × List SseEvent). typed_events w path_prefix r.1)
      (push-feed_all w.from_utf8_lossy parser [] whole).0

-- If the transport delivers the chunks and then ends, repeated calls of `next_event` give the queued
-- events and then every event of the bytes of all chunks together, each once and in order, and the
-- call after the last event says that the stream ended. Fuel of one call for each event and one more
-- is enough.
pub collect_lem :
    (fuel : ℕ) (w : Parsers) (path_prefix : Text) (parser : SseParser) (queued : List FollowEvent)
    (chunks : List (List ℕ))
    → IsScanned parser
    → length (queued ++ remaining w path_prefix parser chunks) < fuel
    → collect fuel w (record {
      stream = map chunk chunks;
      parser = parser;
      queued = queued;
      path_prefix = path_prefix;
    })
      ≡ (queued ++ remaining w path_prefix parser chunks, some ended)
unfolding collect next_loop
collect_lem zero w path_prefix parser queued chunks whole enough = absurd (omega arith)
collect_lem (suc fuel) w path_prefix parser (e ∷ queued) chunks whole enough =
    ap (λ (r : List FollowEvent × Option Next). (e ∷ r.0, r.1))
      (collect_lem fuel w path_prefix parser queued chunks whole (omega arith))
collect_lem (suc fuel) w path_prefix parser [] [] whole enough =
    ap (λ l. (l, some ended)) (sym (remaining_none w path_prefix parser whole))
collect_lem (suc fuel) w path_prefix parser [] (bytes ∷ chunks) whole enough =
    let later = remaining_cons w path_prefix parser bytes chunks whole in
    let (parser', raws) = push w.from_utf8_lossy parser bytes in
    collect_lem (suc fuel) w path_prefix parser' (typed_events w path_prefix raws) chunks
      (push-feed_all w.from_utf8_lossy parser bytes whole).1
      (omega (arith, ap (λ l. length {0} l) later))
    ∙ ap (λ l. (l, some ended)) (sym later)
