-- ===== src/Tests/Follows.antt =====
-- Runs of src/follow.rs on short streams.
use hf_mount.Base.{
  ℕ, ◌<◌, ◌≡◌, refl, none, some, List, [], ◌∷◌, ◌++◌, arith, Text, codes, map, length,
}
use hf_mount.Base.Equality
use hf_mount.Follow.Sse
use hf_mount.Follow.Stream
use hf_mount.Follow.Sse.{SseParser, SseEvent, default, push}
use hf_mount.Follow.Sse.Bytewise.{feed_all}
use hf_mount.Follow.Sse.Framing.{IsScanned, push-feed_all}
use hf_mount.Follow.Stream.{
  Parsers, FollowChange, FollowEvent, Next, ended, reset, update, chunk, rebase,
}
use hf_mount.Follow.Stream.Delivered.{collect, remaining, collect_lem}

abbrev ascii : List ℕ → Text
ascii bytes = bytes

abbrev reset_bytes : List ℕ
reset_bytes = codes "event: reset\r\ndata: {}\r\n\r\n"

-- The two halves of the stream are cut inside of a line.
push_halves :
    (push ascii (push ascii default (codes "event: re")).0 (codes "set\r\ndata: {}\r\n\r\n")).1
    ≡ record { event = codes "reset"; event_data = codes "{}" } ∷ []
unfolding push Sse.push_loop Sse.position Sse.take_line Sse.trim_end_matches Sse.set_field
    Equality.text_beq Sse.field_and_value Sse.split_once Sse.strip_space
push_halves = refl

push-feed_all_example :
    (push ascii default reset_bytes ≡ feed_all ascii default reset_bytes)
    × IsScanned (push ascii default reset_bytes).0
push-feed_all_example = push-feed_all ascii default reset_bytes refl

abbrev change : FollowChange
change = record {
  path = codes "a/f";
  op = update;
  size = some 3;
  xet_hash = none;
  uploaded_at = none;
  mtime = none;
}

abbrev no_json : Parsers
no_json = record { from_utf8_lossy = ascii; cursor_only = λ t. none; changes_data = λ t. none }

-- One event is left.
few : length (remaining no_json [] default (codes "event: re" ∷ codes "set\n\n" ∷ [])) < 2
unfolding push Sse.push_loop Sse.position Sse.take_line Sse.trim_end_matches Sse.set_field
    Equality.text_beq Sse.field_and_value Sse.split_once Sse.strip_space Stream.typed_events
    Stream.parse_follow_event
few = omega arith

collect_lem_example :
    collect 2 no_json (record {
      stream = map chunk (codes "event: re" ∷ codes "set\n\n" ∷ []);
      parser = default;
      queued = [];
      path_prefix = [];
    })
    ≡ ([] ++ remaining no_json [] default (codes "event: re" ∷ codes "set\n\n" ∷ []), some ended)
collect_lem_example =
    collect_lem 2 no_json [] default [] (codes "event: re" ∷ codes "set\n\n" ∷ []) refl few
