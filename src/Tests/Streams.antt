-- ===== src/Tests/Streams.antt =====
-- A file of five bytes behind the read-ahead buffer of src/virtual_fs/prefetch.rs.
use mathlib.Core.Path.{subst}
use hf_mount.Base.{
  ℕ, zero, suc, ◌+◌, ◌≤◌, ◌<◌, ◌≡◌, ◌⊎◌, inl, inr, refl, ap, false, Option, none, some, List, [],
  ◌∷◌, arith, length, slice, ltb, if◌then◌else◌, u64_mod, min,
}
use hf_mount.Prefetch.Chunks.{Bytes, read_chunk_range, logical, read_chunk_range_lem}
use hf_mount.Prefetch.State.{
  PrefetchState, initial_window, forward_skip, FetchPlan, range_download, drain_to_seek,
  try_serve_forward, try_serve_seek, prepare_fetch,
}
use hf_mount.Prefetch.Mirrors.{IsPiece}
use hf_mount.Prefetch.Serve.{
  IsSound, drain_to_seek-IsSound, try_serve_forward_lem, try_serve_seek_lem,
}
use hf_mount.Prefetch.Plan.{IsPrepared, prepare_fetch-IsPrepared}
use hf_mount.Prefetch.Fetch.{Next, chunk, eof, Downloads, fetch_data}
use hf_mount.Prefetch.Fetch.Faithful.{IsFaithful}
use hf_mount.Prefetch.Fetch.Attempts.{IsAttempted, fetch_data-IsAttempted}
use hf_mount.Prefetch.Read.{ReadResult, read}
use hf_mount.Prefetch.Read.Loop.{IsCorrect}
use hf_mount.Prefetch.Read.Correct.{read-IsCorrect}

abbrev content : Bytes
content = 10 ∷ 11 ∷ 12 ∷ 13 ∷ 14 ∷ []

-- A stream is its position; it yields two bytes at a time.
abbrev next_of : ℕ → Next ℕ
next_of p = if ltb p 5 then chunk (slice content p 2) (p + 2) else eof p

-- The world counts the streams that were opened.
abbrev downloads : Downloads ℕ ℕ
downloads = record { open_stream = λ w cursor end. (w + 1, some cursor); next = next_of }

abbrev StandsAt : ℕ → ℕ → Type 0
StandsAt p s = (s ≡ p) ⊎ (5 ≤ s)

-- Two chunks from offset 0, the first byte consumed, and a stream behind them.
abbrev loaded : PrefetchState ℕ
loaded = record {
  xet_hash = [];
  file_size = 5;
  chunks = (10 ∷ 11 ∷ []) ∷ (12 ∷ []) ∷ [];
  chunks_len = 2;
  chunks_front_offset = 1;
  buf_start = 1;
  seek_data = 10 ∷ [];
  seek_start = 0;
  window_size = initial_window;
  stream = some 3;
  forward_only = false;
}

loaded-IsSound : IsSound content StandsAt loaded
unfolding logical
loaded-IsSound = record {
  forward = record {
    size = refl;
    len = refl;
    fits = omega arith;
    within = omega arith;
    buffer = refl;
  };
  behind = record { piece = record { inside = omega arith; bytes = refl }; seek_cap = omega arith };
  windowed = record { low = omega arith; high = omega arith };
  positioned = λ s e. inl (ground arith);
}

room : length content + forward_skip < u64_mod
room = omega arith

next_chunk_of :
    (s s' : ℕ) (c : Bytes)
    → next_of s ≡ chunk c s'
    → (s < 5) × (c ≡ slice content s 2) × (s' ≡ s + 2)
next_chunk_of s s' c e = ground arith

next_eof_of : (s s' : ℕ) → next_of s ≡ eof s' → (5 ≤ s) × (s' ≡ s)
next_eof_of s s' e = ground arith

next_two_lem :
    (s : ℕ)
    → s < 5
    → IsPiece content s (slice content s 2)
      × (0 < length (slice content s 2))
      × (s + length (slice content s 2) ≡ min (s + 2) 5)
next_two_lem zero h = (record { inside = omega arith; bytes = refl }, omega arith, refl)
next_two_lem (suc zero) h = (record { inside = omega arith; bytes = refl }, omega arith, refl)
next_two_lem (suc (suc zero)) h = (record { inside = omega arith; bytes = refl }, omega arith, refl)
next_two_lem (suc (suc (suc zero))) h =
    (record { inside = omega arith; bytes = refl }, omega arith, refl)
next_two_lem (suc (suc (suc (suc zero)))) h =
    (record { inside = omega arith; bytes = refl }, omega arith, refl)
next_two_lem (suc (suc (suc (suc (suc s))))) h = absurd (omega arith)

faithful : IsFaithful content StandsAt downloads
faithful = record {
  opened = λ w cursor end s e. inl (ground arith);
  next_chunk = λ p s s' c here e.
      let (inside, bytes, next) = next_chunk_of s s' c e in
      let at_s : s ≡ p = ground arith in
      let (piece, some_bytes, end) = next_two_lem s inside in
      let long : length c ≡ length (slice content s 2) = ap length bytes in
      (subst (λ q. IsPiece content q c) at_s (rw bytes piece), ground arith);
  nonempty = λ s s' c e.
      let (inside, bytes, next) = next_chunk_of s s' c e in rw bytes (next_two_lem s inside).1;
  ended = λ p q s s' here e. inr (ground (arith, next_eof_of s s' e));
}

-- The read that the buffer holds only in part goes on with the stream.
read-IsCorrect_example :
    (r : ℕ × PrefetchState ℕ × ReadResult) × (read downloads 6 5 0 loaded 2 3 ≡ some r)
    × IsCorrect content StandsAt 2 3 r
read-IsCorrect_example =
    read-IsCorrect content room StandsAt downloads faithful 2 3 (omega arith) 6 5 (omega arith)
      (omega arith) 0 loaded loaded-IsSound

prepare_fetch-IsPrepared_example : IsPrepared content StandsAt 3 2 (prepare_fetch loaded 3 2)
prepare_fetch-IsPrepared_example =
    prepare_fetch-IsPrepared content room StandsAt loaded 3 2 (omega arith) loaded-IsSound

abbrev range_plan : FetchPlan
range_plan = record { strategy = range_download; fetch_size = 2 }

abbrev streamless : PrefetchState ℕ
streamless = record loaded { stream = none }

fetch_data-IsAttempted_example :
    (r : ℕ × PrefetchState ℕ × Option (List Bytes × ℕ)) × (fetch_data downloads 3 0 streamless 3
        range_plan
      ≡ some r)
    × IsAttempted content StandsAt 3 streamless r
fetch_data-IsAttempted_example =
    fetch_data-IsAttempted content StandsAt downloads faithful 3 (omega arith) range_plan
      (omega arith) 3 (omega arith) 0 streamless (λ s e. ground arith) (λ e. refl)

try_serve_forward_lem_example :
    ((try_serve_forward loaded 2 9).1 ≡ some (12 ∷ []))
    × IsSound content StandsAt (try_serve_forward loaded 2 9).0
try_serve_forward_lem_example =
    try_serve_forward_lem content room StandsAt loaded 2 9 loaded-IsSound

try_serve_seek_lem_example : try_serve_seek loaded 0 4 ≡ some (10 ∷ [])
try_serve_seek_lem_example = try_serve_seek_lem content room StandsAt loaded 0 4 loaded-IsSound

drain_to_seek-IsSound_example : IsSound content StandsAt (drain_to_seek loaded 1)
drain_to_seek-IsSound_example = drain_to_seek-IsSound room loaded 1 loaded-IsSound

read_chunk_range_lem_example :
    read_chunk_range ((10 ∷ 11 ∷ []) ∷ (12 ∷ 13 ∷ []) ∷ []) 1 1 2 ≡ 12 ∷ 13 ∷ []
unfolding logical
read_chunk_range_lem_example =
    read_chunk_range_lem ((10 ∷ 11 ∷ []) ∷ (12 ∷ 13 ∷ []) ∷ []) 1 1 2 (omega arith)
