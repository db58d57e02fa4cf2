-- ===== src/Prefetch/Plan.antt =====
-- `prepare_fetch` of src/virtual_fs/prefetch.rs: the invariant is kept, and the plan fits the file.
use mathlib.Core.Path.{subst}
use hf_mount.Base.{
  ℕ, ◌+◌, ◌-◌, ◌≤◌, ◌<◌, min, ◌≡◌, Bool, true, ◌&&◌, none, some, arith, length, nat_beq, if_keeps,
  u64_mod, add64_exact, sub64_exact, mul64_exact,
}
use hf_mount.Prefetch.Chunks.{Bytes}
use hf_mount.Prefetch.State.{
  PrefetchState, FetchStrategy, start_stream, continue_stream, range_download, FetchPlan,
  initial_window, max_window, forward_skip, drain_consumed, classify, choose, fetch_size_of,
  prepare_fetch,
}
use hf_mount.Prefetch.Mirrors.{IsWindowed, drain_to_seek_mirrors}
use hf_mount.Prefetch.Serve.{IsSound, drain_to_seek-IsSound}

-- `fetch_size` covers what the reader still needs, and no byte past the end of the file; a range
-- download fetches nothing more than that.
pub record FitsFile (file : Bytes) (offset size : ℕ) (plan : FetchPlan) : Type 0 where
  pub enough : min size (length file - offset) ≤ plan.fetch_size
  pub inside : offset + plan.fetch_size ≤ length file
  pub exact : plan.strategy ≡ range_download → plan.fetch_size ≡ min size (length file - offset)

module _ (file : Bytes) (room : length file + forward_skip < u64_mod) (offset size : ℕ)
    (before_end : offset < length file) where
  fetch_size_fits :
      (strategy : FetchStrategy) (window : ℕ)
      → FitsFile file offset size (record {
        strategy = strategy;
        fetch_size = fetch_size_of strategy window (length file) offset size;
      })
  unfolding fetch_size_of
  fetch_size_fits start_stream window =
      rw (sub64_exact (length file) offset (omega arith) (omega arith)) (ground arith)
  fetch_size_fits continue_stream window =
      rw (sub64_exact (length file) offset (omega arith) (omega arith)) (ground arith)
  fetch_size_fits range_download window =
      rw (sub64_exact (length file) offset (omega arith) (omega arith)) (ground arith)

-- The window doubles up to its maximum on a sequential read, and is reset on a far seek.
classify-IsWindowed :
    {S : Type 0} (st : PrefetchState S) (offset : ℕ)
    → IsWindowed st
    → (initial_window ≤ (classify st offset).1) × ((classify st offset).1 ≤ max_window)
unfolding classify
classify-IsWindowed st offset w = ground (arith, mul64_exact st.window_size 2, w.low, w.high)

module _ {S : Type 0} (file : Bytes) (room : length file + forward_skip < u64_mod)
    (At : ℕ → S → Type 0) where
  -- The drained state is sound; from `buf_start` on nothing is left in the buffer, which then
  -- starts where it ended.
  drain_consumed-IsSound :
      (st : PrefetchState S) (offset : ℕ)
      → IsSound file At st
      → IsSound file At (drain_consumed st offset)
  unfolding drain_consumed
  drain_consumed-IsSound st offset v =
      if_keeps (IsSound file At) _ (drain_to_seek-IsSound room st _ v) v

  drain_consumed_empty :
      (st : PrefetchState S) (offset : ℕ)
      → IsSound file At st
      → st.buf_start ≤ offset
      → (drain_consumed st offset).chunks_len ≡ 0
  unfolding drain_consumed
  drain_consumed_empty st offset v h =
      let d = drain_to_seek_mirrors file room st st.chunks_len v.forward v.behind in
      ground (arith, d.left)

  -- A read that counts as sequential does not reach back before the buffer.
  classify_ahead :
      (st : PrefetchState S) (offset : ℕ)
      → IsSound file At st
      → (classify st offset).0 ≡ true
      → st.buf_start ≤ offset
  unfolding classify
  classify_ahead st offset v h =
      ground (arith, add64_exact st.buf_start st.chunks_len, v.forward.within)

-- A stream is kept only for a sequential read at the start of the buffer.
choose_kept :
    {S : Type 0} (st : PrefetchState S) (first sequential : Bool) (offset : ℕ) {s : S}
    → (choose st first sequential offset).1 ≡ some s
    → (st.stream ≡ some s) × (sequential ≡ true) × (offset ≡ st.buf_start)
unfolding choose
choose_kept st first sequential offset e = ground arith

choose_bounded :
    {S : Type 0} (st : PrefetchState S) (first sequential : Bool) (offset : ℕ)
    → (choose st first sequential offset).0 ≡ range_download
    → (choose st first sequential offset).1 ≡ none
unfolding choose
choose_bounded st first sequential offset e = ground arith

-- What `prepare_fetch` promises: the invariant, a plan that fits the file, and a stream, if one is
-- left, that stands at the offset to fetch from.
pub record IsPrepared {S : Type 0} (file : Bytes) (At : ℕ → S → Type 0) (offset size : ℕ)
    (r : PrefetchState S × FetchPlan) : Type 0 where
  pub sound : IsSound file At r.0
  pub fits : FitsFile file offset size r.1
  pub resumes : (s : S) → r.0.stream ≡ some s → At offset s
  pub bounded : r.1.strategy ≡ range_download → r.0.stream ≡ none

-- From a sound state and an offset inside the file, `prepare_fetch` keeps both buffers mirroring
-- the file and the window between 8 MiB and 128 MiB; the fetch size covers what is needed and ends
-- inside the file, and is exactly what is needed for a range download, which leaves no stream; a
-- stream that is kept stands at the offset, so that its next bytes are the ones to read.
pub prepare_fetch-IsPrepared :
    {S : Type 0} (file : Bytes) (room : length file + forward_skip < u64_mod) (At : ℕ → S → Type 0)
    (st : PrefetchState S) (offset size : ℕ)
    → offset < length file
    → IsSound file At st
    → IsPrepared file At offset size (prepare_fetch st offset size)
unfolding prepare_fetch
prepare_fetch-IsPrepared file room At st offset size before_end v =
    let d = drain_consumed st offset in
    let first = nat_beq st.chunks_len 0 && nat_beq st.buf_start 0 in
    let sequential = (classify st offset).0 in
    let dv : IsSound file At d = drain_consumed-IsSound file room At st offset v in
    let w = classify-IsWindowed st offset v.windowed in
    record {
      sound = record {
        forward = record {
          size = dv.forward.size;
          len = dv.forward.len;
          fits = dv.forward.fits;
          within = dv.forward.within;
          buffer = dv.forward.buffer;
        };
        behind = dv.behind;
        windowed = record { low = w.0; high = w.1 };
        positioned = λ s e. dv.positioned s (choose_kept d first sequential offset e).0;
      };
      fits = rw dv.forward.size (fetch_size_fits file room offset size before_end _ _);
      resumes = λ s e.
          let (kept, ahead, at_start) = choose_kept d first sequential offset e in
          let empty : d.chunks_len ≡ 0 =
            drain_consumed_empty file room At st offset v
              (classify_ahead file room At st offset v ahead) in
          let here : d.buf_start + d.chunks_len ≡ offset = omega arith in
          subst (λ p. At p s) here (dv.positioned s kept);
      bounded = choose_bounded d first sequential offset;
    }
