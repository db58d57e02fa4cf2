-- ===== src/Prefetch/Serve.antt =====
-- `try_serve_forward` and `try_serve_seek` of src/virtual_fs/prefetch.rs return the file's bytes.
use hf_mount.Base.{
  ℕ, ◌+◌, ◌-◌, ◌≤◌, ◌<◌, min, ◌≡◌, sym, ◌∙◌, ap, ◌&&◌, Option, none, some, inl, inr, arith, length,
  slice, ltb, leb, if◌then◌else◌, u64_mod, add64_exact, sub64, ◌⊎◌, sub64_exact, slice-slice,
}
use hf_mount.Prefetch.Chunks.{Bytes}
use hf_mount.Prefetch.State.{
  PrefetchState, window_of, forward_skip, drain_to_seek, try_serve_forward, try_serve_seek,
}
use hf_mount.Prefetch.Mirrors.{
  MirrorsForward, MirrorsSeek, IsWindowed, IsDrained, read_buffer, drain_to_seek_mirrors,
}

-- The whole invariant: both buffers mirror the file, the read-ahead window is in range, and a
-- download stream that is kept stands at the end of the forward buffer. `At p s` says that the
-- stream `s` yields the file from offset `p` on.
pub record IsSound {S : Type 0} (file : Bytes) (At : ℕ → S → Type 0) (st : PrefetchState S)
    : Type 0 where
  pub forward : MirrorsForward file st
  pub behind : MirrorsSeek file (window_of st)
  pub windowed : IsWindowed st
  pub positioned : (s : S) → st.stream ≡ some s → At (st.buf_start + st.chunks_len) s

-- What a read at `offset` finds in a buffer of `len` bytes that starts at `start`.
abbrev pub hit : Bytes → ℕ → ℕ → ℕ → ℕ → Option Bytes
hit file start len offset size =
    if leb start offset && ltb offset (start + len)
    then some (slice file offset (min size (start + len - offset)))
    else none

module _ {S : Type 0} (file : Bytes) (room : length file + forward_skip < u64_mod)
    (st : PrefetchState S) (offset size : ℕ) where
  serve_forward_bytes :
      MirrorsForward file st
      → (try_serve_forward st offset size).1 ≡ hit file st.buf_start st.chunks_len offset size
  unfolding try_serve_forward
  serve_forward_bytes m =
      let logical_off = offset - st.buf_start in
      ground (
        arith,
        add64_exact st.buf_start st.chunks_len,
        sub64_exact offset st.buf_start,
        read_buffer file room st logical_off (min size (st.chunks_len - logical_off)) m,
        m.within,
      )

  seek_slice :
      (skip count : ℕ)
      → MirrorsSeek file (window_of st)
      → slice st.seek_data skip count
        ≡ slice file (st.seek_start + skip) (min count (length st.seek_data - skip))
  seek_slice skip count m =
      ap (λ b. slice b skip count) m.piece.bytes
      ∙ slice-slice file st.seek_start (length st.seek_data) skip count

  serve_seek_bytes :
      MirrorsSeek file (window_of st)
      → try_serve_seek st offset size ≡ (
          if st.forward_only
          then none
          else hit file st.seek_start (length st.seek_data) offset size)
  unfolding try_serve_seek
  serve_seek_bytes m =
      let local_off = offset - st.seek_start in
      ground (
        arith,
        add64_exact st.seek_start (length st.seek_data),
        sub64_exact offset st.seek_start,
        seek_slice local_off (min size (length st.seek_data - local_off)) m,
        m.piece.inside,
      )

-- Draining keeps the invariant: the end of the forward buffer does not move.
pub drained-IsSound :
    {S : Type 0} {file : Bytes} {At : ℕ → S → Type 0} {st st' : PrefetchState S} (moved : ℕ)
    → moved ≤ st.chunks_len
    → IsSound file At st
    → IsDrained file st st' moved
    → IsSound file At st'
drained-IsSound {At = At} {st} {st'} moved h v d =
    let same_end : st.buf_start + st.chunks_len ≡ st'.buf_start + st'.chunks_len =
      omega (arith, d.start, d.left) in
    record {
      forward = d.forward;
      behind = d.behind;
      windowed = rw_window d.same_window v.windowed;
      positioned = λ s e. rw (← same_end) (v.positioned s (sym d.same_stream ∙ e));
    }
  where
    rw_window : st'.window_size ≡ st.window_size → IsWindowed st → IsWindowed st'
    rw_window e w = record { low = omega (arith, w.low); high = omega (arith, w.high) }

-- `drain_to_seek` keeps the invariant, for any count of consumed bytes and in every mode.
pub drain_to_seek-IsSound :
    {S : Type 0} {file : Bytes} {At : ℕ → S → Type 0} (room : length file + forward_skip < u64_mod)
    (st : PrefetchState S) (consumed : ℕ)
    → IsSound file At st
    → IsSound file At (drain_to_seek st consumed)
drain_to_seek-IsSound {file = file} room st consumed v =
    drained-IsSound (min consumed st.chunks_len) (omega arith) v
      (drain_to_seek_mirrors file room st consumed v.forward v.behind)

-- The state after a read from the forward buffer: as it was, or drained.
serve_forward_state :
    {S : Type 0} (st : PrefetchState S) (offset size : ℕ)
    → let logical_off = sub64 offset st.buf_start in
      let to_read = min size (st.chunks_len - logical_off) in
      ((try_serve_forward st offset size).0 ≡ st)
      ⊎ ((try_serve_forward st offset size).0 ≡ drain_to_seek st (logical_off + to_read))
unfolding try_serve_forward
serve_forward_state st offset size = ground arith

serve_forward-IsSound :
    {S : Type 0} (file : Bytes) (room : length file + forward_skip < u64_mod) (At : ℕ → S → Type 0)
    (st : PrefetchState S) (offset size : ℕ)
    → IsSound file At st
    → IsSound file At (try_serve_forward st offset size).0
serve_forward-IsSound file room At st offset size v = elim (serve_forward_state st offset size) [
  | inl same ↦ rw same v
  | inr drained ↦ rw drained (drain_to_seek-IsSound room st _ v)
]

-- `try_serve_forward` returns exactly the file's bytes at the offset, as many as the buffer holds
-- up to `size`, or nothing when the offset is outside the buffer. In every mode the invariant is
-- kept, also where forward-only mode drains what was read.
pub try_serve_forward_lem :
    {S : Type 0} (file : Bytes) (room : length file + forward_skip < u64_mod) (At : ℕ → S → Type 0)
    (st : PrefetchState S) (offset size : ℕ)
    → IsSound file At st
    → ((try_serve_forward st offset size).1 ≡ hit file st.buf_start st.chunks_len offset size)
      × IsSound file At (try_serve_forward st offset size).0
try_serve_forward_lem file room At st offset size v = (
  serve_forward_bytes file room st offset size v.forward,
  serve_forward-IsSound file room At st offset size v,
)

-- `try_serve_seek` returns exactly the file's bytes from the backward window, and nothing in
-- forward-only mode or outside the window.
pub try_serve_seek_lem :
    {S : Type 0} (file : Bytes) (room : length file + forward_skip < u64_mod) (At : ℕ → S → Type 0)
    (st : PrefetchState S) (offset size : ℕ)
    → IsSound file At st
    → try_serve_seek st offset size
      ≡ (if st.forward_only then none else hit file st.seek_start (length st.seek_data) offset size)
try_serve_seek_lem file room At st offset size v =
    serve_seek_bytes file room st offset size v.behind
