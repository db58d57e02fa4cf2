-- ===== src/Prefetch/Mirrors.antt =====
-- The buffers of `PrefetchState` always hold the file's own bytes, at the offsets that the state
-- claims, and the download stream stands at the end of the forward buffer.
use hf_mount.Base.{
  ℕ, ◌+◌, ◌-◌, ◌≤◌, ◌<◌, min, ◌≡◌, refl, ◌∙◌, ap, Bool, true, false, inl, inr, arith, ◌++◌, length,
  length-drop, drop, slice, ltb, nat_beq, if◌then◌else◌, Bool-cases, u64_mod, add64, add64_exact,
  length-slice, length-slice_within, slice-slice, drop-slice, slice-append,
}
use hf_mount.Prefetch.Chunks.{
  Bytes, logical, FrontFits, read_chunk_range, read_chunk_range_lem, pop_consumed, IsPopped,
  pop_consumed-IsPopped,
}
use hf_mount.Prefetch.State.{
  PrefetchState, SeekWindow, window_of, initial_window, max_window, seek_window, forward_skip,
  copy_chunks_to_seek, trim_seek, extends_seek, fill_seek, popped, drain, drain_to_seek,
}

-- The forward buffer holds `file[buf_start .. buf_start + chunks_len]`.
pub record MirrorsForward {S : Type 0} (file : Bytes) (st : PrefetchState S) : Type 0 where
  pub size : st.file_size ≡ length file
  pub len : st.chunks_len ≡ length (logical st.chunks st.chunks_front_offset)
  pub fits : FrontFits st.chunks st.chunks_front_offset
  pub within : st.buf_start + st.chunks_len ≤ length file
  pub buffer : logical st.chunks st.chunks_front_offset ≡ slice file st.buf_start st.chunks_len

-- `data` is `file[start .. start + data.len()]`.
pub record IsPiece (file : Bytes) (start : ℕ) (data_bytes : Bytes) : Type 0 where
  pub inside : start + length data_bytes ≤ length file
  pub bytes : data_bytes ≡ slice file start (length data_bytes)

pub IsPiece-slice :
    (file : Bytes) (start n : ℕ) → start + n ≤ length file → IsPiece file start (slice file start n)
IsPiece-slice file start n h =
    let e : length (slice file start n) ≡ n = length-slice_within file start n h in
    record { inside = rw e h; bytes = rw e refl }

module _ (file : Bytes) (start : ℕ) where
  pub IsPiece-append :
      (a : Bytes) (n : ℕ)
      → IsPiece file start a
      → start + length a + n ≤ length file
      → IsPiece file start (a ++ slice file (start + length a) n)
  IsPiece-append a n p h =
      let e : a ++ slice file (start + length a) n ≡ slice file start (length a + n) =
        ap (λ b. b ++ slice file (start + length a) n) p.bytes
        ∙ slice-append file start (length a) n in
      rw e (IsPiece-slice file start (length a + n) (omega arith))

  IsPiece-drop :
      (a : Bytes) (k : ℕ)
      → IsPiece file start a
      → k ≤ length a
      → IsPiece file (start + k) (drop k a)
  IsPiece-drop a k p h =
      let e : drop k a ≡ slice file (start + k) (length a - k) =
        ap (drop k) p.bytes ∙ drop-slice file start (length a) k in
      rw e (IsPiece-slice file (start + k) (length a - k) (omega (arith, p.inside)))

-- The seek window holds the file's bytes from `seek_start` on, at most 1 MiB of them.
pub record MirrorsSeek (file : Bytes) (w : SeekWindow) : Type 0 where
  pub piece : IsPiece file w.seek_start w.seek_data
  pub seek_cap : length w.seek_data ≤ seek_window

pub record IsWindowed {S : Type 0} (st : PrefetchState S) : Type 0 where
  pub low : initial_window ≤ st.window_size
  pub high : st.window_size ≤ max_window

-- What `drain_to_seek` leaves: both buffers mirror the file, the forward buffer starts `moved`
-- bytes later, and the end of the buffer has not moved.
pub record IsDrained {S : Type 0} (file : Bytes) (st st' : PrefetchState S) (moved : ℕ)
    : Type 0 where
  pub forward : MirrorsForward file st'
  pub behind : MirrorsSeek file (window_of st')
  pub start : st'.buf_start ≡ st.buf_start + moved
  pub left : st'.chunks_len ≡ st.chunks_len - moved
  pub same_stream : st'.stream ≡ st.stream
  pub same_window : st'.window_size ≡ st.window_size
  pub same_mode : st'.forward_only ≡ st.forward_only

module _ (file : Bytes) (room : length file + forward_skip < u64_mod) where
  trim_seek_mirrors :
      (w : SeekWindow) → IsPiece file w.seek_start w.seek_data → MirrorsSeek file (trim_seek w)
  unfolding trim_seek
  trim_seek_mirrors w p =
      let excess = length w.seek_data - seek_window in
      elim (Bool-cases (ltb seek_window (length w.seek_data))) [
        | inl over ↦
            rw (over, add64_exact w.seek_start excess (omega (arith, p.inside)))
              (record {
                piece = IsPiece-drop file w.seek_start w.seek_data excess p (omega arith);
                seek_cap = ground (arith, length-drop excess w.seek_data);
              })
        | inr under ↦ rw under (record { piece = p; seek_cap = ground arith })
      ]

module _ {S : Type 0} (file : Bytes) (room : length file + forward_skip < u64_mod) where
  -- The bytes that are read from the forward buffer are the file's.
  pub read_buffer :
      (st : PrefetchState S) (skip count : ℕ)
      → MirrorsForward file st
      → skip + count ≤ st.chunks_len
      → read_chunk_range st.chunks st.chunks_front_offset skip count
        ≡ slice file (st.buf_start + skip) count
  read_buffer st skip count m h =
      read_chunk_range_lem st.chunks st.chunks_front_offset skip count m.fits
      ∙ ap (λ b. slice b skip count) m.buffer
      ∙ slice-slice file st.buf_start st.chunks_len skip count
      ∙ ap (slice file (st.buf_start + skip)) (cap_min count (st.chunks_len - skip) (omega arith))
    where
      cap_min : (a b : ℕ) → a ≤ b → min a b ≡ a
      cap_min a b le = omega arith

  extends_contiguous :
      (st : PrefetchState S) (to_move : ℕ)
      → MirrorsSeek file (window_of st)
      → extends_seek st to_move ≡ true
      → st.seek_start + length st.seek_data ≡ st.buf_start
  unfolding extends_seek
  extends_contiguous st to_move s h =
      ground (arith, add64_exact st.seek_start (length st.seek_data), s.piece.inside)

  fill_seek_mirrors :
      (st : PrefetchState S) (to_move : ℕ)
      → MirrorsForward file st
      → MirrorsSeek file (window_of st)
      → to_move ≤ st.chunks_len
      → MirrorsSeek file (fill_seek st to_move)
  unfolding fill_seek copy_chunks_to_seek
  fill_seek_mirrors st to_move m s h = elim (Bool-cases (extends_seek st to_move)) [
    | inl extends ↦ rw extends (trim_seek_mirrors file room _ (appended extends))
    | inr reset ↦ rw reset (record { piece = replaced; seek_cap = capped })
  ]
    where
      skipped : ℕ
      skipped = to_move - min to_move seek_window

      appended :
          extends_seek st to_move ≡ true
          → IsPiece file st.seek_start
              (st.seek_data ++ read_chunk_range st.chunks st.chunks_front_offset 0 to_move)
      appended e =
          let at_end : st.seek_start + length st.seek_data ≡ st.buf_start =
            extends_contiguous st to_move s e in
          let start : st.buf_start + 0 ≡ st.seek_start + length st.seek_data = omega arith in
          rw (read_buffer st 0 to_move m (omega arith), start)
            (IsPiece-append file st.seek_start st.seek_data to_move s.piece
              (omega (arith, m.within)))

      capped :
          length
            (read_chunk_range st.chunks st.chunks_front_offset skipped (min to_move seek_window))
          ≤ seek_window
      capped =
          rw (read_buffer st skipped (min to_move seek_window) m (omega arith))
            (omega (arith, length-slice file (st.buf_start + skipped) (min to_move seek_window)))

      replaced :
          IsPiece file
            (add64 st.buf_start skipped)
            (read_chunk_range st.chunks st.chunks_front_offset skipped (min to_move seek_window))
      replaced =
          rw
            (
              add64_exact st.buf_start skipped (omega (arith, m.within)),
              read_buffer st skipped (min to_move seek_window) m (omega arith),
            )
            (IsPiece-slice file (st.buf_start + skipped) (min to_move seek_window)
              (omega (arith, m.within)))

  pop_mirrors :
      (st : PrefetchState S) (to_move : ℕ) (w : SeekWindow)
      → MirrorsForward file st
      → to_move ≤ st.chunks_len
      → MirrorsForward file (popped st w to_move)
        × ((popped st w to_move).buf_start ≡ st.buf_start + to_move)
        × ((popped st w to_move).chunks_len ≡ st.chunks_len - to_move)
  unfolding popped
  pop_mirrors st to_move w m h =
      let front = pop_consumed st.chunks st.chunks_front_offset st.chunks_len to_move in
      let p : IsPopped st.chunks st.chunks_front_offset to_move front =
        pop_consumed-IsPopped st.chunks st.chunks_front_offset st.chunks_len to_move m.fits m.len in
      let start : add64 st.buf_start to_move ≡ st.buf_start + to_move =
        add64_exact st.buf_start to_move (omega (arith, m.within)) in
      let bytes : logical front.chunks front.chunks_front_offset
          ≡ slice file (st.buf_start + to_move) (st.chunks_len - to_move) =
        p.bytes ∙ ap (drop to_move) m.buffer ∙ drop-slice file st.buf_start st.chunks_len to_move in
      let len : front.chunks_len ≡ st.chunks_len - to_move =
        p.len
        ∙ ap length bytes
        ∙ length-slice_within file (st.buf_start + to_move) (st.chunks_len - to_move)
            (omega (arith, m.within)) in
      (
        record {
          size = m.size;
          len = p.len;
          fits = p.fits;
          within = omega (arith, m.within);
          buffer = rw (start, len) bytes;
        },
        start,
        len,
      )

  drain_mirrors :
      (st : PrefetchState S) (to_move : ℕ)
      → MirrorsForward file st
      → MirrorsSeek file (window_of st)
      → to_move ≤ st.chunks_len
      → IsDrained file st (drain st to_move) to_move
  unfolding drain popped
  drain_mirrors st to_move m s h =
      let w = if st.forward_only then window_of st else fill_seek st to_move in
      let (forward, start, left) = pop_mirrors st to_move w m h in
      record {
        forward = forward;
        behind = window_mirrors st.forward_only;
        start = start;
        left = left;
        same_stream = refl;
        same_window = refl;
        same_mode = refl;
      }
    where
      window_mirrors :
          (b : Bool) → MirrorsSeek file (if b then window_of st else fill_seek st to_move)
      window_mirrors true = s
      window_mirrors false = fill_seek_mirrors st to_move m s h

  pub drain_to_seek_mirrors :
      (st : PrefetchState S) (consumed : ℕ)
      → MirrorsForward file st
      → MirrorsSeek file (window_of st)
      → IsDrained file st (drain_to_seek st consumed) (min consumed st.chunks_len)
  unfolding drain_to_seek
  drain_to_seek_mirrors st consumed m s = elim (Bool-cases (nat_beq consumed 0)) [
    | inl none_consumed ↦ rw none_consumed (record {
      forward = m;
      behind = s;
      start = ground arith;
      left = ground arith;
      same_stream = refl;
      same_window = refl;
      same_mode = refl;
    })
    | inr more ↦ rw more (drain_mirrors st (min consumed st.chunks_len) m s (omega arith))
  ]
