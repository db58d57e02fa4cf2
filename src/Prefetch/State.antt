-- ===== src/Prefetch/State.antt =====
-- `PrefetchState` of src/virtual_fs/prefetch.rs and its methods. `S` is the type of download streams
-- (`dyn DownloadStreamOps`), which this file only keeps and drops.
use hf_mount.Base.{
  ℕ, ◌+◌, ◌-◌, min, max, Bool, true, false, not, ◌&&◌, Option, none, some, List, [], ◌++◌, length,
  drop, slice, ltb, leb, nat_beq, if◌then◌else◌, Text, add64, sub64, mul64,
}
use hf_mount.Prefetch.Chunks.{Bytes, read_chunk_range, pop_consumed}

abbrev pub initial_window : ℕ
initial_window = 8388608

abbrev pub max_window : ℕ
max_window = 134217728

abbrev pub seek_window : ℕ
seek_window = 1048576

abbrev pub forward_skip : ℕ
forward_skip = 16777216

pub data FetchStrategy : Type 0 where
  start_stream continue_stream range_download : FetchStrategy

abbrev pub is_stream : FetchStrategy → Bool
is_stream range_download = false
is_stream _ = true

pub record FetchPlan : Type 0 where
  pub strategy : FetchStrategy
  pub fetch_size : ℕ

pub record PrefetchState (S : Type 0) : Type 0 where
  pub xet_hash : Text
  pub file_size : ℕ
  pub chunks : List Bytes
  pub chunks_len : ℕ
  pub chunks_front_offset : ℕ
  pub buf_start : ℕ
  pub seek_data : Bytes
  pub seek_start : ℕ
  pub window_size : ℕ
  pub stream : Option S
  pub forward_only : Bool

-- The backward seek window of a state.
pub record SeekWindow : Type 0 where
  pub seek_data : Bytes
  pub seek_start : ℕ

-- The oldest bytes go where the window is longer than `SEEK_WINDOW`.
unfoldable pub trim_seek : SeekWindow → SeekWindow
trim_seek w =
    let excess = length w.seek_data - seek_window in
    if ltb seek_window (length w.seek_data)
    then record { seek_data = drop excess w.seek_data; seek_start = add64 w.seek_start excess }
    else w

abbrev is_some {ℓ} : {A : Type ℓ} → Option A → Bool
is_some none = false
is_some (some a) = true

unfoldable pub fetch_size_of : FetchStrategy → ℕ → ℕ → ℕ → ℕ → ℕ
fetch_size_of strategy window_size file_size offset size =
    let rest = sub64 file_size offset in
    let needed = min size rest in
    min (if is_stream strategy then max needed window_size else needed) rest

module _ {S : Type 0} where
  unfoldable pub new : Text → ℕ → Bool → PrefetchState S
  new xet_hash file_size forward_only = record {
    xet_hash = xet_hash;
    file_size = file_size;
    chunks = [];
    chunks_len = 0;
    chunks_front_offset = 0;
    buf_start = 0;
    seek_data = [];
    seek_start = 0;
    window_size = initial_window;
    stream = none;
    forward_only = forward_only;
  }

  abbrev pub window_of : PrefetchState S → SeekWindow
  window_of st = record { seek_data = st.seek_data; seek_start = st.seek_start }

  unfoldable pub copy_chunks_to_seek : PrefetchState S → SeekWindow → ℕ → ℕ → SeekWindow
  copy_chunks_to_seek st w skip count = record w {
    seek_data = w.seek_data ++ read_chunk_range st.chunks st.chunks_front_offset skip count;
  }

  -- `contiguous && to_move <= SEEK_WINDOW`. An empty window has no offset yet.
  unfoldable pub extends_seek : PrefetchState S → ℕ → Bool
  extends_seek st to_move =
      let seek_end = add64 st.seek_start (length st.seek_data) in
      let contiguous = not (nat_beq (length st.seek_data) 0) && nat_beq seek_end st.buf_start in
      contiguous && leb to_move seek_window

  -- The branch of `drain_to_seek` that is left out in forward-only mode.
  unfoldable pub fill_seek : PrefetchState S → ℕ → SeekWindow
  fill_seek st to_move =
      let keep = min to_move seek_window in
      if extends_seek st to_move
      then trim_seek (copy_chunks_to_seek st (window_of st) 0 to_move)
      else copy_chunks_to_seek st
          (record { seek_data = []; seek_start = add64 st.buf_start (to_move - keep) })
          (to_move - keep) keep

  -- "Pop consumed chunks from front", and the new seek window.
  unfoldable pub popped : PrefetchState S → SeekWindow → ℕ → PrefetchState S
  popped st w to_move =
      let front = pop_consumed st.chunks st.chunks_front_offset st.chunks_len to_move in
      record st {
        seek_data = w.seek_data;
        seek_start = w.seek_start;
        chunks = front.chunks;
        chunks_len = front.chunks_len;
        chunks_front_offset = front.chunks_front_offset;
        buf_start = add64 st.buf_start to_move;
      }

  -- The part of `drain_to_seek` after the early return.
  unfoldable pub drain : PrefetchState S → ℕ → PrefetchState S
  drain st to_move =
      popped st (if st.forward_only then window_of st else fill_seek st to_move) to_move

  unfoldable pub drain_to_seek : PrefetchState S → ℕ → PrefetchState S
  drain_to_seek st consumed =
      if nat_beq consumed 0 then st else drain st (min consumed st.chunks_len)

  unfoldable pub store_fetched : PrefetchState S → ℕ → List Bytes → ℕ → PrefetchState S
  store_fetched st offset chunks total = record st {
    chunks = chunks;
    chunks_len = total;
    chunks_front_offset = 0;
    buf_start = offset;
  }

  unfoldable pub try_serve_forward : PrefetchState S → ℕ → ℕ → PrefetchState S × Option Bytes
  try_serve_forward st offset size =
      let buf_end = add64 st.buf_start st.chunks_len in
      let logical_off = sub64 offset st.buf_start in
      let avail = st.chunks_len - logical_off in
      let to_read = min size avail in
      let bytes = read_chunk_range st.chunks st.chunks_front_offset logical_off to_read in
      if nat_beq st.chunks_len 0
      then (st, none)
      else if ltb offset st.buf_start
      then (st, none)
      else if leb buf_end offset
      then (st, none)
      else if st.forward_only && ltb 0 to_read
      then (drain_to_seek st (logical_off + to_read), some bytes)
      else (st, some bytes)

  unfoldable pub try_serve_seek : PrefetchState S → ℕ → ℕ → Option Bytes
  try_serve_seek st offset size =
      let seek_end = add64 st.seek_start (length st.seek_data) in
      let local_off = sub64 offset st.seek_start in
      let avail = length st.seek_data - local_off in
      let to_read = min size avail in
      if st.forward_only
      then none
      else if nat_beq (length st.seek_data) 0
      then none
      else if leb st.seek_start offset && ltb offset seek_end
      then some (slice st.seek_data local_off to_read)
      else none

  -- The first step of `prepare_fetch`: consumed bytes go to the seek window.
  unfoldable pub drain_consumed : PrefetchState S → ℕ → PrefetchState S
  drain_consumed st offset =
      if ltb 0 st.chunks_len
      then drain_to_seek st (if leb st.buf_start offset then st.chunks_len else 0)
      else st

  -- `is_sequential`, and the window that goes with it.
  unfoldable pub classify : PrefetchState S → ℕ → Bool × ℕ
  classify st offset =
      let old_buf_end = add64 st.buf_start st.chunks_len in
      let is_first_fetch = nat_beq st.chunks_len 0 && nat_beq st.buf_start 0 in
      if is_first_fetch
      then (true, st.window_size)
      else if leb old_buf_end offset && leb offset (add64 old_buf_end forward_skip)
      then (true, min (mul64 st.window_size 2) max_window)
      else (false, initial_window)

  -- The strategy, and the stream that is left (`self.stream.take()` drops it). `st` is drained.
  unfoldable pub choose : PrefetchState S → Bool → Bool → ℕ → FetchStrategy × Option S
  choose st is_first_fetch is_sequential offset =
      if is_sequential
      then if nat_beq offset st.buf_start
        then (if not (is_some st.stream) && is_first_fetch && nat_beq offset 0
            then (start_stream, st.stream)
            else (continue_stream, st.stream))
        else (start_stream, none)
      else (range_download, none)

  unfoldable pub prepare_fetch : PrefetchState S → ℕ → ℕ → PrefetchState S × FetchPlan
  prepare_fetch st offset size =
      let is_first_fetch = nat_beq st.chunks_len 0 && nat_beq st.buf_start 0 in
      let drained = drain_consumed st offset in
      let (is_sequential, window) = classify st offset in
      let (strategy, stream) = choose drained is_first_fetch is_sequential offset in
      (
        record drained { window_size = window; stream = stream },
        record {
          strategy = strategy;
          fetch_size = fetch_size_of strategy window drained.file_size offset size;
        },
      )
