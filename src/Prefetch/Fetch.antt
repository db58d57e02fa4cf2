-- ===== src/Prefetch/Fetch.antt =====
-- `fetch_data` of src/virtual_fs/mod.rs: chunks from the kept stream or a new one, three attempts.
-- The downloads are a parameter: `W` is the outside world, `S` a stream.
pub mod Faithful
pub mod Attempts
use hf_mount.Base.{
  ℕ, zero, suc, ◌+◌, ◌-◌, ◌≤◌, ◌<◌, ◌≡◌, refl, Bool, true, false, not, ◌&&◌, Option, none, some,
  List, [], ◌∷◌, ◌++◌, length, ltb, if◌then◌else◌, add64,
}
use hf_mount.Prefetch.Chunks.{Bytes}
use hf_mount.Prefetch.State.{
  PrefetchState, FetchStrategy, start_stream, continue_stream, range_download, FetchPlan, is_stream,
}

-- The outcome of `stream.next()`; an error and a timeout are both `failed`.
pub data Next (S : Type 0) : Type 0 where
  chunk : Bytes → S → Next S
  eof : S → Next S
  failed : Next S

-- `download_stream_boxed(file_info, offset, end)` and `DownloadStreamOps::next`.
pub record Downloads (W S : Type 0) : Type 0 where
  pub open_stream : W → ℕ → Option ℕ → W × Option S
  pub next : S → Next S

-- What the loop over `stream.next()` leaves.
pub record Fetched (S : Type 0) : Type 0 where
  pub chunks : List Bytes
  pub total : ℕ
  pub is_failed : Bool
  pub stream_eof : Bool
  pub left : Option S

-- Whether the stream is kept for later sequential reads.
abbrev pub keeps_stream : {S : Type 0} → FetchPlan → Fetched S → Bool
keeps_stream plan f =
    not (f.stream_eof && ltb 0 f.total) && (is_stream plan.strategy && not f.is_failed)

unfoldable pub keep_stream :
    {S : Type 0} → FetchPlan → PrefetchState S → Fetched S → PrefetchState S
keep_stream plan st f = if keeps_stream plan f then record st { stream = f.left } else st

abbrev pub max_attempts : ℕ
max_attempts = 3

module _ {W S : Type 0} (d : Downloads W S) where
  -- `while total < fetch_size`; `none` means that the fuel ran out. An error drops the stream.
  unfoldable pub read_chunks : ℕ → ℕ → S → List Bytes → ℕ → Option (Fetched S)
  read_chunks zero fetch_size s chunks total = none
  read_chunks (suc fuel) fetch_size s chunks total = elim (ltb total fetch_size) [
    | false ↦ some (record {
      chunks = chunks;
      total = total;
      is_failed = false;
      stream_eof = false;
      left = some s;
    })
    | true ↦ elim (d.next s) [
      | chunk c s' ↦ read_chunks fuel fetch_size s' (chunks ++ c ∷ []) (total + length c)
      | eof s' ↦ some (record {
        chunks = chunks;
        total = total;
        is_failed = false;
        stream_eof = true;
        left = some s';
      })
      | failed ↦ some (record {
        chunks = chunks;
        total = total;
        is_failed = true;
        stream_eof = false;
        left = none;
      })
    ]
  ]

  -- The stream of one attempt: the kept one, or a new one, bounded for a range download.
  unfoldable pub obtain : W → Option S → ℕ → FetchPlan → W × Option S
  obtain w (some s) cursor plan = (w, some s)
  obtain w none cursor plan =
      d.open_stream w cursor
        (elim plan.strategy [ range_download ↦ some (add64 cursor plan.fetch_size) | _ ↦ none ])

  -- `for attempt in 0..MAX_ATTEMPTS`. The inner `none` is `Err(EIO)`, the outer one that the fuel of
  -- a chunk loop ran out. The sleep between two attempts changes nothing.
  unfoldable pub attempts :
      ℕ
      → ℕ
      → W
      → PrefetchState S
      → Option S
      → ℕ
      → FetchPlan
      → Option (W × PrefetchState S × Option (List Bytes × ℕ))
  attempts fuel zero w st first cursor plan = some (w, st, none)
  attempts fuel (suc left) w st first cursor plan =
      let (w', stream) = obtain w first cursor plan in
      let retry = attempts fuel left w' st none cursor plan in
      elim stream [
        | none ↦ retry
        | some s ↦ elim (read_chunks fuel plan.fetch_size s [] 0) [
          | none ↦ none
          | some f ↦
              let st' = keep_stream plan st f in
              elim (ltb 0 f.total) [
                | true ↦ some (w', st', some (f.chunks, f.total))
                | false ↦ attempts fuel left w' st' none cursor plan
              ]
        ]
      ]

  -- `first_stream` is taken out of the state when the plan streams.
  unfoldable pub fetch_data :
      ℕ
      → W
      → PrefetchState S
      → ℕ
      → FetchPlan
      → Option (W × PrefetchState S × Option (List Bytes × ℕ))
  fetch_data fuel w st cursor plan =
      if is_stream plan.strategy
      then attempts fuel max_attempts w (record st { stream = none }) st.stream cursor plan
      else attempts fuel max_attempts w st none cursor plan
