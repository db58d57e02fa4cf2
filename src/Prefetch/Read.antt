-- ===== src/Prefetch/Read.antt =====
-- The remote branch of `VirtualFs::read` in src/virtual_fs/mod.rs.
pub mod Stored
pub mod Loop
pub mod Correct
use hf_mount.Base.{
  ℕ, zero, suc, ◌+◌, ◌-◌, ◌%◌, min, ◌≡◌, refl, Bool, true, false, Option, none, some, List, [], ◌∷◌,
  ◌++◌, length, ltb, leb, nat_beq, if◌then◌else◌, add64, sub64, u32_mod,
}
use hf_mount.Prefetch.Chunks.{Bytes}
use hf_mount.Prefetch.State.{
  PrefetchState, store_fetched, try_serve_forward, try_serve_seek, prepare_fetch,
}
use hf_mount.Prefetch.Fetch.{Downloads, fetch_data}

-- `Ok((data, eof))`, or `Err(EIO)`.
pub data ReadResult : Type 0 where
  ok : Bytes → Bool → ReadResult
  err_eio : ReadResult

-- "Drain freshly filled buffer into response": the new state, cursor and response.
unfoldable pub serve_into :
    {S : Type 0} → PrefetchState S → ℕ → Bytes → ℕ → PrefetchState S × ℕ × Bytes
serve_into st cursor response remaining =
    let (st', served) = try_serve_forward st cursor remaining in
    elim served [
      | none ↦ (st', cursor, response)
      | some bytes ↦ (st', add64 cursor (length bytes), response ++ bytes)
    ]

module _ {W S : Type 0} (d : Downloads W S) where
  -- `while response.len() < to_read`; `none` means that the fuel ran out.
  unfoldable pub assemble :
      ℕ → ℕ → W → PrefetchState S → ℕ → ℕ → Bytes → Option (W × PrefetchState S × ReadResult)
  assemble fuel zero w st cursor to_read response = none
  assemble fuel (suc rounds) w st cursor to_read response = elim (ltb (length response) to_read) [
    | false ↦ some (w, st, ok response (nat_beq cursor st.file_size))
    | true ↦
        let remaining = (to_read - length response) % u32_mod in
        let (planned, plan) = prepare_fetch st cursor remaining in
        elim (fetch_data d fuel w planned cursor plan) [
          | none ↦ none
          | some (w', st', fetched) ↦ elim fetched [
            | none ↦ some (w', st', err_eio)
            | some (chunks, total) ↦
                let (st'', cursor', response') =
                  serve_into (store_fetched st' cursor chunks total) cursor response remaining in
                assemble fuel rounds w' st'' cursor' to_read response'
          ]
        ]
  ]

  -- After a hit in a buffer: a full one is the answer, a short one starts the response.
  unfoldable pub answer :
      ℕ → ℕ → W → PrefetchState S → ℕ → ℕ → Bytes → Option (W × PrefetchState S × ReadResult)
  answer fuel rounds w st offset to_read bytes =
      let more = assemble fuel rounds w st (add64 offset (length bytes)) to_read bytes in
      if nat_beq (length bytes) to_read
      then some (w, st, ok bytes (leb st.file_size (add64 offset (length bytes))))
      else more

  unfoldable pub read :
      ℕ → ℕ → W → PrefetchState S → ℕ → ℕ → Option (W × PrefetchState S × ReadResult)
  read fuel rounds w st offset size =
      if leb st.file_size offset
      then some (w, st, ok [] true)
      else (let to_read = min size (sub64 st.file_size offset) in
          let (st', forward) = try_serve_forward st offset size in
          elim forward [
            | some bytes ↦ answer fuel rounds w st' offset to_read bytes
            | none ↦ elim (try_serve_seek st' offset size) [
              | some bytes ↦ answer fuel rounds w st' offset to_read bytes
              | none ↦ assemble fuel rounds w st' offset to_read []
            ]
          ])
