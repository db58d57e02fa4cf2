-- ===== src/Prefetch/Read/Loop.antt =====
-- The assembly loop of `VirtualFs::read` ends, and fills the response with the file's bytes.
use mathlib.Core.Path.{subst}
use hf_mount.Base.{
  ℕ, zero, suc, ◌+◌, ◌-◌, ◌%◌, ◌≤◌, ◌<◌, min, ◌≡◌, sym, ◌∙◌, ap, Bool, true, Option, none, some,
  List, ◌++◌, inl, inr, arith, length, slice, ltb, leb, nat_beq, Bool-cases, ltb→lt, u64_mod,
  u32_mod, slice_to_end, length-append, length-slice_within,
}
use hf_mount.Prefetch.Chunks.{Bytes}
use hf_mount.Prefetch.State.{PrefetchState, forward_skip, store_fetched, prepare_fetch}
use hf_mount.Prefetch.Mirrors.{IsPiece, IsPiece-append}
use hf_mount.Prefetch.Serve.{IsSound}
use hf_mount.Prefetch.Plan.{IsPrepared, prepare_fetch-IsPrepared}
use hf_mount.Prefetch.Fetch.{Downloads, fetch_data}
use hf_mount.Prefetch.Fetch.Faithful.{IsFaithful}
use hf_mount.Prefetch.Fetch.Attempts.{GotChunks, IsAttempted, fetch_data-IsAttempted}
use hf_mount.Prefetch.Read.{ReadResult, ok, err_eio, serve_into, assemble}
use hf_mount.Prefetch.Read.Stored.{
  IsServed, restreamed-IsSound, stored-IsSound, serve_into-IsServed,
}

-- `Ok` carries the file's bytes from `offset` on, `size` of them or up to the end of the file,
-- and `eof` exactly when they reach it.
abbrev pub Answers : Bytes → ℕ → ℕ → ReadResult → Type 0
Answers file offset size (ok bytes eof) =
    (bytes ≡ slice file offset size) × (eof ≡ leb (length file) (offset + length bytes))
Answers file offset size err_eio = Unit

pub record IsCorrect {W S : Type 0} (file : Bytes) (At : ℕ → S → Type 0) (offset size : ℕ)
    (r : W × PrefetchState S × ReadResult) : Type 0 where
  pub sound : IsSound file At r.1
  pub answers : Answers file offset size r.2

module _ {W S : Type 0} (file : Bytes) (room : length file + forward_skip < u64_mod)
    (At : ℕ → S → Type 0) (d : Downloads W S) (faithful : IsFaithful file At d) (offset size : ℕ)
    (small : size < u32_mod) (inside : offset < length file) (fuel : ℕ)
    (enough : length file < fuel) where
  abbrev pub wanted : ℕ
  wanted = min size (length file - offset)

  pub finish :
      (w : W) (st : PrefetchState S) (response : Bytes) (eof : Bool)
      → IsSound file At st
      → IsPiece file offset response
      → length response ≡ wanted
      → eof ≡ leb (length file) (offset + length response)
      → IsCorrect file At offset size (w, st, ok response eof)
  finish w st response eof v p full e = record {
    sound = v;
    answers = (p.bytes ∙ ap (slice file offset) full ∙ slice_to_end file offset size, e);
  }

  -- One round of the loop from a cursor inside the file: an error, or more of the response.
  round :
      (w : W) (st : PrefetchState S) (cursor remaining : ℕ)
      → cursor < length file
      → 0 < remaining
      → IsSound file At st
      → (r : W × PrefetchState S × Option (List Bytes × ℕ)) × (fetch_data d fuel w
            (prepare_fetch st cursor remaining).0
            cursor
            (prepare_fetch st cursor remaining).1
          ≡ some r)
        × IsAttempted file At cursor (prepare_fetch st cursor remaining).0 r
        × IsPrepared file At cursor remaining (prepare_fetch st cursor remaining)
  round w st cursor remaining before pos v =
      let p : IsPrepared file At cursor remaining (prepare_fetch st cursor remaining) =
        prepare_fetch-IsPrepared file room At st cursor remaining before v in
      let (r, run, post) =
        fetch_data-IsAttempted file At d faithful cursor (omega arith)
          (prepare_fetch st cursor remaining).1 (omega (arith, p.fits.enough)) fuel
          (omega (arith, p.fits.inside)) w (prepare_fetch st cursor remaining).0 p.resumes
          p.bounded in
      (r, run, post, p)

  module _ (rounds : ℕ) (w : W) (st : PrefetchState S) (cursor : ℕ) (response : Bytes) (w' : W)
      (st' : PrefetchState S) where
    abbrev remaining : ℕ
    remaining = (wanted - length response) % u32_mod

    abbrev run_fetch : Option (W × PrefetchState S × Option (List Bytes × ℕ))
    run_fetch =
        fetch_data d fuel w (prepare_fetch st cursor remaining).0 cursor
          (prepare_fetch st cursor remaining).1

    assemble_error :
        ltb (length response) wanted ≡ true
        → run_fetch ≡ some (w', st', none)
        → assemble d fuel (suc rounds) w st cursor wanted response ≡ some (w', st', err_eio)
    unfolding assemble
    assemble_error more run = rw (more, assemble) (rw run)

    assemble_next :
        (chunks : List Bytes) (total : ℕ)
        → ltb (length response) wanted ≡ true
        → run_fetch ≡ some (w', st', some (chunks, total))
        → let next = serve_into (store_fetched st' cursor chunks total) cursor response remaining in
          assemble d fuel (suc rounds) w st cursor wanted response
          ≡ assemble d fuel rounds w' next.0 next.1 wanted next.2
    unfolding assemble
    assemble_next chunks total more run = rw (more, assemble) (rw run)

  unfoldable pub IsAnswered : Option (W × PrefetchState S × ReadResult) → Type 0
  IsAnswered o =
      (r : W × PrefetchState S × ReadResult) × (o ≡ some r) × IsCorrect file At offset size r

  -- After a round that brought bytes: what the next call of the loop is given.
  next_round :
      (st st' : PrefetchState S) (cursor want : ℕ) (response : Bytes) (chunks : List Bytes)
      (total : ℕ)
      → st' ≡ record st { stream = st'.stream }
      → IsSound file At st
      → GotChunks file At cursor st' chunks total
      → IsPiece file offset response
      → cursor ≡ offset + length response
      → let r = serve_into (store_fetched st' cursor chunks total) cursor response want in
        IsSound file At r.0
        × IsPiece file offset r.2
        × (r.1 ≡ offset + length r.2)
        × (length r.2 ≡ length response + min want total)
  next_round st st' cursor want response chunks total kept v g p here =
      let stored = store_fetched st' cursor chunks total in
      let sound : IsSound file At stored =
        stored-IsSound file At st st' cursor chunks total kept v g in
      let s : IsServed file At stored cursor response (min want total)
          (serve_into stored cursor response want) =
        unfold store_fetched in
        serve_into-IsServed file At room stored response want g.positive sound in
      let count = min want total in
      let fits : cursor + count ≤ length file = omega (arith, g.piece.inside, g.total_exact) in
      let longer : length (response ++ slice file cursor count) ≡ length response + count =
        length-append response (slice file cursor count)
        ∙ ap (λ (n : ℕ). length response + n) (length-slice_within file cursor count fits) in
      (
        s.sound,
        subst (IsPiece file offset) (sym s.grown) (
            subst (λ k. IsPiece file offset (response ++ slice file k count)) (sym here)
              (IsPiece-append file offset response count p (omega arith))),
        omega (arith, s.moved, ap length s.grown, longer),
        ap length s.grown ∙ longer,
      )

  pub assemble-IsAnswered :
      (rounds : ℕ) (w : W) (st : PrefetchState S) (cursor : ℕ) (response : Bytes)
      → wanted - length response < rounds
      → IsSound file At st
      → IsPiece file offset response
      → cursor ≡ offset + length response
      → length response ≤ wanted
      → IsAnswered (assemble d fuel rounds w st cursor wanted response)
  unfolding IsAnswered assemble
  assemble-IsAnswered zero w st cursor response more v p here le = absurd (omega arith)
  assemble-IsAnswered (suc rounds) w st cursor response more v p here le =
      elim (Bool-cases (ltb (length response) wanted)) [
        | inr done ↦ (
          (w, st, ok response (nat_beq cursor st.file_size)),
          rw (done, assemble),
          finish w st response (nat_beq cursor st.file_size) v p (ground arith)
              (ground (arith, v.forward.size, p.inside)),
        )
        | inl short ↦
            let (r, run, post, prep) =
              round w st cursor ((wanted - length response) % u32_mod)
                (omega (arith, ltb→lt _ _ short)) (omega (arith, ltb→lt _ _ short)) v in
            step short r.0 r.1 r.2 run post prep (assemble-IsAnswered rounds)
      ]
    where
      step :
          ltb (length response) wanted ≡ true
          → (w' : W) (st' : PrefetchState S) (fetched : Option (List Bytes × ℕ))
          → run_fetch rounds w st cursor response w st ≡ some (w', st', fetched)
          → IsAttempted file At cursor
              (prepare_fetch st cursor ((wanted - length response) % u32_mod)).0
              (w', st', fetched)
          → IsPrepared file At cursor
              ((wanted - length response) % u32_mod)
              (prepare_fetch st cursor ((wanted - length response) % u32_mod))
          → ((w : W) (st : PrefetchState S) (cursor : ℕ) (response : Bytes)
              → wanted - length response < rounds
              → IsSound file At st
              → IsPiece file offset response
              → cursor ≡ offset + length response
              → length response ≤ wanted
              → IsAnswered (assemble d fuel rounds w st cursor wanted response))
          → IsAnswered (assemble d fuel (suc rounds) w st cursor wanted response)
      step short w' st' none run post prep again = (
        (w', st', err_eio),
        assemble_error rounds w st cursor response w' st' short run,
        record {
          sound = restreamed-IsSound file At _ st' post.kept (post.result _) prep.sound;
          answers = tt;
        },
      )
      step short w' st' (some (chunks, total)) run post prep again =
          let (v', p', here', long) =
            next_round (prepare_fetch st cursor ((wanted - length response) % u32_mod)).0 st' cursor
              ((wanted - length response) % u32_mod) response chunks total post.kept prep.sound
              post.result p here in
          let (r, run', c) =
            again w' _ _ _ (omega (arith, ltb→lt _ _ short, post.result.positive)) v' p' here'
              (omega (arith, ltb→lt _ _ short)) in
          (r, assemble_next rounds w st cursor response w' st' chunks total short run ∙ run', c)
