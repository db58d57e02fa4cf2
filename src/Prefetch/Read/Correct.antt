-- ===== src/Prefetch/Read/Correct.antt =====
-- `VirtualFs::read` on a remote file returns the file's bytes.
use hf_mount.Base.{
  ℕ, ◌+◌, ◌-◌, ◌≤◌, ◌<◌, min, ◌≡◌, refl, sym, ◌∙◌, ap, true, false, ◌&&◌, Option, none, some, [],
  inl, inr, arith, length, slice, ltb, leb, nat_beq, Bool-cases, add64, add64_exact, sub64,
  sub64_exact, u64_mod, u32_mod, drop_of_length-le, take_of_length-le, take, length-slice_within,
}
use mathlib.Core.Path.{subst}
use hf_mount.Prefetch.Chunks.{Bytes}
use hf_mount.Prefetch.State.{PrefetchState, forward_skip, try_serve_forward, try_serve_seek}
use hf_mount.Prefetch.Mirrors.{IsPiece, IsPiece-slice}
use hf_mount.Prefetch.Serve.{IsSound, hit, try_serve_forward_lem, try_serve_seek_lem}
use hf_mount.Prefetch.Fetch.{Downloads}
use hf_mount.Prefetch.Fetch.Faithful.{IsFaithful}
use hf_mount.Prefetch.Read.{ReadResult, ok, assemble, answer, read}
use hf_mount.Prefetch.Read.Loop.{IsCorrect, IsAnswered, finish, assemble-IsAnswered}

-- What a buffer hit returns is the file's, and no more than was asked for.
hit-IsPiece :
    (file : Bytes) (start len offset size : ℕ) (bytes : Bytes)
    → start + len ≤ length file
    → hit file start len offset size ≡ some bytes
    → IsPiece file offset bytes × (length bytes ≤ min size (length file - offset))
hit-IsPiece file start len offset size bytes within e =
    let count = min size (start + len - offset) in
    elim (Bool-cases (leb start offset && ltb offset (start + len))) [
      | inl inside ↦
          let fits : offset + count ≤ length file = ground arith in
          let same : slice file offset count ≡ bytes = ground arith in
          subst (λ b. IsPiece file offset b × (length b ≤ min size (length file - offset))) same
            (
              IsPiece-slice file offset count fits,
              omega (arith, length-slice_within file offset count fits),
            )
      | inr outside ↦ absurd (ground arith)
    ]

-- The same of the seek window.
seek-IsPiece :
    {S : Type 0} (file : Bytes) (room : length file + forward_skip < u64_mod) (At : ℕ → S → Type 0)
    (st : PrefetchState S) (offset size : ℕ) (bytes : Bytes)
    → IsSound file At st
    → try_serve_seek st offset size ≡ some bytes
    → IsPiece file offset bytes × (length bytes ≤ min size (length file - offset))
seek-IsPiece file room At st offset size bytes v e =
    let h = try_serve_seek_lem file room At st offset size v in
    hit-IsPiece file st.seek_start (length st.seek_data) offset size bytes v.behind.piece.inside
      (ground arith)

module _ {W S : Type 0} (file : Bytes) (room : length file + forward_skip < u64_mod)
    (At : ℕ → S → Type 0) (d : Downloads W S) (faithful : IsFaithful file At d) (offset size : ℕ)
    (small : size < u32_mod) (fuel rounds : ℕ) (enough : length file < fuel)
    (turns : size < rounds) where
  past_end :
      (w : W) (st : PrefetchState S)
      → length file ≤ offset
      → IsSound file At st
      → IsCorrect file At offset size (w, st, ok [] true)
  past_end w st after v = record {
    sound = v;
    answers = (
      sym (
          ap (take size) (drop_of_length-le offset file after)
          ∙ take_of_length-le size [] (omega arith)),
      ground arith,
    );
  }

  module _ (inside : offset < length file) where
    Answered : Option (W × PrefetchState S × ReadResult) → Type 0
    Answered = IsAnswered file room At d faithful offset size small inside fuel enough

    answer-IsAnswered :
        (w : W) (st : PrefetchState S) (bytes : Bytes)
        → IsSound file At st
        → IsPiece file offset bytes
        → length bytes ≤ min size (length file - offset)
        → Answered (answer d fuel rounds w st offset (min size (length file - offset)) bytes)
    unfolding Answered IsAnswered answer
    answer-IsAnswered w st bytes v p le =
        let moved : add64 offset (length bytes) ≡ offset + length bytes =
          add64_exact offset (length bytes) (omega (arith, p.inside)) in
        elim (Bool-cases (nat_beq (length bytes) (min size (length file - offset)))) [
          | inl full ↦ (
            (w, st, ok bytes (leb st.file_size (add64 offset (length bytes)))),
            rw (full, answer),
            finish file room At d faithful offset size small inside fuel enough w st bytes _ v p
                (ground arith) (ground (arith, moved, v.forward.size)),
          )
          | inr short ↦
              let (r, run, c) =
                assemble-IsAnswered file room At d faithful offset size small inside fuel enough
                  rounds w st (add64 offset (length bytes)) bytes (omega arith) v p moved le in
              (r, rw (short, answer) run, c)
        ]

    module _ (w : W) (st : PrefetchState S) (here : leb st.file_size offset ≡ false)
        (to_read : sub64 st.file_size offset ≡ length file - offset) where
      read_forward :
          (bytes : Bytes)
          → (try_serve_forward st offset size).1 ≡ some bytes
          → read d fuel rounds w st offset size
            ≡ answer d fuel rounds w
                (try_serve_forward st offset size).0
                offset
                (min size (length file - offset))
                bytes
      unfolding read
      read_forward bytes e = rw (here, e, to_read, read)

      read_seek :
          (bytes : Bytes)
          → (try_serve_forward st offset size).1 ≡ none
          → try_serve_seek (try_serve_forward st offset size).0 offset size ≡ some bytes
          → read d fuel rounds w st offset size
            ≡ answer d fuel rounds w
                (try_serve_forward st offset size).0
                offset
                (min size (length file - offset))
                bytes
      unfolding read
      read_seek bytes e e' = rw (here, e, e', to_read, read)

      read_miss :
          (try_serve_forward st offset size).1 ≡ none
          → try_serve_seek (try_serve_forward st offset size).0 offset size ≡ none
          → read d fuel rounds w st offset size
            ≡ assemble d fuel rounds w
                (try_serve_forward st offset size).0
                offset
                (min size (length file - offset))
                []
      unfolding read
      read_miss e e' = rw (here, e, e', to_read, read)

    read_inside :
        (w : W) (st : PrefetchState S)
        → IsSound file At st
        → Answered (read d fuel rounds w st offset size)
    unfolding Answered IsAnswered read
    read_inside w st v =
        let (hit_forward, v') = try_serve_forward_lem file room At st offset size v in
        let here : leb st.file_size offset ≡ false = ground (arith, v.forward.size) in
        let to_read : sub64 st.file_size offset ≡ length file - offset =
          ap (λ (n : ℕ). sub64 n offset) v.forward.size
          ∙ sub64_exact (length file) offset (omega arith) (omega arith) in
        step here to_read hit_forward v' (try_serve_forward st offset size).1 refl
          (try_serve_seek (try_serve_forward st offset size).0 offset size) refl
      where
        st' : PrefetchState S
        st' = (try_serve_forward st offset size).0

        step :
            leb st.file_size offset ≡ false
            → sub64 st.file_size offset ≡ length file - offset
            → (try_serve_forward st offset size).1 ≡ hit file st.buf_start st.chunks_len offset size
            → IsSound file At (try_serve_forward st offset size).0
            → (forward : Option Bytes) → (try_serve_forward st offset size).1 ≡ forward
            → (seek : Option Bytes)
            → try_serve_seek (try_serve_forward st offset size).0 offset size ≡ seek
            → Answered (read d fuel rounds w st offset size)
        step here to_read h v' (some bytes) e seek e' =
            let (p, le) =
              hit-IsPiece file st.buf_start st.chunks_len offset size bytes v.forward.within
                (sym h ∙ e) in
            let (r, run, c) = answer-IsAnswered w st' bytes v' p le in
            (r, read_forward w st here to_read bytes e ∙ run, c)
        step here to_read h v' none e (some bytes) e' =
            let (p, le) = seek-IsPiece file room At st' offset size bytes v' e' in
            let (r, run, c) = answer-IsAnswered w st' bytes v' p le in
            (r, read_seek w st here to_read bytes e e' ∙ run, c)
        step here to_read h v' none e none e' =
            let (r, run, c) =
              assemble-IsAnswered file room At d faithful offset size small inside fuel enough
                rounds w st' offset [] (omega arith) v' (IsPiece-slice file offset 0 (omega arith))
                (omega arith) (omega arith) in
            (r, read_miss w st here to_read e e' ∙ run, c)

  -- With faithful streams, from a sound state, for a size below 2^32, with fuel beyond the length of
  -- the file and rounds beyond the size of the read, `read` ends, keeps the state sound, and returns either `EIO` or exactly the file's bytes
  -- from the offset on, `size` of them or up to the end of the file, with `eof` set exactly when
  -- the end is reached: never a short read inside the file.
  pub read-IsCorrect :
      (w : W) (st : PrefetchState S)
      → IsSound file At st
      → (r : W × PrefetchState S × ReadResult) × (read d fuel rounds w st offset size ≡ some r)
        × IsCorrect file At offset size r
  unfolding read
  read-IsCorrect w st v = elim (Bool-cases (leb (length file) offset)) [
    | inl past ↦
        let here : leb st.file_size offset ≡ true = ground (arith, v.forward.size) in
        ((w, st, ok [] true), rw here, past_end w st (ground arith) v)
    | inr before ↦ unfold Answered IsAnswered in read_inside (ground arith) w st v
  ]
