-- ===== src/Follow/Sse/Framing.antt =====
-- `SseParser::push` of src/follow.rs does what the parser by bytes does, however the bytes are cut
-- into chunks.
use hf_mount.Base.{
  ℕ, zero, suc, ◌+◌, ◌-◌, ◌<◌, ◌≡◌, refl, sym, ◌∙◌, ap, inl, inr, none, List, [], ◌∷◌, ◌++◌, arith,
  length, take, drop, slice, cons_some, cons_some-append, length-append, Text, text_eq,
}
use mathlib.Core.List.{append_assoc, append-nil}
use hf_mount.Follow.Sse.{SseEvent, SseParser, position, take_line, push_loop, drain, push}
use hf_mount.Follow.Sse.Bytewise.{
  at, feed, feed_all, IsPlain, position-cases, feed_all-plain, feed_all-newline, loop_none,
  loop_some,
}

-- All of `buf` was searched for a newline.
abbrev pub IsScanned : SseParser → Type 0
IsScanned p = p.scanned ≡ length p.buf

drop_front : (a b : List ℕ) → drop (length a) (a ++ b) ≡ b
drop_front [] b = refl
drop_front (x ∷ a) b = drop_front a b

take_front : (a b : List ℕ) → take (length a) (a ++ b) ≡ a
take_front [] b = refl
take_front (x ∷ a) b = ap (◌∷◌ x) (take_front a b)

drop_two : (a b c : List ℕ) → drop (length a + length b) (a ++ (b ++ c)) ≡ c
drop_two [] b c =
    let e : 0 + length b ≡ length b = omega arith in ap (λ n. drop n (b ++ c)) e ∙ drop_front b c
drop_two (x ∷ a) b c =
    let e : suc (length a) + length b ≡ suc (length a + length b) = omega arith in
    ap (λ n. drop n (x ∷ (a ++ (b ++ c)))) e ∙ drop_two a b c

module _ (from_utf8_lossy : List ℕ → Text) where
  -- The parser inside the loop: `done` is consumed, and `buf` was searched.
  abbrev inside : SseParser → List ℕ → List ℕ → List ℕ → SseParser
  inside p done buf rest = record p {
    buf = done ++ (buf ++ rest);
    scanned = length done + length buf;
  }

  loop_end :
      (fuel : ℕ) (p : SseParser) (done buf rest : List ℕ)
      → position 10 rest ≡ none
      → IsPlain rest
      → drain (push_loop (suc fuel) from_utf8_lossy (inside p done buf rest) (length done))
        ≡ feed_all from_utf8_lossy (at p buf) rest
  loop_end fuel p done buf rest nowhere plain =
      ap drain (
        loop_none fuel from_utf8_lossy (inside p done buf rest) (length done)
          (ap (position 10) (drop_two done buf rest) ∙ nowhere))
      ∙ ap (λ l. (at p l, [])) (drop_front done (buf ++ rest))
      ∙ sym (
          ap (λ l. feed_all from_utf8_lossy (at p buf) l) (sym (append-nil rest))
          ∙ feed_all-plain from_utf8_lossy p buf rest [] plain
          ∙ unfold feed_all in refl)

  line_bytes :
      (p : SseParser) (done buf line rest : List ℕ)
      → slice
          (done ++ (buf ++ (line ++ 10 ∷ rest)))
          (length done)
          (length done + length buf + length line - length done)
        ≡ buf ++ line
  line_bytes p done buf line rest =
      let n : length done + length buf + length line - length done ≡ length (buf ++ line) =
        omega (arith, length-append {0} buf line) in
      ap (λ m. slice (done ++ (buf ++ (line ++ 10 ∷ rest))) (length done) m) n
      ∙ ap (take (length (buf ++ line))) (drop_front done (buf ++ (line ++ 10 ∷ rest)))
      ∙ ap (take (length (buf ++ line))) (sym (append_assoc buf line (10 ∷ rest)))
      ∙ take_front (buf ++ line) (10 ∷ rest)

  -- The bytes that a line leaves consumed.
  abbrev consumes : List ℕ → List ℕ → List ℕ → List ℕ
  consumes done buf line = done ++ (buf ++ (line ++ 10 ∷ []))

  consumes_whole :
      (done buf line rest : List ℕ)
      → done ++ (buf ++ (line ++ 10 ∷ rest)) ≡ consumes done buf line ++ ([] ++ rest)
  consumes_whole done buf line rest =
      ap (λ l. done ++ l)
        (ap (λ l. buf ++ l) (sym (append_assoc line (10 ∷ []) rest))
          ∙ sym (append_assoc buf (line ++ 10 ∷ []) rest))
      ∙ sym (append_assoc done (buf ++ (line ++ 10 ∷ [])) rest)

  length-consumes :
      (done buf line : List ℕ)
      → length done + length buf + length line + 1 ≡ length (consumes done buf line)
  length-consumes done buf line = omega (
    arith,
    length-append {0} done (buf ++ (line ++ 10 ∷ [])),
    length-append {0} buf (line ++ 10 ∷ []),
    length-append {0} line (10 ∷ []),
  )

  loop-feed_all :
      (fuel : ℕ) (p : SseParser) (done buf rest : List ℕ)
      → length rest < fuel
      → drain (push_loop fuel from_utf8_lossy (inside p done buf rest) (length done))
        ≡ feed_all from_utf8_lossy (at p buf) rest
  loop-feed_all zero p done buf rest enough = absurd (omega arith)
  loop-feed_all (suc fuel) p done buf rest enough = elim (position-cases rest) [
    | inl (nowhere, plain) ↦ loop_end fuel p done buf rest nowhere plain
    | inr cut ↦
        let q = (take_line from_utf8_lossy p (buf ++ cut.line)).0 in
        let event = (take_line from_utf8_lossy p (buf ++ cut.line)).1 in
        let done' = consumes done buf cut.line in
        let left : length cut.rest < fuel =
          omega
            (arith, length-append {0} cut.line (10 ∷ cut.rest), ap (λ l. length {0} l) cut.whole) in
        let whole : done ++ (buf ++ rest) ≡ done' ++ ([] ++ cut.rest) =
          ap (λ l. done ++ (buf ++ l)) cut.whole ∙ consumes_whole done buf cut.line cut.rest in
        let count = length-consumes done buf cut.line in
        let none_kept : length done' ≡ length done' + 0 = omega arith in
        loop_some fuel from_utf8_lossy p (done ++ (buf ++ rest)) (length done + length buf)
          (length done) (length cut.line) (buf ++ cut.line)
          (ap (position 10) (drop_two done buf rest) ∙ cut.here)
          (ap
              (λ l.
                slice (done ++ (buf ++ l)) (length done)
                  (length done + length buf + length cut.line - length done))
              cut.whole
            ∙ line_bytes p done buf cut.line cut.rest)
        ∙ ap (λ (r : SseParser × List SseEvent). (r.0, cons_some event r.1))
            (ap
                (λ l. drain (
                  push_loop fuel from_utf8_lossy
                    (record q { buf = l; scanned = length done + length buf + length cut.line + 1 })
                    (length done + length buf + length cut.line + 1)))
                whole
              ∙ ap
                  (λ n. drain (
                    push_loop fuel from_utf8_lossy
                      (record q { buf = done' ++ ([] ++ cut.rest); scanned = n }) n))
                  count
              ∙ ap
                  (λ n. drain (
                    push_loop fuel from_utf8_lossy
                      (record q { buf = done' ++ ([] ++ cut.rest); scanned = n }) (length done')))
                  none_kept
              ∙ loop-feed_all fuel q done' [] cut.rest left)
        ∙ sym (
            ap (feed_all from_utf8_lossy (at p buf)) cut.whole
            ∙ feed_all-plain from_utf8_lossy p buf cut.line (10 ∷ cut.rest) cut.plain
            ∙ feed_all-newline from_utf8_lossy p (buf ++ cut.line) cut.rest)
  ]

  -- A chunk does to the parser, and gives as events, what its bytes do and give one after another, if
  -- all of the buffer was searched, as it is at the start and after every chunk.
  pub push-feed_all :
      (p : SseParser) (chunk : List ℕ)
      → IsScanned p
      → (push from_utf8_lossy p chunk ≡ feed_all from_utf8_lossy p chunk)
        × IsScanned (push from_utf8_lossy p chunk).0
  unfolding push
  push-feed_all p chunk whole = (
    ap
          (λ n. drain (
            push_loop (suc (length (p.buf ++ chunk))) from_utf8_lossy
              (record p { buf = p.buf ++ chunk; scanned = n }) 0))
          (whole ∙ (let e : length p.buf ≡ 0 + length p.buf = omega arith in e))
        ∙ loop-feed_all (suc (length (p.buf ++ chunk))) p [] p.buf chunk
            (omega (arith, length-append {0} p.buf chunk))
        ∙ ap (λ n. feed_all from_utf8_lossy (record p { scanned = n }) chunk) (sym whole),
    refl,
  )

  feed_all-append :
      (p : SseParser) (a b : List ℕ)
      → feed_all from_utf8_lossy p (a ++ b) ≡ (
          let (q, events) = feed_all from_utf8_lossy p a in
          let (r, more) = feed_all from_utf8_lossy q b in (r, events ++ more))
  unfolding feed_all
  feed_all-append p [] b = refl
  feed_all-append p (x ∷ a) b =
      let (q, event) = feed from_utf8_lossy p x in
      let (r, events) = feed_all from_utf8_lossy q a in
      ap (λ (s : SseParser × List SseEvent). (s.0, cons_some event s.1)) (feed_all-append q a b)
      ∙ ap (λ l. ((feed_all from_utf8_lossy r b).0, l))
          (sym (cons_some-append event events (feed_all from_utf8_lossy r b).1))

  -- Where the transport cuts the stream does not matter: two chunks, one after the other, leave the
  -- parser and give the events that one chunk of both leaves and gives.
  pub push-append :
      (p : SseParser) (a b : List ℕ)
      → IsScanned p
      → push from_utf8_lossy p (a ++ b) ≡ (
          let (q, events) = push from_utf8_lossy p a in
          let (r, more) = push from_utf8_lossy q b in (r, events ++ more))
  push-append p a b whole =
      let (first, searched) = push-feed_all p a whole in
      (push-feed_all p (a ++ b) whole).0
      ∙ feed_all-append p a b
      ∙ ap
          (λ (s : SseParser × List SseEvent).
            let (r, more) = feed_all from_utf8_lossy s.0 b in (r, s.1 ++ more))
          (sym first)
      ∙ ap (λ (s : SseParser × List SseEvent). (s.0, (push from_utf8_lossy p a).1 ++ s.1))
          (sym (push-feed_all (push from_utf8_lossy p a).0 b searched).0)
