-- ===== src/Follow/Sse/Bytewise.antt =====
-- A parser that takes one byte at a time, to compare `SseParser::push` of src/follow.rs with, and
-- what either does with the bytes up to a newline.
use hf_mount.Base.{
  ℕ, suc, ◌+◌, ◌-◌, ◌≡◌, refl, sym, ◌∙◌, ap, false, not, ◌||◌, inl, inr, ◌⊎◌, Option, none, some,
  List, [], ◌∷◌, ◌++◌, arith, length, drop, slice, cons_some, nat_beq, if◌then◌else◌, Text, ◌==◌,
  text_eq, Bool-cases, codes,
}
use mathlib.Core.List.{append_assoc, append-nil}
use hf_mount.Follow.Sse.{
  SseEvent, SseParser, position, set_field, field_and_value, trim_end_matches, is_comment,
  take_line, push_loop, drain,
}
use hf_mount.Inode.Entry.{is_empty}

-- The parser with other bytes.
abbrev pub at : SseParser → List ℕ → SseParser
at p buf = record p { buf = buf; scanned = length buf }

-- One byte: a newline ends the line that stands in `buf`.
unfoldable pub feed : (List ℕ → Text) → SseParser → ℕ → SseParser × Option SseEvent
feed from_utf8_lossy p b =
    if nat_beq b 10
    then take_line from_utf8_lossy (at p []) p.buf
    else (at p (p.buf ++ b ∷ []), none)

unfoldable pub feed_all : (List ℕ → Text) → SseParser → List ℕ → SseParser × List SseEvent
feed_all from_utf8_lossy p [] = (p, [])
feed_all from_utf8_lossy p (b ∷ bytes) =
    let (q, event) = feed from_utf8_lossy p b in
    let (r, events) = feed_all from_utf8_lossy q bytes in (r, cons_some event events)

-- A line does not look at the bytes that the parser keeps.
take_line-at :
    (from_utf8_lossy : List ℕ → Text) (p : SseParser) (buf : List ℕ) (scanned : ℕ) (bytes : List ℕ)
    → take_line from_utf8_lossy (record p { buf = buf; scanned = scanned }) bytes ≡ (
      record (take_line from_utf8_lossy p bytes).0 { buf = buf; scanned = scanned },
      (take_line from_utf8_lossy p bytes).1,
    )
unfolding take_line set_field
take_line-at from_utf8_lossy p buf scanned bytes =
    let line = trim_end_matches 13 (from_utf8_lossy bytes) in
    elim (Bool-cases (is_empty line)) [
      | inl blank ↦ elim (Bool-cases (not (is_empty p.event) || not (is_empty p.event_data))) [
        | inl some_fields ↦ rw (blank, some_fields) refl
        | inr no_field ↦ rw (blank, no_field) refl
      ]
      | inr full ↦ elim (Bool-cases (is_comment line)) [
        | inl comment ↦ rw (full, comment) refl
        | inr is_field ↦ elim (Bool-cases ((field_and_value line).0 == codes "event")) [
          | inl names ↦ rw (full, is_field, names) refl
          | inr other ↦ elim (Bool-cases ((field_and_value line).0 == codes "data")) [
            | inl joined ↦ rw (full, is_field, other, joined) refl
            | inr unknown ↦ rw (full, is_field, other, unknown) refl
          ]
        ]
      ]
    ]

-- No newline stands in the bytes.
unfoldable pub IsPlain : List ℕ → Type 0
IsPlain [] = Unit
IsPlain (b ∷ bytes) = (nat_beq b 10 ≡ false) × IsPlain bytes

-- The first newline cuts the bytes.
pub record IsCut (bytes : List ℕ) : Type 0 where
  pub line : List ℕ
  pub rest : List ℕ
  pub plain : IsPlain line
  pub here : position 10 bytes ≡ some (length line)
  pub whole : bytes ≡ line ++ 10 ∷ rest

pub position-cases : (bytes : List ℕ) → ((position 10 bytes ≡ none) × IsPlain bytes) ⊎ IsCut bytes
unfolding position IsPlain
position-cases [] = inl (refl, tt)
position-cases (b ∷ bytes) = elim (Bool-cases (nat_beq b 10)) [
  | inl newline ↦ inr (record {
    line = [];
    rest = bytes;
    plain = tt;
    here = rw newline refl;
    whole = let e : b ≡ 10 = ground arith in rw e refl;
  })
  | inr plain ↦ elim (position-cases bytes) [
    | inl (nowhere, clean) ↦ inl (rw (plain, nowhere) refl, (plain, clean))
    | inr cut ↦ inr (record {
      line = b ∷ cut.line;
      rest = cut.rest;
      plain = (plain, cut.plain);
      here = rw (plain, cut.here) refl;
      whole = ap (◌∷◌ b) cut.whole;
    })
  ]
]

pub feed_all-plain :
    (from_utf8_lossy : List ℕ → Text) (p : SseParser) (buf line rest : List ℕ)
    → IsPlain line
    → feed_all from_utf8_lossy (at p buf) (line ++ rest)
      ≡ feed_all from_utf8_lossy (at p (buf ++ line)) rest
unfolding feed_all feed IsPlain
feed_all-plain from_utf8_lossy p buf [] rest plain =
    ap (λ r. feed_all from_utf8_lossy (at p r) rest) (sym (append-nil buf))
feed_all-plain from_utf8_lossy p buf (b ∷ line) rest plain = rw plain.0 (
    feed_all-plain from_utf8_lossy p (buf ++ b ∷ []) line rest plain.1
    ∙ ap (λ r. feed_all from_utf8_lossy (at p r) rest) (append_assoc buf (b ∷ []) line))

-- What a newline does to the two parsers, from what the line does to the fields.
abbrev pub ends : (List ℕ → Text) → SseParser → List ℕ → List ℕ → SseParser × List SseEvent
ends from_utf8_lossy p bytes rest =
    let (q, event) = take_line from_utf8_lossy p bytes in
    let (r, events) = feed_all from_utf8_lossy (at q []) rest in (r, cons_some event events)

pub feed_all-newline :
    (from_utf8_lossy : List ℕ → Text) (p : SseParser) (buf rest : List ℕ)
    → feed_all from_utf8_lossy (at p buf) (10 ∷ rest) ≡ ends from_utf8_lossy p buf rest
unfolding feed_all feed
feed_all-newline from_utf8_lossy p buf rest =
    ap
      (λ (t : SseParser × Option SseEvent).
        let (q, event) = t in
        let (r, events) = feed_all from_utf8_lossy q rest in (r, cons_some event events))
      (take_line-at from_utf8_lossy p [] 0 buf)

pub loop_none :
    (fuel : ℕ) (from_utf8_lossy : List ℕ → Text) (p : SseParser) (consumed : ℕ)
    → position 10 (drop p.scanned p.buf) ≡ none
    → push_loop (suc fuel) from_utf8_lossy p consumed ≡ (p, consumed, [])
unfolding push_loop
loop_none fuel from_utf8_lossy p consumed h = rw (h, push_loop) refl

pub loop_some :
    (fuel : ℕ) (from_utf8_lossy : List ℕ → Text) (p : SseParser) (buf : List ℕ)
    (scanned consumed pos : ℕ) (bytes : List ℕ)
    → position 10 (drop scanned buf) ≡ some pos
    → slice buf consumed (scanned + pos - consumed) ≡ bytes
    → drain
        (push_loop (suc fuel) from_utf8_lossy (record p { buf = buf; scanned = scanned }) consumed)
      ≡ (let (q, event) = take_line from_utf8_lossy p bytes in
          let end = scanned + pos + 1 in
          let (r, events) =
            drain (push_loop fuel from_utf8_lossy (record q { buf = buf; scanned = end }) end) in
          (r, cons_some event events))
unfolding push_loop
loop_some fuel from_utf8_lossy p buf scanned consumed pos bytes h cut =
    let end = scanned + pos + 1 in
    let kept : SseParser × Option SseEvent → SseParser × Option SseEvent =
      λ t. (record t.0 { buf = buf; scanned = end }, t.1) in
    rw (h, push_loop)
      (ap
        (λ (t : SseParser × Option SseEvent).
          let r = drain (push_loop fuel from_utf8_lossy t.0 end) in (r.0, cons_some t.1 r.1))
        (take_line-at from_utf8_lossy p buf end (slice buf consumed (scanned + pos - consumed))
          ∙ ap (λ r. kept (take_line from_utf8_lossy p r)) cut))
