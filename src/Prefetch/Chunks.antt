-- ===== src/Prefetch/Chunks.antt =====
-- The chunk buffer of src/virtual_fs/prefetch.rs: `read_chunk_range` and the loop of
-- `drain_to_seek` that pops consumed chunks.
use hf_mount.Base.{
  ℕ, ◌+◌, ◌-◌, ◌≤◌, min, ◌≡◌, refl, sym, ◌∙◌, ap, true, List, [], ◌∷◌, ◌++◌, inl, inr, arith,
  length, take, drop, slice, ltb, leb, nat_beq, if◌then◌else◌, Bool-cases, length-append,
  length-drop, take-append_le, take-append_ge, drop-append_le, drop-append_ge, drop-drop,
  drop_of_length-le, take_of_length-le,
}

abbrev pub Bytes : Type 0
Bytes = List ℕ

-- Every byte of the chunks, in order.
abbrev pub joined : List Bytes → Bytes
joined [] = []
joined (c ∷ cs) = c ++ joined cs

-- The bytes that the buffer holds: those before `front_offset` in the first chunk are consumed.
abbrev pub logical : List Bytes → ℕ → Bytes
logical [] front_offset = []
logical (c ∷ cs) front_offset = drop front_offset c ++ joined cs

-- `front_offset` lies within the first chunk, so that `chunk.len() - front_offset` is exact.
abbrev pub FrontFits : List Bytes → ℕ → Type 0
FrontFits [] front_offset = front_offset ≡ 0
FrontFits (c ∷ cs) front_offset = front_offset ≤ length c

-- `for next_chunk in chunks.iter().skip(i + 1)`
gather : List Bytes → ℕ → Bytes
gather [] remaining = []
gather (next ∷ rest) remaining =
    let taken = min remaining (length next) in
    let more = gather rest (remaining - taken) in
    if nat_beq (remaining - taken) 0 then take taken next else take taken next ++ more

-- The body of the loop at the chunk that holds the first byte.
copy_from : Bytes → List Bytes → ℕ → ℕ → Bytes
unfolding gather
copy_from chunk rest chunk_start count =
    let chunk_avail = length chunk - chunk_start in
    if leb count chunk_avail
    then slice chunk chunk_start count
    else drop chunk_start chunk ++ gather rest (count - chunk_avail)

-- `for (i, chunk) in chunks.iter().enumerate()`; `start` is 0 from the second chunk on.
find_range : List Bytes → ℕ → ℕ → ℕ → Bytes
find_range [] start logical_off count = []
find_range (chunk ∷ rest) start logical_off count =
    let eff = length chunk - start in
    let later = find_range rest 0 (logical_off - eff) count in
    if ltb logical_off eff then copy_from chunk rest (start + logical_off) count else later

unfoldable pub read_chunk_range : List Bytes → ℕ → ℕ → ℕ → Bytes
unfolding find_range copy_from
read_chunk_range chunks front_offset skip count =
    if nat_beq count 0 then [] else find_range chunks front_offset skip count

gather_lem : (cs : List Bytes) (n : ℕ) → gather cs n ≡ take n (joined cs)
unfolding gather
gather_lem [] n = sym (take_of_length-le n [] (omega arith))
gather_lem (c ∷ cs) n = ground (
  arith,
  gather_lem cs (n - min n (length c)),
  take-append_le n c (joined cs),
  take-append_ge n c (joined cs),
  take_of_length-le (min n (length c)) c,
)

copy_from_lem :
    (c : Bytes) (cs : List Bytes) (start count : ℕ)
    → start ≤ length c
    → copy_from c cs start count ≡ take count (drop start c ++ joined cs)
unfolding copy_from
copy_from_lem c cs start count h = ground (
  arith,
  gather_lem cs (count - (length c - start)),
  take-append_le count (drop start c) (joined cs),
  take-append_ge count (drop start c) (joined cs),
  length-drop start c,
)

pub joined-logical : (cs : List Bytes) → joined cs ≡ logical cs 0
joined-logical [] = refl
joined-logical (c ∷ cs) = refl

pub FrontFits-zero : (cs : List Bytes) → FrontFits cs 0
FrontFits-zero [] = refl
FrontFits-zero (c ∷ cs) = omega arith

find_range_lem :
    (cs : List Bytes) (start off count : ℕ)
    → FrontFits cs start
    → find_range cs start off count ≡ take count (drop off (logical cs start))
unfolding find_range
find_range_lem [] start off count h = sym (
    ap (take count) (drop_of_length-le off [] (omega arith))
    ∙ take_of_length-le count [] (omega arith))
find_range_lem (c ∷ cs) start off count h = ground (
  arith,
  copy_from_lem c cs (start + off) count,
  find_range_lem cs 0 (off - (length c - start)) count (FrontFits-zero cs),
  joined-logical cs,
  drop-append_le off (drop start c) (joined cs),
  drop-append_ge off (drop start c) (joined cs),
  drop-drop off start c,
  length-drop start c,
)

-- `read_chunk_range` copies `count` bytes from logical offset `skip`, however they are cut into
-- chunks; fewer only where the buffer ends first.
pub read_chunk_range_lem :
    (chunks : List Bytes) (front_offset skip count : ℕ)
    → FrontFits chunks front_offset
    → read_chunk_range chunks front_offset skip count
      ≡ slice (logical chunks front_offset) skip count
unfolding read_chunk_range
read_chunk_range_lem chunks front_offset skip count h =
    ground (arith, find_range_lem chunks front_offset skip count h)

-- What the loop `while remaining > 0` of `drain_to_seek` changes.
pub record Front : Type 0 where
  pub chunks : List Bytes
  pub chunks_len : ℕ
  pub chunks_front_offset : ℕ

-- `chunks.front().map(|c| c.len() - chunks_front_offset)` is the `none` of an empty queue, where the
-- loop breaks.
unfoldable pub pop_consumed : List Bytes → ℕ → ℕ → ℕ → Front
pop_consumed [] front_offset len remaining = record {
  chunks = [];
  chunks_len = len;
  chunks_front_offset = front_offset;
}
pop_consumed (c ∷ cs) front_offset len remaining =
    let eff = length c - front_offset in
    let popped = pop_consumed cs 0 (len - eff) (remaining - eff) in
    if nat_beq remaining 0
    then record { chunks = c ∷ cs; chunks_len = len; chunks_front_offset = front_offset }
    else if leb eff remaining
    then popped
    else record {
      chunks = c ∷ cs;
      chunks_len = len - remaining;
      chunks_front_offset = front_offset + remaining;
    }

-- The popped queue holds the rest of the bytes, its length is exact and its front offset fits.
pub record IsPopped (chunks : List Bytes) (front_offset remaining : ℕ) (f : Front) : Type 0 where
  pub bytes : logical f.chunks f.chunks_front_offset ≡ drop remaining (logical chunks front_offset)
  pub len : f.chunks_len ≡ length (logical f.chunks f.chunks_front_offset)
  pub fits : FrontFits f.chunks f.chunks_front_offset

module _ (c : Bytes) (cs : List Bytes) (fo : ℕ) where
  length-logical : length (drop fo c ++ joined cs) ≡ (length c - fo) + length (logical cs 0)
  length-logical = rw (length-append (drop fo c) (joined cs), length-drop fo c, joined-logical cs)

  drop_part :
      (remaining : ℕ)
      → remaining ≤ length c - fo
      → drop remaining (drop fo c ++ joined cs) ≡ drop (fo + remaining) c ++ joined cs
  drop_part remaining h =
      drop-append_le remaining (drop fo c) (joined cs) (omega (arith, length-drop fo c))
      ∙ ap (λ b. b ++ joined cs) (drop-drop remaining fo c)

  drop_whole :
      (remaining : ℕ)
      → length c - fo ≤ remaining
      → drop remaining (drop fo c ++ joined cs) ≡ drop (remaining - (length c - fo)) (logical cs 0)
  drop_whole remaining h =
      drop-append_ge remaining (drop fo c) (joined cs) (omega (arith, length-drop fo c))
      ∙ rw (length-drop fo c, joined-logical cs)

  pop_whole :
      (remaining : ℕ) {f : Front}
      → length c - fo ≤ remaining
      → IsPopped cs 0 (remaining - (length c - fo)) f
      → IsPopped (c ∷ cs) fo remaining f
  pop_whole remaining h p = record {
    bytes = p.bytes ∙ sym (drop_whole remaining h);
    len = p.len;
    fits = p.fits;
  }

pub pop_consumed-IsPopped :
    (cs : List Bytes) (fo len remaining : ℕ)
    → FrontFits cs fo
    → len ≡ length (logical cs fo)
    → IsPopped cs fo remaining (pop_consumed cs fo len remaining)
unfolding pop_consumed
pop_consumed-IsPopped [] fo len remaining h k = record {
  bytes = sym (drop_of_length-le remaining [] (omega arith));
  len = k;
  fits = h;
}
pop_consumed-IsPopped (c ∷ cs) fo len remaining h k = elim (Bool-cases (nat_beq remaining 0)) [
  | inl stop ↦ rw stop (record {
    bytes = sym (ap (λ n. drop n (logical (c ∷ cs) fo)) (zero_of stop));
    len = k;
    fits = h;
  })
  | inr more ↦ rw more (elim (Bool-cases (leb (length c - fo) remaining)) [
    | inl whole ↦ rw whole (
        pop_whole c cs fo remaining (ground arith) (
          pop_consumed-IsPopped cs 0 (len - (length c - fo)) (remaining - (length c - fo))
            (FrontFits-zero cs) (omega (arith, length-logical c cs fo))))
    | inr part ↦ rw part (record {
      bytes = sym (drop_part c cs fo remaining (ground arith));
      len = ground (arith, length-logical c cs fo, length-logical c cs (fo + remaining));
      fits = ground arith;
    })
  ])
]
  where
    zero_of : nat_beq remaining 0 ≡ true → remaining ≡ 0
    zero_of e = ground arith
