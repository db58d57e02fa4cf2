-- ===== src/Prefetch/Fetch/Attempts.antt =====
-- The three attempts of `fetch_data`: they end, and what they bring is the file's.
use mathlib.Core.Path.{subst}
use hf_mount.Base.{
  ℕ, zero, suc, ◌+◌, ◌≤◌, ◌<◌, ◌≡◌, refl, ◌∙◌, ap, true, false, Option, none, some, List, [], inl,
  inr, arith, length, ltb, Bool-cases,
}
use hf_mount.Prefetch.Chunks.{Bytes, joined}
use hf_mount.Prefetch.State.{PrefetchState, FetchPlan, range_download, is_stream}
use hf_mount.Prefetch.Mirrors.{IsPiece, IsPiece-slice}
use hf_mount.Prefetch.Fetch.{
  Downloads, Fetched, read_chunks, obtain, attempts, keeps_stream, keep_stream, fetch_data,
  max_attempts,
}
use hf_mount.Prefetch.Fetch.Faithful.{IsFaithful, IsFetched, read_chunks-IsFetched}

-- A stream that is left in a state yields the file from `p` on.
abbrev pub LeavesAt : {S : Type 0} → (ℕ → S → Type 0) → PrefetchState S → ℕ → Type 0
LeavesAt {S} At st p = (s : S) → st.stream ≡ some s → At p s

pub record GotChunks {S : Type 0} (file : Bytes) (At : ℕ → S → Type 0) (cursor : ℕ)
    (st : PrefetchState S) (chunks : List Bytes) (total : ℕ) : Type 0 where
  pub piece : IsPiece file cursor (joined chunks)
  pub total_exact : total ≡ length (joined chunks)
  pub positive : 0 < total
  pub resumes : LeavesAt At st (cursor + total)

-- What a fetch leaves: chunks of the file and a stream behind them, or `Err(EIO)` and a stream that
-- has ended, if any.
abbrev pub Fetches :
    {S : Type 0} → Bytes → (ℕ → S → Type 0) → ℕ → PrefetchState S → Option (List Bytes × ℕ) → Type 0
Fetches file At cursor st none = (q : ℕ) → LeavesAt At st q
Fetches file At cursor st (some (chunks, total)) = GotChunks file At cursor st chunks total

pub record IsAttempted {W S : Type 0} (file : Bytes) (At : ℕ → S → Type 0) (cursor : ℕ)
    (st : PrefetchState S) (r : W × PrefetchState S × Option (List Bytes × ℕ)) : Type 0 where
  pub kept : r.1 ≡ record st { stream = r.1.stream }
  pub result : Fetches file At cursor r.1 r.2

zero_offset : (p : ℕ) → p ≡ p + 0
zero_offset p = omega arith

module _ {W S : Type 0} (file : Bytes) (At : ℕ → S → Type 0) (d : Downloads W S)
    (faithful : IsFaithful file At d) (cursor : ℕ) (inside : cursor ≤ length file)
    (plan : FetchPlan) (wanted : 0 < plan.fetch_size) (fuel : ℕ)
    (enough : plan.fetch_size < fuel) where
  obtain_at :
      (w : W) (first : Option S) (s : S)
      → ((s : S) → first ≡ some s → At cursor s)
      → (obtain d w first cursor plan).1 ≡ some s
      → At cursor s
  unfolding obtain
  obtain_at w none s h e = faithful.opened w cursor _ s e
  obtain_at w (some t) s h e = h s e

  no_bytes : IsPiece file cursor (joined [])
  no_bytes = IsPiece-slice file cursor 0 (omega arith)

  after_kept :
      (st : PrefetchState S) (f : Fetched S)
      → keep_stream plan st f ≡ record st { stream = (keep_stream plan st f).stream }
  unfolding keep_stream
  after_kept st f = ground arith

  -- The stream after an attempt is the one that was read, or the one from before.
  after_leaves :
      (st : PrefetchState S) (f : Fetched S) (p : ℕ)
      → LeavesAt At st p
      → ((s : S) → keeps_stream plan f ≡ true → f.left ≡ some s → At p s)
      → LeavesAt At (keep_stream plan st f) p
  unfolding keep_stream
  after_leaves st f p old read s e = elim (Bool-cases (keeps_stream plan f)) [
    | inl keep ↦ read s keep (ground arith)
    | inr drops ↦ old s (ground arith)
  ]

  after_got :
      (st : PrefetchState S) (f : Fetched S)
      → ((q : ℕ) → LeavesAt At st q)
      → IsFetched file At d faithful cursor plan.fetch_size f
      → 0 < f.total
      → GotChunks file At cursor (keep_stream plan st f) f.chunks f.total
  after_got st f spent g pos = record {
    piece = g.piece;
    total_exact = g.total_exact;
    positive = pos;
    resumes =
        after_leaves st f (cursor + f.total) (spent (cursor + f.total))
          (λ s keep e. g.at_end s e (ground arith));
  }

  after_none :
      (st : PrefetchState S) (f : Fetched S)
      → ((q : ℕ) → LeavesAt At st q)
      → IsFetched file At d faithful cursor plan.fetch_size f
      → f.total ≡ 0
      → (q : ℕ) → LeavesAt At (keep_stream plan st f) q
  after_none st f spent g z q = after_leaves st f q (spent q) λ s keep e.
      elim (Bool-cases f.stream_eof) [
        | inl ended ↦ g.spent s q e ended
        | inr alive ↦ absurd (ground (arith, g.full alive))
      ]

  module _ (left : ℕ) (w : W) (st : PrefetchState S) (first : Option S) (s : S)
      (f : Fetched S) where
    attempt_got :
        (obtain d w first cursor plan).1 ≡ some s
        → read_chunks d fuel plan.fetch_size s [] 0 ≡ some f
        → ltb 0 f.total ≡ true
        → attempts d fuel (suc left) w st first cursor plan
          ≡ some ((obtain d w first cursor plan).0, keep_stream plan st f, some (f.chunks, f.total))
    unfolding attempts
    attempt_got e run got = rw (e, attempts) (rw run (rw got))

    attempt_empty :
        (obtain d w first cursor plan).1 ≡ some s
        → read_chunks d fuel plan.fetch_size s [] 0 ≡ some f
        → ltb 0 f.total ≡ false
        → attempts d fuel (suc left) w st first cursor plan
          ≡ attempts d fuel left
              (obtain d w first cursor plan).0
              (keep_stream plan st f)
              none
              cursor
              plan
    unfolding attempts
    attempt_empty e run empty = rw (e, attempts) (rw run (rw empty))

  attempts-IsAttempted :
      (left : ℕ) (w : W) (st : PrefetchState S) (first : Option S)
      → ((s : S) → first ≡ some s → At cursor s)
      → ((q : ℕ) → LeavesAt At st q)
      → (r : W × PrefetchState S × Option (List Bytes × ℕ)) × (attempts d fuel left w st first
            cursor plan
          ≡ some r)
        × IsAttempted file At cursor st r
  unfolding attempts
  attempts-IsAttempted zero w st first at_cursor spent =
      ((w, st, none), refl, record { kept = refl; result = spent })
  attempts-IsAttempted (suc left) w st first at_cursor spent =
      step (obtain d w first cursor plan).1 refl (attempts-IsAttempted left)
    where
      step :
          (o : Option S)
          → (obtain d w first cursor plan).1 ≡ o
          → ((w : W) (st : PrefetchState S) (first : Option S)
              → ((s : S) → first ≡ some s → At cursor s)
              → ((q : ℕ) → LeavesAt At st q)
              → (r : W × PrefetchState S × Option (List Bytes × ℕ)) × (attempts d fuel left w st
                    first cursor plan
                  ≡ some r)
                × IsAttempted file At cursor st r)
          → (r : W × PrefetchState S × Option (List Bytes × ℕ)) × (attempts d fuel
                (suc left)
                w
                st
                first
                cursor
                plan
              ≡ some r)
            × IsAttempted file At cursor st r
      step none e again =
          let (r, run, post) =
            again (obtain d w first cursor plan).0 st none (λ s h. absurd (ground arith)) spent in
          (r, rw (e, attempts) run, post)
      step (some s) e again =
          let (f, run, fetched) =
            read_chunks-IsFetched file At d faithful cursor fuel plan.fetch_size s [] 0
              (omega arith)
              (subst (λ p. At p s) (zero_offset cursor) (obtain_at w first s at_cursor e)) no_bytes
              refl in
          let w' = (obtain d w first cursor plan).0 in
          elim (Bool-cases (ltb 0 f.total)) [
            | inl got ↦ (
              (w', keep_stream plan st f, some (f.chunks, f.total)),
              attempt_got left w st first s f e run got,
              record {
                kept = after_kept st f;
                result = after_got st f spent fetched (ground arith);
              },
            )
            | inr empty ↦
                let (r, retried, post) =
                  again w' (keep_stream plan st f) none (λ s h. absurd (ground arith))
                    (after_none st f spent fetched (ground arith)) in
                (
                  r,
                  attempt_empty left w st first s f e run empty ∙ retried,
                  record {
                    kept =
                        post.kept
                        ∙ ap (λ (x : PrefetchState S). record x { stream = r.1.stream })
                            (after_kept st f);
                    result = post.result;
                  },
                )
          ]

  -- With faithful streams, a cursor inside the file, a positive fetch size and fuel beyond it: from a
  -- state whose stream, if it has one, stands at the cursor, and that has none for a range download,
  -- `fetch_data` ends, changes only the stream, and fetches the file's bytes or fails with `EIO`.
  pub fetch_data-IsAttempted :
      (w : W) (st : PrefetchState S)
      → LeavesAt At st cursor
      → (plan.strategy ≡ range_download → st.stream ≡ none)
      → (r : W × PrefetchState S × Option (List Bytes × ℕ)) × (fetch_data d fuel w st cursor plan
          ≡ some r)
        × IsAttempted file At cursor st r
  unfolding fetch_data
  fetch_data-IsAttempted w st here bounded = elim (Bool-cases (is_stream plan.strategy)) [
    | inl streams ↦
        let (r, run, post) =
          attempts-IsAttempted max_attempts w (record st { stream = none }) st.stream here
            (λ q s h. absurd (ground arith)) in
        (r, rw (streams, fetch_data) run, record { kept = post.kept; result = post.result })
    | inr ranges ↦
        let no_stream : st.stream ≡ none = bounded (ground arith) in
        let (r, run, post) =
          attempts-IsAttempted max_attempts w st none (λ s h. absurd (ground arith))
            (λ q s h. absurd (ground arith)) in
        (r, rw (ranges, fetch_data) run, post)
  ]
