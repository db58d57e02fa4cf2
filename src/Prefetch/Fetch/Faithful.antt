-- ===== src/Prefetch/Fetch/Faithful.antt =====
-- `fetch_data` brings the file's own bytes, provided that the download streams do.
use hf_mount.Base.{
  ℕ, zero, suc, ◌+◌, ◌-◌, ◌≤◌, ◌<◌, ◌≡◌, refl, sym, ap, true, false, Option, none, some, List, [],
  ◌∷◌, ◌++◌, inl, inr, arith, length, ltb, Bool-cases, eq_of_some, length-append,
}
use mathlib.Core.Path.{subst}
use mathlib.Core.List.{append_assoc, append-nil}
use hf_mount.Prefetch.Chunks.{Bytes, joined}
use hf_mount.Prefetch.Mirrors.{IsPiece, IsPiece-append}
use hf_mount.Prefetch.Fetch.{Next, chunk, eof, failed, Downloads, Fetched, read_chunks}

-- What the code relies on: a stream that is opened at an offset yields the file from there on, in
-- chunks that are not empty, and nothing more after its end.
pub record IsFaithful {W S : Type 0} (file : Bytes) (At : ℕ → S → Type 0) (d : Downloads W S)
    : Type 0 where
  pub opened :
      (w : W) (cursor : ℕ) (end : Option ℕ) (s : S)
      → (d.open_stream w cursor end).1 ≡ some s
      → At cursor s
  pub next_chunk :
      (p : ℕ) (s s' : S) (c : Bytes)
      → At p s
      → d.next s ≡ chunk c s'
      → IsPiece file p c × At (p + length c) s'
  pub nonempty : (s s' : S) (c : Bytes) → d.next s ≡ chunk c s' → 0 < length c
  pub ended : (p q : ℕ) (s s' : S) → At p s → d.next s ≡ eof s' → At q s'

joined-append : (cs : List Bytes) (c : Bytes) → joined (cs ++ c ∷ []) ≡ joined cs ++ c
joined-append [] c = append-nil c
joined-append (b ∷ cs) c = rw (joined-append cs c) (sym (append_assoc b (joined cs) c))

module _ {W S : Type 0} (file : Bytes) (At : ℕ → S → Type 0) (d : Downloads W S)
    (faithful : IsFaithful file At d) (cursor : ℕ) where
  -- What a chunk loop leaves after `fetch_size` bytes were asked for.
  pub record IsFetched (fetch_size : ℕ) (f : Fetched S) : Type 0 where
    pub piece : IsPiece file cursor (joined f.chunks)
    pub total_exact : f.total ≡ length (joined f.chunks)
    pub full : f.stream_eof ≡ false → f.is_failed ≡ false → fetch_size ≤ f.total
    pub at_end : (s : S) → f.left ≡ some s → f.stream_eof ≡ false → At (cursor + f.total) s
    pub spent : (s : S) (q : ℕ) → f.left ≡ some s → f.stream_eof ≡ true → At q s

  extend-IsPiece :
      (chunks : List Bytes) (c : Bytes)
      → IsPiece file cursor (joined chunks)
      → IsPiece file (cursor + length (joined chunks)) c
      → IsPiece file cursor (joined (chunks ++ c ∷ []))
  extend-IsPiece chunks c p q =
      rw (joined-append chunks c, q.bytes)
        (IsPiece-append file cursor (joined chunks) (length c) p q.inside)

  pub read_chunks-IsFetched :
      (fuel fetch_size : ℕ) (s : S) (chunks : List Bytes) (total : ℕ)
      → fetch_size - total < fuel
      → At (cursor + total) s
      → IsPiece file cursor (joined chunks)
      → total ≡ length (joined chunks)
      → (f : Fetched S) × (read_chunks d fuel fetch_size s chunks total ≡ some f)
        × IsFetched fetch_size f
  unfolding read_chunks
  read_chunks-IsFetched zero fetch_size s chunks total enough here p e = absurd (omega arith)
  read_chunks-IsFetched (suc fuel) fetch_size s chunks total enough here p e =
      elim (Bool-cases (ltb total fetch_size)) [
        | inr done ↦ (
          record {
            chunks = chunks;
            total = total;
            is_failed = false;
            stream_eof = false;
            left = some s;
          },
          rw (done, read_chunks),
          record {
            piece = p;
            total_exact = e;
            full = λ _ _. ground arith;
            at_end = λ s' q _. subst (At (cursor + total)) (eq_of_some q) here;
            spent = λ s' q h k. cc;
          },
        )
        | inl more ↦ step more (d.next s) refl (read_chunks-IsFetched fuel)
      ]
    where
      step :
          ltb total fetch_size ≡ true
          → (n : Next S) → d.next s ≡ n
          → ((fetch_size : ℕ) (s : S) (chunks : List Bytes) (total : ℕ)
              → fetch_size - total < fuel
              → At (cursor + total) s
              → IsPiece file cursor (joined chunks)
              → total ≡ length (joined chunks)
              → (f : Fetched S) × (read_chunks d fuel fetch_size s chunks total ≡ some f)
                × IsFetched fetch_size f)
          → (f : Fetched S) × (read_chunks d (suc fuel) fetch_size s chunks total ≡ some f)
            × IsFetched fetch_size f
      step more (chunk c s') q ih =
          let (piece, there) = faithful.next_chunk (cursor + total) s s' c here q in
          let grown : 0 < length c = faithful.nonempty s s' c q in
          let end : cursor + total + length c ≡ cursor + (total + length c) = omega arith in
          let (f, run, fetched) =
            ih fetch_size s' (chunks ++ c ∷ []) (total + length c) (ground arith)
              (subst (λ k. At k s') end there)
              (extend-IsPiece chunks c p (subst (λ k. IsPiece file (cursor + k) c) e piece))
              (omega
                (arith, ap length (joined-append chunks c), length-append (joined chunks) c)) in
          (f, rw (more, q, read_chunks) run, fetched)
      step more (eof s') q ih = (
        record {
          chunks = chunks;
          total = total;
          is_failed = false;
          stream_eof = true;
          left = some s';
        },
        rw (more, q, read_chunks),
        record {
          piece = p;
          total_exact = e;
          full = λ h _. cc;
          at_end = λ s'' _ h. cc;
          spent = λ s'' r same _.
              subst (At r) (eq_of_some same) (faithful.ended (cursor + total) r s s' here q);
        },
      )
      step more failed q ih = (
        record {
          chunks = chunks;
          total = total;
          is_failed = true;
          stream_eof = false;
          left = none;
        },
        rw (more, q, read_chunks),
        record {
          piece = p;
          total_exact = e;
          full = λ _ h. cc;
          at_end = λ s'' h _. cc;
          spent = λ s'' r h _. cc;
        },
      )
