-- ===== src/Prefetch/Read/Stored.antt =====
-- One round of the assembly loop of `VirtualFs::read`, after the fetch: `store_fetched`, then serve.
use mathlib.Core.Path.{subst}
use hf_mount.Base.{
  ℕ, ◌+◌, ◌<◌, min, ◌≡◌, refl, sym, ◌∙◌, ap, some, List, ◌++◌, arith, length, slice, add64,
  add64_exact, u64_mod, length-slice_within,
}
use hf_mount.Prefetch.Chunks.{Bytes, joined-logical, FrontFits-zero}
use hf_mount.Prefetch.State.{
  PrefetchState, window_of, forward_skip, store_fetched, try_serve_forward,
}
use hf_mount.Prefetch.Mirrors.{MirrorsSeek}
use hf_mount.Prefetch.Serve.{IsSound, hit, try_serve_forward_lem}
use hf_mount.Prefetch.Fetch.Attempts.{GotChunks, LeavesAt}
use hf_mount.Prefetch.Read.{serve_into}

module _ {S : Type 0} (file : Bytes) (At : ℕ → S → Type 0) where
  -- Another stream that stands at the end of the buffer keeps a state sound.
  pub restreamed-IsSound :
      (st st' : PrefetchState S)
      → st' ≡ record st { stream = st'.stream }
      → LeavesAt At st' (st.buf_start + st.chunks_len)
      → IsSound file At st
      → IsSound file At st'
  restreamed-IsSound st st' kept here v = subst (IsSound file At) (sym kept) (record {
    forward = record {
      size = v.forward.size;
      len = v.forward.len;
      fits = v.forward.fits;
      within = v.forward.within;
      buffer = v.forward.buffer;
    };
    behind = v.behind;
    windowed = record { low = v.windowed.low; high = v.windowed.high };
    positioned = here;
  })

  pub stored-IsSound :
      (st st' : PrefetchState S) (cursor : ℕ) (chunks : List Bytes) (total : ℕ)
      → st' ≡ record st { stream = st'.stream }
      → IsSound file At st
      → GotChunks file At cursor st' chunks total
      → IsSound file At (store_fetched st' cursor chunks total)
  unfolding store_fetched
  stored-IsSound st st' cursor chunks total kept v g = record {
    forward = record {
      size = ap (λ (x : PrefetchState S). x.file_size) kept ∙ v.forward.size;
      len = g.total_exact ∙ ap length (joined-logical chunks);
      fits = FrontFits-zero chunks;
      within = omega (arith, g.piece.inside, g.total_exact);
      buffer =
          sym (joined-logical chunks) ∙ g.piece.bytes ∙ ap (slice file cursor) (sym g.total_exact);
    };
    behind =
        subst (MirrorsSeek file) (sym (ap (λ (x : PrefetchState S). window_of x) kept)) v.behind;
    windowed = record {
      low = omega (arith, v.windowed.low, ap (λ (x : PrefetchState S). x.window_size) kept);
      high = omega (arith, v.windowed.high, ap (λ (x : PrefetchState S). x.window_size) kept);
    };
    positioned = g.resumes;
  }

  -- What one round adds to the response.
  pub record IsServed (st : PrefetchState S) (cursor : ℕ) (response : Bytes) (count : ℕ)
      (r : PrefetchState S × ℕ × Bytes) : Type 0 where
    pub sound : IsSound file At r.0
    pub moved : r.1 ≡ cursor + count
    pub grown : r.2 ≡ response ++ slice file cursor count

  module _ (room : length file + forward_skip < u64_mod) where
    hit_here :
        (cursor total remaining : ℕ)
        → 0 < total
        → hit file cursor total cursor remaining ≡ some (slice file cursor (min remaining total))
    hit_here cursor total remaining h = ground arith

    pub serve_into-IsServed :
        (st : PrefetchState S) (response : Bytes) (remaining : ℕ)
        → 0 < st.chunks_len
        → IsSound file At st
        → IsServed st st.buf_start response
            (min remaining st.chunks_len)
            (serve_into st st.buf_start response remaining)
    unfolding serve_into
    serve_into-IsServed st response remaining pos v =
        let (bytes, sound) = try_serve_forward_lem file room At st st.buf_start remaining v in
        let count = min remaining st.chunks_len in
        let served : (try_serve_forward st st.buf_start remaining).1
            ≡ some (slice file st.buf_start count) =
          bytes ∙ hit_here st.buf_start st.chunks_len remaining pos in
        let long : length (slice file st.buf_start count) ≡ count =
          length-slice_within file st.buf_start count (omega (arith, v.forward.within)) in
        rw (served, serve_into)
          (record {
            sound = sound;
            moved =
                ap (add64 st.buf_start) long
                ∙ add64_exact st.buf_start count (omega (arith, v.forward.within));
            grown = refl;
          })
