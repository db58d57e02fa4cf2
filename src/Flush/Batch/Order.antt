-- ===== src/Flush/Batch/Order.antt =====
-- The batch that `flush_batch` of src/virtual_fs/flush.rs sends: every add stands before every
-- delete, and the uploads of the chunks are all there.
use hf_mount.Base.{
  ℕ, zero, suc, ◌≤◌, ◌≡◌, refl, Option, some, List, [], ◌∷◌, ◌++◌, arith, length, take, drop,
  length-take, length-drop, length-append, if◌then◌else◌,
}
use hf_mount.Flush.Batch.{
  BatchOp, add_file, FlushItem, Uploaded, upload_chunk_size, upload_chunks, is_unchanged,
  delete_ops_of,
}

-- The pairs that are not skipped.
unfoldable pub changed : List (FlushItem × Uploaded) → List (FlushItem × Uploaded)
changed [] = []
changed (p ∷ pairs) = let rest = changed pairs in if is_unchanged p then rest else p ∷ rest

abbrev pub add_of : ℕ → FlushItem × Uploaded → BatchOp
add_of mtime_ms (item, info) = add_file item.full_path info.hash mtime_ms

unfoldable pub deletes_of : List (FlushItem × Uploaded) → List BatchOp
deletes_of [] = []
deletes_of ((item, info) ∷ pairs) = delete_ops_of item.pending_deletes ++ deletes_of pairs

-- An upload that answers every chunk, with one result for each file.
abbrev pub Answers : (List FlushItem → Option (List Uploaded)) → Type 0
Answers upload =
    (chunk : List FlushItem)
    → (results : List Uploaded) × (upload chunk ≡ some results) × (length results ≡ length chunk)

chunk_step :
    (fuel : ℕ) (upload : List FlushItem → Option (List Uploaded)) (item : FlushItem)
    (items : List FlushItem) (results more : List Uploaded)
    → upload (take upload_chunk_size (item ∷ items)) ≡ some results
    → upload_chunks fuel upload (drop upload_chunk_size (item ∷ items)) ≡ some more
    → upload_chunks (suc fuel) upload (item ∷ items) ≡ some (results ++ more)
unfolding upload_chunks
chunk_step fuel upload item items results more done rest =
    rw (done, upload_chunks) (rw (rest, upload_chunks) refl)

-- If every chunk is answered, the loop over the chunks ends with one result for each file. Fuel of
-- the number of files is enough.
pub upload_chunks-total :
    (fuel : ℕ) (upload : List FlushItem → Option (List Uploaded)) (items : List FlushItem)
    → length items ≤ fuel
    → Answers upload
    → (results : List Uploaded) × (upload_chunks fuel upload items ≡ some results)
      × (length results ≡ length items)
unfolding upload_chunks
upload_chunks-total fuel upload [] enough answers = ([], refl, refl)
upload_chunks-total zero upload (item ∷ items) enough answers = absurd (omega arith)
upload_chunks-total (suc fuel) upload (item ∷ items) enough answers =
    let (results, done, count) = answers (take upload_chunk_size (item ∷ items)) in
    let left : length (drop upload_chunk_size (item ∷ items)) ≤ fuel =
      omega (arith, length-drop {0} upload_chunk_size (item ∷ items)) in
    let (more, rest, count') =
      upload_chunks-total fuel upload (drop upload_chunk_size (item ∷ items)) left answers in
    (
      results ++ more,
      chunk_step fuel upload item items results more done rest,
      omega (
        arith,
        length-append {0} results more,
        length-take {0} upload_chunk_size (item ∷ items),
        length-drop {0} upload_chunk_size (item ∷ items),
      ),
    )
