-- ===== src/Staging/Budget.antt =====
-- `gc` of src/virtual_fs/staging.rs goes on until the budget is met or nothing is left to take.
use hf_mount.Base.{
  ℕ, ◌≡◌, refl, sym, ◌∙◌, ap, Bool, true, false, inl, inr, ◌⊎◌, none, some, List, [], ◌∷◌, arith,
  nat_beq, nat_beq_iff, nat_eq, ◌==◌, Bool-cases, Option-cases,
}
use mathlib.Core.Path.{subst}
use hf_mount.Base.HashMap
use hf_mount.Base.HashMap.{get-remove}
use hf_mount.Inode.Batch.{contains}
use hf_mount.Inode.Table.{InodeTable}
use hf_mount.Inode.Evict.{staging_gc_candidates}
use hf_mount.Staging.{
  StagingDir, is_over_limit, file_size, Outside, try_remove, is_clean, gc_one, gc_loop, gc,
}
use hf_mount.Staging.Collected.{try_absent, try_there, get-try_remove}

-- Nothing else happens, and the operating system removes what is there.
pub record IsQuiet (w : Outside) : Type 0 where
  pub removes_all : (ino : ℕ) → w.removes ino ≡ true
  pub alone : (ino : ℕ) (t : InodeTable) → w.others ino t ≡ t

size_of_none : (dir : StagingDir) (i : ℕ) → HashMap.get dir.files i ≡ none → file_size dir i ≡ 0
unfolding file_size
size_of_none dir i h = rw (h, file_size) refl

size_of_same :
    (dir dir' : StagingDir) (i : ℕ)
    → HashMap.get dir'.files i ≡ HashMap.get dir.files i
    → file_size dir' i ≡ file_size dir i
unfolding file_size
size_of_same dir dir' i h = ap (λ o. elim o [ none ↦ 0 | some size ↦ size ]) h

removed_size :
    (w : Outside) (dir : StagingDir) (ino : ℕ)
    → w.removes ino ≡ true
    → file_size (try_remove w dir ino).0 ino ≡ 0
removed_size w dir ino removes = elim (Option-cases (HashMap.get dir.files ino)) [
  | inl absent ↦
      ap (λ (r : StagingDir × Bool). file_size r.0 ino) (try_absent w dir ino absent)
      ∙ size_of_none dir ino absent
  | inr (size, there) ↦ size_of_none (try_remove w dir ino).0 ino (
      ap (λ m. HashMap.get m ino) (try_there w dir ino size there)
      ∙ rw removes (get-remove dir.files ino ino ∙ rw ((nat_beq_iff ino ino).1 refl) refl))
]

-- Within the budget, or nothing to take of these.
abbrev pub IsSettled : StagingDir → InodeTable → List ℕ → Type 0
IsSettled dir t inos =
    (is_over_limit dir ≡ false)
    ⊎ ((i : ℕ) → contains inos i ≡ true → is_clean t i ≡ true → file_size dir i ≡ 0)

module _ (w : Outside) (quiet : IsQuiet w) where
  -- What one collection does to the size of a file.
  one_size :
      (dir : StagingDir) (t : InodeTable) (ino i : ℕ)
      → file_size dir i ≡ 0
      → file_size (gc_one w dir t ino).0 i ≡ 0
  unfolding gc_one
  one_size dir t ino i none_left = elim (Bool-cases (is_over_limit dir)) [
    | inr within ↦ rw within none_left
    | inl over ↦ elim (Bool-cases (is_clean (w.others ino t) ino)) [
      | inr local ↦ rw (over, local) none_left
      | inl clean ↦ elim (Bool-cases (ino == i)) [
        | inl same ↦
            let e : ino ≡ i = (nat_beq_iff ino i).0 same in
            rw (over, clean)
              (ap (λ k. file_size (try_remove w dir ino).0 k) (sym e)
                ∙ removed_size w dir ino (quiet.removes_all ino))
        | inr other ↦
            rw (over, clean)
              (size_of_same dir (try_remove w dir ino).0 i (get-try_remove w dir ino i other)
                ∙ none_left)
      ]
    ]
  ]

  one_taken :
      (dir : StagingDir) (t : InodeTable) (ino : ℕ)
      → is_over_limit dir ≡ true
      → is_clean t ino ≡ true
      → file_size (gc_one w dir t ino).0 ino ≡ 0
  unfolding gc_one
  one_taken dir t ino over clean =
      let later : is_clean (w.others ino t) ino ≡ true =
        ap (λ u. is_clean u ino) (quiet.alone ino t) ∙ clean in
      rw (over, later) (removed_size w dir ino (quiet.removes_all ino))

  one_table : (dir : StagingDir) (t : InodeTable) (ino : ℕ) → (gc_one w dir t ino).1 ≡ t
  unfolding gc_one
  one_table dir t ino = elim (Bool-cases (is_over_limit dir)) [
    | inr within ↦ rw within refl
    | inl over ↦ elim (Bool-cases (is_clean (w.others ino t) ino)) [
      | inr local ↦ rw (over, local) (quiet.alone ino t)
      | inl clean ↦ rw (over, clean) (quiet.alone ino t)
    ]
  ]

  loop_size :
      (inos : List ℕ) (dir : StagingDir) (t : InodeTable) (i : ℕ)
      → file_size dir i ≡ 0
      → file_size (gc_loop w inos dir t).0 i ≡ 0
  unfolding gc_loop
  loop_size [] dir t i none_left = none_left
  loop_size (ino ∷ inos) dir t i none_left = elim (Bool-cases (is_over_limit dir)) [
    | inr within ↦ rw within none_left
    | inl over ↦ elim (Bool-cases (nat_beq (file_size dir ino) 0)) [
      | inl nothing ↦ rw (over, nothing) (loop_size inos dir t i none_left)
      | inr full ↦
          let r = gc_one w dir t ino in
          rw (over, full) (loop_size inos r.0 r.1 i (one_size dir t ino i none_left))
    ]
  ]

  loop-IsSettled :
      (inos : List ℕ) (dir : StagingDir) (t : InodeTable)
      → IsSettled (gc_loop w inos dir t).0 t inos
  unfolding gc_loop
  loop-IsSettled [] dir t = inr (λ i listed clean. absurd (unfold contains in ground arith))
  loop-IsSettled (ino ∷ inos) dir t = elim (Bool-cases (is_over_limit dir)) [
    | inr within ↦ rw within (inl within)
    | inl over ↦ elim (Bool-cases (nat_beq (file_size dir ino) 0)) [
      | inl nothing ↦
          rw (over, nothing)
            (with_one ino inos (gc_loop w inos dir t).0 t
              (λ clean. loop_size inos dir t ino ((nat_beq_iff (file_size dir ino) 0).0 nothing))
              (loop-IsSettled inos dir t))
      | inr full ↦
          let r = gc_one w dir t ino in
          let rest =
            subst (λ u. IsSettled (gc_loop w inos r.0 r.1).0 u inos) (one_table dir t ino)
              (loop-IsSettled inos r.0 r.1) in
          rw (over, full)
            (with_one ino inos (gc_loop w inos r.0 r.1).0 t
              (λ clean. loop_size inos r.0 r.1 ino (one_taken dir t ino over clean)) rest)
    ]
  ]
    where
      with_one :
          (ino : ℕ) (inos : List ℕ) (left : StagingDir) (t : InodeTable)
          → (is_clean t ino ≡ true → file_size left ino ≡ 0)
          → IsSettled left t inos
          → IsSettled left t (ino ∷ inos)
      with_one ino inos left t first (inl within) = inl within
      with_one ino inos left t first (inr rest) = inr (λ i listed clean.
          elim (Bool-cases (ino == i)) [
            | inl same ↦
                subst (λ k. is_clean t k ≡ true → file_size left k ≡ 0) ((nat_beq_iff ino i).0 same)
                  first clean
            | inr other ↦ rest i (unfold contains in ground arith) clean
          ])

  -- If nothing else happens meanwhile and the operating system removes what is there, a collection
  -- ends within the disk budget, or no clean candidate has a staging file with bytes left.
  pub gc-IsSettled :
      (dir : StagingDir) (t : InodeTable) → IsSettled (gc w dir t).0 t (staging_gc_candidates t)
  unfolding gc
  gc-IsSettled dir t = elim (Bool-cases (is_over_limit dir)) [
    | inr within ↦ rw within (inl within)
    | inl over ↦ rw over (loop-IsSettled (staging_gc_candidates t) dir t)
  ]
