-- ===== src/Staging/Collected.antt =====
-- `gc` of src/virtual_fs/staging.rs takes no file with local changes, and goes on until the budget is
-- met or nothing is left to take.
use hf_mount.Base.{
  ℕ, ◌≡◌, refl, sym, ◌∙◌, ap, Bool, true, false, inl, inr, none, some, List, [], ◌∷◌, arith,
  nat_beq, nat_beq_iff, if◌then◌else◌, nat_eq, ◌==◌, Bool-cases, Option-cases,
}
use hf_mount.Base.HashMap
use hf_mount.Base.HashMap.{get-remove}
use hf_mount.Inode.Table.{InodeTable}
use hf_mount.Inode.Evict.{staging_gc_candidates}
use hf_mount.Staging.{
  StagingDir, is_over_limit, file_size, resize_bytes, Outside, try_remove, is_clean, gc_one,
  gc_loop, gc,
}

pub try_absent :
    (w : Outside) (dir : StagingDir) (ino : ℕ)
    → HashMap.get dir.files ino ≡ none
    → try_remove w dir ino ≡ (dir, false)
unfolding try_remove
try_absent w dir ino absent = rw (absent, try_remove) refl

pub try_there :
    (w : Outside) (dir : StagingDir) (ino size : ℕ)
    → HashMap.get dir.files ino ≡ some size
    → (try_remove w dir ino).0.files
      ≡ (if w.removes ino then HashMap.remove dir.files ino else dir.files)
unfolding try_remove resize_bytes
try_there w dir ino size there =
    rw (there, try_remove)
      (elim (Bool-cases (w.removes ino)) [
        | inl removed ↦ rw removed refl
        | inr kept ↦ rw kept refl
      ])

pub get-try_remove :
    (w : Outside) (dir : StagingDir) (ino j : ℕ)
    → (ino == j) ≡ false
    → HashMap.get (try_remove w dir ino).0.files j ≡ HashMap.get dir.files j
get-try_remove w dir ino j other = elim (Option-cases (HashMap.get dir.files ino)) [
  | inl absent ↦
      ap (λ (r : StagingDir × Bool). HashMap.get r.0.files j) (try_absent w dir ino absent)
  | inr (size, there) ↦
      ap (λ m. HashMap.get m j) (try_there w dir ino size there)
      ∙ elim (Bool-cases (w.removes ino)) [
        | inl removed ↦ rw removed (get-remove dir.files ino j ∙ rw other refl)
        | inr kept ↦ rw kept refl
      ]
]

-- Removing takes the file of an inode that is clean once its lock is there.
gc_one-files :
    (w : Outside) (dir : StagingDir) (t : InodeTable) (ino j : ℕ)
    → is_clean (w.others j t) j ≡ false
    → HashMap.get (gc_one w dir t ino).0.files j ≡ HashMap.get dir.files j
unfolding gc_one
gc_one-files w dir t ino j unclean = elim (Bool-cases (is_over_limit dir)) [
  | inr within ↦ rw within refl
  | inl over ↦ elim (Bool-cases (is_clean (w.others ino t) ino)) [
    | inr local ↦ rw (over, local) refl
    | inl clean ↦ elim (Bool-cases (ino == j)) [
      | inl same ↦
          let both : is_clean (w.others j t) j ≡ true =
            ap (λ i. is_clean (w.others i t) i) (sym ((nat_beq_iff ino j).0 same)) ∙ clean in
          absurd (ground arith)
      | inr other ↦ rw (over, clean) (get-try_remove w dir ino j other)
    ]
  ]
]

gc_loop-files :
    (w : Outside) (inos : List ℕ) (dir : StagingDir) (t : InodeTable) (j : ℕ)
    → ((u : InodeTable) → is_clean (w.others j u) j ≡ false)
    → HashMap.get (gc_loop w inos dir t).0.files j ≡ HashMap.get dir.files j
unfolding gc_loop
gc_loop-files w [] dir t j unclean = refl
gc_loop-files w (ino ∷ inos) dir t j unclean = elim (Bool-cases (is_over_limit dir)) [
  | inr within ↦ rw within refl
  | inl over ↦ elim (Bool-cases (nat_beq (file_size dir ino) 0)) [
    | inl nothing ↦ rw (over, nothing) (gc_loop-files w inos dir t j unclean)
    | inr full ↦
        let r = gc_one w dir t ino in
        rw (over, full)
          (gc_loop-files w inos r.0 r.1 j unclean ∙ gc_one-files w dir t ino j (unclean t))
  ]
]

-- A collection leaves the staging file of an inode that has local changes, or is not in the table,
-- once its own lock is there, whatever it was when the collection began and whatever happens to other
-- inodes: a file that is written while its lock is waited for is kept.
pub gc-files :
    (w : Outside) (dir : StagingDir) (t : InodeTable) (j : ℕ)
    → ((u : InodeTable) → is_clean (w.others j u) j ≡ false)
    → HashMap.get (gc w dir t).0.files j ≡ HashMap.get dir.files j
unfolding gc
gc-files w dir t j unclean = elim (Bool-cases (is_over_limit dir)) [
  | inr within ↦ rw within refl
  | inl over ↦ rw over (gc_loop-files w (staging_gc_candidates t) dir t j unclean)
]
