-- ===== src/Inode/Tree/Cleared.antt =====
-- What the sweep of `remove` in src/virtual_fs/inode.rs takes: entries below its stack alone, each with
-- its path.
use hf_mount.Base.{
  ℕ, zero, suc, ◌≡◌, refl, sym, ◌∙◌, ap, true, inl, inr, ◌⊎◌, Option, none, some, List, [], ◌∷◌,
  arith, if◌then◌else◌, ◌==◌, nat_eq, text_eq, nat_beq_iff, text_beq_iff, Text, Bool-cases,
  Option-cases,
}
use mathlib.Core.Path.{subst}
use hf_mount.Base.HashMap
use hf_mount.Base.HashMap.{get-remove}
use hf_mount.Inode.Entry.{InodeEntry}
use hf_mount.Inode.Table.{InodeTable, get}
use hf_mount.Inode.Tree.{child_inos, removed, extend, sweep}
use hf_mount.Inode.Tree.Sweep.{has, has-extend, get-removed}

-- The inodes below an inode, itself included: what an entry that is there lists, and so on.
pub data Descends (t : InodeTable) (ino : ℕ) : ℕ → Type 0 where
  origin : Descends t ino ino
  listed_by :
      (j c : ℕ) (x : InodeEntry)
      → Descends t ino j
      → get t j ≡ some x
      → has c (child_inos x) ≡ true
      → Descends t ino c

abbrev pub at_path : InodeTable → Text → Option ℕ
at_path t path = HashMap.get t.path_to_inode path

module _ (P : ℕ → Type 0) where
  -- Entries with `P` alone are gone, and their paths with them.
  pub record IsCleared (t r : InodeTable) : Type 0 where
    pub reached : (j : ℕ) → (get r j ≡ get t j) ⊎ P j
    pub unmapped :
        (j : ℕ) (x : InodeEntry) → get t j ≡ some x → get r j ≡ none → at_path r x.full_path ≡ none
    pub mapped :
        (p : Text)
        → (at_path r p ≡ at_path t p)
          ⊎ ((j : ℕ) × (x : InodeEntry) × P j × (get t j ≡ some x) × (x.full_path ≡ p))
    pub once : (p : Text) → at_path t p ≡ none → at_path r p ≡ none

  same-IsCleared : (t : InodeTable) → IsCleared t t
  same-IsCleared t = record {
    reached = λ j. inl refl;
    unmapped = λ j x there lost. let k : some x ≡ none = sym there ∙ lost in absurd (ground arith);
    mapped = λ p. inl refl;
    once = λ p h. h;
  }

  path-removed :
      (t : InodeTable) (ino : ℕ) (e : InodeEntry) (p : Text)
      → at_path (removed t ino e) p ≡ (if e.full_path == p then none else at_path t p)
  unfolding removed
  path-removed t ino e p = get-remove t.path_to_inode e.full_path p

  removed_back :
      (t : InodeTable) (ino : ℕ) (e : InodeEntry) (j : ℕ) (x : InodeEntry)
      → get (removed t ino e) j ≡ some x
      → get t j ≡ some x
  removed_back t ino e j x h = ground (arith, get-removed t ino e j)

  removed-IsCleared :
      (t : InodeTable) (ino : ℕ) (e : InodeEntry) (r : InodeTable)
      → P ino
      → get t ino ≡ some e
      → IsCleared (removed t ino e) r
      → IsCleared t r
  removed-IsCleared t ino e r mine there c = record {
    reached = λ j. elim (Bool-cases (ino == j)) [
      | inl same ↦ inr (subst P ((nat_beq_iff ino j).0 same) mine)
      | inr other ↦ elim (c.reached j) [
        | inr below ↦ inr below
        | inl kept ↦ inl (kept ∙ get-removed t ino e j ∙ rw other refl)
      ]
    ];
    unmapped = λ j x h lost. elim (Bool-cases (ino == j)) [
      | inr other ↦ c.unmapped j x (get-removed t ino e j ∙ rw other h) lost
      | inl same ↦
          let one : x ≡ e = ground (arith, nat_beq_iff ino j) in
          c.once x.full_path (
            path-removed t ino e x.full_path
            ∙ rw
                ((text_beq_iff e.full_path x.full_path).1
                  (ap (λ (y : InodeEntry). y.full_path) (sym one)))
                refl)
    ];
    mapped = λ p. elim (c.mapped p) [
      | inr (j, x, below, h, named) ↦ inr (j, x, below, removed_back t ino e j x h, named)
      | inl kept ↦ elim (Bool-cases (e.full_path == p)) [
        | inl same ↦ inr (ino, e, mine, there, (text_beq_iff e.full_path p).0 same)
        | inr other ↦ inl (kept ∙ path-removed t ino e p ∙ rw other refl)
      ]
    ];
    once = λ p h. c.once p (path-removed t ino e p ∙ ground arith);
  }

  -- A sweep whose stack has `P`, where `P` goes on to children.
  pub sweep-IsCleared :
      (fuel : ℕ) (t : InodeTable) (stack : List ℕ)
      → ((j : ℕ) → has j stack ≡ true → P j)
      → ((j : ℕ) (x : InodeEntry) (c : ℕ)
          → P j
          → get t j ≡ some x
          → has c (child_inos x) ≡ true
          → P c)
      → IsCleared t (sweep fuel t stack)
  unfolding sweep
  sweep-IsCleared zero t stack listed down = same-IsCleared t
  sweep-IsCleared (suc fuel) t [] listed down = same-IsCleared t
  sweep-IsCleared (suc fuel) t (ino ∷ stack) listed down =
      let mine : P ino = listed ino (unfold has in ground (arith, nat_beq_iff ino ino)) in
      let others : (j : ℕ) → has j stack ≡ true → P j =
        λ j h. listed j (unfold has in ground arith) in
      elim (Option-cases (get t ino)) [
        | inl absent ↦ rw (absent, sweep) (sweep-IsCleared fuel t stack others down)
        | inr (e, there) ↦
            rw (there, sweep)
              (removed-IsCleared t ino e _ mine there (
                sweep-IsCleared fuel (removed t ino e) (extend stack (child_inos e))
                  (λ j h. elim (Bool-cases (has j stack)) [
                    | inl above ↦ others j above
                    | inr below ↦
                        down ino e j mine there
                          (let k = has-extend j stack (child_inos e) in ground arith)
                  ])
                  (λ j x c below h. down j x c below (removed_back t ino e j x h))))
      ]
