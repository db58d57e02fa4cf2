-- ===== src/Inode/Tree/Ancestor.antt =====
-- The climb of `nearest_dir_ancestor` in src/virtual_fs/inode.rs ends at a directory.
use hf_mount.Base.{
  ℕ, zero, suc, ◌<◌, ◌≤◌, ◌++◌, nat_beq_iff, length-append, ◌≡◌, ◌⊎◌, refl, sym, ◌∙◌, ap, true, inl,
  inr, none, some, [], ◌∷◌, arith, length, Text, Bool-cases, Option-cases,
}
use mathlib.Core.List.{append_assoc}
use mathlib.Core.Path.{subst}
use hf_mount.Inode.Entry.{is_empty, is_empty_iff, root_inode, slash}
use hf_mount.Inode.Table.{InodeTable, get_dir_ino}
use hf_mount.Inode.Tree.{has_slash, parent_path, climb, nearest_dir_ancestor}

pub parent_path-shorter :
    (path : Text) → (parent_path path ≡ []) ⊎ (length (parent_path path) < length path)
unfolding parent_path has_slash
parent_path-shorter [] = inl refl
parent_path-shorter (c ∷ []) = inl refl
parent_path-shorter (c ∷ b ∷ path) =
    let shorter : length (parent_path (b ∷ path)) < length (b ∷ path) =
      elim (parent_path-shorter (b ∷ path)) [
        | inl none_left ↦
            let nothing : length (parent_path (b ∷ path)) ≡ 0 = ap length none_left in omega arith
        | inr less ↦ less
      ] in
    elim (Bool-cases (has_slash (b ∷ path))) [
      | inl inside ↦ rw inside (inr (omega arith))
      | inr outside ↦ rw outside (inl refl)
    ]

-- A directory's path above the path: the text before one of its slashes, or the empty path.
abbrev pub IsAbove : Text → Text → Type 0
IsAbove a path = (a ≡ []) ⊎ ((rest : Text) × (path ≡ a ++ slash ∷ rest))

split_last :
    (path : Text)
    → has_slash path ≡ true
    → (rest : Text) × (path ≡ parent_path path ++ slash ∷ rest)
unfolding parent_path has_slash
split_last [] h = absurd (ground arith)
split_last (c ∷ path) h = elim (Bool-cases (has_slash path)) [
  | inl inside ↦
      let (rest, e) = split_last path inside in (rest, rw inside (ap (λ (l : Text). c ∷ l) e))
  | inr outside ↦
      let here : c ≡ slash = ground (arith, nat_beq_iff c slash) in
      (path, rw outside (ap (λ k. k ∷ path) here))
]

parent_path-IsAbove : (path : Text) → IsAbove (parent_path path) path
unfolding parent_path has_slash
parent_path-IsAbove [] = inl refl
parent_path-IsAbove (c ∷ path) = elim (Bool-cases (has_slash path)) [
  | inr outside ↦ rw outside (inl refl)
  | inl inside ↦
      let (rest, e) = split_last path inside in rw inside (inr (rest, ap (λ (l : Text). c ∷ l) e))
]

has_slash-append : (a rest : Text) → has_slash (a ++ slash ∷ rest) ≡ true
unfolding has_slash
has_slash-append [] rest = refl
has_slash-append (c ∷ a) rest = ground (arith, has_slash-append a rest)

above_split :
    (a rest : Text)
    → (a ≡ parent_path (a ++ slash ∷ rest))
      ⊎ ((r : Text) × (parent_path (a ++ slash ∷ rest) ≡ a ++ slash ∷ r))
unfolding parent_path
above_split [] rest = elim (Bool-cases (has_slash rest)) [
  | inl more ↦ rw more (inr (parent_path rest, refl))
  | inr last ↦ rw last (inl refl)
]
above_split (c ∷ a) rest = rw (has_slash-append a rest) (elim (above_split a rest) [
  | inl same ↦ inl (ap (λ (l : Text). c ∷ l) same)
  | inr (r, e) ↦ inr (r, ap (λ (l : Text). c ∷ l) e)
])

-- What is above a path is its parent or above its parent.
IsAbove-cases :
    (a path : Text) → IsAbove a path → (a ≡ parent_path path) ⊎ IsAbove a (parent_path path)
IsAbove-cases a path (inl top) = inr (inl top)
IsAbove-cases a path (inr (rest, e)) =
    subst (λ p. (a ≡ parent_path p) ⊎ IsAbove a (parent_path p)) (sym e)
      (elim (above_split a rest) [ inl same ↦ inl same | inr longer ↦ inr (inr longer) ])

IsAbove-trans : (a b path : Text) → IsAbove a b → IsAbove b path → IsAbove a path
IsAbove-trans a b path (inl top) below = inl top
IsAbove-trans a b path (inr (x, e)) (inl top) =
    let impossible : length b ≡ 0 = ap length top in
    let positive : length b ≡ length (a ++ slash ∷ x) = ap length e in
    absurd (omega (arith, length-append {0} a (slash ∷ x)))
IsAbove-trans a b path (inr (x, e)) (inr (y, k)) =
    inr (x ++ slash ∷ y, k ∙ ap (λ l. l ++ slash ∷ y) e ∙ append_assoc a (slash ∷ x) (slash ∷ y))

above_shorter : (a path : Text) → IsAbove a path → length a ≤ length path
above_shorter a path (inl top) = let k : length a ≡ 0 = ap length top in omega arith
above_shorter a path (inr (rest, e)) =
    let k : length path ≡ length (a ++ slash ∷ rest) = ap length e in
    omega (arith, length-append {0} a (slash ∷ rest))

above_empty : (a : Text) → IsAbove a [] → a ≡ []
above_empty a (inl top) = top
above_empty a (inr (rest, e)) =
    let k : 0 ≡ length (a ++ slash ∷ rest) = ap length e in
    absurd (omega (arith, length-append {0} a (slash ∷ rest)))

-- The result is above the path, no directory of the table that is above the path has a longer path,
-- and it is a directory of the table, or the root where the table has none at the empty path.
pub record IsNearest (t : InodeTable) (path : Text) (r : ℕ × Text) : Type 0 where
  pub above : IsAbove r.1 path
  pub nearest :
      (a : Text) (i : ℕ) → IsAbove a path → get_dir_ino t a ≡ some i → length a ≤ length r.1
  pub found : (get_dir_ino t r.1 ≡ some r.0) ⊎ ((r ≡ (root_inode, [])) × (get_dir_ino t [] ≡ none))

not_there :
    (t : InodeTable) (a b : Text) (i : ℕ)
    → a ≡ b
    → get_dir_ino t b ≡ none
    → get_dir_ino t a ≡ some i
    → ⊥
not_there t a b i same absent there =
    let k : some i ≡ none = sym there ∙ ap (get_dir_ino t) same ∙ absent in cc

climb_lem :
    (fuel : ℕ) (t : InodeTable) (path : Text)
    → length path < fuel
    → IsNearest t path (climb fuel t path)
unfolding climb
climb_lem zero t path h = absurd (omega arith)
climb_lem (suc fuel) t path h = elim (Option-cases (get_dir_ino t (parent_path path))) [
  | inr (ino, there) ↦
      rw (there, climb)
        (record {
          above = parent_path-IsAbove path;
          nearest = λ a i above k. elim (IsAbove-cases a path above) [
            | inl same ↦
                let e : length a ≡ length (parent_path path) = ap length same in omega arith
            | inr higher ↦ above_shorter a (parent_path path) higher
          ];
          found = inl there;
        })
  | inl absent ↦ elim (Bool-cases (is_empty (parent_path path))) [
    | inl top ↦
        let at_top : parent_path path ≡ [] = (is_empty_iff (parent_path path)).0 top in
        rw (absent, climb)
          (rw top (record {
            above = inl refl;
            nearest = λ a i above k. absurd (elim (IsAbove-cases a path above) [
              | inl same ↦ not_there t a (parent_path path) i same absent k
              | inr higher ↦
                  not_there t a (parent_path path) i
                    (above_empty a (subst (IsAbove a) at_top higher) ∙ sym at_top) absent k
            ]);
            found = inr (refl, ap (get_dir_ino t) (sym at_top) ∙ absent);
          }))
    | inr more ↦
        let rest = climb_lem fuel t (parent_path path) (ground (arith, parent_path-shorter path)) in
        rw (absent, climb)
          (rw more (record {
            above =
                IsAbove-trans (climb fuel t (parent_path path)).1 (parent_path path) path rest.above
                  (parent_path-IsAbove path);
            nearest = λ a i above k. elim (IsAbove-cases a path above) [
              | inl same ↦ absurd (not_there t a (parent_path path) i same absent k)
              | inr higher ↦ rest.nearest a i higher k
            ];
            found = rest.found;
          }))
  ]
]

-- `nearest_dir_ancestor` ends at a directory above the path that the table has, such that no other
-- directory above the path is nearer; it falls back on the root only where the table has no directory
-- above the path, the empty path included.
pub nearest_dir_ancestor_lem :
    (t : InodeTable) (path : Text) → IsNearest t path (nearest_dir_ancestor t path)
unfolding nearest_dir_ancestor
nearest_dir_ancestor_lem t path = climb_lem (suc (length path)) t path (omega arith)
