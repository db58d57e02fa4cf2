-- ===== src/Inode/Tree/Sweep.antt =====
-- The sweep of `remove` in src/virtual_fs/inode.rs ends, with the fuel that it is given, and takes
-- all that is reachable from its stack.
use hf_mount.Base.{
  ℕ, zero, suc, ◌+◌, ◌≤◌, ◌≡◌, refl, sym, ◌∙◌, ap, Bool, true, false, ◌||◌, inl, inr, ◌⊎◌, none,
  some, List, [], ◌∷◌, map, length, arith, if◌then◌else◌, ◌==◌, nat_eq, text_eq, nat_beq_iff,
  Bool-cases, Option-cases,
}
use hf_mount.Base.HashMap
use hf_mount.Base.HashMap.{HashMap, get-remove}
use hf_mount.Inode.Entry.{InodeEntry, DirChild}
use hf_mount.Inode.Table.{InodeTable, get}
use hf_mount.Inode.Tree.{child_inos, removed, extend, sweep, listed}

-- The list names the inode.
unfoldable pub has : ℕ → List ℕ → Bool
has j [] = false
has j (i ∷ l) = i == j || has j l

pub has-extend :
    (j : ℕ) (stack inos : List ℕ) → has j (extend stack inos) ≡ (has j stack || has j inos)
unfolding has extend
has-extend j stack [] = ground arith
has-extend j stack (i ∷ inos) = has-extend j (i ∷ stack) inos ∙ ground arith

pub length-extend : (stack inos : List ℕ) → length (extend stack inos) ≡ length stack + length inos
unfolding extend
length-extend stack [] = omega arith
length-extend stack (i ∷ inos) = length-extend (i ∷ stack) inos ∙ omega arith

listed-without : (m : HashMap ℕ InodeEntry) (k : ℕ) → listed (HashMap.remove m k) ≤ listed m
unfolding listed HashMap.remove
listed-without [] k = omega arith
listed-without ((i, e) ∷ m) k = ground (arith, listed-without m k)

pub listed-remove :
    (m : HashMap ℕ InodeEntry) (k : ℕ) (e : InodeEntry)
    → HashMap.get m k ≡ some e
    → length e.children + listed (HashMap.remove m k) ≤ listed m
unfolding listed HashMap.remove HashMap.get
listed-remove [] k e h = ground arith
listed-remove ((i, x) ∷ m) k e h = elim (Bool-cases (i == k)) [
  | inl same ↦ ground (arith, listed-without m k)
  | inr other ↦ ground (arith, listed-remove m k e)
]

pub listed-modify :
    (m : HashMap ℕ InodeEntry) (k : ℕ) (f : InodeEntry → InodeEntry)
    → ((x : InodeEntry) → length (f x).children ≤ length x.children)
    → listed (HashMap.modify m k f) ≤ listed m
unfolding HashMap.modify HashMap.insert listed
listed-modify m k f shrinks = elim (Option-cases (HashMap.get m k)) [
  | inl absent ↦ rw (absent, HashMap.modify) (omega arith)
  | inr (x, there) ↦
      rw (there, HashMap.modify)
        (let small = listed-remove m k x there in let short = shrinks x in omega arith)
]

-- What a sweep leaves: nothing of the stack, nothing that a removed directory lists, and every
-- other entry as it was.
pub record IsSwept (t : InodeTable) (stack : List ℕ) (r : InodeTable) : Type 0 where
  pub emptied : (j : ℕ) → has j stack ≡ true → get r j ≡ none
  pub kept : (j : ℕ) → (get r j ≡ none) ⊎ (get r j ≡ get t j)
  pub closed :
      (j : ℕ) (x : InodeEntry)
      → get t j ≡ some x
      → get r j ≡ none
      → (c : ℕ) → has c (child_inos x) ≡ true
      → get r c ≡ none

popped-IsSwept :
    (t : InodeTable) (ino : ℕ) (stack : List ℕ) (r : InodeTable)
    → get t ino ≡ none
    → IsSwept t stack r
    → IsSwept t (ino ∷ stack) r
unfolding has
popped-IsSwept t ino stack r absent s = record {
  emptied = λ j h. elim (Bool-cases (ino == j)) [
    | inr other ↦ s.emptied j (ground arith)
    | inl same ↦ elim (s.kept j) [
      | inl gone ↦ gone
      | inr as_was ↦ as_was ∙ ap (get t) (sym ((nat_beq_iff ino j).0 same)) ∙ absent
    ]
  ];
  kept = s.kept;
  closed = s.closed;
}

pub get-removed :
    (t : InodeTable) (ino : ℕ) (e : InodeEntry) (j : ℕ)
    → get (removed t ino e) j ≡ (if ino == j then none else get t j)
unfolding removed
get-removed t ino e j = get-remove t.inodes ino j

descended-IsSwept :
    (t : InodeTable) (ino : ℕ) (stack : List ℕ) (r : InodeTable) (e : InodeEntry)
    → get t ino ≡ some e
    → IsSwept (removed t ino e) (extend stack (child_inos e)) r
    → IsSwept t (ino ∷ stack) r
unfolding has
descended-IsSwept t ino stack r e there s =
    let gone : get r ino ≡ none = elim (s.kept ino) [
      | inl none_left ↦ none_left
      | inr as_was ↦ as_was ∙ get-removed t ino e ino ∙ ground (arith, nat_beq_iff ino ino)
    ] in
    record {
      emptied = λ j h. elim (Bool-cases (ino == j)) [
        | inl same ↦ ap (get r) (sym ((nat_beq_iff ino j).0 same)) ∙ gone
        | inr other ↦ s.emptied j (ground (arith, has-extend j stack (child_inos e)))
      ];
      kept = λ j. ground (arith, s.kept j, get-removed t ino e j, nat_beq_iff ino j);
      closed = λ j x h lost c listed_there. elim (Bool-cases (ino == j)) [
        | inr other ↦ s.closed j x (get-removed t ino e j ∙ rw other h) lost c listed_there
        | inl same ↦
            let mine : x ≡ e = ground (arith, nat_beq_iff ino j) in
            s.emptied c (has-extend c stack (child_inos e) ∙ ground arith)
      ];
    }

done-IsSwept : (t : InodeTable) → IsSwept t [] t
unfolding has
done-IsSwept t = record {
  emptied = λ j h. absurd (ground arith);
  kept = λ j. inr refl;
  closed = λ j x h lost. absurd (ground arith);
}

pub length-child_inos : (l : List DirChild) → length (map (λ c. c.ino) l) ≡ length l
length-child_inos [] = refl
length-child_inos (c ∷ l) = ap suc (length-child_inos l)

-- The sweep has fuel enough: one unit for each item of the stack and each child listed.
pub sweep-IsSwept :
    (fuel : ℕ) (t : InodeTable) (stack : List ℕ)
    → length stack + listed t.inodes ≤ fuel
    → IsSwept t stack (sweep fuel t stack)
unfolding sweep removed
sweep-IsSwept zero t [] enough = done-IsSwept t
sweep-IsSwept zero t (ino ∷ stack) enough = absurd (omega arith)
sweep-IsSwept (suc fuel) t [] enough = done-IsSwept t
sweep-IsSwept (suc fuel) t (ino ∷ stack) enough = elim (Option-cases (get t ino)) [
  | inl absent ↦
      rw (absent, sweep)
        (popped-IsSwept t ino stack _ absent (sweep-IsSwept fuel t stack (omega arith)))
  | inr (e, there) ↦
      let small = listed-remove t.inodes ino e there in
      let longer = length-extend stack (child_inos e) in
      let counted = length-child_inos e.children in
      rw (there, sweep)
        (descended-IsSwept t ino stack _ e there
          (sweep-IsSwept fuel (removed t ino e) (extend stack (child_inos e)) (omega arith)))
]
