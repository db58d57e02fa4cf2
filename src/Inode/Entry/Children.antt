-- ===== src/Inode/Entry/Children.antt =====
-- The two stores of a directory's children, `children` and `child_index`, hold the same edges.
use mathlib.Core.Path.{subst}
use hf_mount.Base.{
  ℕ, false, sym, ap, nat_beq_iff, ◌≡◌, ◌≢◌, refl, ◌∙◌, inl, inr, Option, none, some, List, [], ◌∷◌,
  ◌++◌, arith, Text, Option-cases, if◌then◌else◌, ◌==◌, text_eq, nat_eq, text_beq_iff, Bool-cases,
}
use hf_mount.Base.HashMap
use hf_mount.Base.HashMap.{get-insert, get-remove}
use hf_mount.Inode.Entry.{
  InodeEntry, DirChild, add_child, find_ino, erase_ino, remove_child_by_ino, remove_child_by_name,
}

-- The inode of the first child with a name.
unfoldable pub named : List DirChild → Text → Option ℕ
named [] n = none
named (c ∷ cs) n = if c.name == n then some c.ino else named cs n

-- No inode and no name stands twice in the list.
abbrev pub IsDistinct : List DirChild → Type 0
IsDistinct [] = Unit
IsDistinct (c ∷ cs) = (find_ino cs c.ino ≡ none) × (named cs c.name ≡ none) × IsDistinct cs

-- The index answers as the list does, and no inode or name stands twice.
pub record IsSynced (e : InodeEntry) : Type 0 where
  pub index : (n : Text) → HashMap.get e.child_index n ≡ named e.children n
  pub distinct : IsDistinct e.children

module _ (c : DirChild) where
  named-append :
      (cs : List DirChild) (n : Text)
      → named cs c.name ≡ none
      → named (cs ++ c ∷ []) n ≡ (if c.name == n then some c.ino else named cs n)
  unfolding named
  named-append [] n h = refl
  named-append (b ∷ cs) n h = ground (
    arith,
    named-append cs n,
    text_beq_iff b.name c.name,
    text_beq_iff b.name n,
    text_beq_iff c.name n,
  )

  find_ino-append :
      (cs : List DirChild) (i : ℕ)
      → find_ino cs i ≡ none
      → find_ino (cs ++ c ∷ []) i ≡ (if c.ino == i then some c else none)
  unfolding find_ino
  find_ino-append [] i h = refl
  find_ino-append (b ∷ cs) i h = ground (arith, find_ino-append cs i)

  IsDistinct-append :
      (cs : List DirChild)
      → find_ino cs c.ino ≡ none
      → named cs c.name ≡ none
      → IsDistinct cs
      → IsDistinct (cs ++ c ∷ [])
  unfolding find_ino named
  IsDistinct-append [] h k d = (refl, refl, tt)
  IsDistinct-append (b ∷ cs) h k d = (
    ground (arith, find_ino-append cs b.ino d.0),
    ground (arith, named-append cs b.name, text_beq_iff b.name c.name, text_beq_iff c.name b.name),
    IsDistinct-append cs (ground arith) (ground arith) d.2,
  )

find_erase_none :
    (cs : List DirChild) (i j : ℕ) → find_ino cs j ≡ none → find_ino (erase_ino cs i) j ≡ none
unfolding find_ino erase_ino
find_erase_none [] i j h = refl
find_erase_none (c ∷ cs) i j h = ground (arith, find_erase_none cs i j)

named_erase_none :
    (cs : List DirChild) (i : ℕ) (n : Text) → named cs n ≡ none → named (erase_ino cs i) n ≡ none
unfolding named erase_ino
named_erase_none [] i n h = refl
named_erase_none (c ∷ cs) i n h = ground (arith, named_erase_none cs i n)

IsDistinct-erase : (cs : List DirChild) (i : ℕ) → IsDistinct cs → IsDistinct (erase_ino cs i)
unfolding erase_ino
IsDistinct-erase [] i d = d
IsDistinct-erase (c ∷ cs) i d = elim (Bool-cases (c.ino == i)) [
  | inl here ↦ rw (here, erase_ino) d.2
  | inr there ↦
      rw (there, erase_ino)
        (
          find_erase_none cs i c.ino d.0,
          named_erase_none cs i c.name d.1,
          IsDistinct-erase cs i d.2,
        )
]

pub find-erase_self :
    (cs : List DirChild) (i : ℕ) → IsDistinct cs → find_ino (erase_ino cs i) i ≡ none
unfolding find_ino erase_ino
find-erase_self [] i distinct = refl
find-erase_self (c ∷ cs) i distinct = elim (Bool-cases (c.ino == i)) [
  | inl here ↦ rw here (ap (find_ino cs) (sym ((nat_beq_iff c.ino i).0 here)) ∙ distinct.0)
  | inr there ↦ rw there (rw there (find-erase_self cs i distinct.2))
]

pub find-erase_other :
    (cs : List DirChild) (i j : ℕ) → (i == j) ≡ false → find_ino (erase_ino cs i) j ≡ find_ino cs j
unfolding find_ino erase_ino
find-erase_other [] i j other = refl
find-erase_other (c ∷ cs) i j other =
    ground (arith, find-erase_other cs i j other, nat_beq_iff c.ino i, nat_beq_iff c.ino j)

named_of_find :
    (cs : List DirChild) (i : ℕ) (c : DirChild) → find_ino cs i ≡ some c → named cs c.name ≢ none
unfolding named find_ino
named_of_find [] i c h = λ e. cc
named_of_find (b ∷ cs) i c h = λ e. ground (arith, named_of_find cs i c, text_beq_iff b.name c.name)

-- Without the child of an inode, its name is free and every other name is as before.
named-erase :
    (cs : List DirChild) (i : ℕ) (c : DirChild) (n : Text)
    → find_ino cs i ≡ some c
    → IsDistinct cs
    → named (erase_ino cs i) n ≡ (if c.name == n then none else named cs n)
unfolding named erase_ino find_ino
named-erase [] i c n h d = cc
named-erase (b ∷ cs) i c n h d = ground (
  arith,
  named-erase cs i c n,
  named_of_find cs i c,
  text_beq_iff b.name n,
  text_beq_iff c.name n,
)

-- In a list with nothing twice, the name of a child finds the child of its inode.
named-find :
    (cs : List DirChild) (n : Text) (i : ℕ)
    → named cs n ≡ some i
    → IsDistinct cs
    → (c : DirChild) × (find_ino cs i ≡ some c) × (c.name ≡ n)
unfolding named find_ino
named-find [] n i h d = absurd (ground arith)
named-find (c ∷ cs) n i h d = elim (Bool-cases (c.name == n)) [
  | inl here ↦ (c, ground arith, (text_beq_iff c.name n).0 here)
  | inr there ↦
      let (c', found, same) = named-find cs n i (ground arith) d.2 in (c', ground arith, same)
]

-- Adding a child whose inode and name are new keeps the two stores in step, and the index then
-- answers for it.
pub add_child-IsSynced :
    (e : InodeEntry) (ino : ℕ) (name : Text)
    → find_ino e.children ino ≡ none
    → named e.children name ≡ none
    → IsSynced e
    → IsSynced (add_child e ino name)
      × (HashMap.get (add_child e ino name).child_index name ≡ some ino)
unfolding add_child
add_child-IsSynced e ino name h k s =
    let c : DirChild = record { ino = ino; name = name } in
    (
      record {
        index = λ n.
            get-insert e.child_index name ino n
            ∙ ground (arith, s.index n, named-append c e.children n k);
        distinct = IsDistinct-append c e.children h k s.distinct;
      },
      get-insert e.child_index name ino name ∙ ground (arith, text_beq_iff name name),
    )

-- The same after the child of an inode is removed with its name: the stores stay in step, and every
-- other name answers as before.
erased-IsSynced :
    (e : InodeEntry) (i : ℕ) (c : DirChild)
    → find_ino e.children i ≡ some c
    → IsSynced e
    → IsSynced (record e {
      children = erase_ino e.children i;
      child_index = HashMap.remove e.child_index c.name;
    })
erased-IsSynced e i c h s = record {
  index = λ n.
      get-remove e.child_index c.name n
      ∙ ground (arith, s.index n, named-erase e.children i c n h s.distinct);
  distinct = IsDistinct-erase e.children i s.distinct;
}

-- `remove_child_by_ino` keeps the two stores in step, whether the inode is there or not.
pub remove_child_by_ino-IsSynced :
    (e : InodeEntry) (i : ℕ) → IsSynced e → IsSynced (remove_child_by_ino e i).0
unfolding remove_child_by_ino
remove_child_by_ino-IsSynced e i s = elim (Option-cases (find_ino e.children i)) [
  | inl absent ↦ rw (absent, remove_child_by_ino) s
  | inr (c, found) ↦ rw (found, remove_child_by_ino) (erased-IsSynced e i c found s)
]

-- `remove_child_by_name` keeps the two stores in step, reports the inode that the list has under
-- the name, and afterwards the name is free and every other name answers as before.
pub remove_child_by_name-IsSynced :
    (e : InodeEntry) (name : Text)
    → IsSynced e
    → IsSynced (remove_child_by_name e name).0
      × ((remove_child_by_name e name).1 ≡ named e.children name)
      × ((n : Text)
          → named (remove_child_by_name e name).0.children n
            ≡ (if name == n then none else named e.children n))
unfolding remove_child_by_name
remove_child_by_name-IsSynced e name s = elim (Option-cases (HashMap.get e.child_index name)) [
  | inl absent ↦
      rw (absent, remove_child_by_name)
        (s, ground (arith, s.index name), λ n. ground (arith, s.index name, text_beq_iff name n))
  | inr (i, present) ↦
      let (c, found, same) =
        named-find e.children name i (ground (arith, s.index name)) s.distinct in
      rw (present, remove_child_by_name)
        (
          subst
              (λ x. IsSynced (record e {
                children = erase_ino e.children i;
                child_index = HashMap.remove e.child_index x;
              }))
              same (erased-IsSynced e i c found s),
          ground (arith, s.index name),
          λ n. ground (arith, named-erase e.children i c n found s.distinct),
        )
]
