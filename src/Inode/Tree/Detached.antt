-- ===== src/Inode/Tree/Detached.antt =====
-- What `detach_from_parent` of src/virtual_fs/inode.rs makes of the parent.
use hf_mount.Base.{
  ℕ, refl, false, Option-cases, ◌-◌, ◌≤◌, ◌≡◌, ◌∙◌, ap, true, false, inl, inr, ◌⊎◌, none, List, [],
  ◌∷◌, map, length, arith, if◌then◌else◌, ◌==◌, nat_eq, text_eq, nat_beq_iff, Bool-cases,
}
use hf_mount.Inode.Entry.{
  InodeEntry, InodeKind, DirChild, is_directory, find_ino, remove_child_by_ino, erase_ino,
}
use hf_mount.Inode.Entry.Children.{IsDistinct, find-erase_self, find-erase_other}
use hf_mount.Inode.Tree.{drop_link, child_inos, detached_child}
use hf_mount.Inode.Tree.Sweep.{has}

length-erase_ino : (l : List DirChild) (i : ℕ) → length (erase_ino l i) ≤ length l
unfolding erase_ino
length-erase_ino [] i = omega arith
length-erase_ino (c ∷ l) i = ground (arith, length-erase_ino l i)

pub detached_child-shrinks :
    (child : ℕ) (kind : InodeKind) (p : InodeEntry)
    → length (detached_child child kind false p).children ≤ length p.children
unfolding detached_child remove_child_by_ino
detached_child-shrinks child kind p = ground (arith, length-erase_ino p.children child)

-- A child that a detached directory still lists.
has-erase_ino :
    (c i : ℕ) (l : List DirChild)
    → has c (map (λ x. x.ino) l) ≡ true
    → (i ≡ c) ⊎ (has c (map (λ x. x.ino) (erase_ino l i)) ≡ true)
unfolding has erase_ino
has-erase_ino c i [] h = ground arith
has-erase_ino c i (x ∷ l) h =
    ground (arith, has-erase_ino c i l, nat_beq_iff x.ino i, nat_beq_iff x.ino c)

pub has-detached_child :
    (c ino : ℕ) (kind : InodeKind) (p : InodeEntry)
    → has c (child_inos p) ≡ true
    → (ino ≡ c) ⊎ (has c (child_inos (detached_child ino kind false p)) ≡ true)
unfolding detached_child remove_child_by_ino
has-detached_child c ino kind p h = ground (arith, has-erase_ino c ino p.children)

-- A detached directory lists nothing new.
has-erase_ino_back :
    (c i : ℕ) (l : List DirChild)
    → has c (map (λ x. x.ino) (erase_ino l i)) ≡ true
    → has c (map (λ x. x.ino) l) ≡ true
unfolding has erase_ino
has-erase_ino_back c i [] h = h
has-erase_ino_back c i (x ∷ l) h = ground (arith, has-erase_ino_back c i l)

pub has-detached_child_back :
    (c ino : ℕ) (kind : InodeKind) (p : InodeEntry)
    → has c (child_inos (detached_child ino kind false p)) ≡ true
    → has c (child_inos p) ≡ true
unfolding detached_child remove_child_by_ino
has-detached_child_back c ino kind p h = ground (arith, has-erase_ino_back c ino p.children)

-- What the parent becomes: it has no child of the inode, if none stood there twice, every other child
-- as before, a link less for a directory, and its listing.
pub record HasLost (ino : ℕ) (kind : InodeKind) (p q : InodeEntry) : Type 0 where
  pub lost : IsDistinct p.children → find_ino q.children ino ≡ none
  pub others : (i : ℕ) → (ino == i) ≡ false → find_ino q.children i ≡ find_ino p.children i
  pub links : q.nlink ≡ (if is_directory kind then p.nlink - 1 else p.nlink)
  pub data_kept :
      (q.inode ≡ p.inode)
      × (q.parent ≡ p.parent)
      × (q.full_path ≡ p.full_path)
      × (q.kind ≡ p.kind)
      × (q.children_loaded_at ≡ p.children_loaded_at)

unlinked-HasLost :
    (ino : ℕ) (kind : InodeKind) (p q : InodeEntry)
    → ((IsDistinct p.children → find_ino q.children ino ≡ none)
        × ((i : ℕ) → (ino == i) ≡ false → find_ino q.children i ≡ find_ino p.children i)
        × (q.nlink ≡ p.nlink)
        × ((q.inode ≡ p.inode)
            × (q.parent ≡ p.parent)
            × (q.full_path ≡ p.full_path)
            × (q.kind ≡ p.kind)
            × (q.children_loaded_at ≡ p.children_loaded_at)))
    → HasLost ino kind p (if is_directory kind then drop_link q else q)
unlinked-HasLost ino kind p q (lost, others, links, same_data) =
    elim (Bool-cases (is_directory kind)) [
      | inl dir ↦ rw dir (record {
        lost = lost;
        others = others;
        links = ap (λ n. n - 1) links ∙ rw dir refl;
        data_kept = same_data;
      })
      | inr plain ↦ rw plain (record {
        lost = lost;
        others = others;
        links = links ∙ rw plain refl;
        data_kept = same_data;
      })
    ]

pub detached_child-HasLost :
    (ino : ℕ) (kind : InodeKind) (p : InodeEntry)
    → HasLost ino kind p (detached_child ino kind false p)
unfolding detached_child remove_child_by_ino
detached_child-HasLost ino kind p =
    unlinked-HasLost ino kind p (remove_child_by_ino p ino).0
      (elim (Option-cases (find_ino p.children ino)) [
        | inl absent ↦
            rw (absent, remove_child_by_ino)
              ((λ d. absent), (λ i other. refl), refl, (refl, refl, refl, refl, refl))
        | inr (c, there) ↦
            rw (there, remove_child_by_ino)
              (
                find-erase_self p.children ino,
                (λ i other. find-erase_other p.children ino i other),
                refl,
                (refl, refl, refl, refl, refl),
              )
      ])
