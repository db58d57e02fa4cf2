-- ===== src/Inode/Tree/Subtree.antt =====
-- `update_subtree_paths` of src/virtual_fs/inode.rs, which a rename calls.
use hf_mount.Base.{
  ℕ, zero, suc, ◌≡◌, refl, sym, ◌∙◌, ap, false, inl, inr, none, some, List, [], ◌∷◌, arith,
  if◌then◌else◌, Text, ◌==◌, nat_eq, text_eq, nat_beq_iff, text_beq_iff, Bool-cases, Option-cases,
  eq_of_some,
}
use mathlib.Core.Path.{subst}
use hf_mount.Base.HashMap
use hf_mount.Base.HashMap.{get-insert, get-remove}
use hf_mount.Inode.Entry.{InodeEntry, DirChild, child_path}
use hf_mount.Inode.Table.{InodeTable, get, on_entry}
use hf_mount.Inode.Table.WellFormed.{IsWellFormed, get-on_entry}

-- One inode of the walk: the old path goes, the new one comes.
unfoldable pub repathed : InodeTable → ℕ → Text → InodeEntry → InodeTable
repathed t inode new_full_path e =
    let moved = on_entry t inode (λ x. record x { full_path = new_full_path }) in
    record moved {
      path_to_inode =
          HashMap.insert (HashMap.remove t.path_to_inode e.full_path) new_full_path inode;
    }

-- The children of a directory in front of what waits, each with its path.
unfoldable pub before : Text → List DirChild → List (ℕ × Text) → List (ℕ × Text)
before path [] waiting = waiting
before path (c ∷ children) waiting = (c.ino, child_path path c.name) ∷ before path children waiting

-- The inodes that wait, with their new paths; the source has them on its call stack, a child and all
-- below it before the next child. The walk ends where no inode is below itself; the fuel counts
-- inodes.
unfoldable pub update_paths : ℕ → InodeTable → List (ℕ × Text) → InodeTable
update_paths zero t waiting = t
update_paths (suc fuel) t [] = t
update_paths (suc fuel) t ((inode, new_full_path) ∷ waiting) = elim (get t inode) [
  | none ↦ update_paths fuel t waiting
  | some e ↦
      update_paths fuel (repathed t inode new_full_path e) (before new_full_path e.children waiting)
]

unfoldable pub update_subtree_paths : ℕ → InodeTable → ℕ → Text → InodeTable
update_subtree_paths fuel t inode new_full_path = update_paths fuel t ((inode, new_full_path) ∷ [])

get-repathed :
    (t : InodeTable) (inode : ℕ) (path : Text) (e : InodeEntry) (j : ℕ)
    → get t inode ≡ some e
    → get (repathed t inode path e) j
      ≡ (if inode == j then some (record e { full_path = path }) else get t j)
unfolding repathed
get-repathed t inode path e j there =
    get-on_entry t inode (λ x. record x { full_path = path }) j ∙ rw there refl

-- Only the number of an entry and its path count for the invariant.
pathed_other :
    (t : InodeTable) (inode : ℕ) (path : Text) (e : InodeEntry) (p : Text) (j : ℕ)
    → get t inode ≡ some e
    → IsWellFormed t
    → (path == p) ≡ false
    → HashMap.get (HashMap.insert (HashMap.remove t.path_to_inode e.full_path) path inode) p
      ≡ some j
    → (x : InodeEntry) × (get (repathed t inode path e) j ≡ some x) × (x.full_path ≡ p)
pathed_other t inode path e p j there v other h =
    let removed : HashMap.get (HashMap.remove t.path_to_inode e.full_path) p ≡ some j =
      sym (get-insert (HashMap.remove t.path_to_inode e.full_path) path inode p ∙ rw other refl)
      ∙ h in
    elim (Bool-cases (e.full_path == p)) [
      | inl gone ↦ absurd (ground (arith, get-remove t.path_to_inode e.full_path p))
      | inr kept ↦
          let (x, present, same_path) =
            v.pathed p j
              (sym (get-remove t.path_to_inode e.full_path p ∙ rw kept refl) ∙ removed) in
          elim (Bool-cases (inode == j)) [
            | inr away ↦ (x, get-repathed t inode path e j there ∙ rw away present, same_path)
            | inl same ↦
                let here : get t j ≡ some e =
                  subst (λ k. get t k ≡ some e) ((nat_beq_iff inode j).0 same) there in
                let is_e : x ≡ e = eq_of_some (sym present ∙ here) in
                let path_of : e.full_path ≡ p =
                  ap (λ (y : InodeEntry). y.full_path) (sym is_e) ∙ same_path in
                absurd (ground (arith, (text_beq_iff e.full_path p).1 path_of))
          ]
    ]

repathed-IsWellFormed :
    (t : InodeTable) (inode : ℕ) (path : Text) (e : InodeEntry)
    → get t inode ≡ some e
    → IsWellFormed t
    → IsWellFormed (repathed t inode path e)
repathed-IsWellFormed t inode path e there v = record {
  keyed = λ j x h. ground (
    arith,
    get-repathed t inode path e j there,
    v.keyed inode e there,
    v.keyed j x,
    nat_beq_iff inode j,
  );
  below = λ j x h.
      unfold repathed on_entry in
      ground (
        arith,
        get-repathed t inode path e j there,
        v.below inode e there,
        v.below j x,
        nat_beq_iff inode j,
      );
  pathed = λ p j h. elim (Bool-cases (path == p)) [
    | inr other ↦ pathed_other t inode path e p j there v other (unfold repathed in h)
    | inl same ↦
        let is_inode : inode ≡ j = eq_of_some (
          sym (get-insert (HashMap.remove t.path_to_inode e.full_path) path inode p ∙ rw same refl)
          ∙ (unfold repathed in h)) in
        (
          record e { full_path = path },
          get-repathed t inode path e j there ∙ rw ((nat_beq_iff inode j).1 is_inode) refl,
          (text_beq_iff path p).0 same,
        )
  ];
}

update_paths-IsWellFormed :
    (fuel : ℕ) (t : InodeTable) (waiting : List (ℕ × Text))
    → IsWellFormed t
    → IsWellFormed (update_paths fuel t waiting)
unfolding update_paths
update_paths-IsWellFormed zero t waiting v = v
update_paths-IsWellFormed (suc fuel) t [] v = v
update_paths-IsWellFormed (suc fuel) t ((inode, path) ∷ waiting) v =
    elim (Option-cases (get t inode)) [
      | inl absent ↦ rw (absent, update_paths) (update_paths-IsWellFormed fuel t waiting v)
      | inr (e, there) ↦
          rw (there, update_paths)
            (update_paths-IsWellFormed fuel (repathed t inode path e)
              (before path e.children waiting) (repathed-IsWellFormed t inode path e there v))
    ]

-- `update_subtree_paths` keeps the invariant of the table.
pub update_subtree_paths-IsWellFormed :
    (fuel : ℕ) (t : InodeTable) (inode : ℕ) (path : Text)
    → IsWellFormed t
    → IsWellFormed (update_subtree_paths fuel t inode path)
unfolding update_subtree_paths
update_subtree_paths-IsWellFormed fuel t inode path =
    update_paths-IsWellFormed fuel t ((inode, path) ∷ [])
