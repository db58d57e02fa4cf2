-- ===== src/Poll/Diff/Bare.antt =====
-- The removals of src/virtual_fs/poll.rs give no children to an entry without.
use hf_mount.Base.{
  ℕ, ◌≡◌, refl, sym, ◌∙◌, false, inl, inr, Option, some, List, [], arith, Text, eq_of_some, ◌==◌,
  nat_eq, text_eq, nat_beq_iff, Bool-cases, Option-cases,
}
use mathlib.Core.Path.{subst}
use hf_mount.Base.HashMap
use hf_mount.Inode.Entry.{InodeEntry, SystemTime, is_dirty, child_path, remove_child_by_name}
use hf_mount.Inode.Table.{InodeTable, get, on_entry, has_open_handles}
use hf_mount.Inode.Table.WellFormed.{get-on_entry}
use hf_mount.Inode.Remote.{update_remote_file, updated}
use hf_mount.Inode.Tree.{unlinked, unlink_child, unlink_one, removed, detached_child}
use hf_mount.Inode.Tree.Sweep.{get-removed}
use hf_mount.Poll.Apply.{Inval, remove_remote_file}
use hf_mount.Poll.Apply.Kept.{KeepsLeaf, by_name-IsKept, detached-IsKept, unlinked-IsKept}
use hf_mount.Poll.Apply.Guarded.{keeps_leaf, remove_leaf}

-- The entry of the inode, if there is one, has no children.
abbrev pub IsBare : InodeTable → ℕ → Type 0
IsBare t i = (x : InodeEntry) → get t i ≡ some x → x.children ≡ []

on_entry-IsBare :
    (t : InodeTable) (k i : ℕ) (f : InodeEntry → InodeEntry)
    → KeepsLeaf f
    → IsBare t i
    → IsBare (on_entry t k f) i
on_entry-IsBare t k i f kept bare y h = elim (Bool-cases (k == i)) [
  | inr other ↦ bare y (sym (get-on_entry t k f i ∙ rw other refl) ∙ h)
  | inl same ↦ elim (Option-cases (get t k)) [
    | inl absent ↦ absurd (ground (arith, get-on_entry t k f i))
    | inr (x, there) ↦
        let is_fx : f x ≡ y = eq_of_some (sym (get-on_entry t k f i ∙ rw (same, there) refl) ∙ h) in
        let here : get t i ≡ some x =
          subst (λ n. get t n ≡ some x) ((nat_beq_iff k i).0 same) there in
        subst (λ (z : InodeEntry). z.children ≡ []) is_fx ((kept x).1 (bare x here))
  ]
]

pub update_remote_file-IsBare :
    (t : InodeTable) (ino : ℕ) (hash etag : Option Text) (size : ℕ) (mtime : SystemTime) (i : ℕ)
    → IsBare t i
    → IsBare (update_remote_file t ino hash etag size mtime).0 i
unfolding update_remote_file updated
update_remote_file-IsBare t ino hash etag size mtime i bare = elim (Option-cases (get t ino)) [
  | inl absent ↦ rw (absent, update_remote_file) bare
  | inr (x, there) ↦ elim (Bool-cases (is_dirty x)) [
    | inl local ↦ rw (there, update_remote_file) (rw local bare)
    | inr clean ↦
        rw (there, update_remote_file)
          (rw clean
            (on_entry-IsBare t ino i (updated hash etag size mtime) (λ x. (refl, λ h. h)) bare))
  ]
]

unlink_one-IsBare :
    (t : InodeTable) (parent : ℕ) (name : Text) (now : SystemTime) (i : ℕ)
    → IsBare t i
    → IsBare (unlink_one t parent name now).0 i
unfolding unlink_one
unlink_one-IsBare t parent name now i bare = elim (Option-cases (get t parent)) [
  | inl absent ↦ rw (absent, unlink_one) bare
  | inr (p, there) ↦ elim (Option-cases (HashMap.get p.child_index name)) [
    | inl no_child ↦ rw (there, unlink_one) (rw (no_child, unlink_one) bare)
    | inr (child, named) ↦
        rw (there, unlink_one)
          (rw (named, unlink_one) (unlink_child-IsBare child (child_path p.full_path name)))
  ]
]
  where
    unlink_child-IsBare :
        (child : ℕ) (path : Text) → IsBare (unlink_child t parent name now child path).0 i
    unlink_child-IsBare child path =
        unfold unlink_child in
        let f : InodeEntry → InodeEntry = λ p. (remove_child_by_name p name).0 in
        let named = on_entry t parent f in
        let unmapped = record named { path_to_inode = HashMap.remove named.path_to_inode path } in
        let bare1 : IsBare unmapped i =
          on_entry-IsBare t parent i f (keeps_leaf f (by_name-IsKept name)) bare in
        elim (Option-cases (get unmapped child)) [
          | inl absent ↦ rw (absent, unlink_child) bare1
          | inr (x, there) ↦
              rw (there, unlink_child)
                (on_entry-IsBare unmapped child i (unlinked now)
                  (keeps_leaf (unlinked now) (unlinked-IsKept now)) bare1)
        ]

pub remove_remote_file-IsBare :
    (t : InodeTable) (now : SystemTime) (ino : ℕ) (invals : List Inval) (i : ℕ)
    → IsBare t ino
    → IsBare t i
    → IsBare (remove_remote_file t now ino invals).0 i
unfolding remove_remote_file
remove_remote_file-IsBare t now ino invals i leaf bare = elim (Option-cases (get t ino)) [
  | inl absent ↦ rw (absent, remove_remote_file) bare
  | inr (x, there) ↦ elim (Bool-cases (is_dirty x)) [
    | inl local ↦ rw (there, remove_remote_file) (rw local bare)
    | inr clean ↦ elim (Bool-cases (has_open_handles t ino)) [
      | inl held ↦
          rw (there, remove_remote_file)
            (rw (clean, held) (unlink_one-IsBare t x.parent x.name now i bare))
      | inr closed ↦
          let f = detached_child ino x.kind false in
          let left : IsBare (removed t ino x) i =
            λ y h. bare y (ground (arith, get-removed t ino x i)) in
          rw (there, remove_remote_file)
            (rw (clean, closed)
              (subst (λ u. IsBare u i) (sym (remove_leaf t ino x there (leaf x there)))
                (on_entry-IsBare (removed t ino x) x.parent i f
                  (keeps_leaf f (detached-IsKept ino x.kind)) left)))
    ]
  ]
]
