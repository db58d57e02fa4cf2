-- ===== src/Poll/Apply/Loop.antt =====
-- `apply_follow_changes` of src/virtual_fs/poll.rs never takes a local write.
use hf_mount.Base.{
  ℕ, ◌≡◌, refl, sym, ◌∙◌, ap, Bool, true, pos, inl, inr, Option, none, some, List, [], ◌∷◌, arith,
  eq_of_some, Text, nat_eq, text_eq, Bool-cases, Option-cases,
}
use mathlib.Core.Path.{subst}
use mathlib.Core.Option
use hf_mount.Base.HashMap
use hf_mount.Inode.Entry.{InodeEntry, SystemTime, is_file, is_dirty}
use hf_mount.Inode.Table.{
  InodeTable, get, get_by_path, on_entry, is_children_loaded, invalidate_children,
}
use hf_mount.Inode.Table.WellFormed.{IsWellFormed, get-on_entry, on_entry-IsWellFormed}
use hf_mount.Inode.Remote.Local.{on_clean}
use hf_mount.Inode.Remote.{merge_remote_file, merged, update_remote_file, updated}
use hf_mount.Inode.Remote.Local.{remote-IsWellFormed}
use hf_mount.Inode.Tree.{nearest_dir_ancestor}
use hf_mount.Follow.Stream.{FollowChange}
use hf_mount.Poll.Apply.{
  Applied, NegativeCache, is_delete, or_else, materialized, apply_update, apply_delete,
  apply_missing, apply_change, apply_changes, invalidate_all, apply_follow_changes,
}
use hf_mount.Poll.Apply.Kept.{
  AreLeaves, KeepsLeaf, IsKept, IsKept-refl, StaysAt, on_entry-StaysAt, on_entry-AreLeaves,
}
use hf_mount.Poll.Apply.Guarded.{
  IsGuarded, keeps_leaf, clean_elsewhere, remove_remote_file-IsGuarded,
}

-- A remote change of a clean file.
pub on_clean_guarded :
    (t : InodeTable) (ino : ℕ) (f : InodeEntry → InodeEntry) (j : ℕ) (e : InodeEntry)
    → KeepsLeaf f
    → is_dirty e ≡ true
    → IsGuarded t j e
    → AreLeaves (on_clean t ino f).0 × StaysAt (on_clean t ino f).0 j e
unfolding on_clean
on_clean_guarded t ino f j e kept dirty g = elim (Option-cases (get t ino)) [
  | inl absent ↦ rw (absent, on_clean) (g.leaves, g.stays)
  | inr (x, there) ↦ elim (Bool-cases (is_dirty x)) [
    | inl local ↦ rw (there, on_clean) (rw local (g.leaves, g.stays))
    | inr clean ↦
        let other = clean_elsewhere t ino j e x dirty there clean g in
        let (y, present, same) = g.stays in
        rw (there, on_clean)
          (rw clean (
            on_entry-AreLeaves t ino f kept g.leaves,
            (y, get-on_entry t ino f j ∙ rw other present, same),
          ))
  ]
]

merge_remote_file-IsGuarded :
    (t : InodeTable) (ino : ℕ) (hash : Option Text) (size : Option ℕ) (mtime : Option SystemTime)
    (j : ℕ) (e : InodeEntry)
    → is_dirty e ≡ true
    → IsGuarded t j e
    → IsGuarded (merge_remote_file t ino hash size mtime).0 j e
unfolding merge_remote_file merged HashMap.get on_clean
merge_remote_file-IsGuarded t ino hash size mtime j e dirty g =
    let (leaves, stays) =
      on_clean_guarded t ino (merged hash size mtime) j e (λ x. (refl, λ h. h)) dirty g in
    record {
      well_formed = (remote-IsWellFormed t ino hash none 0 (pos 0) size mtime g.well_formed).1;
      leaves = leaves;
      stays = stays;
    }

pub update_remote_file-IsGuarded :
    (t : InodeTable) (ino : ℕ) (hash etag : Option Text) (size : ℕ) (mtime : SystemTime) (j : ℕ)
    (e : InodeEntry)
    → is_dirty e ≡ true
    → IsGuarded t j e
    → IsGuarded (update_remote_file t ino hash etag size mtime).0 j e
unfolding update_remote_file updated HashMap.get on_clean
update_remote_file-IsGuarded t ino hash etag size mtime j e dirty g =
    let (leaves, stays) =
      on_clean_guarded t ino (updated hash etag size mtime) j e (λ x. (refl, λ h. h)) dirty g in
    record {
      well_formed = (remote-IsWellFormed t ino hash etag size mtime none none g.well_formed).0;
      leaves = leaves;
      stays = stays;
    }

-- A materialized file is a file of the table under the number that comes out.
materialized_file :
    (t : InodeTable) (path : Text) (ino : ℕ) (dirty : Bool) (x : InodeEntry)
    → IsWellFormed t
    → materialized t path ≡ some (ino, dirty)
    → get t ino ≡ some x
    → is_file x.kind ≡ true
unfolding materialized get_by_path
materialized_file t path ino dirty x v h there =
    elim (Option-cases (HashMap.get t.path_to_inode path)) [
      | inl nowhere ↦ absurd (ground arith)
      | inr (i, mapped) ↦ elim (Option-cases (get t i)) [
        | inl absent ↦ absurd (ground arith)
        | inr (y, found) ↦ elim (Bool-cases (is_file y.kind)) [
          | inr other ↦ absurd (ground arith)
          | inl a_file ↦
              let number : y.inode ≡ ino = ground arith in
              let same : i ≡ ino = sym (v.keyed i y found) ∙ number in
              let is_x : y ≡ x = eq_of_some (sym found ∙ ap (get t) same ∙ there) in
              ap (λ (z : InodeEntry). is_file z.kind) (sym is_x) ∙ a_file
        ]
      ]
    ]

apply_update-IsGuarded :
    (mtime_from_str : Text → SystemTime) (change : FollowChange) (s : Applied) (ino : ℕ) (j : ℕ)
    (e : InodeEntry)
    → is_dirty e ≡ true
    → IsGuarded s.table j e
    → IsGuarded (apply_update mtime_from_str change s ino).table j e
unfolding apply_update
apply_update-IsGuarded mtime_from_str change s ino j e dirty g =
    let mtime = Option.map mtime_from_str (or_else change.mtime change.uploaded_at) in
    let r = merge_remote_file s.table ino change.xet_hash change.size mtime in
    let kept =
      merge_remote_file-IsGuarded s.table ino change.xet_hash change.size mtime j e dirty g in
    elim (Bool-cases r.1) [ inl done ↦ rw done kept | inr skipped ↦ rw skipped kept ]

apply_missing-table :
    (change : FollowChange) (s : Applied) → (apply_missing change s).table ≡ s.table
unfolding apply_missing
apply_missing-table change s =
    elim (Bool-cases (is_children_loaded s.table (nearest_dir_ancestor s.table change.path).0)) [
      | inl loaded ↦ rw loaded refl
      | inr unknown ↦ rw unknown refl
    ]

apply_change-IsGuarded :
    (mtime_from_str : Text → SystemTime) (now : SystemTime) (change : FollowChange) (s : Applied)
    (j : ℕ) (e : InodeEntry)
    → is_dirty e ≡ true
    → IsGuarded s.table j e
    → IsGuarded (apply_change mtime_from_str now change s).table j e
unfolding apply_change apply_delete
apply_change-IsGuarded mtime_from_str now change s j e dirty g =
    elim (Option-cases (materialized s.table change.path)) [
      | inl missing ↦
          rw (missing, apply_change)
            (subst (λ t. IsGuarded t j e) (sym (apply_missing-table change s)) g)
      | inr ((ino, local), found) ↦ elim (Bool-cases local) [
        | inl skipped ↦ rw (found, apply_change) (rw skipped g)
        | inr clean ↦ elim (Bool-cases (is_delete change.op)) [
          | inl gone ↦
              rw (found, apply_change)
                (rw (clean, gone)
                  (remove_remote_file-IsGuarded s.table now ino s.invals j e dirty
                    (λ x there.
                      g.leaves ino x there (
                        materialized_file s.table change.path ino local x g.well_formed found
                          there))
                    g))
          | inr changed ↦
              rw (found, apply_change)
                (rw (clean, changed)
                  (apply_update-IsGuarded mtime_from_str change s ino j e dirty g))
        ]
      ]
    ]

apply_changes-IsGuarded :
    (mtime_from_str : Text → SystemTime) (now : SystemTime) (changes : List FollowChange)
    (s : Applied) (j : ℕ) (e : InodeEntry)
    → is_dirty e ≡ true
    → IsGuarded s.table j e
    → IsGuarded (apply_changes mtime_from_str now changes s).table j e
unfolding apply_changes
apply_changes-IsGuarded mtime_from_str now [] s j e dirty g = g
apply_changes-IsGuarded mtime_from_str now (change ∷ changes) s j e dirty g =
    apply_changes-IsGuarded mtime_from_str now changes (apply_change mtime_from_str now change s) j
      e dirty (apply_change-IsGuarded mtime_from_str now change s j e dirty g)

pub invalidate_all-IsGuarded :
    (t : InodeTable) (dirs : List ℕ) (j : ℕ) (e : InodeEntry)
    → IsGuarded t j e
    → IsGuarded (invalidate_all t dirs) j e
unfolding invalidate_all invalidate_children
invalidate_all-IsGuarded t [] j e g = g
invalidate_all-IsGuarded t (dir ∷ dirs) j e g =
    let f : InodeEntry → InodeEntry = λ x. record x { children_loaded_at = none } in
    let kept : (x : InodeEntry) → IsKept x (f x) = λ x. record {
      local = record {
        generation = refl;
        hash = refl;
        size = refl;
        staging = refl;
        pending = refl;
      };
      kind = refl;
      leaf = λ h. h;
    } in
    invalidate_all-IsGuarded (on_entry t dir f) dirs j e (record {
      well_formed = on_entry-IsWellFormed t dir f (λ x. (refl, refl)) g.well_formed;
      leaves = on_entry-AreLeaves t dir f (keeps_leaf f kept) g.leaves;
      stays = on_entry-StaysAt t dir j f e kept g.stays;
    })

-- The table at the start of a batch.
pub get-IsGuarded :
    (t : InodeTable) (j : ℕ) (e : InodeEntry)
    → IsWellFormed t
    → AreLeaves t
    → get t j ≡ some e
    → IsGuarded t j e
get-IsGuarded t j e v leaves there = record {
  well_formed = v;
  leaves = leaves;
  stays = (e, there, IsKept-refl e);
}

-- Whatever a batch of remote changes says, deletions included, a file with local changes stays in a
-- well-formed table with its dirty generation, hash, size, staging flag and pending deletes, if no
-- file of the table has children; the table stays well-formed and its files without children.
pub apply_follow_changes-IsGuarded :
    (mtime_from_str : Text → SystemTime) (now : SystemTime) (changes : List FollowChange)
    (t : InodeTable) (nc : NegativeCache) (j : ℕ) (e : InodeEntry)
    → IsWellFormed t
    → AreLeaves t
    → get t j ≡ some e
    → is_dirty e ≡ true
    → IsGuarded (apply_follow_changes mtime_from_str now changes t nc).0 j e
unfolding apply_follow_changes
apply_follow_changes-IsGuarded mtime_from_str now changes t nc j e v leaves there dirty =
    let s0 : Applied = record { table = t; invals = []; dirs = [] } in
    let s = apply_changes mtime_from_str now changes s0 in
    invalidate_all-IsGuarded s.table s.dirs j e (
      apply_changes-IsGuarded mtime_from_str now changes s0 j e dirty
        (get-IsGuarded t j e v leaves there))
