-- ===== src/Inode/Run.antt =====
-- The inode table of src/virtual_fs/inode.rs as a state machine: a step is one call of a method that
-- changes the table.
use hf_mount.Base.{
  ℕ, ◌+◌, ◌<◌, ◌≡◌, refl, sym, ap, ◌∙◌, some, ◌==◌, Bool, none, Option, List, [], arith, Text,
  u64_mod, pos, nat_eq, text_eq, text_beq_iff, inl, inr, Bool-cases, not, Option-cases,
}
use hf_mount.Base.HashMap
use hf_mount.Base.HashMap.{get-insert, get-remove}
use hf_mount.Inode.Entry.{
  InodeEntry, root_inode, directory, SystemTime, Instant, set_dirty, apply_commit, clear_dirty_if,
}
use hf_mount.Inode.Table.{
  InodeTable, NewEntry, new, fresh_entry, get, on_entry, insert, bump_nlookup, drop_nlookup,
  bump_open_handles, drop_open_handles, touch, mark_evict_pending, take_evict_pending,
  invalidate_children, touch_parent, remove_path, insert_path,
}
use hf_mount.Inode.Table.WellFormed.{IsWellFormed, on_entry-IsWellFormed}
use hf_mount.Inode.Table.Insert.{insert-IsWellFormed}
use hf_mount.Inode.Evict.{evict_if_safe, remove_orphan}
use hf_mount.Inode.Evict.Kept.{evict_if_safe-IsWellFormed, remove_orphan-IsWellFormed}
use hf_mount.Inode.Batch.{evict_batch_if_safe, evict_batch_if_safe-IsWellFormed}
use hf_mount.Inode.Remote.{update_remote_file, merge_remote_file}
use hf_mount.Inode.Remote.Local.{remote-IsWellFormed}
use hf_mount.Inode.Tree.{unlink_one, move_child, remove}
use hf_mount.Inode.Tree.Subtree.{update_subtree_paths, update_subtree_paths-IsWellFormed}
use hf_mount.Inode.Tree.Kept.{unlink_one-IsWellFormed, move_child-IsWellFormed, remove-IsWellFormed}

-- A new inode needs a number: an insertion is a step as long as the counter is not exhausted.
-- `insert_path` maps whatever path it is given; it is a step where the entry has that path.
pub data Step : InodeTable → InodeTable → Type 0 where
  inserted :
      (t : InodeTable) (parent : ℕ) (name full_path : Text) (n : NewEntry) (now : SystemTime)
      (instant : Instant)
      → t.next_inode + 1 < u64_mod
      → Step t (insert t parent name full_path n now instant).0
  evicted : (t : InodeTable) (ino : ℕ) → Step t (evict_if_safe t ino).0
  evicted_batch : (t : InodeTable) (inos : List ℕ) → Step t (evict_batch_if_safe t inos).0
  orphan_removed : (t : InodeTable) (ino : ℕ) → Step t (remove_orphan t ino).0
  removed : (t : InodeTable) (ino : ℕ) → Step t (remove t ino).0
  unlinked :
      (t : InodeTable) (parent : ℕ) (name : Text) (now : SystemTime)
      → Step t (unlink_one t parent name now).0
  moved :
      (t : InodeTable) (ino old_parent : ℕ) (old_name : Text) (new_parent : ℕ) (new_name : Text)
      → Step t (move_child t ino old_parent old_name new_parent new_name)
  repathed :
      (t : InodeTable) (fuel inode : ℕ) (path : Text)
      → Step t (update_subtree_paths fuel t inode path)
  updated :
      (t : InodeTable) (ino : ℕ) (hash etag : Option Text) (size : ℕ) (mtime : SystemTime)
      → Step t (update_remote_file t ino hash etag size mtime).0
  merged :
      (t : InodeTable) (ino : ℕ) (hash : Option Text) (size : Option ℕ) (mtime : Option SystemTime)
      → Step t (merge_remote_file t ino hash size mtime).0
  written : (t : InodeTable) (ino : ℕ) → Step t (on_entry t ino set_dirty)
  committed :
      (t : InodeTable) (ino : ℕ) (hash : Text) (size generation : ℕ) (now : SystemTime)
      (instant : Instant)
      → Step t (on_entry t ino (λ e. apply_commit e hash size generation now instant))
  looked_up : (t : InodeTable) (ino : ℕ) → Step t (bump_nlookup t ino)
  forgotten : (t : InodeTable) (ino n : ℕ) → Step t (drop_nlookup t ino n).0
  opened : (t : InodeTable) (ino : ℕ) → Step t (bump_open_handles t ino)
  closed : (t : InodeTable) (ino : ℕ) → Step t (drop_open_handles t ino)
  touched : (t : InodeTable) (ino : ℕ) → Step t (touch t ino)
  marked : (t : InodeTable) (ino : ℕ) → Step t (mark_evict_pending t ino)
  taken : (t : InodeTable) (ino : ℕ) → Step t (take_evict_pending t ino).0
  invalidated : (t : InodeTable) (ino : ℕ) → Step t (invalidate_children t ino)
  path_removed : (t : InodeTable) (path : Text) → Step t (remove_path t path)
  path_inserted :
      (t : InodeTable) (path : Text) (inode : ℕ) (e : InodeEntry)
      → get t inode ≡ some e
      → e.full_path ≡ path
      → Step t (insert_path t path inode)
  parent_touched :
      (t : InodeTable) (parent : ℕ) (now : SystemTime) → Step t (touch_parent t parent now)

-- The tables that a mount can have, from the one that holds the root alone.
pub data Reach : InodeTable → Type 0 where
  start : (track_touches : Bool) → Reach (new track_touches)
  later : {t u : InodeTable} → Reach t → Step t u → Reach u

new-IsWellFormed : (track_touches : Bool) → IsWellFormed (new track_touches)
unfolding new HashMap.get HashMap.insert HashMap.remove
new-IsWellFormed track_touches = record {
  keyed = λ i e h. ground arith;
  below = λ i e h. ground arith;
  pathed = λ p i h. (
    record (fresh_entry root_inode root_inode [] [] directory) { mode = 493 },
    ground arith,
    ground (arith, text_beq_iff [] p),
  );
}

remove_path-IsWellFormed :
    (t : InodeTable) (path : Text) → IsWellFormed t → IsWellFormed (remove_path t path)
unfolding remove_path
remove_path-IsWellFormed t path v = record {
  keyed = v.keyed;
  below = v.below;
  pathed = λ p j h. v.pathed p j (ground (arith, get-remove t.path_to_inode path p));
}

insert_path-IsWellFormed :
    (t : InodeTable) (path : Text) (inode : ℕ) (e : InodeEntry)
    → get t inode ≡ some e
    → e.full_path ≡ path
    → IsWellFormed t
    → IsWellFormed (insert_path t path inode)
unfolding insert_path
insert_path-IsWellFormed t path inode e there named v = record {
  keyed = v.keyed;
  below = v.below;
  pathed = λ p j h. elim (Bool-cases (path == p)) [
    | inr other ↦ v.pathed p j (ground (arith, get-insert t.path_to_inode path inode p))
    | inl same ↦
        let new_one : inode ≡ j = ground (arith, get-insert t.path_to_inode path inode p) in
        (e, ap (get t) (sym new_one) ∙ there, named ∙ (text_beq_iff path p).0 same)
  ];
}

touch-IsWellFormed : (t : InodeTable) (ino : ℕ) → IsWellFormed t → IsWellFormed (touch t ino)
unfolding touch
touch-IsWellFormed t ino v =
    let stamped =
      on_entry t ino
        (λ e. record e { eviction = record e.eviction { last_touched = t.touch_counter } }) in
    let kept : IsWellFormed stamped = on_entry-IsWellFormed t ino _ (λ e. (refl, refl)) v in
    elim (Bool-cases (not t.touch_enabled)) [
      | inl idle ↦ rw idle v
      | inr counting ↦ elim (Option-cases (get t ino)) [
        | inl absent ↦ rw (counting, absent, touch) v
        | inr (e, there) ↦ rw counting (
            rw (there, touch)
              (record { keyed = kept.keyed; below = kept.below; pathed = kept.pathed }))
      ]
    ]

Step-IsWellFormed : {t u : InodeTable} → Step t u → IsWellFormed t → IsWellFormed u
unfolding bump_nlookup drop_nlookup bump_open_handles drop_open_handles mark_evict_pending
    take_evict_pending invalidate_children touch_parent set_dirty apply_commit clear_dirty_if
Step-IsWellFormed (inserted t parent name full_path n now instant room) v =
    insert-IsWellFormed t parent name full_path n now instant room v
Step-IsWellFormed (evicted t ino) v = evict_if_safe-IsWellFormed t ino v
Step-IsWellFormed (evicted_batch t inos) v = evict_batch_if_safe-IsWellFormed t inos v
Step-IsWellFormed (orphan_removed t ino) v = remove_orphan-IsWellFormed t ino v
Step-IsWellFormed (removed t ino) v = remove-IsWellFormed t ino v
Step-IsWellFormed (unlinked t parent name now) v = unlink_one-IsWellFormed t parent name now v
Step-IsWellFormed (moved t ino old_parent old_name new_parent new_name) v =
    move_child-IsWellFormed t ino old_parent old_name new_parent new_name v
Step-IsWellFormed (repathed t fuel inode path) v =
    update_subtree_paths-IsWellFormed fuel t inode path v
Step-IsWellFormed (updated t ino hash etag size mtime) v =
    (remote-IsWellFormed t ino hash etag size mtime none none v).0
Step-IsWellFormed (merged t ino hash size mtime) v =
    (remote-IsWellFormed t ino hash none 0 (pos 0) size mtime v).1
Step-IsWellFormed (written t ino) v = on_entry-IsWellFormed t ino _ (λ e. (refl, refl)) v
Step-IsWellFormed (committed t ino hash size generation now instant) v =
    on_entry-IsWellFormed t ino _ (λ e. ground arith) v
Step-IsWellFormed (looked_up t ino) v = on_entry-IsWellFormed t ino _ (λ e. (refl, refl)) v
Step-IsWellFormed (forgotten t ino n) v = on_entry-IsWellFormed t ino _ (λ e. (refl, refl)) v
Step-IsWellFormed (opened t ino) v = on_entry-IsWellFormed t ino _ (λ e. (refl, refl)) v
Step-IsWellFormed (closed t ino) v = on_entry-IsWellFormed t ino _ (λ e. (refl, refl)) v
Step-IsWellFormed (touched t ino) v = touch-IsWellFormed t ino v
Step-IsWellFormed (marked t ino) v = on_entry-IsWellFormed t ino _ (λ e. (refl, refl)) v
Step-IsWellFormed (taken t ino) v = on_entry-IsWellFormed t ino _ (λ e. (refl, refl)) v
Step-IsWellFormed (invalidated t ino) v = on_entry-IsWellFormed t ino _ (λ e. (refl, refl)) v
Step-IsWellFormed (path_removed t path) v = remove_path-IsWellFormed t path v
Step-IsWellFormed (path_inserted t path inode e there named) v =
    insert_path-IsWellFormed t path inode e there named v
Step-IsWellFormed (parent_touched t parent now) v =
    on_entry-IsWellFormed t parent _ (λ e. (refl, refl)) v

-- Whatever steps, in whatever order, have made a table from the one with the root alone (`Step` lists
-- them; an insertion has a number left, and `insert_path` is given an entry's own path): every entry stands under its own number, below the next one to give, and every path of the
-- lookup leads to an entry that has that path.
pub Reach-IsWellFormed : {t : InodeTable} → Reach t → IsWellFormed t
Reach-IsWellFormed (start track_touches) = new-IsWellFormed track_touches
Reach-IsWellFormed (later r s) = Step-IsWellFormed s (Reach-IsWellFormed r)
