-- ===== src/Tests/Remote.antt =====
-- Remote changes of src/virtual_fs/poll.rs against a file with local changes.
use hf_mount.Base.{
  ℕ, ◌≡◌, refl, true, none, inl, inr, List, [], ◌∷◌, arith, Text, codes, pos, nat_eq, text_eq,
  nat_beq_iff,
}
use hf_mount.Base.Equality.{text_beq}
use hf_mount.Base.HashMap
use hf_mount.Base.Word.{add64}
use hf_mount.Inode.Entry
use hf_mount.Inode.Entry.{InodeEntry, SystemTime, set_dirty, is_dirty, is_file}
use hf_mount.Inode.Table
use hf_mount.Inode.Table.{InodeTable, get, on_entry}
use hf_mount.Inode.Table.WellFormed.{IsWellFormed, on_entry-IsWellFormed}
use hf_mount.Inode.Remote
use hf_mount.Inode.Remote.{file_snapshot}
use hf_mount.Inode.Tree.{has_slash, parent_path}
use hf_mount.Poll.Diff.Bare.{IsBare}
use hf_mount.Follow.Stream.{FollowOp, FollowChange, add, delete}
use hf_mount.Poll.Apply.{apply_follow_changes}
use hf_mount.Poll.Apply.Kept.{AreLeaves}
use hf_mount.Poll.Apply.Guarded.{IsGuarded}
use hf_mount.Poll.Apply.Loop.{apply_follow_changes-IsGuarded}
use hf_mount.Poll.Apply.Cleared.{here, up, apply_follow_changes-Announces}
use hf_mount.Poll.Diff.{apply_poll_diff}
use hf_mount.Poll.Diff.Guarded.{is_listed, apply_poll_diff-IsGuarded}
use hf_mount.Tests.Inodes.{d_f, with_file, file-IsWellFormed}
use hf_mount.Tests.Flushes.{flushing, dirty_entry, dirty_there, generation_1}

flushing-IsWellFormed : IsWellFormed flushing
flushing-IsWellFormed =
    on_entry-IsWellFormed with_file 3 set_dirty (λ e. unfold set_dirty in (refl, refl))
      file-IsWellFormed

flushing-AreLeaves : AreLeaves flushing
unfolding set_dirty Table.new Table.insert HashMap.get HashMap.insert HashMap.remove HashMap.modify
    Table.on_entry text_beq add64 Table.entry_of Table.adopt Entry.add_child
flushing-AreLeaves i x h a_file = ground arith

-- The file is deleted remotely, and `e/g` appears.
abbrev change_of : Text → FollowOp → FollowChange
change_of path op = record {
  path = path;
  op = op;
  size = none;
  xet_hash = none;
  uploaded_at = none;
  mtime = none;
}

abbrev batch : List FollowChange
batch = change_of d_f delete ∷ change_of (codes "e/g") add ∷ []

-- No time is read.
abbrev epoch : Text → SystemTime
epoch text = pos 0

dirty : is_dirty dirty_entry ≡ true
dirty = rw generation_1 refl

apply_follow_changes-IsGuarded_example :
    IsGuarded (apply_follow_changes epoch (pos 9) batch flushing []).0 3 dirty_entry
apply_follow_changes-IsGuarded_example =
    apply_follow_changes-IsGuarded epoch (pos 9) batch flushing [] 3 dirty_entry
      flushing-IsWellFormed flushing-AreLeaves dirty_there dirty

apply_follow_changes-Announces_example :
    HashMap.get
      (apply_follow_changes epoch (pos 9) batch flushing ((codes "e", 4) ∷ [])).1
      (codes "e")
    ≡ none
unfolding has_slash parent_path
apply_follow_changes-Announces_example =
    apply_follow_changes-Announces epoch (pos 9) batch flushing ((codes "e", 4) ∷ []) (codes "e")
      (inr (inl (refl, up refl (here (codes "e")))))

only_the_file : (i : ℕ) → is_listed (file_snapshot flushing) i ≡ true → IsBare flushing i
unfolding set_dirty Table.new Table.insert HashMap.get HashMap.insert HashMap.remove HashMap.modify
    Table.on_entry text_beq add64 Table.entry_of Table.adopt Entry.add_child Remote.filter
    HashMap.values file_snapshot
only_the_file i listed x found = ground (arith, nat_beq_iff 3 i)

-- The listing of the directory is empty, so the snapshot's file is gone.
apply_poll_diff-IsGuarded_example :
    IsGuarded
      (apply_poll_diff epoch (pos 9) [] (codes "d" ∷ []) flushing flushing []).0
      3
      dirty_entry
apply_poll_diff-IsGuarded_example =
    apply_poll_diff-IsGuarded epoch (pos 9) [] (codes "d" ∷ []) flushing flushing [] 3 dirty_entry
      flushing-IsWellFormed flushing-AreLeaves only_the_file dirty_there dirty
