-- ===== src/Tests/Inodes.antt =====
-- A small tree for src/virtual_fs/inode.rs: the root, the directory `d` and the file `d/f`.
use hf_mount.Base.{
  ◌+◌, ◌<◌, ◌≡◌, refl, true, false, Option, none, some, [], ◌∷◌, arith, Text, pos, if◌then◌else◌,
  u64_mod, ◌==◌, nat_eq, text_eq, text_beq_iff,
}
use hf_mount.Base.HashMap
use hf_mount.Base.Equality.{text_beq}
use hf_mount.Base.Word.{add64}
use hf_mount.Inode.Entry.{
  InodeEntry, file, directory, apply_commit, add_child, remove_child_by_name, find_ino,
}
use hf_mount.Inode.Entry.Commit.{writes, IsUntouched, apply_commit-writes}
use hf_mount.Inode.Entry.Children.{
  IsSynced, named, add_child-IsSynced, remove_child_by_name-IsSynced,
}
use hf_mount.Inode.Table
use hf_mount.Inode.Table.{InodeTable, NewEntry, new, get, get_dir_ino, insert, fresh_entry}
use hf_mount.Inode.Table.WellFormed.{IsWellFormed}
use hf_mount.Inode.Table.Insert.{IsFound, insert-IsFound, insert-IsWellFormed}
use hf_mount.Inode.Remote.{update_remote_file, merge_remote_file}
use hf_mount.Inode.Remote.Local.{update_remote_file_lem, merge-update}
use hf_mount.Inode.Run.{start, later, inserted, removed, Reach-IsWellFormed}
use hf_mount.Inode.Tree.{remove, nearest_dir_ancestor}
use hf_mount.Inode.Tree.Ancestor.{IsNearest, nearest_dir_ancestor_lem}

abbrev d : Text
d = 100 ∷ []

abbrev f : Text
f = 102 ∷ []

abbrev pub d_f : Text
d_f = 100 ∷ 47 ∷ 102 ∷ []

abbrev new_dir : NewEntry
new_dir = record {
  kind = directory;
  size = 0;
  mtime = pos 0;
  xet_hash = none;
  mode = 493;
  uid = 0;
  gid = 0;
}

abbrev new_file : NewEntry
new_file = record {
  kind = file;
  size = 5;
  mtime = pos 0;
  xet_hash = some (1 ∷ []);
  mode = 420;
  uid = 0;
  gid = 0;
}

abbrev with_dir : InodeTable
with_dir = (insert (new false) 1 d d new_dir (pos 5) 7).0

abbrev pub with_file : InodeTable
with_file = (insert with_dir 2 f d_f new_file (pos 5) 7).0

abbrev or_root : Option InodeEntry → InodeEntry
or_root none = fresh_entry 1 1 [] [] directory
or_root (some e) = e

abbrev root_entry : InodeEntry
root_entry = or_root (get (new false) 1)

abbrev dir_entry : InodeEntry
dir_entry = or_root (get with_file 2)

abbrev pub file_entry : InodeEntry
file_entry = or_root (get with_file 3)

new-IsWellFormed : IsWellFormed (new false)
unfolding new HashMap.get HashMap.insert HashMap.remove
new-IsWellFormed = record {
  keyed = λ i e h. ground arith;
  below = λ i e h. ground arith;
  pathed = λ p i h. (root_entry, ground arith, ground (arith, text_beq_iff [] p));
}

root_there : get (new false) 1 ≡ some root_entry
unfolding new HashMap.get HashMap.insert HashMap.remove
root_there = refl

dir_free : HashMap.get (new false).path_to_inode d ≡ none
unfolding new HashMap.get HashMap.insert HashMap.remove text_beq
dir_free = refl

insert-IsFound_example : IsFound (new false) 1 d d new_dir (pos 5) 7
insert-IsFound_example =
    insert-IsFound (new false) 1 d d new_dir (pos 5) 7 new-IsWellFormed root_entry root_there
      dir_free

root_room : (new false).next_inode + 1 < u64_mod
unfolding new
root_room = omega arith

room : with_dir.next_inode + 1 < u64_mod
unfolding new insert HashMap.get HashMap.insert HashMap.remove HashMap.modify Table.on_entry
    text_beq add64
room = omega arith

pub file-IsWellFormed : IsWellFormed with_file
file-IsWellFormed =
    insert-IsWellFormed with_dir 2 f d_f new_file (pos 5) 7 room
      (insert-IsWellFormed (new false) 1 d d new_dir (pos 5) 7 root_room new-IsWellFormed)

pub file_there : get with_file 3 ≡ some file_entry
unfolding new insert HashMap.get HashMap.insert HashMap.remove HashMap.modify Table.on_entry
    text_beq add64
file_there = refl

update_remote_file_lem_example :
    ((update_remote_file with_file 3 none none 9 (pos 8)).1 ≡ true)
    × (get (update_remote_file with_file 3 none none 9 (pos 8)).0 3
        ≡ some (record file_entry {
          xet_hash = none;
          etag = none;
          size = 9;
          mtime = pos 8;
          staging_is_current = false;
        }))
unfolding new insert HashMap.get HashMap.insert HashMap.remove HashMap.modify Table.on_entry
    text_beq add64 Table.entry_of
update_remote_file_lem_example =
    update_remote_file_lem with_file 3 none none 9 (pos 8) file_entry 3 file_there

merge-update_example :
    ((merge_remote_file with_file 3 (some f) (some 9) (some (pos 8))).1
      ≡ (update_remote_file with_file 3 (some f) file_entry.etag 9 (pos 8)).1)
    × (get (merge_remote_file with_file 3 (some f) (some 9) (some (pos 8))).0 3
        ≡ get (update_remote_file with_file 3 (some f) file_entry.etag 9 (pos 8)).0 3)
merge-update_example = merge-update with_file 3 f 9 (pos 8) file_entry 3 file_there

abbrev written : InodeEntry
written = record (fresh_entry 3 2 f d_f file) { dirty_generation = 3 }

apply_commit-writes_example :
    IsUntouched written (apply_commit (writes 2 written) f 9 3 (pos 8) 7) 5
apply_commit-writes_example =
    apply_commit-writes 2 written f 9 (pos 8) 7 (omega arith) (omega arith)

abbrev empty_dir : InodeEntry
empty_dir = fresh_entry 2 1 d d directory

empty-IsSynced : IsSynced empty_dir
unfolding named HashMap.get
empty-IsSynced = record { index = λ n. refl; distinct = tt }

with_child : IsSynced (add_child empty_dir 3 f)
unfolding find_ino named
with_child = (add_child-IsSynced empty_dir 3 f refl refl empty-IsSynced).0

remove_child_by_name-IsSynced_example :
    IsSynced (remove_child_by_name (add_child empty_dir 3 f) f).0
    × ((remove_child_by_name (add_child empty_dir 3 f) f).1
        ≡ named (add_child empty_dir 3 f).children f)
    × ((n : Text)
        → named (remove_child_by_name (add_child empty_dir 3 f) f).0.children n
          ≡ (if f == n then none else named (add_child empty_dir 3 f).children n))
remove_child_by_name-IsSynced_example =
    remove_child_by_name-IsSynced (add_child empty_dir 3 f) f with_child

nearest_dir_ancestor_lem_example : IsNearest with_file d_f (nearest_dir_ancestor with_file d_f)
nearest_dir_ancestor_lem_example = nearest_dir_ancestor_lem with_file d_f

Reach-IsWellFormed_example : IsWellFormed (remove with_file 2).0
Reach-IsWellFormed_example = Reach-IsWellFormed (
    later
      (later (later (start false) (inserted (new false) 1 d d new_dir (pos 5) 7 root_room))
        (inserted with_dir 2 f d_f new_file (pos 5) 7 room))
      (removed with_file 2))
