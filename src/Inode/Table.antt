-- ===== src/Inode/Table.antt =====
-- `InodeTable` of src/virtual_fs/inode.rs: lookups, insertion, reference counts and remote updates.
pub mod WellFormed
pub mod Insert
use hf_mount.Base.{
  ℕ, suc, ◌+◌, Bool, true, false, not, ◌&&◌, Option, none, some, List, [], ◌∷◌, map, ltb, leb,
  nat_beq, if◌then◌else◌, Text, ℤ, pos, ◌==◌, nat_eq, text_eq, add64, add32, sub32,
}
use hf_mount.Base.HashMap
use hf_mount.Base.HashMap.{HashMap}
use hf_mount.Inode.Entry
use hf_mount.Inode.Entry.{
  InodeEntry, InodeKind, directory, is_file, is_directory, no_eviction, root_inode, SystemTime,
  Instant, add_child, children_loaded, is_dirty,
}

pub record InodeTable : Type 0 where
  pub inodes : HashMap ℕ InodeEntry
  pub path_to_inode : HashMap Text ℕ
  pub next_inode : ℕ
  pub touch_counter : ℕ
  pub touch_enabled : Bool

-- A new entry, with the fields that `insert` and `new` set alike.
abbrev pub fresh_entry : ℕ → ℕ → Text → Text → InodeKind → InodeEntry
fresh_entry inode parent name full_path kind = record {
  inode = inode;
  parent = parent;
  name = name;
  full_path = full_path;
  kind = kind;
  size = 0;
  mtime = pos 0;
  mode = 0;
  uid = 0;
  gid = 0;
  atime = pos 0;
  ctime = pos 0;
  nlink = if is_directory kind then 2 else 1;
  symlink_target = none;
  xet_hash = none;
  staging_is_current = false;
  etag = none;
  dirty_generation = 0;
  children_loaded_at = none;
  children_from_remote = false;
  created_locally = false;
  children = [];
  child_index = [];
  pending_deletes = [];
  last_revalidated = none;
  eviction = no_eviction;
}

unfoldable pub new : Bool → InodeTable
new track_touches = record {
  inodes =
      HashMap.insert [] root_inode
        (record (fresh_entry root_inode root_inode [] [] directory) { mode = 493 });
  path_to_inode = HashMap.insert [] [] root_inode;
  next_inode = 2;
  touch_counter = 0;
  touch_enabled = track_touches;
}

abbrev pub get : InodeTable → ℕ → Option InodeEntry
get t inode = HashMap.get t.inodes inode

-- `if let Some(entry) = self.inodes.get_mut(&ino) { … }`
unfoldable pub on_entry : InodeTable → ℕ → (InodeEntry → InodeEntry) → InodeTable
on_entry t inode f = record t { inodes = HashMap.modify t.inodes inode f }

-- `.is_some_and(…)`
abbrev pub is_some_and : Option InodeEntry → (InodeEntry → Bool) → Bool
is_some_and none f = false
is_some_and (some e) f = f e

unfoldable pub get_by_path : InodeTable → Text → Option InodeEntry
get_by_path t path = elim (HashMap.get t.path_to_inode path) [ none ↦ none | some ino ↦ get t ino ]

unfoldable pub lookup_child : InodeTable → ℕ → Text → Option InodeEntry
lookup_child t parent name = elim (get t parent) [
  | none ↦ none
  | some p ↦ elim (HashMap.get p.child_index name) [ none ↦ none | some ino ↦ get t ino ]
]

unfoldable pub get_dir_ino : InodeTable → Text → Option ℕ
get_dir_ino t path = elim (get_by_path t path) [
  | none ↦ none
  | some e ↦ if is_directory e.kind then some e.inode else none
]

-- The fields that the caller of `insert` gives beside the place of the new inode.
pub record NewEntry : Type 0 where
  pub kind : InodeKind
  pub size : ℕ
  pub mtime : SystemTime
  pub xet_hash : Option Text
  pub mode : ℕ
  pub uid : ℕ
  pub gid : ℕ

-- The entry that `insert` makes; `seq` is the counter of touches.
unfoldable pub entry_of : ℕ → ℕ → Text → Text → NewEntry → ℕ → SystemTime → Instant → InodeEntry
entry_of inode parent name full_path n seq now instant =
    record (fresh_entry inode parent name full_path n.kind) {
      size = n.size;
      mtime = n.mtime;
      mode = n.mode;
      uid = n.uid;
      gid = n.gid;
      atime = n.mtime;
      ctime = now;
      xet_hash = n.xet_hash;
      last_revalidated = some instant;
      eviction = record no_eviction { last_touched = seq };
    }

-- What the parent of a new inode gets: the child, and a link for a subdirectory's `..`.
unfoldable pub adopt : ℕ → Text → InodeKind → InodeEntry → InodeEntry
adopt inode name kind p =
    let p' = add_child p inode name in
    if is_directory kind then record p' { nlink = add32 p'.nlink 1 } else p'

-- `now` and `instant` are `SystemTime::now()` and `Instant::now()`.
unfoldable pub insert :
    InodeTable → ℕ → Text → Text → NewEntry → SystemTime → Instant → InodeTable × ℕ
insert t parent name full_path n now instant = elim (HashMap.get t.path_to_inode full_path) [
  | some existing ↦
      (on_entry t existing (λ e. record e { last_revalidated = some instant }), existing)
  | none ↦
      let inode = t.next_inode in
      let entry = entry_of inode parent name full_path n t.touch_counter now instant in
      let added = record t {
        inodes = HashMap.insert t.inodes inode entry;
        path_to_inode = HashMap.insert t.path_to_inode full_path inode;
        next_inode = add64 inode 1;
        touch_counter = add64 t.touch_counter 1;
      } in
      (on_entry added parent (adopt inode name n.kind), inode)
]

unfoldable pub remove_path : InodeTable → Text → InodeTable
remove_path t path = record t { path_to_inode = HashMap.remove t.path_to_inode path }

unfoldable pub insert_path : InodeTable → Text → ℕ → InodeTable
insert_path t path inode = record t { path_to_inode = HashMap.insert t.path_to_inode path inode }

unfoldable pub bump_nlookup : InodeTable → ℕ → InodeTable
bump_nlookup t inode = on_entry t inode (λ e. record e { eviction = Entry.bump_nlookup e.eviction })

unfoldable pub drop_nlookup : InodeTable → ℕ → ℕ → InodeTable × Bool
drop_nlookup t inode n = (
  on_entry t inode (λ e. record e { eviction = (Entry.drop_nlookup e.eviction n).0 }),
  is_some_and (get t inode) (λ e. (Entry.drop_nlookup e.eviction n).1),
)

abbrev pub set_open_handles : (ℕ → ℕ) → InodeEntry → InodeEntry
set_open_handles f e = record e {
  eviction = record e.eviction { open_handles = f e.eviction.open_handles };
}

unfoldable pub bump_open_handles : InodeTable → ℕ → InodeTable
bump_open_handles t ino = on_entry t ino (set_open_handles (λ h. add32 h 1))

unfoldable pub drop_open_handles : InodeTable → ℕ → InodeTable
drop_open_handles t ino = on_entry t ino (set_open_handles (λ h. sub32 h 1))

unfoldable pub has_open_handles : InodeTable → ℕ → Bool
has_open_handles t ino = is_some_and (get t ino) (λ e. ltb 0 e.eviction.open_handles)

unfoldable pub touch : InodeTable → ℕ → InodeTable
touch t inode =
    let seq = t.touch_counter in
    let stamped =
      on_entry t inode (λ e. record e { eviction = record e.eviction { last_touched = seq } }) in
    if not t.touch_enabled
    then t
    else elim (get t inode) [ none ↦ t | some e ↦ record stamped { touch_counter = add64 seq 1 } ]

unfoldable pub mark_evict_pending : InodeTable → ℕ → InodeTable
mark_evict_pending t ino =
    on_entry t ino (λ e. record e { eviction = record e.eviction { evict_pending = true } })

-- `swap(false)`: the flag as it was, and cleared.
unfoldable pub take_evict_pending : InodeTable → ℕ → InodeTable × Bool
take_evict_pending t ino = (
  on_entry t ino (λ e. record e { eviction = record e.eviction { evict_pending = false } }),
  is_some_and (get t ino) (λ e. e.eviction.evict_pending),
)

unfoldable pub invalidate_children : InodeTable → ℕ → InodeTable
invalidate_children t ino = on_entry t ino (λ e. record e { children_loaded_at = none })

unfoldable pub is_children_loaded : InodeTable → ℕ → Bool
is_children_loaded t ino = is_some_and (get t ino) children_loaded

unfoldable pub touch_parent : InodeTable → ℕ → SystemTime → InodeTable
touch_parent t parent now = on_entry t parent (λ p. record p { mtime = now; ctime = now })
