-- ===== src/Inode/Remote.antt =====
-- Remote changes in src/virtual_fs/inode.rs: `update_remote_file`, `merge_remote_file` and the
-- snapshots that the poll loop takes.
pub mod Local
use hf_mount.Base.{
  ℕ, Bool, true, false, not, ◌&&◌, Option, none, some, List, [], ◌∷◌, map, ltb, if◌then◌else◌, Text,
  nat_eq,
}
use hf_mount.Base.HashMap
use hf_mount.Inode.Entry.{InodeEntry, SystemTime, is_file, is_directory, is_dirty, children_loaded}
use hf_mount.Inode.Table.{InodeTable, get, on_entry}

-- The fields that `update_remote_file` sets.
unfoldable pub updated : Option Text → Option Text → ℕ → SystemTime → InodeEntry → InodeEntry
updated new_hash new_etag new_size new_mtime e = record e {
  xet_hash = new_hash;
  etag = new_etag;
  size = new_size;
  mtime = new_mtime;
  staging_is_current = false;
}

-- `None` keeps the value.
abbrev pub or {ℓ} : {A : Type ℓ} → Option A → A → A
or none a = a
or (some b) _ = b

abbrev pub or_some {ℓ} : {A : Type ℓ} → Option A → Option A → Option A
or_some none a = a
or_some (some b) _ = some b

-- The fields that `merge_remote_file` sets.
unfoldable pub merged : Option Text → Option ℕ → Option SystemTime → InodeEntry → InodeEntry
merged hash size mtime e = record e {
  xet_hash = or_some hash e.xet_hash;
  size = or size e.size;
  mtime = or mtime e.mtime;
  staging_is_current = false;
}

unfoldable pub update_remote_file :
    InodeTable → ℕ → Option Text → Option Text → ℕ → SystemTime → InodeTable × Bool
update_remote_file t ino new_hash new_etag new_size new_mtime = elim (get t ino) [
  | none ↦ (t, false)
  | some e ↦
      if is_dirty e
      then (t, false)
      else (on_entry t ino (updated new_hash new_etag new_size new_mtime), true)
]

unfoldable pub merge_remote_file :
    InodeTable → ℕ → Option Text → Option ℕ → Option SystemTime → InodeTable × Bool
merge_remote_file t ino hash size mtime = elim (get t ino) [
  | none ↦ (t, false)
  | some e ↦ if is_dirty e then (t, false) else (on_entry t ino (merged hash size mtime), true)
]

unfoldable pub filter : (InodeEntry → Bool) → List InodeEntry → List InodeEntry
filter test [] = []
filter test (e ∷ l) = let rest = filter test l in if test e then e ∷ rest else rest

abbrev pub is_flushable : InodeEntry → Bool
is_flushable e = is_file e.kind && (is_dirty e && ltb 0 e.nlink)

unfoldable pub dirty_inos : InodeTable → List ℕ
dirty_inos t = map (λ e. e.inode) (filter is_flushable (HashMap.values t.inodes))

unfoldable pub file_snapshot : InodeTable → List (ℕ × Text × Option Text × Option Text × ℕ × Bool)
file_snapshot t =
    map (λ e. (e.inode, e.full_path, e.xet_hash, e.etag, e.size, is_dirty e))
      (filter (λ e. is_file e.kind) (HashMap.values t.inodes))

unfoldable pub loaded_dir_prefixes : InodeTable → List Text
loaded_dir_prefixes t =
    map (λ e. e.full_path)
      (filter (λ e. is_directory e.kind && children_loaded e) (HashMap.values t.inodes))
