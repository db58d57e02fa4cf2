-- ===== src/Inode/Entry.antt =====
-- `InodeEntry`, `EvictionState` and their methods of src/virtual_fs/inode.rs. An atomic field is a
-- plain one: each method is one atomic step. Text that is shared by `Arc` is a value.
pub mod Commit
pub mod Children
use hf_mount.Base.{
  ◌≡◌, ◌↔◌, refl, arith, ℕ, ◌+◌, ◌-◌, ◌*◌, Bool, true, false, Option, none, some, List, [], ◌∷◌,
  ◌++◌, ltb, nat_beq, if◌then◌else◌, Text, ℤ, ◌==◌, nat_eq, text_eq, add64, saturating_add64,
}
use hf_mount.Base.HashMap
use hf_mount.Base.HashMap.{HashMap}

abbrev pub root_inode : ℕ
root_inode = 1

-- `SystemTime` in nanoseconds since the Unix epoch, and `Instant` on the monotonic clock.
abbrev pub SystemTime : Type 0
SystemTime = ℤ

abbrev pub Instant : Type 0
Instant = ℕ

-- `is_empty` of a string or a vector.
abbrev pub is_empty {ℓ} : {A : Type ℓ} → List A → Bool
is_empty [] = true
is_empty (a ∷ l) = false

abbrev pub slash : ℕ
slash = b'/'

unfoldable pub child_path : Text → Text → Text
child_path parent_path name = if is_empty parent_path then name else parent_path ++ slash ∷ name

pub data InodeKind : Type 0 where
  file directory symlink : InodeKind

abbrev pub is_file : InodeKind → Bool
is_file file = true
is_file _ = false

abbrev pub is_directory : InodeKind → Bool
is_directory directory = true
is_directory _ = false

pub record DirChild : Type 0 where
  pub ino : ℕ
  pub name : Text

pub record EvictionState : Type 0 where
  pub nlookup : ℕ
  pub last_touched : ℕ
  pub evict_pending : Bool
  pub open_handles : ℕ

abbrev pub no_eviction : EvictionState
no_eviction = record { nlookup = 0; last_touched = 0; evict_pending = false; open_handles = 0 }

unfoldable pub bump_nlookup : EvictionState → EvictionState
bump_nlookup e = record e { nlookup = add64 e.nlookup 1 }

-- `saturating_sub`; true if the count reached 0.
unfoldable pub drop_nlookup : EvictionState → ℕ → EvictionState × Bool
drop_nlookup e n = (record e { nlookup = e.nlookup - n }, nat_beq (e.nlookup - n) 0)

pub record InodeEntry : Type 0 where
  pub inode : ℕ
  pub parent : ℕ
  pub name : Text
  pub full_path : Text
  pub kind : InodeKind
  pub size : ℕ
  pub mtime : SystemTime
  pub mode : ℕ
  pub uid : ℕ
  pub gid : ℕ
  pub atime : SystemTime
  pub ctime : SystemTime
  pub nlink : ℕ
  pub symlink_target : Option Text
  pub xet_hash : Option Text
  pub staging_is_current : Bool
  pub etag : Option Text
  pub dirty_generation : ℕ
  pub children_loaded_at : Option Instant
  pub children_from_remote : Bool
  pub created_locally : Bool
  pub children : List DirChild
  pub child_index : HashMap Text ℕ
  pub pending_deletes : List Text
  pub last_revalidated : Option Instant
  pub eviction : EvictionState

abbrev pub is_dirty : InodeEntry → Bool
is_dirty e = ltb 0 e.dirty_generation

unfoldable pub add_child : InodeEntry → ℕ → Text → InodeEntry
add_child e ino name = record e {
  child_index = HashMap.insert e.child_index name ino;
  children = e.children ++ (record { ino = ino; name = name }) ∷ [];
}

-- `children.iter().position(|c| c.ino == ino)`, with the child there.
unfoldable pub find_ino : List DirChild → ℕ → Option DirChild
find_ino [] ino = none
find_ino (c ∷ cs) ino = if c.ino == ino then some c else find_ino cs ino

-- `children.remove(pos)` at that position.
unfoldable pub erase_ino : List DirChild → ℕ → List DirChild
erase_ino [] ino = []
erase_ino (c ∷ cs) ino = if c.ino == ino then cs else c ∷ erase_ino cs ino

unfoldable pub remove_child_by_ino : InodeEntry → ℕ → InodeEntry × Option Text
remove_child_by_ino e ino = elim (find_ino e.children ino) [
  | none ↦ (e, none)
  | some removed ↦ (
    record e {
      children = erase_ino e.children ino;
      child_index = HashMap.remove e.child_index removed.name;
    },
    some removed.name,
  )
]

unfoldable pub remove_child_by_name : InodeEntry → Text → InodeEntry × Option ℕ
remove_child_by_name e name = elim (HashMap.get e.child_index name) [
  | none ↦ (e, none)
  | some ino ↦ (
    record e {
      children = erase_ino e.children ino;
      child_index = HashMap.remove e.child_index name;
    },
    some ino,
  )
]

unfoldable pub children_loaded : InodeEntry → Bool
children_loaded e = elim e.children_loaded_at [ none ↦ false | some at ↦ true ]

unfoldable pub set_dirty : InodeEntry → InodeEntry
set_dirty e = record e { dirty_generation = saturating_add64 e.dirty_generation 1 }

unfoldable pub clear_dirty_if : InodeEntry → ℕ → InodeEntry × Bool
clear_dirty_if e snapshot_generation =
    if nat_beq e.dirty_generation snapshot_generation
    then (record e { dirty_generation = 0 }, true)
    else (e, false)

-- `now` and `instant` are `SystemTime::now()` and `Instant::now()`.
unfoldable pub apply_commit : InodeEntry → Text → ℕ → ℕ → SystemTime → Instant → InodeEntry
unfolding clear_dirty_if
apply_commit e hash size dirty_generation now instant =
    let (cleared, done) = clear_dirty_if e dirty_generation in
    let committed = record cleared {
      size = size;
      xet_hash = some hash;
      staging_is_current = true;
      pending_deletes = [];
    } in
    let e' = if done then committed else cleared in
    record e' { mtime = now; ctime = now; last_revalidated = some instant }

pub is_empty_iff {ℓ} : {A : Type ℓ} (l : List A) → (is_empty l ≡ true) ↔ (l ≡ [])
is_empty_iff [] = (λ h. refl, λ h. refl)
is_empty_iff (a ∷ l) = (λ h. absurd (ground arith), λ h. cc)
