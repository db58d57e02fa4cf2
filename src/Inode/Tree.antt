-- ===== src/Inode/Tree.antt =====
-- The directory tree of src/virtual_fs/inode.rs: `unlink_one`, `move_child`, `detach_from_parent`,
-- `remove`, `update_subtree_paths` and `nearest_dir_ancestor`.
pub mod Ancestor
pub mod Sweep
pub mod Cleared
pub mod Detached
pub mod Remove
pub mod Subtree
pub mod Kept
use hf_mount.Base.{
  ℕ, zero, suc, ◌-◌, Bool, true, false, not, ◌&&◌, Option, none, some, List, [], ◌∷◌, ◌++◌, map,
  length, ◌+◌, ◌||◌, ltb, nat_beq, if◌then◌else◌, Text, ◌==◌, nat_eq, text_eq, add32,
}
use hf_mount.Base.HashMap
use hf_mount.Inode.Entry.{
  InodeEntry, InodeKind, SystemTime, DirChild, root_inode, slash, is_empty, is_file, is_directory,
  is_dirty, child_path, add_child, remove_child_by_ino, remove_child_by_name,
}
use hf_mount.Inode.Table.{InodeTable, get, on_entry, is_some_and, get_dir_ino}

-- What the child of an unlinked name gets; `now` is `SystemTime::now()`.
unfoldable pub unlinked : SystemTime → InodeEntry → InodeEntry
unlinked now e = record e { nlink = e.nlink - 1; ctime = now }

-- The tail of `unlink_one`, from the child that the name leads to.
unfoldable pub unlink_child :
    InodeTable → ℕ → Text → SystemTime → ℕ → Text → InodeTable × Option (Bool × InodeEntry)
unlink_child t parent name now child full_path =
    let named = on_entry t parent (λ p. (remove_child_by_name p name).0) in
    let unmapped = record named { path_to_inode = HashMap.remove named.path_to_inode full_path } in
    elim (get unmapped child) [
      | none ↦ (unmapped, none)
      | some e ↦ (
        on_entry unmapped child (unlinked now),
        some (nat_beq (unlinked now e).nlink 0, unlinked now e),
      )
    ]

unfoldable pub unlink_one :
    InodeTable → ℕ → Text → SystemTime → InodeTable × Option (Bool × InodeEntry)
unlink_one t parent name now = elim (get t parent) [
  | none ↦ (t, none)
  | some p ↦ elim (HashMap.get p.child_index name) [
    | none ↦ (t, none)
    | some child ↦ unlink_child t parent name now child (child_path p.full_path name)
  ]
]

abbrev pub add_link : InodeEntry → InodeEntry
add_link p = record p { nlink = add32 p.nlink 1 }

abbrev pub drop_link : InodeEntry → InodeEntry
drop_link p = record p { nlink = p.nlink - 1 }

unfoldable pub move_child : InodeTable → ℕ → ℕ → Text → ℕ → Text → InodeTable
move_child t ino old_parent old_name new_parent new_name =
    let is_dir = is_some_and (get t ino) (λ e. is_directory e.kind) in
    let detached = on_entry t old_parent (λ p. (remove_child_by_name p old_name).0) in
    let attached = on_entry detached new_parent (λ p. add_child p ino new_name) in
    let linked =
      if is_dir && not (old_parent == new_parent)
      then on_entry (on_entry attached old_parent drop_link) new_parent add_link
      else attached in
    on_entry linked ino (λ e. record e { parent = new_parent; name = new_name })

-- What a parent gets that loses a child of the kind.
unfoldable pub detached_child : ℕ → InodeKind → Bool → InodeEntry → InodeEntry
detached_child child kind invalidate p =
    let p1 = (remove_child_by_ino p child).0 in
    let p2 = if invalidate then record p1 { children_loaded_at = none } else p1 in
    if is_directory kind then drop_link p2 else p2

unfoldable pub detach_from_parent : InodeTable → ℕ → ℕ → InodeKind → Bool → InodeTable
detach_from_parent t parent child kind invalidate =
    on_entry t parent (detached_child child kind invalidate)

abbrev pub child_inos : InodeEntry → List ℕ
child_inos e = map (λ c. c.ino) e.children

-- `inodes.remove(&ino)` and the removal of the path of what was there.
unfoldable pub removed : InodeTable → ℕ → InodeEntry → InodeTable
removed t ino e = record t {
  inodes = HashMap.remove t.inodes ino;
  path_to_inode = HashMap.remove t.path_to_inode e.full_path;
}

-- `stack.extend(…)`: the top of the stack is the head of the list, so the last child comes first.
unfoldable pub extend : List ℕ → List ℕ → List ℕ
extend stack [] = stack
extend stack (ino ∷ inos) = extend (ino ∷ stack) inos

-- The sweep of `remove`, on fuel.
unfoldable pub sweep : ℕ → InodeTable → List ℕ → InodeTable
sweep zero t stack = t
sweep (suc fuel) t [] = t
sweep (suc fuel) t (ino ∷ stack) = elim (get t ino) [
  | none ↦ sweep fuel t stack
  | some e ↦ sweep fuel (removed t ino e) (extend stack (child_inos e))
]

-- The children that the entries of a table list, counted.
unfoldable pub listed : List (ℕ × InodeEntry) → ℕ
listed [] = 0
listed ((ino, e) ∷ m) = length e.children + listed m

unfoldable pub remove : InodeTable → ℕ → InodeTable × Option InodeEntry
remove t ino = elim (get t ino) [
  | none ↦ (t, none)
  | some e ↦
      let detached = detach_from_parent (removed t ino e) e.parent ino e.kind false in
      (sweep (listed t.inodes) detached (extend [] (child_inos e)), some e)
]

-- `rsplit_once('/')`, with `""` where there is no slash: the text before the last slash.
unfoldable pub has_slash : Text → Bool
has_slash [] = false
has_slash (c ∷ path) = nat_beq c slash || has_slash path

unfoldable pub parent_path : Text → Text
parent_path [] = []
parent_path (c ∷ path) = let rest = parent_path path in if has_slash path then c ∷ rest else []

unfoldable pub climb : ℕ → InodeTable → Text → ℕ × Text
climb zero t path = (root_inode, [])
climb (suc fuel) t path = elim (get_dir_ino t (parent_path path)) [
  | some ino ↦ (ino, parent_path path)
  | none ↦ if is_empty (parent_path path) then (root_inode, []) else climb fuel t (parent_path path)
]

unfoldable pub nearest_dir_ancestor : InodeTable → Text → ℕ × Text
nearest_dir_ancestor t path = climb (suc (length path)) t path
