-- ===== src/Poll/Apply/Kept.antt =====
-- What the operations of src/virtual_fs/inode.rs that apply remote changes keep of an entry.
use hf_mount.Base.{
  ℕ, ◌≡◌, refl, sym, ◌∙◌, ap, true, false, inl, inr, some, [], arith, eq_of_some, Text, ◌==◌,
  nat_eq, text_eq, nat_beq_iff, Bool-cases, Option-cases,
}
use mathlib.Core.Path.{subst}
use hf_mount.Base.HashMap
use hf_mount.Inode.Entry.{
  InodeEntry, InodeKind, SystemTime, is_file, is_directory, remove_child_by_ino,
  remove_child_by_name, find_ino, erase_ino,
}
use hf_mount.Inode.Table.{InodeTable, get, on_entry}
use hf_mount.Inode.Table.WellFormed.{get-on_entry}
use hf_mount.Inode.Tree.{unlinked, detached_child}
use hf_mount.Flush.Batch.Settled.{KeepsLocal, KeepsLocal-refl, KeepsLocal-trans}

-- A file has no children.
abbrev pub IsLeaf : InodeEntry → Type 0
IsLeaf e = is_file e.kind ≡ true → e.children ≡ []

-- What no remote change takes from an entry: its local content, and that a file stays one without
-- children.
pub record IsKept (e e' : InodeEntry) : Type 0 where
  pub local : KeepsLocal e e'
  pub kind : e'.kind ≡ e.kind
  pub leaf : e.children ≡ [] → e'.children ≡ []

pub IsKept-refl : (e : InodeEntry) → IsKept e e
IsKept-refl e = record { local = KeepsLocal-refl e; kind = refl; leaf = λ h. h }

pub IsKept-trans : (a b c : InodeEntry) → IsKept a b → IsKept b c → IsKept a c
IsKept-trans a b c p q = record {
  local = KeepsLocal-trans a b c p.local q.local;
  kind = q.kind ∙ p.kind;
  leaf = λ h. q.leaf (p.leaf h);
}

-- The table has an entry for the inode that keeps what `e` has.
abbrev pub StaysAt : InodeTable → ℕ → InodeEntry → Type 0
StaysAt t j e = (e' : InodeEntry) × (get t j ≡ some e') × IsKept e e'

-- A change of one entry that keeps its local content.
pub on_entry-StaysAt :
    (t : InodeTable) (i j : ℕ) (f : InodeEntry → InodeEntry) (e : InodeEntry)
    → ((x : InodeEntry) → IsKept x (f x))
    → StaysAt t j e
    → StaysAt (on_entry t i f) j e
on_entry-StaysAt t i j f e kept (x, there, before) = elim (Bool-cases (i == j)) [
  | inr other ↦ (x, get-on_entry t i f j ∙ rw other there, before)
  | inl same ↦
      let here : get t i ≡ some x =
        subst (λ k. get t k ≡ some x) (sym ((nat_beq_iff i j).0 same)) there in
      (f x, get-on_entry t i f j ∙ rw (same, here) refl, IsKept-trans e x (f x) before (kept x))
]

-- No file of the table has children.
abbrev pub AreLeaves : InodeTable → Type 0
AreLeaves t = (i : ℕ) (x : InodeEntry) → get t i ≡ some x → IsLeaf x

-- A change that keeps the kind, and gives no children to an entry without.
abbrev pub KeepsLeaf : (InodeEntry → InodeEntry) → Type 0
KeepsLeaf f = (x : InodeEntry) → ((f x).kind ≡ x.kind) × (x.children ≡ [] → (f x).children ≡ [])

pub after-IsLeaf :
    (f : InodeEntry → InodeEntry) (x : InodeEntry) → KeepsLeaf f → IsLeaf x → IsLeaf (f x)
after-IsLeaf f x kept leaf is_a_file = (kept x).1 (leaf (ap is_file (sym (kept x).0) ∙ is_a_file))

pub on_entry-AreLeaves :
    (t : InodeTable) (i : ℕ) (f : InodeEntry → InodeEntry)
    → KeepsLeaf f
    → AreLeaves t
    → AreLeaves (on_entry t i f)
on_entry-AreLeaves t i f kept leaves j y h = elim (Bool-cases (i == j)) [
  | inr other ↦ leaves j y (sym (get-on_entry t i f j ∙ rw other refl) ∙ h)
  | inl same ↦ elim (Option-cases (get t i)) [
    | inl absent ↦ absurd (ground (arith, get-on_entry t i f j))
    | inr (x, there) ↦
        let is_fx : f x ≡ y = eq_of_some (sym (get-on_entry t i f j ∙ rw (same, there) refl) ∙ h) in
        subst IsLeaf is_fx (after-IsLeaf f x kept (leaves i x there))
  ]
]

pub by_name-IsKept : (name : Text) (x : InodeEntry) → IsKept x (remove_child_by_name x name).0
unfolding remove_child_by_name erase_ino
by_name-IsKept name x = elim (Option-cases (HashMap.get x.child_index name)) [
  | inl absent ↦ rw (absent, remove_child_by_name) (IsKept-refl x)
  | inr (ino, there) ↦
      rw (there, remove_child_by_name)
        (record {
          local = record {
            generation = refl;
            hash = refl;
            size = refl;
            staging = refl;
            pending = refl;
          };
          kind = refl;
          leaf = λ h. rw h refl;
        })
]

pub by_ino-IsKept : (ino : ℕ) (x : InodeEntry) → IsKept x (remove_child_by_ino x ino).0
unfolding remove_child_by_ino erase_ino
by_ino-IsKept ino x = elim (Option-cases (find_ino x.children ino)) [
  | inl absent ↦ rw (absent, remove_child_by_ino) (IsKept-refl x)
  | inr (c, there) ↦
      rw (there, remove_child_by_ino)
        (record {
          local = record {
            generation = refl;
            hash = refl;
            size = refl;
            staging = refl;
            pending = refl;
          };
          kind = refl;
          leaf = λ h. rw h refl;
        })
]

pub detached-IsKept :
    (child : ℕ) (kind : InodeKind) (x : InodeEntry) → IsKept x (detached_child child kind false x)
unfolding detached_child
detached-IsKept child kind x = elim (Bool-cases (is_directory kind)) [
  | inr other ↦ rw other (by_ino-IsKept child x)
  | inl dir ↦
      let k = by_ino-IsKept child x in
      rw dir (record {
        local = record {
          generation = k.local.generation;
          hash = k.local.hash;
          size = k.local.size;
          staging = k.local.staging;
          pending = k.local.pending;
        };
        kind = k.kind;
        leaf = k.leaf;
      })
]

pub unlinked-IsKept : (now : SystemTime) (x : InodeEntry) → IsKept x (unlinked now x)
unfolding unlinked
unlinked-IsKept now x = record {
  local = record { generation = refl; hash = refl; size = refl; staging = refl; pending = refl };
  kind = refl;
  leaf = λ h. h;
}
