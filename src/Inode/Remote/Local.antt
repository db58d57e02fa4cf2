-- ===== src/Inode/Remote/Local.antt =====
-- What a remote change may do to the table: local writes win, and nothing else moves.
use hf_mount.Base.{
  ℕ, ◌≡◌, refl, sym, ◌∙◌, ap, Bool, true, false, not, ◌&&◌, inl, inr, Option, none, some, Text,
  if◌then◌else◌, ◌==◌, nat_eq, Bool-cases, Option-cases,
}
use hf_mount.Inode.Entry.{InodeEntry, SystemTime, is_dirty}
use hf_mount.Inode.Table.{InodeTable, get, on_entry}
use hf_mount.Inode.Table.WellFormed.{IsWellFormed, get-on_entry, on_entry-IsWellFormed}
use hf_mount.Inode.Remote.{updated, merged, update_remote_file, merge_remote_file}

-- A change of an entry that has no local changes.
unfoldable pub on_clean : InodeTable → ℕ → (InodeEntry → InodeEntry) → InodeTable × Bool
on_clean t ino f = elim (get t ino) [
  | none ↦ (t, false)
  | some e ↦ if is_dirty e then (t, false) else (on_entry t ino f, true)
]

applied :
    (t : InodeTable) (ino : ℕ) (f : InodeEntry → InodeEntry) (e : InodeEntry)
    → get t ino ≡ some e
    → is_dirty e ≡ false
    → on_clean t ino f ≡ (on_entry t ino f, true)
unfolding on_clean
applied t ino f e there clean = rw (there, on_clean) (rw clean)

skipped :
    (t : InodeTable) (ino : ℕ) (f : InodeEntry → InodeEntry) (e : InodeEntry)
    → get t ino ≡ some e
    → is_dirty e ≡ true
    → on_clean t ino f ≡ (t, false)
unfolding on_clean
skipped t ino f e there dirty = rw (there, on_clean) (rw dirty)

missing :
    (t : InodeTable) (ino : ℕ) (f : InodeEntry → InodeEntry)
    → get t ino ≡ none
    → on_clean t ino f ≡ (t, false)
unfolding on_clean
missing t ino f absent = rw (absent, on_clean)

-- A remote change of one inode, in full.
on_clean_lem :
    (t : InodeTable) (ino : ℕ) (f : InodeEntry → InodeEntry) (e : InodeEntry) (j : ℕ)
    → get t ino ≡ some e
    → ((on_clean t ino f).1 ≡ not (is_dirty e))
      × (get (on_clean t ino f).0 j
          ≡ (if not (is_dirty e) && ino == j then some (f e) else get t j))
on_clean_lem t ino f e j there = elim (Bool-cases (is_dirty e)) [
  | inl dirty ↦
      let run = skipped t ino f e there dirty in
      (
        ap (λ (r : InodeTable × Bool). r.1) run ∙ ap not (sym dirty),
        ap (λ (r : InodeTable × Bool). get r.0 j) run ∙ rw dirty refl,
      )
  | inr clean ↦
      let run = applied t ino f e there clean in
      (
        ap (λ (r : InodeTable × Bool). r.1) run ∙ ap not (sym clean),
        ap (λ (r : InodeTable × Bool). get r.0 j) run
            ∙ get-on_entry t ino f j
            ∙ rw clean (elim (Bool-cases (ino == j)) [
              | inr other ↦ rw other refl
              | inl same ↦ rw (same, there) refl
            ]),
      )
]

-- A listing's update of a file that is there, in full: it is refused exactly when the file has
-- local changes, and then no entry changes. Otherwise the file has the new hash, etag, size and
-- time, its staging copy no longer counts as current, and no other entry changes.
pub update_remote_file_lem :
    (t : InodeTable) (ino : ℕ) (hash etag : Option Text) (size : ℕ) (mtime : SystemTime)
    (e : InodeEntry) (j : ℕ)
    → get t ino ≡ some e
    → ((update_remote_file t ino hash etag size mtime).1 ≡ not (is_dirty e))
      × (get (update_remote_file t ino hash etag size mtime).0 j ≡ (
          if not (is_dirty e) && ino == j
          then some (record e {
            xet_hash = hash;
            etag = etag;
            size = size;
            mtime = mtime;
            staging_is_current = false;
          })
          else get t j))
unfolding update_remote_file updated on_clean
update_remote_file_lem t ino hash etag size mtime e j there =
    on_clean_lem t ino (updated hash etag size mtime) e j there

on_clean-IsWellFormed :
    (t : InodeTable) (ino : ℕ) (f : InodeEntry → InodeEntry)
    → ((e : InodeEntry) → ((f e).inode ≡ e.inode) × ((f e).full_path ≡ e.full_path))
    → IsWellFormed t
    → IsWellFormed (on_clean t ino f).0
on_clean-IsWellFormed t ino f same v = elim (Option-cases (get t ino)) [
  | inl absent ↦ rw (missing t ino f absent) v
  | inr (e, there) ↦ elim (Bool-cases (is_dirty e)) [
    | inl dirty ↦ rw (skipped t ino f e there dirty) v
    | inr clean ↦ rw (applied t ino f e there clean) (on_entry-IsWellFormed t ino f same v)
  ]
]

-- Both remote changes keep the invariant of the table, whatever they carry.
pub remote-IsWellFormed :
    (t : InodeTable) (ino : ℕ) (hash etag : Option Text) (size : ℕ) (mtime : SystemTime)
    (new_size : Option ℕ) (new_mtime : Option SystemTime)
    → IsWellFormed t
    → IsWellFormed (update_remote_file t ino hash etag size mtime).0
      × IsWellFormed (merge_remote_file t ino hash new_size new_mtime).0
unfolding update_remote_file merge_remote_file updated merged on_clean
remote-IsWellFormed t ino hash etag size mtime new_size new_mtime v = (
  on_clean-IsWellFormed t ino _ (λ e. (refl, refl)) v,
  on_clean-IsWellFormed t ino _ (λ e. (refl, refl)) v,
)

-- A merge that carries every field into a file that is there is the update that keeps the etag:
-- the two report the same and leave the same entry at every inode.
pub merge-update :
    (t : InodeTable) (ino : ℕ) (hash : Text) (size : ℕ) (mtime : SystemTime) (e : InodeEntry)
    (j : ℕ)
    → get t ino ≡ some e
    → ((merge_remote_file t ino (some hash) (some size) (some mtime)).1
        ≡ (update_remote_file t ino (some hash) e.etag size mtime).1)
      × (get (merge_remote_file t ino (some hash) (some size) (some mtime)).0 j
          ≡ get (update_remote_file t ino (some hash) e.etag size mtime).0 j)
unfolding update_remote_file merge_remote_file updated merged on_clean
merge-update t ino hash size mtime e j there =
    let (flag, entry) =
      on_clean_lem t ino (merged (some hash) (some size) (some mtime)) e j there in
    let (flag', entry') = on_clean_lem t ino (updated (some hash) e.etag size mtime) e j there in
    (flag ∙ sym flag', entry ∙ sym entry')
