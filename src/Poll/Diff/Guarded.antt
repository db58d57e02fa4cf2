-- ===== src/Poll/Diff/Guarded.antt =====
-- `apply_poll_diff` of src/virtual_fs/poll.rs never takes a local write.
use hf_mount.Base.{
  ℕ, ◌≡◌, refl, sym, ◌∙◌, Bool, true, false, inl, inr, Option, some, List, [], ◌∷◌, arith, Text,
  ◌==◌, ◌||◌, nat_eq, text_eq, nat_beq_iff, Bool-cases, Option-cases, if_keeps,
}
use hf_mount.Inode.Entry.{InodeEntry, SystemTime, is_dirty}
use hf_mount.Inode.Table.{InodeTable, get}
use hf_mount.Inode.Table.WellFormed.{IsWellFormed}
use hf_mount.Poll.Apply.{Inval, NegativeCache, queue_file_invalidation, remove_remote_file}
use hf_mount.Poll.Apply.Kept.{AreLeaves}
use hf_mount.Poll.Apply.Guarded.{IsGuarded, remove_remote_file-IsGuarded}
use hf_mount.Poll.Apply.Loop.{update_remote_file-IsGuarded, invalidate_all-IsGuarded, get-IsGuarded}
use hf_mount.Base.HashMap
use hf_mount.Inode.Tree.{parent_path}
use hf_mount.Inode.Batch.{contains}
use hf_mount.Inode.Remote.{update_remote_file, file_snapshot}
use hf_mount.Base.HashMap.{HashMap}
use hf_mount.Poll.Diff.Bare.{IsBare, update_remote_file-IsBare, remove_remote_file-IsBare}
use hf_mount.Poll.Diff.{
  diff, compare_one, compare_remote, is_changed, put_change, has_text, remote_map, unchanged,
  update, deletion, Change, TreeEntry, Update, apply_updates, apply_deletions, missing_dirs,
  apply_diff, apply_poll_diff,
}

apply_updates_kept :
    (updates : List Update) (t : InodeTable) (invals : List Inval) (j : ℕ) (e : InodeEntry)
    → is_dirty e ≡ true
    → IsGuarded t j e
    → IsGuarded (apply_updates updates (t, invals)).0 j e
      × ((i : ℕ) → IsBare t i → IsBare (apply_updates updates (t, invals)).0 i)
unfolding apply_updates
apply_updates_kept [] t invals j e dirty g = (g, λ i bare. bare)
apply_updates_kept (x ∷ updates) t invals j e dirty g =
    let t' = (update_remote_file t x.ino x.hash x.etag x.size x.mtime).0 in
    let (kept, bare) =
      apply_updates_kept updates t' (queue_file_invalidation t' x.ino invals) j e dirty
        (update_remote_file-IsGuarded t x.ino x.hash x.etag x.size x.mtime j e dirty g) in
    (
      kept,
      λ i before. bare i (update_remote_file-IsBare t x.ino x.hash x.etag x.size x.mtime i before),
    )

apply_deletions-IsGuarded :
    (now : SystemTime) (inos : List ℕ) (t : InodeTable) (invals : List Inval) (j : ℕ)
    (e : InodeEntry)
    → is_dirty e ≡ true
    → ((i : ℕ) → contains inos i ≡ true → IsBare t i)
    → IsGuarded t j e
    → IsGuarded (apply_deletions now inos (t, invals)).0 j e
unfolding apply_deletions contains
apply_deletions-IsGuarded now [] t invals j e dirty bare g = g
apply_deletions-IsGuarded now (ino ∷ inos) t invals j e dirty bare g =
    let leaf = bare ino (ground (arith, nat_beq_iff ino ino)) in
    let r = remove_remote_file t now ino invals in
    apply_deletions-IsGuarded now inos r.0 r.1 j e dirty
      (λ i later. remove_remote_file-IsBare t now ino invals i leaf (bare i (ground arith)))
      (remove_remote_file-IsGuarded t now ino invals j e dirty leaf g)

-- The inode stands in the snapshot.
abbrev pub is_listed : List (ℕ × Text × Option Text × Option Text × ℕ × Bool) → ℕ → Bool
is_listed [] i = false
is_listed (row ∷ rows) i = row.0 == i || is_listed rows i

-- A comparison that deletes an inode deletes the one of its row.
unfoldable IsOf : ℕ → Change → Type 0
IsOf ino unchanged = Unit
IsOf ino (update u) = Unit
IsOf ino (deletion d) = d ≡ ino

compare_remote-IsOf :
    (mtime_from_str : Text → SystemTime) (now : SystemTime) (ino : ℕ) (hash etag : Option Text)
    (size : ℕ) (r : TreeEntry)
    → IsOf ino (compare_remote mtime_from_str now ino hash etag size r)
unfolding compare_remote IsOf
compare_remote-IsOf mtime_from_str now ino hash etag size r =
    elim (Bool-cases (is_changed hash etag size r)) [
      | inl changed ↦ rw changed tt
      | inr same ↦ rw same tt
    ]

compare_one-IsOf :
    (mtime_from_str : Text → SystemTime) (now : SystemTime) (remote : HashMap Text TreeEntry)
    (polled : List Text) (row : ℕ × Text × Option Text × Option Text × ℕ × Bool)
    → IsOf row.0 (compare_one mtime_from_str now remote polled row)
unfolding compare_one IsOf
compare_one-IsOf mtime_from_str now remote polled (ino, path, hash, etag, size, dirty) =
    elim (Bool-cases dirty) [
      | inl skipped ↦ rw skipped tt
      | inr clean ↦ elim (Option-cases (HashMap.get remote path)) [
        | inr (r, there) ↦
            rw clean (
              rw (there, compare_one) (compare_remote-IsOf mtime_from_str now ino hash etag size r))
        | inl gone ↦ rw clean (
            rw (gone, compare_one)
              (if_keeps (IsOf ino) (has_text polled (parent_path path)) refl tt))
      ]
    ]

put_change_listed :
    (ino : ℕ) (c : Change) (r : List Update × List ℕ) (i : ℕ)
    → IsOf ino c
    → contains (put_change c r).1 i ≡ true
    → (ino == i || contains r.1 i) ≡ true
unfolding contains IsOf
put_change_listed ino unchanged r i same h = ground arith
put_change_listed ino (update u) r i same h = ground arith
put_change_listed ino (deletion d) r i same h = ground arith

-- Only inodes of the snapshot are deleted.
deletions_listed :
    (mtime_from_str : Text → SystemTime) (now : SystemTime) (remote : HashMap Text TreeEntry)
    (polled : List Text) (rows : List (ℕ × Text × Option Text × Option Text × ℕ × Bool)) (i : ℕ)
    → contains (diff mtime_from_str now remote polled rows).1 i ≡ true
    → is_listed rows i ≡ true
unfolding diff
deletions_listed mtime_from_str now remote polled [] i h = absurd (unfold contains in ground arith)
deletions_listed mtime_from_str now remote polled (row ∷ rows) i h =
    let c = compare_one mtime_from_str now remote polled row in
    let rest = diff mtime_from_str now remote polled rows in
    let either =
      put_change_listed row.0 c rest i (compare_one-IsOf mtime_from_str now remote polled row) h in
    elim (Bool-cases (row.0 == i)) [
      | inl here ↦ rw here refl
      | inr other ↦
          rw other (
            deletions_listed mtime_from_str now remote polled rows i (sym (rw other refl) ∙ either))
    ]

-- Whatever a listing of the remote says, a file that has local changes when the diff is applied keeps
-- its dirty generation, hash, size, staging flag and pending deletes, in a table that stays
-- well-formed with its files without children, if it was so before and what is left under the inodes
-- that the snapshot took for files has no children. The table may have changed since the snapshot.
pub apply_poll_diff-IsGuarded :
    (mtime_from_str : Text → SystemTime) (now : SystemTime) (entries : List TreeEntry)
    (polled : List Text) (t u : InodeTable) (nc : NegativeCache) (j : ℕ) (e : InodeEntry)
    → IsWellFormed u
    → AreLeaves u
    → ((i : ℕ) → is_listed (file_snapshot t) i ≡ true → IsBare u i)
    → get u j ≡ some e
    → is_dirty e ≡ true
    → IsGuarded (apply_poll_diff mtime_from_str now entries polled t u nc).0 j e
unfolding apply_poll_diff apply_diff
apply_poll_diff-IsGuarded mtime_from_str now entries polled t u nc j e v leaves files there dirty =
    let (updates, deletions) =
      diff mtime_from_str now (remote_map entries []) polled (file_snapshot t) in
    let (kept, bare) =
      apply_updates_kept updates u [] j e dirty (get-IsGuarded u j e v leaves there) in
    let r = apply_updates updates (u, []) in
    let s = apply_deletions now deletions r in
    invalidate_all-IsGuarded s.0 (missing_dirs s.0 entries ([], [])).0 j e (
      apply_deletions-IsGuarded now deletions r.0 r.1 j e dirty
        (λ i deleted. bare i (
          files i (
            deletions_listed mtime_from_str now (remote_map entries []) polled (file_snapshot t) i
              deleted)))
        kept)
