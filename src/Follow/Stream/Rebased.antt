-- ===== src/Follow/Stream/Rebased.antt =====
-- `rebase` of src/follow.rs takes the prefix of a mount off the changes below it.
use hf_mount.Base.{
  ◌-◌, ◌≡◌, refl, ◌∙◌, ap, false, some, List, [], ◌∷◌, ◌++◌, arith, length, drop, length-append,
  nat_beq_iff, Text, text_eq, map,
}
use hf_mount.Inode.Entry.{is_empty}
use hf_mount.Follow.Stream.{
  FollowChange, strip_prefix, strict_descendant_rel, rebase_change, retain_mut, rebase,
}

-- The path below a directory.
abbrev pub below : Text → Text → Text
below prefix rel = prefix ++ 47 ∷ rel

-- The change as the Hub sends it, from the change as the mount sees it.
abbrev pub put_below : Text → FollowChange → FollowChange
put_below prefix change = record change { path = below prefix change.path }

strip_prefix-append : (prefix rest : Text) → strip_prefix (prefix ++ rest) prefix ≡ some rest
unfolding strip_prefix
strip_prefix-append [] rest = refl
strip_prefix-append (p ∷ prefix) rest =
    rw ((nat_beq_iff p p).1 refl) (strip_prefix-append prefix rest)

strict_of_prefix :
    (path prefix rel : Text)
    → strip_prefix path prefix ≡ some (47 ∷ rel)
    → is_empty rel ≡ false
    → strict_descendant_rel path prefix ≡ some rel
unfolding strict_descendant_rel strip_prefix
strict_of_prefix path prefix rel found full =
    rw (found, strict_descendant_rel) (rw (full, strict_descendant_rel) refl)

strict_descendant_rel-below :
    (prefix rel : Text)
    → is_empty rel ≡ false
    → strict_descendant_rel (below prefix rel) prefix ≡ some rel
strict_descendant_rel-below prefix rel full =
    strict_of_prefix (below prefix rel) prefix rel (strip_prefix-append prefix (47 ∷ rel)) full

length-below :
    (prefix rel : Text) → length (below prefix rel) - length rel ≡ length (prefix ++ 47 ∷ [])
length-below prefix rel =
    omega (arith, length-append {0} prefix (47 ∷ rel), length-append {0} prefix (47 ∷ []))

drop_below : (prefix rel : Text) → drop (length (prefix ++ 47 ∷ [])) (below prefix rel) ≡ rel
drop_below [] rel = refl
drop_below (p ∷ prefix) rel = drop_below prefix rel

rebase_change-found :
    (prefix : Text) (change : FollowChange) (rel : Text)
    → strict_descendant_rel change.path prefix ≡ some rel
    → rebase_change prefix change
      ≡ some (record change { path = drop (length change.path - length rel) change.path })
unfolding rebase_change
rebase_change-found prefix change rel found = rw (found, rebase_change) refl

rebase_change-put_below :
    (prefix : Text) (change : FollowChange)
    → is_empty change.path ≡ false
    → rebase_change prefix (put_below prefix change) ≡ some change
rebase_change-put_below prefix change full =
    rebase_change-found prefix (put_below prefix change) change.path
      (strict_descendant_rel-below prefix change.path full)
    ∙ ap (λ r. some (record change { path = r }))
        (ap (λ n. drop n (below prefix change.path)) (length-below prefix change.path)
          ∙ drop_below prefix change.path)

-- Every change has a path.
abbrev pub AreNamed : List FollowChange → Type 0
AreNamed [] = Unit
AreNamed (change ∷ batch) = (is_empty change.path ≡ false) × AreNamed batch

-- Rebasing takes off again what a mount's prefix adds: a batch of changes with paths, put below a
-- prefix, comes back whole and in order.
pub rebase-put_below :
    (prefix : Text) (batch : List FollowChange)
    → is_empty prefix ≡ false
    → AreNamed batch
    → rebase prefix (map (put_below prefix) batch) ≡ batch
unfolding rebase
rebase-put_below prefix batch full named = rw full (go batch named)
  where
    go :
        (l : List FollowChange)
        → AreNamed l
        → retain_mut (rebase_change prefix) (map (put_below prefix) l) ≡ l
    go [] named = refl
    go (change ∷ l) named =
        rw (rebase_change-put_below prefix change named.0) (ap (◌∷◌ change) (go l named.1))
