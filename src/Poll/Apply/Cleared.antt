-- ===== src/Poll/Apply/Cleared.antt =====
-- The negative cache after `apply_follow_changes` of src/virtual_fs/poll.rs.
use hf_mount.Base.{
  ℕ, zero, suc, ◌<◌, ◌≡◌, refl, ap, true, false, inl, inr, ◌⊎◌, none, List, [], ◌∷◌, arith, length,
  Text, text_eq, text_beq_iff, Bool-cases,
}
use hf_mount.Base.HashMap
use hf_mount.Base.HashMap.{get-remove}
use hf_mount.Inode.Entry.{SystemTime, is_empty}
use hf_mount.Inode.Table.{InodeTable}
use hf_mount.Inode.Tree.{has_slash, parent_path}
use hf_mount.Inode.Tree.Ancestor.{parent_path-shorter}
use hf_mount.Follow.Stream.{FollowChange}
use hf_mount.Poll.Apply.{NegativeCache, is_delete, clear_path, clear_negative, apply_follow_changes}

-- The path itself, and every directory above it but the root.
pub data Above : Text → Text → Type 0 where
  here : (path : Text) → Above path path
  up : {path a : Text} → has_slash path ≡ true → Above (parent_path path) a → Above path a

-- An addition or an update of the batch is at the path or below it.
abbrev pub Announces : List FollowChange → Text → Type 0
Announces [] a = ⊥
Announces (change ∷ changes) a =
    ((is_delete change.op ≡ false) × Above change.path a) ⊎ Announces changes a

removed_stays :
    (nc : NegativeCache) (path a : Text)
    → HashMap.get nc a ≡ none
    → HashMap.get (HashMap.remove nc path) a ≡ none
removed_stays nc path a h = ground (arith, get-remove nc path a)

clear_path_stays :
    (fuel : ℕ) (nc : NegativeCache) (path a : Text)
    → HashMap.get nc a ≡ none
    → HashMap.get (clear_path fuel nc path) a ≡ none
unfolding clear_path
clear_path_stays zero nc path a h = h
clear_path_stays (suc fuel) nc path a h =
    let left = removed_stays nc path a h in
    elim (Bool-cases (has_slash path)) [
      | inl deeper ↦
          rw deeper (clear_path_stays fuel (HashMap.remove nc path) (parent_path path) a left)
      | inr top ↦ rw top left
    ]

shorter_above :
    (path : Text) (fuel : ℕ)
    → has_slash path ≡ true
    → length path < suc fuel
    → length (parent_path path) < fuel
unfolding has_slash
shorter_above [] fuel slashed enough = absurd (ground arith)
shorter_above (c ∷ path) fuel slashed enough = elim (parent_path-shorter (c ∷ path)) [
  | inr less ↦ omega arith
  | inl nothing ↦ let e = ap (λ l. length {0} l) nothing in omega arith
]

clear_path_clears :
    (fuel : ℕ) (nc : NegativeCache) {path a : Text}
    → Above path a
    → length path < fuel
    → HashMap.get (clear_path fuel nc path) a ≡ none
unfolding clear_path
clear_path_clears zero nc above enough = absurd (omega arith)
clear_path_clears (suc fuel) nc (here path) enough =
    let gone : HashMap.get (HashMap.remove nc path) path ≡ none =
      ground (arith, get-remove nc path path, text_beq_iff path path) in
    elim (Bool-cases (has_slash path)) [
      | inl deeper ↦
          rw deeper (clear_path_stays fuel (HashMap.remove nc path) (parent_path path) path gone)
      | inr top ↦ rw top gone
    ]
clear_path_clears (suc fuel) nc (up {path} {a} slashed above) enough =
    rw slashed (
      clear_path_clears fuel (HashMap.remove nc path) above
        (shorter_above path fuel slashed enough))

clear_negative_stays :
    (nc : NegativeCache) (changes : List FollowChange) (a : Text)
    → HashMap.get nc a ≡ none
    → HashMap.get (clear_negative nc changes) a ≡ none
unfolding clear_negative
clear_negative_stays nc [] a h = h
clear_negative_stays nc (change ∷ changes) a h = elim (Bool-cases (is_delete change.op)) [
  | inl gone ↦ rw gone (clear_negative_stays nc changes a h)
  | inr announced ↦ elim (Bool-cases (is_empty nc)) [
    | inl nothing ↦ rw (announced, nothing) h
    | inr full ↦
        rw (announced, full)
          (clear_negative_stays (clear_path (suc (length change.path)) nc change.path) changes a
            (clear_path_stays (suc (length change.path)) nc change.path a h))
  ]
]

empty_none : (nc : NegativeCache) (a : Text) → is_empty nc ≡ true → HashMap.get nc a ≡ none
unfolding HashMap.get
empty_none [] a h = refl
empty_none (entry ∷ nc) a h = absurd (ground arith)

clear_negative-Announces :
    (nc : NegativeCache) (changes : List FollowChange) (a : Text)
    → Announces changes a
    → HashMap.get (clear_negative nc changes) a ≡ none
unfolding clear_negative
clear_negative-Announces nc [] a announced = absurd announced
clear_negative-Announces nc (change ∷ changes) a (inl (kind, above)) =
    elim (Bool-cases (is_empty nc)) [
      | inl nothing ↦ rw (kind, nothing) (empty_none nc a nothing)
      | inr full ↦
          rw (kind, full)
            (clear_negative_stays (clear_path (suc (length change.path)) nc change.path) changes a
              (clear_path_clears (suc (length change.path)) nc above (omega arith)))
    ]
clear_negative-Announces nc (change ∷ changes) a (inr later) =
    elim (Bool-cases (is_delete change.op)) [
      | inl gone ↦ rw gone (clear_negative-Announces nc changes a later)
      | inr announced ↦ elim (Bool-cases (is_empty nc)) [
        | inl nothing ↦ rw (announced, nothing) (empty_none nc a nothing)
        | inr full ↦
            rw (announced, full)
              (clear_negative-Announces (clear_path (suc (length change.path)) nc change.path)
                changes a later)
      ]
    ]

-- After a batch, no path that it adds or updates, and no directory above one, counts as missing: the
-- next lookup sees it.
pub apply_follow_changes-Announces :
    (mtime_from_str : Text → SystemTime) (now : SystemTime) (changes : List FollowChange)
    (t : InodeTable) (nc : NegativeCache) (a : Text)
    → Announces changes a
    → HashMap.get (apply_follow_changes mtime_from_str now changes t nc).1 a ≡ none
unfolding apply_follow_changes
apply_follow_changes-Announces mtime_from_str now changes t nc a announced =
    clear_negative-Announces nc changes a announced
