-- ===== src/FileCache/Listed.antt =====
-- The candidates of `evict_locked` in src/file_cache.rs list every item once, in any order.
use hf_mount.Base.{
  ℕ, ◌+◌, ◌≡◌, refl, sym, ◌∙◌, ap, false, inl, inr, none, some, List, [], ◌∷◌, arith, leb, Text,
  text_eq, ◌==◌, text_beq_iff, Bool-cases,
}
use hf_mount.Base.HashMap
use hf_mount.Base.HashMap.{HashMap, get-remove}
use hf_mount.FileCache.{CacheItem, Candidate, candidates, sorted_in, sort_by_access}

-- No key stands twice.
abbrev pub IsUnique : HashMap Text CacheItem → Type 0
IsUnique [] = Unit
IsUnique ((hash, item) ∷ m) = (HashMap.get m hash ≡ none) × IsUnique m

-- The bytes of all items.
unfoldable pub weight : HashMap Text CacheItem → ℕ
weight [] = 0
weight ((hash, item) ∷ m) = item.size + weight m

-- The list takes the map apart, item by item, with the right sizes.
abbrev pub IsListed : HashMap Text CacheItem → List Candidate → Type 0
IsListed m [] = m ≡ []
IsListed m (c ∷ entries) =
    ((item : CacheItem) × (HashMap.get m c.hash ≡ some item) × (item.size ≡ c.size))
    × IsListed (HashMap.remove m c.hash) entries

pub remove_absent :
    (m : HashMap Text CacheItem) (hash : Text)
    → HashMap.get m hash ≡ none
    → HashMap.remove m hash ≡ m
unfolding HashMap.get HashMap.remove
remove_absent [] hash h = refl
remove_absent ((k, v) ∷ m) hash h = ground (arith, remove_absent m hash)

pub remove-IsUnique :
    (m : HashMap Text CacheItem) (hash : Text) → IsUnique m → IsUnique (HashMap.remove m hash)
unfolding HashMap.remove
remove-IsUnique [] hash u = tt
remove-IsUnique ((k, v) ∷ m) hash u = elim (Bool-cases (k == hash)) [
  | inl same ↦ rw same (remove-IsUnique m hash u.1)
  | inr other ↦ rw other (get-remove m hash k ∙ ground arith, remove-IsUnique m hash u.1)
]

pub weight-remove :
    (m : HashMap Text CacheItem) (hash : Text) (item : CacheItem)
    → IsUnique m
    → HashMap.get m hash ≡ some item
    → weight m ≡ item.size + weight (HashMap.remove m hash)
unfolding weight HashMap.get HashMap.remove
weight-remove [] hash item u h = ground arith
weight-remove ((k, v) ∷ m) hash item u h = elim (Bool-cases (k == hash)) [
  | inl same ↦
      let absent : HashMap.get m hash ≡ none =
        ap (HashMap.get m) (sym ((text_beq_iff k hash).0 same)) ∙ u.0 in
      ground (arith, remove_absent m hash absent)
  | inr other ↦ ground (arith, weight-remove m hash item u.1)
]

remove-remove :
    (m : HashMap Text CacheItem) (a b : Text)
    → HashMap.remove (HashMap.remove m a) b ≡ HashMap.remove (HashMap.remove m b) a
unfolding HashMap.remove
remove-remove [] a b = refl
remove-remove ((k, v) ∷ m) a b = ground (arith, remove-remove m a b)

candidates-IsListed : (m : HashMap Text CacheItem) → IsUnique m → IsListed m (candidates m)
unfolding HashMap.get HashMap.remove
candidates-IsListed [] u = refl
candidates-IsListed ((k, v) ∷ m) u =
    rw ((text_beq_iff k k).1 refl, remove_absent m k u.0)
      ((v, refl, refl), candidates-IsListed m u.1)

swap-IsListed :
    (m : HashMap Text CacheItem) (a b : Candidate) (l : List Candidate)
    → IsListed m (a ∷ b ∷ l)
    → IsListed m (b ∷ a ∷ l)
swap-IsListed m a b l ((x, ga, sa), ((y, gb, sb), rest)) =
    let there = get-remove m a.hash b.hash in
    let back = get-remove m b.hash a.hash in
    let apart : (a.hash == b.hash) ≡ false = elim (Bool-cases (a.hash == b.hash)) [
      | inl same ↦ absurd (ground arith)
      | inr other ↦ other
    ] in
    let apart' : (b.hash == a.hash) ≡ false =
      ground (arith, text_beq_iff a.hash b.hash, text_beq_iff b.hash a.hash) in
    ((y, ground arith, sb), ((x, back ∙ rw apart' ga, sa), rw (remove-remove m b.hash a.hash) rest))

sorted_in-IsListed :
    (m : HashMap Text CacheItem) (a : Candidate) (l : List Candidate)
    → IsListed m (a ∷ l)
    → IsListed m (sorted_in a l)
unfolding sorted_in
sorted_in-IsListed m a [] h = h
sorted_in-IsListed m a (b ∷ l) h = elim (Bool-cases (leb a.last_access b.last_access)) [
  | inl before ↦ rw before h
  | inr after ↦
      let s = swap-IsListed m a b l h in
      rw after (s.0, sorted_in-IsListed (HashMap.remove m b.hash) a l s.1)
]

sort-IsListed :
    (m : HashMap Text CacheItem) (l : List Candidate) → IsListed m l → IsListed m (sort_by_access l)
unfolding sort_by_access
sort-IsListed m [] h = h
sort-IsListed m (a ∷ l) h =
    sorted_in-IsListed m a (sort_by_access l) (h.0, sort-IsListed (HashMap.remove m a.hash) l h.1)

-- The list that eviction goes through.
pub sorted-IsListed :
    (m : HashMap Text CacheItem) → IsUnique m → IsListed m (sort_by_access (candidates m))
sorted-IsListed m u = sort-IsListed m (candidates m) (candidates-IsListed m u)
