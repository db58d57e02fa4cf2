-- ===== src/FileCache/Bounded.antt =====
-- src/file_cache.rs: the cache counts its bytes exactly and stays within its capacity.
use mathlib.Core.Path.{subst}
use hf_mount.Base.{
  ℕ, ◌+◌, ◌-◌, ◌≤◌, ◌<◌, ◌≡◌, refl, ◌∙◌, ap, inl, inr, none, some, List, [], ◌∷◌, arith, leb, Text,
  text_eq, text_beq_iff, Bool-cases, Option-cases, u64_mod, add64, add64_exact, sub64, sub64_exact,
}
use hf_mount.Base.HashMap
use hf_mount.Base.HashMap.{get-remove, get-insert}
use hf_mount.FileCache.{
  FileCache, CacheItem, Candidate, candidates, sort_by_access, victims, drop_item, drop_items,
  evict_locked, publish,
}
use hf_mount.FileCache.Listed.{
  IsUnique, remove_absent, weight, IsListed, remove-IsUnique, weight-remove, sorted-IsListed,
}

-- `total_bytes` is the sum of the sizes of the items, and no hash stands twice.
pub record IsCounted (c : FileCache) : Type 0 where
  pub unique : IsUnique c.items
  pub exact : c.total_bytes ≡ weight c.items

dropped :
    (c : FileCache) (hash : Text) (item : CacheItem)
    → HashMap.get c.items hash ≡ some item
    → drop_item c hash
      ≡ record c { items = HashMap.remove c.items hash; total_bytes = c.total_bytes - item.size }
unfolding drop_item
dropped c hash item h = rw (h, drop_item)

not_there : (c : FileCache) (hash : Text) → HashMap.get c.items hash ≡ none → drop_item c hash ≡ c
unfolding drop_item
not_there c hash h = rw (h, drop_item)

pub drop_item-IsCounted : (c : FileCache) (hash : Text) → IsCounted c → IsCounted (drop_item c hash)
drop_item-IsCounted c hash v = elim (Option-cases (HashMap.get c.items hash)) [
  | inl absent ↦ rw (not_there c hash absent) v
  | inr (item, there) ↦ rw (dropped c hash item there) (record {
    unique = remove-IsUnique c.items hash v.unique;
    exact = omega (arith, v.exact, weight-remove c.items hash item v.unique there);
  })
]

-- What eviction leaves: exact counts, within the capacity.
pub record IsBounded (c r : FileCache) : Type 0 where
  pub counted : IsCounted r
  pub bounded : r.total_bytes ≤ c.capacity
  pub same_capacity : r.capacity ≡ c.capacity

-- One more victim.
after_drop :
    (c : FileCache) (a : Candidate) (item : CacheItem) (hashes : List Text)
    → HashMap.get c.items a.hash ≡ some item
    → IsBounded
        (record c {
          items = HashMap.remove c.items a.hash;
          total_bytes = c.total_bytes - item.size;
        })
        (drop_items
          (record c {
            items = HashMap.remove c.items a.hash;
            total_bytes = c.total_bytes - item.size;
          })
          hashes)
    → IsBounded c (drop_items c (a.hash ∷ hashes))
unfolding drop_items
after_drop c a item hashes there b =
    rw (dropped c a.hash item there)
      (record { counted = b.counted; bounded = b.bounded; same_capacity = b.same_capacity })

-- The loop: `freed` bytes of `total` are gone from `c`, and the entries list what is left.
drop_items-IsBounded :
    (total freed : ℕ) (c : FileCache) (entries : List Candidate)
    → total < u64_mod
    → IsCounted c
    → c.total_bytes + freed ≡ total
    → IsListed c.items entries
    → IsBounded c (drop_items c (victims total c.capacity freed entries))
unfolding drop_items victims
drop_items-IsBounded total freed c [] room v sum listed =
    let nothing : weight c.items ≡ 0 = ap weight listed ∙ unfold weight in refl in
    record { counted = v; bounded = omega (arith, v.exact); same_capacity = refl }
drop_items-IsBounded total freed c (a ∷ entries) room v sum ((item, there, size), listed) =
    let heavy : weight c.items ≡ item.size + weight (HashMap.remove c.items a.hash) =
      weight-remove c.items a.hash item v.unique there in
    let left : sub64 total freed ≡ c.total_bytes =
      sub64_exact total freed (omega arith) (omega arith) ∙ omega arith in
    let more : add64 freed a.size ≡ freed + a.size =
      add64_exact freed a.size (omega (arith, v.exact)) in
    let counted : IsCounted (record c {
      items = HashMap.remove c.items a.hash;
      total_bytes = c.total_bytes - item.size;
    }) =
      subst IsCounted (dropped c a.hash item there) (drop_item-IsCounted c a.hash v) in
    elim (Bool-cases (leb (sub64 total freed) c.capacity)) [
      | inl enough ↦
          rw enough (record { counted = v; bounded = ground arith; same_capacity = refl })
      | inr again ↦
          rw (again, more)
            (after_drop c a item (victims total c.capacity (freed + a.size) entries) there (
              drop_items-IsBounded total (freed + a.size)
                (record c {
                  items = HashMap.remove c.items a.hash;
                  total_bytes = c.total_bytes - item.size;
                })
                entries room counted (omega (arith, v.exact)) listed))
    ]

-- Eviction from an exactly counted cache ends with exact counts, within the capacity.
pub evict_locked-IsBounded :
    (c : FileCache) → c.total_bytes < u64_mod → IsCounted c → IsBounded c (evict_locked c).0
unfolding evict_locked
evict_locked-IsBounded c room v = elim (Bool-cases (leb c.total_bytes c.capacity)) [
  | inl fits ↦ rw fits (record { counted = v; bounded = ground arith; same_capacity = refl })
  | inr over ↦ rw over (
      drop_items-IsBounded c.total_bytes 0 c (sort_by_access (candidates c.items)) room v
        (omega arith) (sorted-IsListed c.items v.unique))
]

drop_item_gone :
    (c : FileCache) (hash : Text)
    → (HashMap.get (drop_item c hash).items hash ≡ none)
      × ((drop_item c hash).total_bytes ≤ c.total_bytes)
      × ((drop_item c hash).capacity ≡ c.capacity)
drop_item_gone c hash = elim (Option-cases (HashMap.get c.items hash)) [
  | inl absent ↦ rw (not_there c hash absent) (absent, omega arith, refl)
  | inr (item, there) ↦
      rw (dropped c hash item there)
        (get-remove c.items hash hash ∙ ground (arith, text_beq_iff hash hash), omega arith, refl)
]

-- A new item under a hash that is not there is counted.
added-IsCounted :
    (c : FileCache) (hash : Text) (size now clock : ℕ)
    → HashMap.get c.items hash ≡ none
    → c.total_bytes + size < u64_mod
    → IsCounted c
    → IsCounted (record c {
      items = HashMap.insert c.items hash (record { size = size; last_access = now });
      total_bytes = add64 c.total_bytes size;
      clock = clock;
    })
unfolding HashMap.insert weight
added-IsCounted c hash size now clock absent room v = record {
  unique = (
    get-remove c.items hash hash ∙ ground (arith, text_beq_iff hash hash),
    remove-IsUnique c.items hash v.unique,
  );
  exact =
      rw (add64_exact c.total_bytes size room, remove_absent c.items hash absent)
        (omega (arith, v.exact));
}

-- Publishing a download of any size, also over an item of the same hash, ends with `total_bytes`
-- the exact sum of the sizes and within the capacity, as long as the sum stays below 2^64.
pub publish-IsBounded :
    (c : FileCache) (hash : Text) (size : ℕ)
    → c.total_bytes + size < u64_mod
    → IsCounted c
    → IsBounded c (publish c hash size).0
unfolding publish
publish-IsBounded c hash size room v =
    let (gone, less, same) = drop_item_gone c hash in
    let before = drop_item c hash in
    let total : add64 before.total_bytes size ≡ before.total_bytes + size =
      add64_exact before.total_bytes size (omega arith) in
    let added =
      added-IsCounted before hash size c.clock (add64 c.clock 1) gone (omega arith)
        (drop_item-IsCounted c hash v) in
    let b = evict_locked-IsBounded _ (rw total (omega arith)) added in
    record {
      counted = b.counted;
      bounded = omega (arith, b.bounded, same);
      same_capacity = b.same_capacity ∙ same;
    }
