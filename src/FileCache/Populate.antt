-- ===== src/FileCache/Populate.antt =====
-- `populate` of src/file_cache.rs keeps the cache in bounds on every outcome of the download.
use hf_mount.Base.{
  ℕ, ◌&&◌, ◌≡◌, ◌∙◌, ◌+◌, ◌≤◌, ◌<◌, refl, Bool, false, not, inl, inr, Option, none, some, arith,
  ltb, nat_beq, Text, text_eq, Bool-cases, u64_mod,
}
use hf_mount.Base.HashMap
use hf_mount.FileCache.{FileCache, Moments, contains, populate_inner, populate}
use hf_mount.FileCache.Bounded.{IsCounted, IsBounded, publish-IsBounded}
use hf_mount.Inode.Entry.{is_empty}

-- A cache that is left as it was.
unchanged : (c : FileCache) → c.total_bytes ≤ c.capacity → IsCounted c → IsBounded c c
unchanged c fits v = record { counted = v; bounded = fits; same_capacity = refl }

populate_inner-IsBounded :
    (c : FileCache) (hash : Text) (expected_size downloaded : Option ℕ) (renamed : Bool)
    → c.capacity + c.capacity < u64_mod
    → c.total_bytes ≤ c.capacity
    → IsCounted c
    → IsBounded c (populate_inner c hash expected_size downloaded renamed).0
unfolding populate_inner
populate_inner-IsBounded c hash expected none renamed room fits v = unchanged c fits v
populate_inner-IsBounded c hash expected (some size) renamed room fits v =
    elim (Bool-cases (elim expected [ none ↦ false | some e ↦ not (nat_beq size e) ])) [
      | inl wrong ↦ rw wrong (unchanged c fits v)
      | inr right ↦ elim (Bool-cases (ltb c.capacity size)) [
        | inl big ↦ rw (right, big) (unchanged c fits v)
        | inr small ↦ elim (Bool-cases renamed) [
          | inr stays ↦ rw (right, small, stays) (unchanged c fits v)
          | inl moves ↦ rw (right, small, moves) (publish-IsBounded c hash size (ground arith) v)
        ]
      ]
    ]

-- A cache of the capacity whose total is the exact sum of the sizes and within it.
pub record IsWithin (capacity : ℕ) (c : FileCache) : Type 0 where
  pub counted : IsCounted c
  pub bounded : c.total_bytes ≤ capacity
  pub same_capacity : c.capacity ≡ capacity

led :
    (c : FileCache) (capacity : ℕ) (hash : Text) (expected_size downloaded : Option ℕ)
    (renamed : Bool)
    → capacity + capacity < u64_mod
    → IsWithin capacity c
    → IsWithin capacity (populate_inner c hash expected_size downloaded renamed).0
led c capacity hash expected downloaded renamed room w =
    let same = w.same_capacity in
    let bounded = w.bounded in
    let b =
      populate_inner-IsBounded c hash expected downloaded renamed (omega arith) (omega arith)
        w.counted in
    record {
      counted = b.counted;
      bounded = omega (arith, b.bounded);
      same_capacity = b.same_capacity ∙ same;
    }

-- The cache is in bounds at each moment, and its capacity does not change.
pub record AreBounded (m : Moments) (capacity : ℕ) : Type 0 where
  pub first : IsWithin capacity m.first
  pub rechecked : IsWithin capacity m.rechecked
  pub later : IsWithin capacity m.later

-- Whatever the download brings and whatever others do to the cache meanwhile, the hash itself
-- included, `populate` leaves `total_bytes` the exact sum of the sizes and within the capacity, provided
-- that each cache it meets is so and has that capacity, and that twice the capacity is below 2^64.
pub populate-IsBounded :
    (m : Moments) (capacity : ℕ) (hash : Text) (expected_size downloaded : Option ℕ)
    (renamed : Bool)
    → capacity + capacity < u64_mod
    → AreBounded m capacity
    → IsWithin capacity (populate m hash expected_size downloaded renamed).0
unfolding populate
populate-IsBounded m capacity hash expected downloaded renamed room b =
    elim (Bool-cases (is_empty hash)) [
      | inl no_hash ↦ rw no_hash b.first
      | inr named ↦
          elim (Bool-cases (elim expected [ none ↦ false | some s ↦ ltb m.first.capacity s ])) [
            | inl big ↦ rw (named, big) b.first
            | inr small ↦ elim (Bool-cases (contains m.first hash)) [
              | inl there ↦ rw (named, small, there) b.first
              | inr absent ↦
                  elim (Bool-cases (m.readable && HashMap.contains_key m.rechecked.items hash)) [
                    | inl by_now ↦ rw (named, small, absent, by_now) b.rechecked
                    | inr still ↦ elim (Bool-cases m.leads) [
                      | inl leader ↦
                          rw (named, small, absent, still, leader)
                            (led m.later capacity hash expected downloaded renamed room b.later)
                      | inr follower ↦ elim (Bool-cases (contains m.later hash)) [
                        | inl done ↦ rw (named, small, absent, still, follower, done) b.later
                        | inr undone ↦ rw (named, small, absent, still, follower, undone) b.later
                      ]
                    ]
                  ]
            ]
          ]
    ]
