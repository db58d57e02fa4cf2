-- ===== src/Tests/Cache.antt =====
-- A cache of ten bytes for src/file_cache.rs, with two items.
use hf_mount.Base.{refl, true, some, [], ◌∷◌, arith, text_eq}
use hf_mount.Base.Equality.{text_beq}
use hf_mount.Base.HashMap
use hf_mount.FileCache.{FileCache, Moments, populate}
use hf_mount.FileCache.Listed.{weight}
use hf_mount.FileCache.Bounded.{IsCounted}
use hf_mount.FileCache.Populate.{IsWithin, AreBounded, populate-IsBounded}

abbrev two_items : FileCache
two_items = record {
  capacity = 10;
  items =
      (1 ∷ 1 ∷ [], record { size = 4; last_access = 7 })
      ∷ (2 ∷ 2 ∷ [], record { size = 5; last_access = 3 })
      ∷ [];
  total_bytes = 9;
  clock = 8;
}

two_items-IsCounted : IsCounted two_items
unfolding weight HashMap.get text_beq
two_items-IsCounted = record { unique = (refl, (refl, tt)); exact = refl }

-- A cache over its capacity, as after a start with a smaller one.
abbrev too_small : FileCache
too_small = record two_items { capacity = 6 }

too_small-IsCounted : IsCounted too_small
unfolding weight HashMap.get text_beq
too_small-IsCounted = record { unique = (refl, (refl, tt)); exact = refl }

-- While the hash 2 is downloaded, which an empty cache does not have, others put it there too.
abbrev no_items : FileCache
no_items = record { capacity = 10; items = []; total_bytes = 0; clock = 1 }

no_items-IsCounted : IsCounted no_items
unfolding weight HashMap.get text_beq
no_items-IsCounted = record { unique = tt; exact = refl }

abbrev overtaken : Moments
overtaken = record {
  first = no_items;
  readable = true;
  rechecked = no_items;
  leads = true;
  later = two_items;
}

overtaken-AreBounded : AreBounded overtaken 10
overtaken-AreBounded =
    let nothing : IsWithin 10 no_items = record {
      counted = no_items-IsCounted;
      bounded = omega arith;
      same_capacity = refl;
    } in
    record {
      first = nothing;
      rechecked = nothing;
      later = record { counted = two_items-IsCounted; bounded = omega arith; same_capacity = refl };
    }

populate-IsBounded_example : IsWithin 10 (populate overtaken (2 ∷ 2 ∷ []) (some 5) (some 5) true).0
populate-IsBounded_example =
    populate-IsBounded overtaken 10 (2 ∷ 2 ∷ []) (some 5) (some 5) true (omega arith)
      overtaken-AreBounded
