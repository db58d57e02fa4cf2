-- ===== src/FileCache.antt =====
-- src/file_cache.rs: the index of the whole-file cache, addressed by content hash. A hash is a text.
-- The files on disk are not part of the state: what the operating system answers is an argument.
pub mod Listed
pub mod Bounded
pub mod Populate
use hf_mount.Base.{
  ℕ, ◌-◌, Bool, true, false, not, ◌&&◌, Option, none, some, List, [], ◌∷◌, ltb, leb, nat_beq,
  if◌then◌else◌, Text, text_eq, add64, sub64,
}
use hf_mount.Base.HashMap
use hf_mount.Base.HashMap.{HashMap}
use hf_mount.Inode.Entry.{is_empty}

pub record CacheItem : Type 0 where
  pub size : ℕ
  pub last_access : ℕ

-- `FileCache` with the `State` behind its lock.
pub record FileCache : Type 0 where
  pub capacity : ℕ
  pub items : HashMap Text CacheItem
  pub total_bytes : ℕ
  pub clock : ℕ

-- An item in the list that `evict_locked` sorts.
pub record Candidate : Type 0 where
  pub hash : Text
  pub last_access : ℕ
  pub size : ℕ

abbrev pub candidates : HashMap Text CacheItem → List Candidate
candidates [] = []
candidates ((hash, item) ∷ m) =
    record { hash = hash; last_access = item.last_access; size = item.size } ∷ candidates m

-- `sort_by_key(|(_, t, _)| *t)`, stable.
unfoldable pub sorted_in : Candidate → List Candidate → List Candidate
sorted_in a [] = a ∷ []
sorted_in a (b ∷ l) = if leb a.last_access b.last_access then a ∷ b ∷ l else b ∷ sorted_in a l

unfoldable pub sort_by_access : List Candidate → List Candidate
sort_by_access [] = []
sort_by_access (a ∷ l) = sorted_in a (sort_by_access l)

-- The loop that picks the least recently used items, until enough bytes are freed.
unfoldable pub victims : ℕ → ℕ → ℕ → List Candidate → List Text
victims total capacity freed [] = []
victims total capacity freed (c ∷ entries) =
    let rest = victims total capacity (add64 freed c.size) entries in
    if leb (sub64 total freed) capacity then [] else c.hash ∷ rest

-- `if let Some(item) = state.items.remove(hash)`, with the total that follows it.
unfoldable pub drop_item : FileCache → Text → FileCache
drop_item c hash = elim (HashMap.get c.items hash) [
  | none ↦ c
  | some item ↦ record c {
    items = HashMap.remove c.items hash;
    total_bytes = c.total_bytes - item.size;
  }
]

unfoldable pub drop_items : FileCache → List Text → FileCache
drop_items c [] = c
drop_items c (hash ∷ hashes) = drop_items (drop_item c hash) hashes

-- The hashes are those of the files to remove.
unfoldable pub evict_locked : FileCache → FileCache × List Text
evict_locked c =
    let picked = victims c.total_bytes c.capacity 0 (sort_by_access (candidates c.items)) in
    if leb c.total_bytes c.capacity then (c, []) else (drop_items c picked, picked)

abbrev pub next_tick : FileCache → FileCache × ℕ
next_tick c = (record c { clock = add64 c.clock 1 }, c.clock)

unfoldable pub contains : FileCache → Text → Bool
contains c hash = not (is_empty hash) && HashMap.contains_key c.items hash

unfoldable pub forget : FileCache → Text → FileCache
forget c hash = drop_item c hash

-- `opened` says whether the operating system opens the file.
unfoldable pub try_open : FileCache → Text → Bool → FileCache × Bool
try_open c hash opened =
    let touched = record c {
      items = HashMap.modify c.items hash (λ item. record item { last_access = c.clock });
      clock = add64 c.clock 1;
    } in
    if is_empty hash
    then (c, false)
    else if not (HashMap.contains_key c.items hash)
    then (c, false)
    else if opened
    then (touched, true)
    else (forget touched hash, false)

-- The block of `populate_inner` that publishes a downloaded file.
unfoldable pub publish : FileCache → Text → ℕ → FileCache × List Text
publish c hash actual_size =
    let before = drop_item c hash in
    evict_locked (record before {
      items =
          HashMap.insert before.items hash (record { size = actual_size; last_access = c.clock });
      total_bytes = add64 before.total_bytes actual_size;
      clock = add64 c.clock 1;
    })

-- What `populate` returns: `Ok` with nothing done, `Err`, or `Ok` with the file published.
pub data Populated : Type 0 where
  skipped failed published : Populated

-- After the download: `downloaded` is the size of the temporary file, or nothing if `fetch` or
-- `stat` failed, and `renamed` says whether the file could be moved into place.
unfoldable pub populate_inner :
    FileCache → Text → Option ℕ → Option ℕ → Bool → FileCache × Populated
populate_inner c hash expected_size downloaded renamed = elim downloaded [
  | none ↦ (c, failed)
  | some actual_size ↦
      if elim expected_size [ none ↦ false | some expected ↦ not (nat_beq actual_size expected) ]
      then (c, failed)
      else if ltb c.capacity actual_size
      then (c, skipped)
      else if renamed
      then ((publish c hash actual_size).0, published)
      else (c, failed)
]

-- What the callers of `populate` see of the shared state. Other tasks change the cache wherever the
-- lock is free, so it is another cache each time: `first` at the first test, `rechecked` at the test
-- under the lock of `inflight` (`readable` says whether `try_read` gets it), and `later` when the
-- download is over, or the leader has told its followers. `leads` says that `inflight` does not have
-- the hash.
pub record Moments : Type 0 where
  pub first : FileCache
  pub readable : Bool
  pub rechecked : FileCache
  pub leads : Bool
  pub later : FileCache

-- The cache as the call leaves it, and what it returns.
unfoldable pub populate : Moments → Text → Option ℕ → Option ℕ → Bool → FileCache × Populated
populate m hash expected_size downloaded renamed =
    if is_empty hash
    then (m.first, skipped)
    else if elim expected_size [ none ↦ false | some s ↦ ltb m.first.capacity s ]
    then (m.first, skipped)
    else if contains m.first hash
    then (m.first, skipped)
    else if m.readable && HashMap.contains_key m.rechecked.items hash
    then (m.rechecked, skipped)
    else if m.leads
    then populate_inner m.later hash expected_size downloaded renamed
    else if contains m.later hash
    then (m.later, skipped)
    else (m.later, failed)
