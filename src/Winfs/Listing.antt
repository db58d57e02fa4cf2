-- ===== src/Winfs/Listing.antt =====
-- The directory listings of src/winfs/dirlist.rs. `sort_by` is the stable sort of the standard
-- library, here by insertion; names are compared by their code points, which is the order of their
-- bytes. `binary_search_by` halves, which needs the order; on the sorted entries `partition_point` counts the names up to the marker.
pub mod Sorted
pub mod Search
pub mod Named
pub mod Paged
use hf_mount.Base.{
  ℕ, zero, suc, ◌+◌, Bool, true, false, not, ◌&&◌, ◌||◌, Option, none, some, List, [], ◌∷◌, length,
  drop, take, ◌/◌, nat_beq, ltb, if◌then◌else◌, Text, codes, ◌==◌, text_eq,
}

-- `a <= b` for strings.
unfoldable pub text_leb : Text → Text → Bool
text_leb [] b = true
text_leb (x ∷ a) [] = false
text_leb (x ∷ a) (y ∷ b) =
    let rest = text_leb a b in if ltb x y then true else if nat_beq x y then rest else false

abbrev pub is_dots : Text → Bool
is_dots name = name == codes "." || name == codes ".."

module _ {ℓ} {T : Type ℓ} where
  -- `entries.retain(..)`
  unfoldable pub without_dots : List (Text × T) → List (Text × T)
  without_dots [] = []
  without_dots (e ∷ entries) =
      let rest = without_dots entries in if is_dots e.0 then rest else e ∷ rest

  unfoldable pub insert_sorted : Text × T → List (Text × T) → List (Text × T)
  insert_sorted e [] = e ∷ []
  insert_sorted e (d ∷ entries) =
      let rest = insert_sorted e entries in if text_leb e.0 d.0 then e ∷ d ∷ entries else d ∷ rest

  unfoldable pub sort_by_name : List (Text × T) → List (Text × T)
  sort_by_name [] = []
  sort_by_name (e ∷ entries) = insert_sorted e (sort_by_name entries)

  -- `dedup_by`, with the entry that was kept last.
  unfoldable pub dedup_after : Text → List (Text × T) → List (Text × T)
  dedup_after last [] = []
  dedup_after last (e ∷ entries) =
      let same = dedup_after last entries in
      let other = e ∷ dedup_after e.0 entries in if last == e.0 then same else other

  abbrev pub dedup_by_name : List (Text × T) → List (Text × T)
  dedup_by_name [] = []
  dedup_by_name (e ∷ entries) = e ∷ dedup_after e.0 entries

  unfoldable pub partition_point : Text → List (Text × T) → ℕ
  partition_point marker [] = 0
  partition_point marker (e ∷ entries) =
      let rest = partition_point marker entries in if text_leb e.0 marker then suc rest else 0

pub record DirSnapshot {ℓ} (T : Type ℓ) : Type ℓ where
  pub entries : List (Text × T)

pub record Page {ℓ} (T : Type ℓ) : Type ℓ where
  pub dot : Bool
  pub dot_dot : Bool
  pub entries : List (Text × T)

module _ {ℓ} {T : Type ℓ} where
  unfoldable pub new : List (Text × T) → DirSnapshot T
  new entries = record { entries = dedup_by_name (sort_by_name (without_dots entries)) }

  -- `binary_search_by`: the half that can hold the name, on fuel.
  unfoldable pub binary_search : ℕ → List (Text × T) → Text → Option T
  binary_search zero entries name = none
  binary_search (suc fuel) [] name = none
  binary_search (suc fuel) (e ∷ []) name = if e.0 == name then some e.1 else none
  binary_search (suc fuel) (e ∷ d ∷ entries) name =
      let half = length (e ∷ d ∷ entries) / 2 in
      elim (drop half (e ∷ d ∷ entries)) [
        | [] ↦ none
        | middle ∷ behind ↦
            let lower = binary_search fuel (take half (e ∷ d ∷ entries)) name in
            let upper = binary_search fuel (middle ∷ behind) name in
            if text_leb middle.0 name then upper else lower
      ]

  unfoldable pub get : DirSnapshot T → Text → Option T
  get s name = binary_search (length s.entries) s.entries name

  unfoldable pub page_after : DirSnapshot T → Option Text → Bool → Page T
  page_after s none with_dots = record { dot = with_dots; dot_dot = with_dots; entries = s.entries }
  page_after s (some marker) with_dots =
      if marker == codes "."
      then record { dot = false; dot_dot = with_dots; entries = s.entries }
      else if marker == codes ".."
      then record { dot = false; dot_dot = false; entries = s.entries }
      else record {
        dot = false;
        dot_dot = false;
        entries = drop (partition_point marker s.entries) s.entries;
      }
