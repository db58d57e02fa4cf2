-- ===== src/Winfs/Listing/Search.antt =====
-- `DirSnapshot::get` of src/winfs/dirlist.rs: on sorted names the binary search finds what a search from
-- the front finds.
use hf_mount.Base.{
  ℕ, zero, suc, ◌/◌, ◌≤◌, ◌≡◌, refl, sym, ◌∙◌, ap, true, false, inl, inr, ◌⊎◌, Option, none, some,
  List, [], ◌∷◌, ◌++◌, length, take, drop, arith, if◌then◌else◌, Text, ◌==◌, text_eq, text_beq_iff,
  Bool-cases, length-take, length-drop,
}
use mathlib.Core.Path.{subst}
use hf_mount.Winfs.Listing.{text_leb, binary_search}
use hf_mount.Winfs.Listing.Sorted.{text_leb_refl, text_leb_total, AreBehind, IsSorted}

other_of : (n name : Text) → (n ≡ name → ⊥) → (n == name) ≡ false
other_of n name differs = elim (Bool-cases (n == name)) [
  | inr other ↦ other
  | inl same ↦ absurd (differs ((text_beq_iff n name).0 same))
]

list_cases {ℓ} : {A : Type ℓ} (l : List A) → (l ≡ []) ⊎ ((m : A) × (b : List A) × (l ≡ m ∷ b))
list_cases [] = inl refl
list_cases (m ∷ b) = inr (m, b, refl)

module _ {ℓ} {T : Type ℓ} (name : Text) where
  -- The first entry of the name.
  unfoldable pub find_name : List (Text × T) → Option T
  find_name [] = none
  find_name (e ∷ entries) = let later = find_name entries in if e.0 == name then some e.1 else later

  -- No entry has the name.
  abbrev AreOther : List (Text × T) → Type 0
  AreOther [] = Unit
  AreOther (e ∷ entries) = ((e.0 == name) ≡ false) × AreOther entries

  find_none : (a : List (Text × T)) → AreOther a → find_name a ≡ none
  unfolding find_name
  find_none [] others = refl
  find_none (e ∷ a) others = rw others.0 (find_none a others.1)

  find_right : (a b : List (Text × T)) → AreOther a → find_name (a ++ b) ≡ find_name b
  unfolding find_name
  find_right [] b others = refl
  find_right (e ∷ a) b others = rw others.0 (find_right a b others.1)

  find_left : (a b : List (Text × T)) → AreOther b → find_name (a ++ b) ≡ find_name a
  unfolding find_name
  find_left [] b others = find_none b others
  find_left (e ∷ a) b others = ap (λ o. if e.0 == name then some e.1 else o) (find_left a b others)

  -- Entries before one that is not behind the name.
  lower_others :
      (a b : List (Text × T)) (m : Text × T)
      → IsSorted (a ++ m ∷ b)
      → text_leb m.0 name ≡ true
      → AreOther a
  lower_others [] b m sorted h = tt
  lower_others (e ∷ a) b m sorted h = (
    other_of e.0 name (λ same.
        let k : text_leb m.0 e.0 ≡ true = ap (text_leb m.0) same ∙ h in
        let l = behind_middle e.0 a b m sorted.1 in ground arith),
    lower_others a b m sorted.2 h,
  )
    where
      behind_middle :
          (n : Text) (a b : List (Text × T)) (m : Text × T)
          → AreBehind n (a ++ m ∷ b)
          → text_leb m.0 n ≡ false
      behind_middle n [] b m behind = behind.0
      behind_middle n (e ∷ a) b m behind = behind_middle n a b m behind.1

  upper_others :
      (n : Text) (b : List (Text × T)) → AreBehind n b → text_leb n name ≡ false → AreOther b
  upper_others n [] behind h = tt
  upper_others n (e ∷ b) behind h = (
    other_of e.0 name (λ same.
        let k : text_leb n e.0 ≡ false = ap (text_leb n) same ∙ h in
        let l = text_leb_total n e.0 k in let r = behind.0 in ground arith),
    upper_others n b behind.1 h,
  )

  AreBehind-left : (n : Text) (a b : List (Text × T)) → AreBehind n (a ++ b) → AreBehind n a
  AreBehind-left n [] b behind = tt
  AreBehind-left n (e ∷ a) b behind = (behind.0, AreBehind-left n a b behind.1)

  IsSorted-left : (a b : List (Text × T)) → IsSorted (a ++ b) → IsSorted a
  IsSorted-left [] b sorted = tt
  IsSorted-left (e ∷ a) b sorted =
      (sorted.0, AreBehind-left e.0 a b sorted.1, IsSorted-left a b sorted.2)

  IsSorted-right : (a b : List (Text × T)) → IsSorted (a ++ b) → IsSorted b
  IsSorted-right [] b sorted = sorted
  IsSorted-right (e ∷ a) b sorted = IsSorted-right a b sorted.2

  take_and_drop : (n : ℕ) (l : List (Text × T)) → take n l ++ drop n l ≡ l
  take_and_drop zero l = refl
  take_and_drop (suc n) [] = refl
  take_and_drop (suc n) (e ∷ l) = ap (λ (k : List (Text × T)). e ∷ k) (take_and_drop n l)

  -- One halving.
  halved :
      (a b : List (Text × T)) (m : Text × T) (upper lower : Option T)
      → IsSorted (a ++ m ∷ b)
      → upper ≡ find_name (m ∷ b)
      → lower ≡ find_name a
      → (if text_leb m.0 name then upper else lower) ≡ find_name (a ++ m ∷ b)
  halved a b m upper lower sorted up low = elim (Bool-cases (text_leb m.0 name)) [
    | inl here ↦ rw here (up ∙ sym (find_right a (m ∷ b) (lower_others a b m sorted here)))
    | inr behind ↦
        let not_middle : (m.0 == name) ≡ false = other_of m.0 name (λ same.
          let k : text_leb m.0 m.0 ≡ false = ap (text_leb m.0) same ∙ behind in
          let l = text_leb_refl m.0 in ground arith) in
        let tail = (IsSorted-right a (m ∷ b) sorted).1 in
        rw behind (low ∙ sym (find_left a (m ∷ b) (not_middle, upper_others m.0 b tail behind)))
  ]

  pub binary_search_lem :
      (fuel : ℕ) (entries : List (Text × T))
      → length entries ≤ fuel
      → IsSorted entries
      → binary_search fuel entries name ≡ find_name entries
  unfolding binary_search find_name
  binary_search_lem zero [] enough sorted = refl
  binary_search_lem zero (e ∷ entries) enough sorted = absurd (omega arith)
  binary_search_lem (suc fuel) [] enough sorted = refl
  binary_search_lem (suc fuel) (e ∷ []) enough sorted = refl
  binary_search_lem (suc fuel) (e ∷ d ∷ entries) enough sorted =
      let l = e ∷ d ∷ entries in
      let half = length l / 2 in
      elim (list_cases (drop half l)) [
        | inl nothing ↦
            let k : length (drop half l) ≡ 0 = ap length nothing in
            absurd (omega (arith, length-drop {ℓ} half l))
        | inr (m, b, there) ↦
            let whole : take half l ++ m ∷ b ≡ l =
              ap (λ k. take half l ++ k) (sym there) ∙ take_and_drop half l in
            let sorted' : IsSorted (take half l ++ m ∷ b) = subst IsSorted (sym whole) sorted in
            let k : length (drop half l) ≡ length (m ∷ b) = ap length there in
            let up =
              binary_search_lem fuel (m ∷ b) (omega (arith, length-drop {ℓ} half l))
                (IsSorted-right (take half l) (m ∷ b) sorted') in
            let low =
              binary_search_lem fuel (take half l) (omega (arith, length-take {ℓ} half l))
                (IsSorted-left (take half l) (m ∷ b) sorted') in
            ap
              (λ o. elim o [
                | [] ↦ none
                | middle ∷ behind ↦
                    if text_leb middle.0 name
                    then binary_search fuel (middle ∷ behind) name
                    else binary_search fuel (take half l) name
              ])
              there
            ∙ halved (take half l) b m (binary_search fuel (m ∷ b) name)
                (binary_search fuel (take half l) name) sorted' up low
            ∙ ap find_name whole
      ]
