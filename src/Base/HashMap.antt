-- ===== src/Base/HashMap.antt =====
-- `std::collections::HashMap`, as a list of entries. Its order of iteration is unspecified in Rust;
-- here the entry written last comes first.
use mathlib.Core.Path.{◌≡◌}
use mathlib.Core.Logic.{inl, inr}
use mathlib.Core.Bool.{Bool, true, false}
use mathlib.Core.Option.{Option, none, some}
use mathlib.Core.List.{List, [], ◌∷◌, map}
use native.Mathlib.Omega.{arith}
use hf_mount.Base.Tests.{if◌then◌else◌, Option-cases}
use hf_mount.Base.Equality.{Eq, ◌==◌}

abbrev pub HashMap {ℓ κ} : Type ℓ → Type κ → Type (ℓ ⊔ κ)
HashMap K V = List (K × V)

module _ {ℓ κ} {K : Type ℓ} {V : Type κ} ⦃e : Eq K⦄ where
  unfoldable pub get : HashMap K V → K → Option V
  get [] k = none
  get ((j, v) ∷ m) k = if j == k then some v else get m k

  unfoldable pub remove : HashMap K V → K → HashMap K V
  remove [] k = []
  remove ((j, v) ∷ m) k = let rest = remove m k in if j == k then rest else (j, v) ∷ rest

  unfoldable pub insert : HashMap K V → K → V → HashMap K V
  insert m k v = (k, v) ∷ remove m k

  -- `if let Some(v) = m.get_mut(k) { *v = f(*v) }`
  unfoldable pub modify : HashMap K V → K → (V → V) → HashMap K V
  modify m k f = elim (get m k) [ none ↦ m | some v ↦ insert m k (f v) ]

  unfoldable pub contains_key : HashMap K V → K → Bool
  contains_key m k = elim (get m k) [ none ↦ false | some v ↦ true ]

  abbrev pub values : HashMap K V → List V
  values = map (λ p. p.1)

  pub get-remove :
      (m : HashMap K V) (k j : K) → get (remove m k) j ≡ (if k == j then none else get m j)
  unfolding get remove
  get-remove [] k j = ground arith
  get-remove ((i, v) ∷ m) k j =
      ground (arith, get-remove m k j, e.test_iff i k, e.test_iff i j, e.test_iff k j)

  pub get-insert :
      (m : HashMap K V) (k : K) (v : V) (j : K)
      → get (insert m k v) j ≡ (if k == j then some v else get m j)
  unfolding get insert
  get-insert m k v j = ground (arith, get-remove m k j)

  pub get-modify :
      (m : HashMap K V) (k : K) (f : V → V) (j : K)
      → get (modify m k f) j
        ≡ (if k == j then elim (get m k) [ none ↦ none | some v ↦ some (f v) ] else get m j)
  unfolding modify
  get-modify m k f j = elim (Option-cases (get m k)) [
    | inl absent ↦ rw (absent, modify) (ground (arith, e.test_iff k j))
    | inr (v, present) ↦ rw (present, modify) (get-insert m k (f v) j)
  ]
