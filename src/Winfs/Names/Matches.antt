-- ===== src/Winfs/Names/Matches.antt =====
-- `unique_case_insensitive_match` of src/winfs/names.rs never picks one of two names.
use hf_mount.Base.{
  ℕ, ◌≡◌, ◌↔◌, refl, sym, ◌∙◌, ap, true, false, inl, inr, ◌⊎◌, none, some, List, [], ◌∷◌, arith,
  Text, Bool-cases, eq_of_some,
}
use hf_mount.Winfs.Names.{eq_ignore_case, match_loop, unique_case_insensitive_match}

module _ (upcase : ℕ → ℕ) (wanted : Text) where
  -- No candidate is equal to the wanted name, ignoring case.
  abbrev pub NoneMatch : List Text → Type 0
  NoneMatch [] = Unit
  NoneMatch (x ∷ xs) = (eq_ignore_case upcase wanted x ≡ false) × NoneMatch xs

  -- One place of the candidates has the name, and no other place has a name equal to the wanted one.
  abbrev pub IsUnique : Text → List Text → Type 0
  IsUnique c [] = ⊥
  IsUnique c (x ∷ xs) =
      ((x ≡ c) × (eq_ignore_case upcase wanted x ≡ true) × NoneMatch xs)
      ⊎ ((eq_ignore_case upcase wanted x ≡ false) × IsUnique c xs)

  loop_found :
      (found c : Text) (candidates : List Text)
      → match_loop upcase wanted (some found) candidates ≡ some c
      → (found ≡ c) × NoneMatch candidates
  unfolding match_loop
  loop_found found c [] h = (eq_of_some h, tt)
  loop_found found c (x ∷ xs) h = elim (Bool-cases (eq_ignore_case upcase wanted x)) [
    | inl second ↦ absurd (ground arith)
    | inr other ↦ let (same, rest) = loop_found found c xs (ground arith) in (same, (other, rest))
  ]

  loop_kept :
      (found : Text) (candidates : List Text)
      → NoneMatch candidates
      → match_loop upcase wanted (some found) candidates ≡ some found
  unfolding match_loop
  loop_kept found [] free = refl
  loop_kept found (x ∷ xs) free = rw free.0 (loop_kept found xs free.1)

  loop-IsUnique :
      (c : Text) (candidates : List Text)
      → match_loop upcase wanted none candidates ≡ some c
      → IsUnique c candidates
  unfolding match_loop
  loop-IsUnique c [] h = absurd (ground arith)
  loop-IsUnique c (x ∷ xs) h = elim (Bool-cases (eq_ignore_case upcase wanted x)) [
    | inl first ↦
        let (same, rest) = loop_found x c xs (sym (rw first refl) ∙ h) in inl (same, first, rest)
    | inr other ↦ inr (other, loop-IsUnique c xs (sym (rw other refl) ∙ h))
  ]

  unique_loop :
      (c : Text) (candidates : List Text)
      → IsUnique c candidates
      → match_loop upcase wanted none candidates ≡ some c
  unfolding match_loop
  unique_loop c [] u = absurd u
  unique_loop c (x ∷ xs) (inl (same, first, rest)) = rw first (loop_kept x xs rest ∙ ap some same)
  unique_loop c (x ∷ xs) (inr (other, u)) = rw other (unique_loop c xs u)

  -- The lookup finds a name if and only if it stands at one place of the candidates and no other
  -- place has a name equal to the wanted one, ignoring case; of two such names it picks neither.
  pub unique_case_insensitive_match-IsUnique :
      (c : Text) (candidates : List Text)
      → (unique_case_insensitive_match upcase wanted candidates ≡ some c) ↔ IsUnique c candidates
  unique_case_insensitive_match-IsUnique c candidates =
      (loop-IsUnique c candidates, unique_loop c candidates)
