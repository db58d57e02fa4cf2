-- ===== src/Base/Lists.antt =====
-- Lists measured and cut by native numbers, under the library's names.
use Prim.Native.Nat.{ℕ, zero, suc, ◌+◌, ◌-◌, ◌≤◌, min}
use mathlib.Core.Path.{◌≡◌, refl, sym, ap}
use mathlib.Core.List.{List, [], ◌∷◌, ◌++◌}
use mathlib.Core.Option.{Option, none, some}
use native.Mathlib.Omega.{arith}

module _ {ℓ} {A : Type ℓ} where
  abbrev pub length : List A → ℕ
  length [] = 0
  length (x ∷ xs) = suc (length xs)

  abbrev pub take : ℕ → List A → List A
  take zero xs = []
  take (suc n) [] = []
  take (suc n) (x ∷ xs) = x ∷ take n xs

  abbrev pub drop : ℕ → List A → List A
  drop zero xs = xs
  drop (suc n) [] = []
  drop (suc n) (x ∷ xs) = drop n xs

  pub length-append : (xs ys : List A) → length (xs ++ ys) ≡ length xs + length ys
  length-append [] ys = omega arith
  length-append (x ∷ xs) ys = omega (arith, length-append xs ys)

  pub length-take : (n : ℕ) (xs : List A) → length (take n xs) ≡ min n (length xs)
  length-take zero xs = omega arith
  length-take (suc n) [] = omega arith
  length-take (suc n) (x ∷ xs) = omega (arith, length-take n xs)

  pub length-drop : (n : ℕ) (xs : List A) → length (drop n xs) ≡ length xs - n
  length-drop zero xs = omega arith
  length-drop (suc n) [] = omega arith
  length-drop (suc n) (x ∷ xs) = omega (arith, length-drop n xs)

  pub take_of_length-le : (n : ℕ) (xs : List A) → length xs ≤ n → take n xs ≡ xs
  take_of_length-le (suc n) (x ∷ xs) h = ground (arith, take_of_length-le n xs)
  take_of_length-le zero (x ∷ xs) h = absurd (omega arith)
  take_of_length-le (suc n) [] h = refl
  take_of_length-le zero [] h = refl

  pub drop_of_length-le : (n : ℕ) (xs : List A) → length xs ≤ n → drop n xs ≡ []
  drop_of_length-le zero [] h = refl
  drop_of_length-le zero (x ∷ xs) h = absurd (omega arith)
  drop_of_length-le (suc n) [] h = refl
  drop_of_length-le (suc n) (x ∷ xs) h = drop_of_length-le n xs (omega arith)

  pub take-append :
      (n : ℕ) (xs ys : List A) → take n (xs ++ ys) ≡ take n xs ++ take (n - length xs) ys
  take-append zero xs ys = ground arith
  take-append (suc n) [] ys = ground arith
  take-append (suc n) (x ∷ xs) ys = ground (arith, take-append n xs ys)

  pub drop-append :
      (n : ℕ) (xs ys : List A) → drop n (xs ++ ys) ≡ drop n xs ++ drop (n - length xs) ys
  drop-append zero xs ys = ground arith
  drop-append (suc n) [] ys = ground arith
  drop-append (suc n) (x ∷ xs) ys = ground (arith, drop-append n xs ys)

  pub drop-drop : (m n : ℕ) (xs : List A) → drop m (drop n xs) ≡ drop (n + m) xs
  drop-drop m zero xs = ground arith
  drop-drop m (suc n) [] = ground (arith, drop_of_length-le m [], drop_of_length-le (suc n + m) [])
  drop-drop m (suc n) (x ∷ xs) =
      let e : suc n + m ≡ suc (n + m) = omega arith in rw e (drop-drop m n xs)

  pub take-take : (m n : ℕ) (xs : List A) → take m (take n xs) ≡ take (min m n) xs
  take-take zero n xs = ground arith
  take-take (suc m) zero xs = ground arith
  take-take (suc m) (suc n) [] = sym (take_of_length-le (min (suc m) (suc n)) [] (omega arith))
  take-take (suc m) (suc n) (x ∷ xs) =
      let e : min (suc m) (suc n) ≡ suc (min m n) = omega arith in rw (e, take-take m n xs)

  pub drop-take : (m n : ℕ) (xs : List A) → drop m (take n xs) ≡ take (n - m) (drop m xs)
  drop-take zero n xs = ground arith
  drop-take (suc m) zero xs = ground arith
  drop-take (suc m) (suc n) [] = sym (take_of_length-le (suc n - suc m) [] (omega arith))
  drop-take (suc m) (suc n) (x ∷ xs) = ground (arith, drop-take m n xs)

  -- The two halves of a cut meet.
  pub take-append-take : (m n : ℕ) (xs : List A) → take m xs ++ take n (drop m xs) ≡ take (m + n) xs
  take-append-take zero n xs = ground arith
  take-append-take (suc m) n [] =
      ground (arith, take_of_length-le n [], take_of_length-le (suc m + n) [])
  take-append-take (suc m) n (x ∷ xs) =
      let e : suc m + n ≡ suc (m + n) = omega arith in rw (e, take-append-take m n xs)

  pub take-append_le : (n : ℕ) (xs ys : List A) → n ≤ length xs → take n (xs ++ ys) ≡ take n xs
  take-append_le zero xs ys h = refl
  take-append_le (suc n) [] ys h = absurd (omega arith)
  take-append_le (suc n) (x ∷ xs) ys h = ap (◌∷◌ x) (take-append_le n xs ys (omega arith))

  pub take-append_ge :
      (n : ℕ) (xs ys : List A) → length xs ≤ n → take n (xs ++ ys) ≡ xs ++ take (n - length xs) ys
  take-append_ge n xs ys h = rw (take-append n xs ys, take_of_length-le n xs h)

  pub drop-append_le :
      (n : ℕ) (xs ys : List A) → n ≤ length xs → drop n (xs ++ ys) ≡ drop n xs ++ ys
  drop-append_le zero xs ys h = refl
  drop-append_le (suc n) [] ys h = absurd (omega arith)
  drop-append_le (suc n) (x ∷ xs) ys h = drop-append_le n xs ys (omega arith)

  pub drop-append_ge :
      (n : ℕ) (xs ys : List A) → length xs ≤ n → drop n (xs ++ ys) ≡ drop (n - length xs) ys
  drop-append_ge n xs ys h = rw (drop-append n xs ys, drop_of_length-le n xs h)

-- `xs[start .. start + n]`, cut at the end of `xs`.
abbrev pub slice {ℓ} : {A : Type ℓ} → List A → ℕ → ℕ → List A
slice xs start n = take n (drop start xs)

module _ {ℓ} {A : Type ℓ} (xs : List A) where
  pub length-slice : (start n : ℕ) → length (slice xs start n) ≡ min n (length xs - start)
  length-slice start n = rw (length-take n (drop start xs), length-drop start xs)

  pub length-slice_within : (start n : ℕ) → start + n ≤ length xs → length (slice xs start n) ≡ n
  length-slice_within start n h = omega (arith, length-slice start n)

  pub slice-slice :
      (start n skip m : ℕ)
      → slice (slice xs start n) skip m ≡ slice xs (start + skip) (min m (n - skip))
  slice-slice start n skip m = rw (
    drop-take skip n (drop start xs),
    take-take m (n - skip) (drop skip (drop start xs)),
    drop-drop skip start xs,
  )

  pub drop-slice :
      (start n skip : ℕ) → drop skip (slice xs start n) ≡ slice xs (start + skip) (n - skip)
  drop-slice start n skip = rw (drop-take skip n (drop start xs), drop-drop skip start xs)

  pub slice-append :
      (start m n : ℕ) → slice xs start m ++ slice xs (start + m) n ≡ slice xs start (m + n)
  slice-append start m n = rw (← drop-drop m start xs) (take-append-take m n (drop start xs))

  -- A slice may ask for more than there is.
  pub slice_to_end : (start n : ℕ) → slice xs start (min n (length xs - start)) ≡ slice xs start n
  slice_to_end start n =
      let rest = drop start xs in
      rw (
        ← length-drop start xs,
        ← take-take n (length rest) rest,
        take_of_length-le (length rest) rest (omega arith),
      )

abbrev pub cons_some {ℓ} : {A : Type ℓ} → Option A → List A → List A
cons_some none xs = xs
cons_some (some x) xs = x ∷ xs

pub cons_some-append {ℓ} :
    {A : Type ℓ} (o : Option A) (xs ys : List A) → cons_some o xs ++ ys ≡ cons_some o (xs ++ ys)
cons_some-append none xs ys = refl
cons_some-append (some x) xs ys = refl
