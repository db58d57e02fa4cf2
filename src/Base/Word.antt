-- ===== src/Base/Word.antt =====
-- Arithmetic of `u64`, `u32` and `usize`, which wraps round in a release build.
use Prim.Native.Nat.{ℕ, ◌+◌, ◌-◌, ◌*◌, ◌%◌, ◌≤◌, ◌<◌, min}
use mathlib.Core.Path.{◌≡◌, refl}
use native.Mathlib.Omega.{arith}

abbrev pub u64_mod : ℕ
u64_mod = 18446744073709551616

abbrev pub u32_mod : ℕ
u32_mod = 4294967296

unfoldable pub add64 : ℕ → ℕ → ℕ
add64 a b = (a + b) % u64_mod

pub sub64 : ℕ → ℕ → ℕ
sub64 a b = (a + (u64_mod - b)) % u64_mod

pub mul64 : ℕ → ℕ → ℕ
mul64 a b = (a * b) % u64_mod

unfoldable pub add32 : ℕ → ℕ → ℕ
add32 a b = (a + b) % u32_mod

pub sub32 : ℕ → ℕ → ℕ
sub32 a b = (a + (u32_mod - b)) % u32_mod

-- `u64::saturating_add`
pub saturating_add64 : ℕ → ℕ → ℕ
saturating_add64 a b = min (a + b) 18446744073709551615

module _ (a b : ℕ) where
  pub add64_exact : a + b < u64_mod → add64 a b ≡ a + b
  unfolding add64
  add64_exact h = omega arith

  pub sub64_exact : b ≤ a → a < u64_mod → sub64 a b ≡ a - b
  unfolding sub64
  sub64_exact h k = omega arith

  pub add32_exact : a + b < u32_mod → add32 a b ≡ a + b
  unfolding add32
  add32_exact h = omega arith

  pub sub32_exact : b ≤ a → a < u32_mod → sub32 a b ≡ a - b
  unfolding sub32
  sub32_exact h k = omega arith

  pub saturating_add64_exact : saturating_add64 a b ≡ min (a + b) 18446744073709551615
  unfolding saturating_add64
  saturating_add64_exact = refl

  pub saturating_add64_pos : 0 < b → 0 < saturating_add64 a b
  unfolding saturating_add64
  saturating_add64_pos h = omega arith

pub mul64_exact : (a b : ℕ) → a * b < u64_mod → mul64 a b ≡ a * b
unfolding mul64
mul64_exact a b h = omega arith

pub ruleset words = (add64_exact, sub64_exact, mul64_exact, add32_exact, sub32_exact)
