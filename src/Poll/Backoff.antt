-- ===== src/Poll/Backoff.antt =====
-- `Backoff` of src/virtual_fs/poll.rs. A `Duration` is its nanoseconds.
use native.Mathlib.Nat.{mul-le-mul_left}
use hf_mount.Base.{
  ℕ, zero, suc, ◌+◌, ◌*◌, ◌^◌, ◌≤◌, min, ◌≡◌, refl, ◌∙◌, ap, Bool, arith, ltb, u32_mod, add32,
  add32_exact, ◌%◌,
}

pub record Backoff : Type 0 where
  pub base : ℕ
  pub exp : ℕ

abbrev pub max_exp : ℕ
max_exp = 6

-- `Duration::MAX`, and `saturating_mul`.
abbrev pub duration_max : ℕ
duration_max = 18446744073709551615999999999

abbrev pub saturating_mul : ℕ → ℕ → ℕ
saturating_mul d n = min (d * n) duration_max

-- `1u32 << exp`, for an exponent below 32.
abbrev pub shift : ℕ → ℕ
shift exp = (2 ^ exp) % u32_mod

unfoldable pub new : ℕ → Backoff
new base = record { base = base; exp = 0 }

unfoldable pub delay : Backoff → ℕ
delay b = saturating_mul b.base (shift b.exp)

unfoldable pub next : Backoff → Backoff × ℕ
next b = (record b { exp = min (add32 b.exp 1) max_exp }, delay b)

unfoldable pub max_delay : Backoff → ℕ
max_delay b = saturating_mul b.base (shift max_exp)

unfoldable pub is_backing_off : Backoff → Bool
is_backing_off b = ltb 0 b.exp

unfoldable pub reset : Backoff → Backoff
reset b = record b { exp = 0 }

-- `n` failures in a row.
unfoldable pub failures : ℕ → Backoff → Backoff
failures zero b = b
failures (suc n) b = failures n (next b).0

failures_exp :
    (n : ℕ) (b : Backoff)
    → b.exp ≤ max_exp
    → ((failures n b).exp ≡ min (b.exp + n) max_exp) × ((failures n b).base ≡ b.base)
unfolding failures next
failures_exp zero b h = (omega arith, refl)
failures_exp (suc n) b h =
    let up : add32 b.exp 1 ≡ b.exp + 1 = add32_exact b.exp 1 (omega arith) in
    let (e, same) = failures_exp n (next b).0 (omega arith) in (e ∙ omega arith, same)

shift_exact : (e : ℕ) → e ≤ 6 → shift e ≡ 2 ^ e
shift_exact zero h = refl
shift_exact (suc zero) h = refl
shift_exact (suc (suc zero)) h = refl
shift_exact (suc (suc (suc zero))) h = refl
shift_exact (suc (suc (suc (suc zero)))) h = refl
shift_exact (suc (suc (suc (suc (suc zero))))) h = refl
shift_exact (suc (suc (suc (suc (suc (suc zero)))))) h = refl
shift_exact (suc (suc (suc (suc (suc (suc (suc e))))))) h = absurd (omega arith)

shift-le : (e : ℕ) → e ≤ 6 → shift e ≤ 64
shift-le zero h = omega arith
shift-le (suc zero) h = omega arith
shift-le (suc (suc zero)) h = omega arith
shift-le (suc (suc (suc zero))) h = omega arith
shift-le (suc (suc (suc (suc zero)))) h = omega arith
shift-le (suc (suc (suc (suc (suc zero))))) h = omega arith
shift-le (suc (suc (suc (suc (suc (suc zero)))))) h = omega arith
shift-le (suc (suc (suc (suc (suc (suc (suc e))))))) h = absurd (omega arith)

-- After a reset and `n` failures in a row the delay is the base doubled `n` times, but six times at
-- most, up to the longest duration; it is never above `max_delay`; and the loop is backing off
-- exactly if there was a failure.
pub delay-failures :
    (n : ℕ) (b : Backoff)
    → (delay (failures n (reset b)) ≡ min (b.base * 2 ^ min n 6) duration_max)
      × (delay (failures n (reset b)) ≤ max_delay b)
      × (is_backing_off (failures n (reset b)) ≡ ltb 0 n)
unfolding delay max_delay is_backing_off reset
delay-failures n b =
    let (e, same) = failures_exp n (reset b) (omega arith) in
    let level : (failures n (reset b)).exp ≡ min n 6 = e ∙ omega arith in
    let kept : (failures n (reset b)).base ≡ b.base = same in
    let exact : shift (min n 6) ≡ 2 ^ min n 6 = shift_exact (min n 6) (omega arith) in
    let small : b.base * shift (min n 6) ≤ b.base * 64 =
      mul-le-mul_left b.base (shift-le (min n 6) (omega arith)) in
    let cap : min (b.base * shift (min n 6)) duration_max ≤ min (b.base * 64) duration_max =
      omega arith in
    rw (level, kept) (ap (λ k. min (b.base * k) duration_max) exact, cap, ground arith)
