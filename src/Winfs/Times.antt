-- ===== src/Winfs/Times.antt =====
-- The times of src/winfs/time.rs. A `SystemTime` is its number of nanoseconds from the Unix epoch,
-- exact as on a system whose clock counts nanoseconds.
use hf_mount.Base.{
  ℕ, zero, suc, ◌+◌, ◌-◌, ◌*◌, ◌/◌, ◌%◌, ◌≤◌, ◌<◌, min, ◌≡◌, ◌∙◌, ap, true, arith, ltb, leb,
  if◌then◌else◌, u64_mod, saturating_add64, saturating_add64_exact, ℤ, pos, negsuc, Bool-cases, inl,
  inr, leb→le,
}

abbrev pub unix_epoch_as_filetime : ℕ
unix_epoch_as_filetime = 116444736000000000

-- `u64::try_from(ticks).unwrap_or(u64::MAX)`
unfoldable pub u64_or_max : ℕ → ℕ
u64_or_max ticks = if ltb ticks u64_mod then ticks else u64_mod - 1

unfoldable pub saturating_mul64 : ℕ → ℕ → ℕ
saturating_mul64 a b = min (a * b) (u64_mod - 1)

unfoldable pub to_filetime : ℤ → ℕ
to_filetime (pos after) = saturating_add64 unix_epoch_as_filetime (u64_or_max (after / 100))
to_filetime (negsuc before) = unix_epoch_as_filetime - u64_or_max ((before + 1) / 100)

-- `UNIX_EPOCH - Duration`
abbrev pub before_epoch : ℕ → ℤ
before_epoch zero = pos 0
before_epoch (suc n) = negsuc n

unfoldable pub from_filetime : ℕ → ℤ
from_filetime ft =
    if leb unix_epoch_as_filetime ft
    then pos (saturating_mul64 (ft - unix_epoch_as_filetime) 100)
    else before_epoch (saturating_mul64 (unix_epoch_as_filetime - ft) 100)

-- Nothing saturates in these.
u64_or_max_exact : (ticks : ℕ) → ticks < u64_mod → u64_or_max ticks ≡ ticks
unfolding u64_or_max
u64_or_max_exact ticks small = ground arith

saturating_mul64_exact : (a : ℕ) → a * 100 < u64_mod → saturating_mul64 a 100 ≡ a * 100
unfolding saturating_mul64
saturating_mul64_exact a small = omega arith

-- The last FILETIME whose distance from the epoch fits `u64` nanoseconds, in the year 2554.
abbrev pub last_exact : ℕ
last_exact = 300912176737095516

after_epoch :
    (nanos : ℕ) → nanos < u64_mod → to_filetime (pos nanos) ≡ unix_epoch_as_filetime + nanos / 100
unfolding to_filetime
after_epoch nanos small =
    ap (saturating_add64 unix_epoch_as_filetime) (u64_or_max_exact (nanos / 100) (omega arith))
    ∙ saturating_add64_exact unix_epoch_as_filetime (nanos / 100)
    ∙ omega arith

until_epoch :
    (nanos : ℕ)
    → nanos < u64_mod
    → to_filetime (before_epoch nanos) ≡ unix_epoch_as_filetime - nanos / 100
unfolding to_filetime
until_epoch zero small = after_epoch 0 small ∙ omega arith
until_epoch (suc n) small =
    let e : (n + 1) / 100 ≡ suc n / 100 = ap (λ m. m / 100) (omega arith) in
    ap (λ m. unix_epoch_as_filetime - m) (u64_or_max_exact ((n + 1) / 100) (omega arith) ∙ e)

-- A FILETIME up to the year 2554 comes back from the `SystemTime` that it stands for.
pub to_filetime-from_filetime : (ft : ℕ) → ft ≤ last_exact → to_filetime (from_filetime ft) ≡ ft
unfolding from_filetime
to_filetime-from_filetime ft exact = elim (Bool-cases (leb unix_epoch_as_filetime ft)) [
  | inl after ↦
      let ticks = ft - unix_epoch_as_filetime in
      let late : unix_epoch_as_filetime ≤ ft = leb→le unix_epoch_as_filetime ft after in
      let product = saturating_mul64_exact ticks (omega arith) in
      rw after (
        ap (λ m. to_filetime (pos m)) product
        ∙ after_epoch (ticks * 100) (omega arith)
        ∙ omega arith)
  | inr before ↦
      let ticks = unix_epoch_as_filetime - ft in
      let early : ft < unix_epoch_as_filetime = ground arith in
      let product = saturating_mul64_exact ticks (omega arith) in
      rw before (
        ap (λ m. to_filetime (before_epoch m)) product
        ∙ until_epoch (ticks * 100) (omega arith)
        ∙ omega arith)
]

-- A time from the epoch to the year 2554 loses less than 100 nanoseconds on the way through FILETIME.
pub from_filetime-to_filetime :
    (nanos : ℕ)
    → nanos < u64_mod
    → from_filetime (to_filetime (pos nanos)) ≡ pos (nanos - nanos % 100)
unfolding from_filetime
from_filetime-to_filetime nanos small =
    let ticks = nanos / 100 in
    let late : leb unix_epoch_as_filetime (unix_epoch_as_filetime + ticks) ≡ true = ground arith in
    let left : unix_epoch_as_filetime + ticks - unix_epoch_as_filetime ≡ ticks = omega arith in
    ap from_filetime (after_epoch nanos small)
    ∙ rw (late, left) (ap pos (saturating_mul64_exact ticks (omega arith) ∙ omega arith))
