-- ===== src/Decimal/Sign.antt =====
-- Signs and zeros of decimals: what a product, a quotient and a truncation keep.
use voip_platform.Base.{ℕ, ◌≡◌, Bool, true, false, arith}
use voip_platform.Base.Int.{pos, ◌≤ℤ◌}
use voip_platform.Decimal.{Decimal, fit, make, mul, truncate, is_le, dec}

-- A decimal that is not marked negative is truncated to a number of at least 0.
pub truncate_nonneg : (d : Decimal) → d.negative ≡ false → pos 0 ≤ℤ truncate d
unfolding truncate
truncate_nonneg d h = ground arith

pub fit_negative : (b : Bool) (n up down : ℕ) → (fit b n up down).negative ≡ b
unfolding fit make
fit_negative b n up down = ground arith

pub fit_zero : (b : Bool) (up down : ℕ) → (fit b 0 up down).coefficient ≡ 0
unfolding fit
fit_zero b up down = ground arith

pub mul_zero_left : (a b : Decimal) → a.coefficient ≡ 0 → (mul a b).coefficient ≡ 0
unfolding mul
mul_zero_left a b h = rw h (grind (arith, fit_zero))

-- A zero is at most 0, whatever its sign.
pub is_le-zero : (a : Decimal) → a.coefficient ≡ 0 → is_le a (dec 0 0) ≡ true
unfolding is_le
is_le-zero a h = rw h (ground arith)
