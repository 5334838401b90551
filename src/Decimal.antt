-- ===== src/Decimal.antt =====
-- Python's `decimal.Decimal` under the default context: 28 significant digits, halves to even. A
-- value is a sign, a coefficient and a scale, `coefficient / 10 ^ scale`; the program reads values
-- only, so the trailing zeros that tell 1.0 from 1.00 are not kept apart. A positive exponent is
-- written out in the coefficient.
pub mod Sign
pub mod Width
use voip_platform.Base.{
  ℕ, zero, suc, ◌+◌, ◌-◌, ◌*◌, ◌/◌, ◌%◌, ◌^◌, ◌≡◌, refl, Bool, true, false, ltb, leb, nat_beq,
  if◌then◌else◌,
}
use voip_platform.Base.Int.{ℤ, pos, negsuc, pos_part, neg_part, sub_ℕ, ◌+ℤ◌, ◌-ℤ◌, ltb_ℤ, leb_ℤ}
use mathlib.Core.Bool.{xor}

pub record Decimal : Type 0 where
  pub negative : Bool
  pub coefficient : ℕ
  pub scale : ℕ

-- The context's precision.
abbrev pub precision : ℕ
precision = 28

-- The number of decimal digits; as much fuel as the number itself is enough.
unfoldable pub width_upto : ℕ → ℕ → ℕ
width_upto zero n = 1
width_upto (suc fuel) n = elim (ltb n 10) [ true ↦ 1 | false ↦ suc (width_upto fuel (n / 10)) ]

unfoldable pub width : ℕ → ℕ
unfolding width_upto
width n = width_upto n n

-- n / 10 ^ k to the nearest whole number, halves to even.
unfoldable pub half_even : ℕ → ℕ → ℕ
half_even n k =
    let q = n / 10 ^ k in
    let r = n % 10 ^ k in
    if ltb (10 ^ k) (2 * r) then q + 1 else if nat_beq (2 * r) (10 ^ k) then q + q % 2 else q

-- The value n * 10 ^ up / 10 ^ down.
unfoldable pub make : Bool → ℕ → ℕ → ℕ → Decimal
make neg n up down =
    if leb up down
    then record { negative = neg; coefficient = n; scale = down - up }
    else record { negative = neg; coefficient = n * 10 ^ (up - down); scale = 0 }

-- The same value, rounded to the precision.
unfoldable pub fit : Bool → ℕ → ℕ → ℕ → Decimal
unfolding width half_even make
fit neg n up down =
    let k = width n - precision in
    if leb (width n) precision then make neg n up down else make neg (half_even n k) (up + k) down

-- `Decimal(n)` of an int.
unfoldable pub of_ℤ : ℤ → Decimal
of_ℤ (pos n) = record { negative = false; coefficient = n; scale = 0 }
of_ℤ (negsuc n) = record { negative = true; coefficient = suc n; scale = 0 }

abbrev signed : Bool → ℕ → ℤ
signed true n = sub_ℕ 0 n
signed false n = pos n

-- The numerator of a decimal over 10 ^ (its scale + k).
unfoldable pub numerator : Decimal → ℕ → ℤ
numerator d k = signed d.negative (d.coefficient * 10 ^ k)

of_numerator : ℤ → ℕ → Decimal
of_numerator (pos n) s = fit false n 0 s
of_numerator (negsuc n) s = fit true (suc n) 0 s

unfoldable pub add : Decimal → Decimal → Decimal
unfolding numerator of_numerator fit ◌+ℤ◌
add a b = of_numerator (numerator a b.scale +ℤ numerator b a.scale) (a.scale + b.scale)

unfoldable pub sub : Decimal → Decimal → Decimal
unfolding numerator of_numerator fit ◌-ℤ◌
sub a b = of_numerator (numerator a b.scale -ℤ numerator b a.scale) (a.scale + b.scale)

unfoldable pub mul : Decimal → Decimal → Decimal
unfolding fit xor
mul a b = fit (xor a.negative b.negative) (a.coefficient * b.coefficient) 0 (a.scale + b.scale)

-- A quotient that is not exact must not look like a tie to the rounding that follows.
abbrev sticky : ℕ → ℕ → ℕ
sticky n d =
    let q = n / d in if nat_beq (n % d) 0 then q else if nat_beq (q % 5) 0 then q + 1 else q

-- The program never divides by zero.
unfoldable pub div : Decimal → Decimal → Decimal
unfolding fit xor
div a b =
    let neg = xor a.negative b.negative in
    let up = width b.coefficient + precision + 1 in
    let down = width a.coefficient in
    fit neg (sticky (a.coefficient * 10 ^ (up - down)) (b.coefficient * 10 ^ (down - up)))
      (b.scale + (down - up)) (a.scale + (up - down))

unfoldable pub is_lt : Decimal → Decimal → Bool
unfolding numerator
is_lt a b = ltb_ℤ (numerator a b.scale) (numerator b a.scale)

unfoldable pub is_le : Decimal → Decimal → Bool
unfolding numerator
is_le a b = leb_ℤ (numerator a b.scale) (numerator b a.scale)

-- `max(a, b)`, which keeps its first argument on a tie.
unfoldable pub max : Decimal → Decimal → Decimal
unfolding is_lt
max a b = if is_lt a b then b else a

-- `int(d)`: towards zero.
unfoldable pub truncate : Decimal → ℤ
truncate d = signed d.negative (d.coefficient / 10 ^ d.scale)

-- A literal: n / 10 ^ s.
abbrev pub dec : ℕ → ℕ → Decimal
dec n s = record { negative = false; coefficient = n; scale = s }

-- What a Numeric column of so many decimals holds of the value: rounded, halves away from zero.
unfoldable pub numeric : ℕ → Decimal → Decimal
numeric decimals d =
    let cut = d.scale - decimals in
    if leb d.scale decimals then d else record {
      negative = d.negative;
      coefficient = (2 * d.coefficient + 10 ^ cut) / (2 * 10 ^ cut);
      scale = decimals;
    }
