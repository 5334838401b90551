-- ===== src/Base/Text/Numbers.antt =====
-- `int(s)` and `str(n)`. Underscores between digits, which Python also takes, are refused.
use voip_platform.Base.Classes.{ltb, if◌then◌else◌, ◌==◌, nat_eq}
use voip_platform.Base.Int.{ℤ, pos, negsuc, sub_ℕ}
use voip_platform.Base.Text.{Text, is_digit, strip}
use Prim.Native.Nat.{ℕ, zero, suc, ◌+◌, ◌-◌, ◌*◌, ◌/◌, ◌%◌}
use mathlib.Core.Bool.{true, false}
use mathlib.Core.Option.{Option, none, some}
use mathlib.Core.List.{[], ◌∷◌}

digits_value : ℕ → Text → Option ℕ
digits_value acc [] = some acc
digits_value acc (a ∷ s) =
    let rest = digits_value (acc * 10 + (a - b'0')) s in if is_digit a then rest else none

number : Text → Option ℕ
unfolding digits_value is_digit
number [] = none
number (a ∷ s) = digits_value 0 (a ∷ s)

abbrev positive : Option ℕ → Option ℤ
positive none = none
positive (some n) = some (pos n)

abbrev negated : Option ℕ → Option ℤ
negated none = none
negated (some n) = some (sub_ℕ 0 n)

signed_number : Text → Option ℤ
unfolding number
signed_number [] = none
signed_number (a ∷ s) =
    if a == b'-'
    then negated (number s)
    else if a == b'+'
    then positive (number s)
    else positive (number (a ∷ s))

-- `int(s)`, with `none` for a ValueError.
unfoldable pub parse_int : Text → Option ℤ
unfolding signed_number strip
parse_int s = signed_number (strip s)

-- The digits in front of `acc`; as much fuel as the number itself is enough.
show_upto : ℕ → ℕ → Text → Text
show_upto zero n acc = acc
show_upto (suc fuel) n acc =
    let digit = b'0' + n % 10 in
    elim (ltb n 10) [ true ↦ digit ∷ acc | false ↦ show_upto fuel (n / 10) (digit ∷ acc) ]

-- `str(n)`
unfoldable pub show_int : ℤ → Text
unfolding show_upto
show_int (pos n) = show_upto (suc n) n []
show_int (negsuc n) = b'-' ∷ show_upto (suc (suc n)) (suc n) []
