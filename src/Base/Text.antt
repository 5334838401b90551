-- ===== src/Base/Text.antt =====
-- Python's `str` as a list of code points, and the methods of `str` that the program calls. Of the
-- Unicode digits and blanks only the ASCII ones are told apart.
pub mod Numbers
use voip_platform.Base.Classes.{Eq, leb, nat_beq, ◌==◌, nat_eq, if◌then◌else◌}
use Prim.Native.Nat.{ℕ, zero, suc, ◌+◌, ◌-◌, ◌*◌, ◌≤◌}
use Prim.Native.Char.{Char, code}
use Prim.Native.String.{String}
use mathlib.Core.Path.{◌≡◌, refl, ap}
use mathlib.Core.Logic.{◌↔◌}
use mathlib.Core.Bool.{Bool, true, false, not, ◌&&◌, ◌||◌}
use mathlib.Core.Option.{Option, none, some}
use mathlib.Core.List.{List, [], ◌∷◌, ◌++◌, reverse}
use native.Mathlib.Omega.{arith}

abbrev pub Text : Type 0
Text = List ℕ

-- A literal of the source.
abbrev pub codes : String → Text
codes String.[] = []
codes (String.◌∷◌ c s) = code c ∷ codes s

unfoldable pub text_beq : Text → Text → Bool
text_beq [] [] = true
text_beq (a ∷ s) (b ∷ t) = nat_beq a b && text_beq s t
text_beq _ _ = false

pub text_beq_iff : (s t : Text) → (text_beq s t ≡ true) ↔ (s ≡ t)
unfolding text_beq
text_beq_iff [] [] = (λ h. refl, λ h. refl)
text_beq_iff (a ∷ s) (b ∷ t) =
    (λ h. ground (arith, text_beq_iff s t), λ h. ground (arith, text_beq_iff s t))
text_beq_iff [] (b ∷ t) = (λ h. cc, λ h. cc)
text_beq_iff (a ∷ s) [] = (λ h. cc, λ h. cc)

instance abbrev pub text_eq : Eq Text
text_eq = record { beq = text_beq; beq_iff = text_beq_iff }

is_blank : ℕ → Bool
is_blank c = c == 32 || (leb 9 c && leb c 13)

unfoldable pub is_digit : ℕ → Bool
is_digit c = leb b'0' c && leb c b'9'

-- `s.lstrip(c)`
unfoldable pub lstrip : ℕ → Text → Text
lstrip c [] = []
lstrip c (a ∷ s) = if a == c then lstrip c s else a ∷ s

strip_left : Text → Text
strip_left [] = []
strip_left (a ∷ s) = if is_blank a then strip_left s else a ∷ s

-- `s.strip()`
unfoldable pub strip : Text → Text
unfolding strip_left is_blank
strip s = reverse (strip_left (reverse (strip_left s)))

-- `s.split(c)[0]`
unfoldable pub split_head : ℕ → Text → Text
split_head c [] = []
split_head c (a ∷ s) = let rest = split_head c s in if a == c then [] else a ∷ rest

all_digits : Text → Bool
all_digits [] = true
all_digits (a ∷ s) = is_digit a && all_digits s

-- `s.isdigit()`
unfoldable pub isdigit : Text → Bool
unfolding all_digits is_digit
isdigit [] = false
isdigit (a ∷ s) = all_digits (a ∷ s)

-- `s.lower()` and `s.upper()`
unfoldable pub lower : Text → Text
lower [] = []
lower (a ∷ s) = (if leb b'A' a && leb a b'Z' then a + 32 else a) ∷ lower s

unfoldable pub upper : Text → Text
upper [] = []
upper (a ∷ s) = (if leb b'a' a && leb a b'z' then a - 32 else a) ∷ upper s

-- The truth of a `str`: whether it has a character.
abbrev pub is_nonempty : Text → Bool
is_nonempty [] = false
is_nonempty (_ ∷ _) = true

-- `s.rstrip("\n\r")` of a line that is kept from its end.
unfoldable pub drop_breaks : Text → Text
drop_breaks [] = []
drop_breaks (a ∷ s) = if a == 10 || a == 13 then drop_breaks s else a ∷ s

-- The characters at which `str.splitlines` splits.
unfoldable pub ends_line : ℕ → Bool
ends_line a = (leb 10 a && leb a 13) || (leb 28 a && leb a 30) || a == 133 || a == 8232 || a == 8233

-- `s.splitlines()`, behind a carriage return or not; `line` is kept backwards. A line feed behind a
-- carriage return ends no line of its own.
unfoldable pub split_lines_from : Bool → Text → Text → List Text
unfolding ends_line
split_lines_from returned line [] = if is_nonempty line then reverse line ∷ [] else []
split_lines_from returned line (a ∷ s) =
    let ends = ends_line a in
    let more = split_lines_from (a == 13) (if ends then [] else a ∷ line) s in
    if ends && not (returned && a == 10) then reverse line ∷ more else more

unfoldable pub splitlines : Text → List Text
unfolding split_lines_from
splitlines s = split_lines_from false [] s

-- The first word of a stripped line, `s.split()[0]`.
unfoldable pub first_word : Text → Text
unfolding is_blank
first_word [] = []
first_word (a ∷ s) = let rest = first_word s in if is_blank a then [] else a ∷ rest

-- `s.count(c)` of one character.
unfoldable pub count_char : ℕ → Text → ℕ
count_char c [] = 0
count_char c (a ∷ s) = (if a == c then 1 else 0) + count_char c s

-- `s.partition(": ")` where it occurs: what stands before and behind.
unfoldable pub partition_colon : Text → Option (Text × Text)
partition_colon [] = none
partition_colon (a ∷ []) = none
partition_colon (a ∷ b ∷ s) =
    let rest = partition_colon (b ∷ s) in
    if a == b':' && b == 32
    then some ([], s)
    else elim rest [ none ↦ none | some (key, value) ↦ some (a ∷ key, value) ]
