-- ===== src/Base/Digits.antt =====
-- Numbers read from texts, as `str::parse` and `from_str_radix` of the unsigned integers read them, and
-- the lower-case hexadecimal form (`LowerHex`).
pub mod ReadBack
use Prim.Native.Nat.{ℕ, zero, suc, ◌+◌, ◌-◌, ◌*◌, ◌/◌, ◌%◌, ◌≤◌, ◌<◌}
use mathlib.Core.Bool.{Bool, true, false, ◌&&◌}
use mathlib.Core.Path.{◌≡◌, refl, sym, ap, ◌∙◌}
use mathlib.Core.List.{List, [], ◌∷◌, ◌++◌}
use mathlib.Core.Logic.{inl, inr}
use mathlib.Core.Option.{Option, none, some}
use native.Mathlib.Omega.{arith}
use netlink_exporter.Base.Tests.{ltb, leb, ◌==◌, ltb→lt, if◌then◌else◌, Bool-cases, lt→ltb}
use netlink_exporter.Base.Lists.{is_empty}
use netlink_exporter.Base.Text.{Text, decimal, decimal_fuel}

-- The value of a digit, whatever the radix.
abbrev digit_value : ℕ → Option ℕ
digit_value c =
    if leb 48 c && leb c 57
    then some (c - 48)
    else if leb 97 c && leb c 122
    then some (c - 87)
    else if leb 65 c && leb c 90
    then some (c - 55)
    else none

-- `char::to_digit`
unfoldable pub to_digit : ℕ → ℕ → Option ℕ
to_digit radix c = elim (digit_value c) [
  | none ↦ none
  | some d ↦ if ltb d radix then some d else none
]

unfoldable pub read_digits : ℕ → ℕ → Text → Option ℕ
unfolding to_digit
read_digits radix acc [] = some acc
read_digits radix acc (c ∷ cs) = elim (to_digit radix c) [
  | none ↦ none
  | some d ↦ read_digits radix (acc * radix + d) cs
]

-- The digits behind an optional plus sign.
abbrev pub unsigned : Text → Text
unsigned [] = []
unsigned (c ∷ cs) = if c == b'+' then cs else c ∷ cs

abbrev pub below : ℕ → Option ℕ → Option ℕ
below bound none = none
below bound (some n) = if ltb n bound then some n else none

abbrev pub digits_below : ℕ → ℕ → Text → Option ℕ
unfolding read_digits
digits_below radix bound [] = none
digits_below radix bound (c ∷ cs) = below bound (read_digits radix 0 (c ∷ cs))

-- `from_str_radix` of the numbers below `bound`; the radix 10 is `str::parse`.
unfoldable pub from_str_radix : ℕ → ℕ → Text → Option ℕ
unfolding read_digits
from_str_radix radix bound text = digits_below radix bound (unsigned text)

abbrev pub lower_digit : ℕ → ℕ
lower_digit d = if ltb d 10 then 48 + d else 87 + d

-- The hexadecimal digits of a number, on fuel.
unfoldable pub hex_fuel : ℕ → ℕ → Text
hex_fuel zero n = lower_digit (n % 16) ∷ []
hex_fuel (suc f) n =
    let rest = hex_fuel f (n / 16) ++ lower_digit (n % 16) ∷ [] in
    if ltb n 16 then lower_digit (n % 16) ∷ [] else rest

-- A number has no more digits than its size.
unfoldable pub lower_hex : ℕ → Text
unfolding hex_fuel
lower_hex n = hex_fuel n n

-- `starts_with("0x")` and `trim_start_matches("0x")`
abbrev pub starts_0x : Text → Bool
starts_0x (a ∷ (b ∷ cs)) = (a == b'0') && (b == b'x')
starts_0x cs = false

unfoldable pub trim_0x : Text → Text
trim_0x [] = []
trim_0x (a ∷ []) = a ∷ []
trim_0x (a ∷ (b ∷ cs)) =
    let rest = trim_0x cs in if starts_0x (a ∷ (b ∷ cs)) then rest else a ∷ (b ∷ cs)
