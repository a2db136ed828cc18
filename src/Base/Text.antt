-- ===== src/Base/Text.antt =====
-- Texts as lists of code points, and the decimal form of a number (`Display` of an unsigned integer).
use Prim.Native.Char.{code}
use Prim.Native.String.{String}
use Prim.Native.Nat.{ℕ, zero, suc, ◌+◌, ◌-◌, ◌*◌, ◌/◌, ◌%◌, ◌^◌, ◌≤◌}
use mathlib.Core.Path.{◌≡◌, refl, ◌∙◌}
use mathlib.Core.List.{List, [], ◌∷◌, ◌++◌}
use mathlib.Core.Logic.{inl, inr}
use native.Mathlib.Omega.{arith}
use netlink_exporter.Base.Tests.{ltb, ltb→lt, if◌then◌else◌, Bool-cases}

abbrev pub Text : Type 0
Text = List ℕ

abbrev pub codes : String → Text
codes String.[] = []
codes (String.◌∷◌ c s) = code c ∷ codes s

-- The decimal digits of a number, on fuel.
unfoldable pub decimal_fuel : ℕ → ℕ → Text
decimal_fuel zero n = (48 + n % 10) ∷ []
decimal_fuel (suc f) n =
    let rest = decimal_fuel f (n / 10) ++ (48 + n % 10) ∷ [] in
    if ltb n 10 then (48 + n % 10) ∷ [] else rest

-- A number has no more digits than its size.
unfoldable pub decimal : ℕ → Text
unfolding decimal_fuel
decimal n = decimal_fuel n n

-- `Display` of an `i32`, given by its bit pattern.
unfoldable pub signed_decimal : ℕ → Text
unfolding decimal
signed_decimal n = if ltb n (2 ^ 31) then decimal n else b'-' ∷ decimal (2 ^ 32 - n)

abbrev pub value_onto : ℕ → Text → ℕ
value_onto acc [] = acc
value_onto acc (c ∷ cs) = value_onto (acc * 10 + (c - 48)) cs

-- The number that a text of digits stands for.
abbrev pub value : Text → ℕ
value = value_onto 0

value_onto-append :
    (s : Text) (acc c : ℕ) → value_onto acc (s ++ c ∷ []) ≡ value_onto acc s * 10 + (c - 48)
value_onto-append [] acc c = refl
value_onto-append (x ∷ s) acc c = value_onto-append s (acc * 10 + (x - 48)) c

value-decimal_fuel : (f n : ℕ) → n ≤ f → value (decimal_fuel f n) ≡ n
unfolding decimal_fuel
value-decimal_fuel zero n h = omega arith
value-decimal_fuel (suc f) n h = elim (Bool-cases (ltb n 10)) [
  | inl small ↦ rw small (omega (arith, ltb→lt n 10 small))
  | inr big ↦ rw big (
      value_onto-append (decimal_fuel f (n / 10)) 0 (48 + n % 10)
      ∙ omega (arith, value-decimal_fuel f (n / 10) (ground arith)))
]

-- The decimal form of a number reads back as that number.
pub value-decimal : (n : ℕ) → value (decimal n) ≡ n
unfolding decimal
value-decimal n = value-decimal_fuel n n (omega arith)
