-- ===== src/Base/Digits/ReadBack.antt =====
-- Numbers printed in decimal and in hexadecimal are read back.
use Prim.Native.Nat.{ℕ, zero, suc, ◌+◌, ◌*◌, ◌/◌, ◌%◌, ◌≤◌, ◌<◌}
use mathlib.Core.Bool.{false}
use mathlib.Core.Path.{◌≡◌, refl, ap, ◌∙◌}
use mathlib.Core.List.{[], ◌∷◌, ◌++◌}
use mathlib.Core.Logic.{inl, inr}
use mathlib.Core.Option.{Option, none, some}
use native.Mathlib.Omega.{arith}
use netlink_exporter.Base.Tests.{ltb, ◌==◌, ltb→lt, Bool-cases, lt→ltb}
use netlink_exporter.Base.Lists.{is_empty}
use netlink_exporter.Base.Text.{Text, decimal, decimal_fuel}
use netlink_exporter.Base.Digits.{
  unsigned, digits_below, lower_digit, hex_fuel, below, to_digit, read_digits, from_str_radix,
  lower_hex, starts_0x, trim_0x,
}

-- What follows the first digit of a text.
abbrev continue : ℕ → ℕ → Text → Option ℕ → Option ℕ
continue radix acc cs none = none
continue radix acc cs (some d) = read_digits radix (acc * radix + d) cs

continue-append :
    (radix acc : ℕ) (s t : Text) (r r' : Option ℕ) (o : Option ℕ)
    → ((acc' : ℕ) → read_digits radix acc' s ≡ r → read_digits radix acc' (s ++ t) ≡ r')
    → continue radix acc s o ≡ r
    → (none ≡ r → none ≡ r')
    → continue radix acc (s ++ t) o ≡ r'
continue-append radix acc s t r r' none ih h fails = fails h
continue-append radix acc s t r r' (some d) ih h fails = ih (acc * radix + d) h

-- A digit behind a text that reads as a number.
read_digits-append :
    (radix : ℕ) (s : Text) (acc n c d : ℕ)
    → read_digits radix acc s ≡ some n
    → to_digit radix c ≡ some d
    → read_digits radix acc (s ++ c ∷ []) ≡ some (n * radix + d)
unfolding read_digits
read_digits-append radix [] acc n c d h e =
    let same : acc ≡ n = ground (arith, h) in
    rw (read_digits, e) (ap (λ (m : ℕ). some (m * radix + d)) same)
read_digits-append radix (x ∷ s) acc n c d h e =
    continue-append radix acc s (c ∷ []) (some n) (some (n * radix + d)) (to_digit radix x)
      (λ acc' h'. read_digits-append radix s acc' n c d h' e) h (λ e'. absurd (ground (arith, e')))

to_digit-decimal : (n : ℕ) → to_digit 10 (48 + n % 10) ≡ some (n % 10)
unfolding to_digit
to_digit-decimal n = ground arith

to_digit-lower_digit : (n : ℕ) → to_digit 16 (lower_digit (n % 16)) ≡ some (n % 16)
unfolding to_digit
to_digit-lower_digit n = ground arith

read_digits-decimal_fuel : (f n : ℕ) → n ≤ f → read_digits 10 0 (decimal_fuel f n) ≡ some n
unfolding decimal_fuel read_digits
read_digits-decimal_fuel zero n h =
    rw (read_digits, to_digit-decimal n) (ap (λ (m : ℕ). some m) (omega (arith, h)))
read_digits-decimal_fuel (suc f) n h = elim (Bool-cases (ltb n 10)) [
  | inl small ↦
      rw (small, read_digits, to_digit-decimal n)
        (ap (λ (m : ℕ). some m) (omega (arith, ltb→lt n 10 small)))
  | inr big ↦ rw big (
      read_digits-append 10 (decimal_fuel f (n / 10)) 0 (n / 10) (48 + n % 10) (n % 10)
        (read_digits-decimal_fuel f (n / 10) (ground arith)) (to_digit-decimal n)
      ∙ ap (λ (m : ℕ). some m) (omega arith))
]

read_digits-hex_fuel : (f n : ℕ) → n ≤ f → read_digits 16 0 (hex_fuel f n) ≡ some n
unfolding hex_fuel read_digits
read_digits-hex_fuel zero n h =
    rw (read_digits, to_digit-lower_digit n) (ap (λ (m : ℕ). some m) (omega (arith, h)))
read_digits-hex_fuel (suc f) n h = elim (Bool-cases (ltb n 16)) [
  | inl small ↦
      rw (small, read_digits, to_digit-lower_digit n)
        (ap (λ (m : ℕ). some m) (omega (arith, ltb→lt n 16 small)))
  | inr big ↦ rw big (
      read_digits-append 16 (hex_fuel f (n / 16)) 0 (n / 16) (lower_digit (n % 16)) (n % 16)
        (read_digits-hex_fuel f (n / 16) (ground arith)) (to_digit-lower_digit n)
      ∙ ap (λ (m : ℕ). some m) (omega arith))
]

is_empty-append : (s : Text) (c : ℕ) → is_empty (s ++ c ∷ []) ≡ false
is_empty-append [] c = refl
is_empty-append (x ∷ s) c = refl

is_empty-decimal_fuel : (f n : ℕ) → is_empty (decimal_fuel f n) ≡ false
unfolding decimal_fuel
is_empty-decimal_fuel zero n = refl
is_empty-decimal_fuel (suc f) n = elim (Bool-cases (ltb n 10)) [
  | inl small ↦ rw small refl
  | inr big ↦ rw big (is_empty-append (decimal_fuel f (n / 10)) (48 + n % 10))
]

is_empty-hex_fuel : (f n : ℕ) → is_empty (hex_fuel f n) ≡ false
unfolding hex_fuel
is_empty-hex_fuel zero n = refl
is_empty-hex_fuel (suc f) n = elim (Bool-cases (ltb n 16)) [
  | inl small ↦ rw small refl
  | inr big ↦ rw big (is_empty-append (hex_fuel f (n / 16)) (lower_digit (n % 16)))
]

read_digits-none :
    (radix acc c : ℕ) (cs : Text) → to_digit radix c ≡ none → read_digits radix acc (c ∷ cs) ≡ none
unfolding read_digits
read_digits-none radix acc c cs e = rw (read_digits, e) refl

-- A text of digits starts with no sign.
unsigned_plain :
    (radix c n : ℕ) (cs : Text)
    → to_digit radix b'+' ≡ none
    → read_digits radix 0 (c ∷ cs) ≡ some n
    → unsigned (c ∷ cs) ≡ c ∷ cs
unsigned_plain radix c n cs plus h = elim (Bool-cases (c == b'+')) [
  | inl sign ↦
      let same : c ≡ b'+' = ground (arith, sign) in
      let stuck : read_digits radix 0 (c ∷ cs) ≡ none =
        read_digits-none radix 0 c cs (ap (to_digit radix) same ∙ plus) in
      absurd (ground (arith, h, stuck))
  | inr digit ↦ rw digit refl
]

from_str_radix-read_digits :
    (radix bound : ℕ) (t : Text) (n : ℕ)
    → to_digit radix b'+' ≡ none
    → is_empty t ≡ false
    → read_digits radix 0 t ≡ some n
    → n < bound
    → from_str_radix radix bound t ≡ some n
unfolding from_str_radix
from_str_radix-read_digits radix bound [] n plus filled h fits = absurd (ground (arith, filled))
from_str_radix-read_digits radix bound (c ∷ cs) n plus filled h fits =
    ap (digits_below radix bound) (unsigned_plain radix c n cs plus h)
    ∙ (ap (below bound) h ∙ rw (lt→ltb n bound fits) refl)

-- A number in decimal is read back, if it fits.
pub from_str_radix-decimal :
    (bound n : ℕ) → n < bound → from_str_radix 10 bound (decimal n) ≡ some n
unfolding decimal to_digit
from_str_radix-decimal bound n fits =
    from_str_radix-read_digits 10 bound (decimal_fuel n n) n refl (is_empty-decimal_fuel n n)
      (read_digits-decimal_fuel n n (omega arith)) fits

-- A number in hexadecimal is read back, if it fits.
pub from_str_radix-lower_hex :
    (bound n : ℕ) → n < bound → from_str_radix 16 bound (lower_hex n) ≡ some n
unfolding lower_hex to_digit
from_str_radix-lower_hex bound n fits =
    from_str_radix-read_digits 16 bound (hex_fuel n n) n refl (is_empty-hex_fuel n n)
      (read_digits-hex_fuel n n (omega arith)) fits

continue-none :
    (radix acc : ℕ) (cs : Text) (o : Option ℕ)
    → ((acc' : ℕ) → read_digits radix acc' cs ≡ none)
    → continue radix acc cs o ≡ none
continue-none radix acc cs none h = refl
continue-none radix acc cs (some d) h = h (acc * radix + d)

-- A number has no `x` as its second digit.
starts_0x-read_digits :
    (radix acc n : ℕ) (t : Text)
    → to_digit radix b'x' ≡ none
    → read_digits radix acc t ≡ some n
    → starts_0x t ≡ false
unfolding read_digits
starts_0x-read_digits radix acc n [] x h = refl
starts_0x-read_digits radix acc n (a ∷ []) x h = refl
starts_0x-read_digits radix acc n (a ∷ (b ∷ cs)) x h = elim (Bool-cases (b == b'x')) [
  | inl second ↦
      let same : b ≡ b'x' = ground (arith, second) in
      let stuck : continue radix acc (b ∷ cs) (to_digit radix a) ≡ none =
        continue-none radix acc (b ∷ cs) (to_digit radix a)
          (λ acc'. read_digits-none radix acc' b cs (ap (to_digit radix) same ∙ x)) in
      absurd (ground (arith, h, stuck))
  | inr other ↦ ground (arith, other)
]

pub starts_0x-decimal : (n : ℕ) → starts_0x (decimal n) ≡ false
unfolding decimal to_digit
starts_0x-decimal n =
    starts_0x-read_digits 10 0 n (decimal_fuel n n) refl
      (read_digits-decimal_fuel n n (omega arith))

trim_0x-plain : (t : Text) → starts_0x t ≡ false → trim_0x t ≡ t
unfolding trim_0x
trim_0x-plain [] h = refl
trim_0x-plain (a ∷ []) h = refl
trim_0x-plain (a ∷ (b ∷ cs)) h = rw h refl

-- The digits behind the mark `0x` are what trimming it leaves.
pub trim_0x-lower_hex : (n : ℕ) → trim_0x (b'0' ∷ b'x' ∷ lower_hex n) ≡ lower_hex n
unfolding trim_0x lower_hex to_digit
trim_0x-lower_hex n =
    trim_0x-plain (hex_fuel n n)
      (starts_0x-read_digits 16 0 n (hex_fuel n n) refl (read_digits-hex_fuel n n (omega arith)))
