-- ===== src/Base/Order.antt =====
-- Total orders on keys as instances, with the order of texts: code point by code point, which is
-- the order of their UTF-8 bytes.
use Prim.Native.Nat.{ℕ, compare}
use netlink_exporter.Base.Text.{Text}
use mathlib.Core.Path.{◌≡◌, refl, sym}
use mathlib.Core.Bool.{Bool, true, false}
use mathlib.Core.Logic.{◌↔◌, inl, inr}
use netlink_exporter.Base.Tests.{Bool-cases}
use mathlib.Core.List.{[], ◌∷◌}
use native.Mathlib.Omega.{arith}
pub use Prim.Native.Nat.{Ordering}

pub record Ord {ℓ} (K : Type ℓ) : Type ℓ where
  pub cmp : K → K → Ordering
  pub cmp_eq : (a b : K) → cmp a b ≡ Ordering.eq → a ≡ b
  pub cmp_refl : (a : K) → cmp a a ≡ Ordering.eq
  pub cmp_gt : (a b : K) → cmp a b ≡ Ordering.gt → cmp b a ≡ Ordering.lt
  pub cmp_lt : (a b : K) → cmp a b ≡ Ordering.lt → cmp b a ≡ Ordering.gt
  pub cmp_trans :
      (a b c : K) → cmp a b ≡ Ordering.lt → cmp b c ≡ Ordering.lt → cmp a c ≡ Ordering.lt

-- The order of two pairs: that of the first parts, then that of the second.
abbrev pub then_cmp : Ordering → Ordering → Ordering
then_cmp Ordering.lt o = Ordering.lt
then_cmp Ordering.gt o = Ordering.gt
then_cmp Ordering.eq o = o

abbrev pub text_cmp : Text → Text → Ordering
text_cmp [] [] = Ordering.eq
text_cmp [] (b ∷ bs) = Ordering.lt
text_cmp (a ∷ as1) [] = Ordering.gt
text_cmp (a ∷ as1) (b ∷ bs) = then_cmp (compare a b) (text_cmp as1 bs)

pub text_cmp_eq : (a b : Text) → text_cmp a b ≡ Ordering.eq → a ≡ b
text_cmp_eq [] [] e = refl
text_cmp_eq [] (b ∷ bs) e = cc
text_cmp_eq (a ∷ s) [] e = cc
text_cmp_eq (a ∷ s) (b ∷ t) e = ground (arith, text_cmp_eq s t)

pub text_cmp_refl : (a : Text) → text_cmp a a ≡ Ordering.eq
text_cmp_refl [] = refl
text_cmp_refl (a ∷ s) = ground (arith, text_cmp_refl s)

pub text_cmp_gt : (a b : Text) → text_cmp a b ≡ Ordering.gt → text_cmp b a ≡ Ordering.lt
text_cmp_gt [] [] e = cc
text_cmp_gt [] (b ∷ bs) e = cc
text_cmp_gt (a ∷ s) [] e = refl
text_cmp_gt (a ∷ s) (b ∷ t) e = ground (arith, text_cmp_gt s t)

pub text_cmp_lt : (a b : Text) → text_cmp a b ≡ Ordering.lt → text_cmp b a ≡ Ordering.gt
text_cmp_lt [] [] e = cc
text_cmp_lt [] (b ∷ bs) e = refl
text_cmp_lt (a ∷ s) [] e = cc
text_cmp_lt (a ∷ s) (b ∷ t) e = ground (arith, text_cmp_lt s t)

pub text_cmp_trans :
    (a b c : Text)
    → text_cmp a b ≡ Ordering.lt
    → text_cmp b c ≡ Ordering.lt
    → text_cmp a c ≡ Ordering.lt
text_cmp_trans [] [] c e f = cc
text_cmp_trans [] (b ∷ t) [] e f = cc
text_cmp_trans [] (b ∷ t) (c ∷ u) e f = refl
text_cmp_trans (a ∷ s) [] c e f = cc
text_cmp_trans (a ∷ s) (b ∷ t) [] e f = cc
text_cmp_trans (a ∷ s) (b ∷ t) (c ∷ u) e f = ground (arith, text_cmp_trans s t u)

instance abbrev pub text_ord : Ord Text
text_ord = record {
  cmp = text_cmp;
  cmp_eq = text_cmp_eq;
  cmp_refl = text_cmp_refl;
  cmp_gt = text_cmp_gt;
  cmp_lt = text_cmp_lt;
  cmp_trans = text_cmp_trans;
}

-- The order of numbers, and that of pairs.
pub compare_eq : (a b : ℕ) → compare a b ≡ Ordering.eq → a ≡ b
compare_eq a b e = ground arith

pub compare_refl : (a : ℕ) → compare a a ≡ Ordering.eq
compare_refl a = ground arith

pub compare_gt : (a b : ℕ) → compare a b ≡ Ordering.gt → compare b a ≡ Ordering.lt
compare_gt a b e = ground arith

pub compare_lt : (a b : ℕ) → compare a b ≡ Ordering.lt → compare b a ≡ Ordering.gt
compare_lt a b e = ground arith

pub compare_trans :
    (a b c : ℕ) → compare a b ≡ Ordering.lt → compare b c ≡ Ordering.lt → compare a c ≡ Ordering.lt
compare_trans a b c e f = ground arith

instance abbrev pub nat_ord : Ord ℕ
nat_ord = record {
  cmp = compare;
  cmp_eq = compare_eq;
  cmp_refl = compare_refl;
  cmp_gt = compare_gt;
  cmp_lt = compare_lt;
  cmp_trans = compare_trans;
}

module _ {ℓ} {A B : Type ℓ} ⦃o : Ord A⦄ ⦃p : Ord B⦄ where
  abbrev pub pair_cmp : A × B → A × B → Ordering
  pair_cmp a b = then_cmp (o.cmp a.0 b.0) (p.cmp a.1 b.1)

  pub pair_cmp_eq : (a b : A × B) → pair_cmp a b ≡ Ordering.eq → a ≡ b
  pair_cmp_eq a b e =
      let first : a.0 ≡ b.0 = o.cmp_eq a.0 b.0 (ground (arith, e)) in
      let second : a.1 ≡ b.1 = p.cmp_eq a.1 b.1 (ground (arith, e)) in λ i. (first i, second i)

  pub pair_cmp_refl : (a : A × B) → pair_cmp a a ≡ Ordering.eq
  pair_cmp_refl a = rw (o.cmp_refl a.0, p.cmp_refl a.1)

  pub pair_cmp_gt : (a b : A × B) → pair_cmp a b ≡ Ordering.gt → pair_cmp b a ≡ Ordering.lt
  pair_cmp_gt a b e = ground (
    arith,
    e,
    o.cmp_eq a.0 b.0,
    o.cmp_gt a.0 b.0,
    o.cmp_lt a.0 b.0,
    o.cmp_refl a.0,
    p.cmp_gt a.1 b.1,
  )

  pub pair_cmp_lt : (a b : A × B) → pair_cmp a b ≡ Ordering.lt → pair_cmp b a ≡ Ordering.gt
  pair_cmp_lt a b e = ground (
    arith,
    e,
    o.cmp_eq a.0 b.0,
    o.cmp_gt a.0 b.0,
    o.cmp_lt a.0 b.0,
    o.cmp_refl a.0,
    p.cmp_lt a.1 b.1,
  )

  pub pair_cmp_trans :
      (a b c : A × B)
      → pair_cmp a b ≡ Ordering.lt
      → pair_cmp b c ≡ Ordering.lt
      → pair_cmp a c ≡ Ordering.lt
  pair_cmp_trans a b c e f = ground (
    arith,
    e,
    f,
    o.cmp_eq a.0 b.0,
    o.cmp_eq b.0 c.0,
    o.cmp_trans a.0 b.0 c.0,
    p.cmp_trans a.1 b.1 c.1,
  )

  instance abbrev pub pair_ord : Ord (A × B)
  pair_ord = record {
    cmp = pair_cmp;
    cmp_eq = pair_cmp_eq;
    cmp_refl = pair_cmp_refl;
    cmp_gt = pair_cmp_gt;
    cmp_lt = pair_cmp_lt;
    cmp_trans = pair_cmp_trans;
  }

-- `==` on texts
abbrev pub text_eq : Text → Text → Bool
text_eq a b = elim (text_cmp a b) [ Ordering.eq ↦ true | _ ↦ false ]

pub text_eq_iff : (a b : Text) → (text_eq a b ≡ true) ↔ (a ≡ b)
text_eq_iff a b = (λ h. text_cmp_eq a b (ground arith), λ e. rw e (rw (text_cmp_refl b, text_eq)))

pub text_eq-false : (a b : Text) → text_eq a b ≡ false → text_eq b a ≡ false
text_eq-false a b h = elim (Bool-cases (text_eq b a)) [
  | inl same ↦ cc (h, (text_eq_iff a b).1 (sym ((text_eq_iff b a).0 same)))
  | inr other ↦ other
]
