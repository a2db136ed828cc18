-- ===== src/Base/Counts.antt =====
-- Counting by key: `*counts.entry(key).or_insert(0) += 1` in a loop. A count is a `u64`.
use mathlib.Core.List.{List, [], ◌∷◌}
use mathlib.Core.Option.{Option, none, some}
use mathlib.Core.Option
use mathlib.Core.Path.{◌≡◌, refl, sym, ap, ◌∙◌}
use mathlib.Core.Bool.{Bool, true, false}
use mathlib.Core.Logic.{inl, inr}
use native.Mathlib.Omega.{arith}
use Prim.Native.Nat.{ℕ, ◌+◌, ◌%◌, ◌^◌}
use netlink_exporter.Base.Map.{lookup, upsert, lookup-upsert_self, lookup-upsert_ne}
use netlink_exporter.Base.Order.{Ord, Ordering}
use netlink_exporter.Base.Tests.{if◌then◌else◌, Bool-cases}

module _ {κ} {K : Type κ} ⦃o : Ord K⦄ where
  abbrev pub same_key : K → K → Bool
  same_key j k = elim (o.cmp j k) [ Ordering.eq ↦ true | _ ↦ false ]

  abbrev one_if : K → Option K → ℕ
  one_if j none = 0
  one_if j (some k) = if same_key j k then 1 else 0

  -- The count under a key, zero if there is none.
  abbrev pub count_of : K → List (K × ℕ) → ℕ
  count_of j counts = Option.get_or (lookup j counts) 0

  pub same_key_eq : (j k : K) → same_key j k ≡ true → j ≡ k
  same_key_eq j k e = o.cmp_eq j k (ground (arith, e))

  pub same_key_refl : (j k : K) → j ≡ k → same_key j k ≡ true
  same_key_refl j k e = ap (same_key j) (sym e) ∙ rw (o.cmp_refl j, same_key)

  count_of-upsert :
      (j k : K) (counts : List (K × ℕ))
      → count_of j (upsert k 0 (λ n. (n + 1) % 2 ^ 64) counts)
        ≡ (if same_key j k then (count_of j counts + 1) % 2 ^ 64 else count_of j counts)
  count_of-upsert j k counts = elim (Bool-cases (same_key j k)) [
    | inl same ↦
        let e : j ≡ k = same_key_eq j k same in
        rw same (
          ap (λ (i : K). count_of j (upsert i 0 (λ n. (n + 1) % 2 ^ 64) counts)) (sym e)
          ∙ ap (λ (v : Option ℕ). Option.get_or v 0)
              (lookup-upsert_self j 0 (λ n. (n + 1) % 2 ^ 64) counts))
    | inr other ↦ rw other (
        ap (λ (v : Option ℕ). Option.get_or v 0)
          (lookup-upsert_ne j k 0 (λ n. (n + 1) % 2 ^ 64) counts
            (λ e. cc (other, same_key_refl j k e))))
  ]

  count_of-one :
      (j : K) (v : Option K) (counts : List (K × ℕ)) (n : ℕ)
      → count_of j counts ≡ n % 2 ^ 64
      → count_of j (elim v [ none ↦ counts | some k ↦ upsert k 0 (λ n. (n + 1) % 2 ^ 64) counts ])
        ≡ (n + one_if j v) % 2 ^ 64
  count_of-one j none counts n e = omega (arith, e)
  count_of-one j (some k) counts n e =
      count_of-upsert j k counts ∙ (elim (Bool-cases (same_key j k)) [
        | inl same ↦ rw same (omega (arith, e))
        | inr other ↦ rw other (omega (arith, e))
      ])

module _ {ℓ κ} {A : Type ℓ} {K : Type κ} ⦃o : Ord K⦄ where
  -- `key` gives the key that an element counts for, if any.
  unfoldable pub count_by : (A → Option K) → List A → List (K × ℕ) → List (K × ℕ)
  count_by key [] counts = counts
  count_by key (a ∷ rest) counts =
      count_by key rest
        (elim (key a) [ none ↦ counts | some k ↦ upsert k 0 (λ n. (n + 1) % 2 ^ 64) counts ])

  -- How many elements count for a key.
  abbrev pub number_of : K → (A → Option K) → List A → ℕ
  number_of j key [] = 0
  number_of j key (a ∷ rest) = one_if j (key a) + number_of j key rest

  count_of-onto :
      (j : K) (key : A → Option K) (l : List A) (counts : List (K × ℕ)) (n : ℕ)
      → count_of j counts ≡ n % 2 ^ 64
      → count_of j (count_by key l counts) ≡ (n + number_of j key l) % 2 ^ 64
  unfolding count_by
  count_of-onto j key [] counts n e = omega (arith, e)
  count_of-onto j key (a ∷ rest) counts n e =
      count_of-onto j key rest _ _ (count_of-one j (key a) counts n e) ∙ omega arith

  -- The count of a key is the number of elements that count for it, modulo 2 ^ 64.
  pub count_of-count_by :
      (j : K) (key : A → Option K) (l : List A)
      → count_of j (count_by key l []) ≡ number_of j key l % 2 ^ 64
  unfolding lookup
  count_of-count_by j key l = count_of-onto j key l [] 0 refl ∙ omega arith
