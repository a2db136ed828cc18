-- ===== src/Base/Map.antt =====
-- `BTreeMap` as a list of entries in ascending order of the keys, which is the order of iteration.
use mathlib.Core.List.{List, [], ◌∷◌}
use mathlib.Core.Logic.{◌⊎◌, inl, inr}
use mathlib.Core.Option.{Option, none, some}
use mathlib.Core.Option
use mathlib.Core.Path.{◌≡◌, refl}
use native.Mathlib.Omega.{arith}
use netlink_exporter.Base.Order.{Ord, Ordering}
use netlink_exporter.Base.Lists.{All}

pub Ordering-cases : (o : Ordering) → (o ≡ Ordering.lt) ⊎ ((o ≡ Ordering.eq) ⊎ (o ≡ Ordering.gt))
Ordering-cases Ordering.lt = inl refl
Ordering-cases Ordering.eq = inr (inl refl)
Ordering-cases Ordering.gt = inr (inr refl)

module _ {ℓ κ} {K : Type ℓ} {V : Type κ} ⦃o : Ord K⦄ where
  -- `map.get(k)`
  unfoldable pub lookup : K → List (K × V) → Option V
  lookup k [] = none
  lookup k ((j, v) ∷ m) = elim (o.cmp k j) [
    | Ordering.lt ↦ none
    | Ordering.eq ↦ some v
    | Ordering.gt ↦ lookup k m
  ]

  -- `map.entry(k).or_insert(d)`, and a change of the value there.
  unfoldable pub upsert : K → V → (V → V) → List (K × V) → List (K × V)
  upsert k d f [] = (k, f d) ∷ []
  upsert k d f ((j, v) ∷ m) = elim (o.cmp k j) [
    | Ordering.lt ↦ (k, f d) ∷ (j, v) ∷ m
    | Ordering.eq ↦ (j, f v) ∷ m
    | Ordering.gt ↦ (j, v) ∷ upsert k d f m
  ]

  unfoldable pub insert : K → V → List (K × V) → List (K × V)
  insert k v = upsert k v (λ _. v)

  pub lookup-upsert_self :
      (k : K) (d : V) (f : V → V) (m : List (K × V))
      → lookup k (upsert k d f m) ≡ some (f (Option.get_or (lookup k m) d))
  unfolding lookup upsert
  lookup-upsert_self k d f [] = rw (o.cmp_refl k)
  lookup-upsert_self k d f ((j, v) ∷ m) = ground (arith, o.cmp_refl k, lookup-upsert_self k d f m)

  pub lookup-upsert_ne :
      (j k : K) (d : V) (f : V → V) (m : List (K × V))
      → (j ≡ k → ⊥)
      → lookup j (upsert k d f m) ≡ lookup j m
  unfolding lookup upsert
  lookup-upsert_ne j k d f [] ne = ground (arith, o.cmp_eq j k)
  lookup-upsert_ne j k d f ((i, v) ∷ m) ne = ground (
    arith,
    o.cmp_eq j k,
    o.cmp_eq j i,
    o.cmp_eq k i,
    o.cmp_trans j k i,
    lookup-upsert_ne j k d f m ne,
  )

  -- Keys ascend strictly, so no key stands twice.
  abbrev pub IsAbove : K → List (K × V) → Type 0
  IsAbove k m = All (λ e. o.cmp k e.0 ≡ Ordering.lt) m

  abbrev pub IsAscending : List (K × V) → Type 0
  IsAscending [] = Unit
  IsAscending ((k, v) ∷ m) = IsAbove k m × IsAscending m

  IsAbove-trans : (k j : K) (m : List (K × V)) → o.cmp k j ≡ Ordering.lt → IsAbove j m → IsAbove k m
  IsAbove-trans k j [] e h = tt
  IsAbove-trans k j ((i, v) ∷ m) e h = (o.cmp_trans k j i e h.0, IsAbove-trans k j m e h.1)

  upsert-IsAbove :
      (i k : K) (d : V) (f : V → V) (m : List (K × V))
      → o.cmp i k ≡ Ordering.lt
      → IsAbove i m
      → IsAbove i (upsert k d f m)
  unfolding upsert
  upsert-IsAbove i k d f [] e h = (e, tt)
  upsert-IsAbove i k d f ((j, v) ∷ m) e h = ground (arith, upsert-IsAbove i k d f m e h.1)

  pub upsert-IsAscending :
      (k : K) (d : V) (f : V → V) (m : List (K × V)) → IsAscending m → IsAscending (upsert k d f m)
  unfolding upsert
  upsert-IsAscending k d f [] h = (tt, tt)
  upsert-IsAscending k d f ((j, v) ∷ m) (a, h) = elim (Ordering-cases (o.cmp k j)) [
    | inl e ↦ rw (e, upsert) ((e, IsAbove-trans k j m e a), (a, h))
    | inr (inl e) ↦ rw (e, upsert) (a, h)
    | inr (inr e) ↦
        rw (e, upsert) (upsert-IsAbove j k d f m (o.cmp_gt k j e) a, upsert-IsAscending k d f m h)
  ]
