-- ===== src/Base/Finite.antt =====
-- Maps whose keys come from a list: how many entries they can have.
use mathlib.Core.List.{List, [], ◌∷◌, ◌++◌, map, Memᴰ}
use mathlib.Core.List.Memᴰ
use mathlib.Core.Logic.{inl, inr, ◌≢◌}
use mathlib.Core.Option.{Option, none, some}
use mathlib.Core.Path.{◌≡◌, refl, sym, ap, ◌∙◌}
use mathlib.Core.Bool.{Bool, true, false}
use native.Mathlib.Omega.{arith}
use Prim.Native.Nat.{ℕ, suc, ◌+◌, ◌%◌, ◌^◌, ◌≤◌}
use netlink_exporter.Base.Counts.{same_key, same_key_eq, same_key_refl, count_by}
use netlink_exporter.Base.Lists.{length, All}
use netlink_exporter.Base.Map.{IsAscending, IsAbove, upsert, upsert-IsAscending, Ordering-cases}
use netlink_exporter.Base.Order.{Ord}
use netlink_exporter.Base.Tests.{if◌then◌else◌, Bool-cases}

-- One link of a chain of tests, whose results are listed in order.
pub mem-if :
    {A : Type 0} (x : A) {y : A} {l : List A} (b : Bool)
    → Memᴰ y l
    → Memᴰ (if b then x else y) (x ∷ l)
mem-if x true h = Memᴰ.head refl
mem-if x false h = Memᴰ.tail h

-- All pairs from two lists.
abbrev pub pairs : {A B : Type 0} → List A → List B → List (A × B)
pairs [] m = []
pairs (x ∷ l) m = map (λ y. (x, y)) m ++ pairs l m

pub mem-pairs :
    {A B : Type 0} {x : A} {y : B} {l : List A} {m : List B}
    → Memᴰ x l
    → Memᴰ y m
    → Memᴰ (x, y) (pairs l m)
mem-pairs {x} {y} (Memᴰ.head {x = z} e) g =
    Memᴰ.append_left _ (Memᴰ.cast (λ i. (e i, y)) (Memᴰ.map (λ b. (z, b)) g))
mem-pairs (Memᴰ.tail h) g = Memᴰ.append_right _ (mem-pairs h g)

module _ {K : Type 0} ⦃o : Ord K⦄ where
  remove : K → List K → List K
  remove k [] = []
  remove k (x ∷ xs) = let rest = remove k xs in if same_key k x then xs else x ∷ rest

  length-remove : (k : K) (l : List K) → Memᴰ k l → suc (length (remove k l)) ≡ length l
  unfolding remove
  length-remove k [] m = elim m [ ]
  length-remove k (x ∷ xs) (Memᴰ.head e) = rw (same_key_refl k x e) refl
  length-remove k (x ∷ xs) (Memᴰ.tail m) =
      let rest = length-remove k xs m in
      elim (Bool-cases (same_key k x)) [
        | inl same ↦ rw same refl
        | inr other ↦ rw other (omega (arith, rest))
      ]

  mem-remove : (j k : K) (l : List K) → j ≢ k → Memᴰ j l → Memᴰ j (remove k l)
  unfolding remove
  mem-remove j k [] ne m = elim m [ ]
  mem-remove j k (x ∷ xs) ne (Memᴰ.head e) = elim (Bool-cases (same_key k x)) [
    | inl same ↦ absurd (ne (e ∙ sym (same_key_eq k x same)))
    | inr other ↦ rw other (Memᴰ.head e)
  ]
  mem-remove j k (x ∷ xs) ne (Memᴰ.tail m) =
      let rest = mem-remove j k xs ne m in
      elim (Bool-cases (same_key k x)) [
        | inl same ↦ rw same m
        | inr other ↦ rw other (Memᴰ.tail rest)
      ]

  module _ {V : Type 0} where
    abbrev pub KeysIn : List K → List (K × V) → Type 0
    KeysIn l m = All (λ e. Memᴰ e.0 l) m

    keys_left :
        (k : K) (l : List K) (m : List (K × V)) → IsAbove k m → KeysIn l m → KeysIn (remove k l) m
    keys_left k l [] above h = tt
    keys_left k l ((j, v) ∷ m) (a, above) (h, hs) =
        (mem-remove j k l (λ e. cc (ap (o.cmp k) e, a, o.cmp_refl k)) h, keys_left k l m above hs)

    -- A map with ascending keys from a list has at most as many entries.
    pub length_le :
        (m : List (K × V)) (l : List K) → IsAscending m → KeysIn l m → length m ≤ length l
    length_le [] l asc h = omega arith
    length_le ((k, v) ∷ m) l (above, asc) (h, hs) =
        omega (arith, length_le m (remove k l) asc (keys_left k l m above hs), length-remove k l h)

    upsert-KeysIn :
        (l : List K) (k : K) (d : V) (f : V → V) (m : List (K × V))
        → Memᴰ k l
        → KeysIn l m
        → KeysIn l (upsert k d f m)
    unfolding upsert
    upsert-KeysIn l k d f [] h hs = (h, tt)
    upsert-KeysIn l k d f ((j, v) ∷ m) h (g, hs) = elim (Ordering-cases (o.cmp k j)) [
      | inl e ↦ rw (e, upsert) (h, (g, hs))
      | inr (inl e) ↦ rw (e, upsert) (g, hs)
      | inr (inr e) ↦ rw (e, upsert) (g, upsert-KeysIn l k d f m h hs)
    ]

  -- A key that is there comes from the list.
  abbrev pub OptionIn : List K → Option K → Type 0
  OptionIn l none = Unit
  OptionIn l (some k) = Memᴰ k l

  count_by-KeysIn :
      {A : Type 0} (l : List K) (key : A → Option K) (xs : List A) (counts : List (K × ℕ))
      → ((a : A) → OptionIn l (key a))
      → IsAscending counts × KeysIn l counts
      → IsAscending (count_by key xs counts) × KeysIn l (count_by key xs counts)
  unfolding count_by
  count_by-KeysIn l key [] counts h g = g
  count_by-KeysIn l key (a ∷ xs) counts h g = count_by-KeysIn l key xs _ h (one (key a) (h a))
    where
      one :
          (k : Option K)
          → OptionIn l k
          → let next : List (K × ℕ) = elim k [
            | none ↦ counts
            | some k ↦ upsert k 0 (λ n. (n + 1) % 2 ^ 64) counts
          ] in
            IsAscending next × KeysIn l next
      one none m = g
      one (some k) m = (
        upsert-IsAscending k 0 (λ n. (n + 1) % 2 ^ 64) counts g.0,
        upsert-KeysIn l k 0 (λ n. (n + 1) % 2 ^ 64) counts m g.1,
      )

  -- Counts by keys from a list have at most as many entries, whatever is counted.
  pub length-count_by :
      {A : Type 0} (l : List K) (key : A → Option K) (xs : List A)
      → ((a : A) → OptionIn l (key a))
      → length (count_by key xs []) ≤ length l
  length-count_by l key xs h =
      let (asc, keys) = count_by-KeysIn l key xs [] h (tt, tt) in
      length_le (count_by key xs []) l asc keys
