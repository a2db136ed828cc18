-- ===== src/Registry/Distinct.antt =====
-- Samples that are distinct series, and what `duplicate_series` reports of them.
use netlink_exporter.Base.{
  Bool, true, false, ◌&&◌, List, [], ◌∷◌, ◌++◌, ◌≡◌, refl, ap, All, map, sym, All-append,
}
use mathlib.Core.Path.{subst}
use netlink_exporter.Base.Order.{text_eq}
use netlink_exporter.Base.Text.{Text}
use netlink_exporter.Metric.{Labels, MetricSample}
use netlink_exporter.Registry.{duplicate_series, duplicates_from, contains_pair, series_key}

and-false : (b : Bool) → (b && false) ≡ false
and-false true = refl
and-false false = refl

module _ {F64 : Type 0} where
  -- Two samples of one name with one key.
  abbrev pub same_series : MetricSample F64 → MetricSample F64 → Bool
  same_series s t = text_eq s.name t.name && text_eq (series_key s.labels) (series_key t.labels)

  -- No sample is the same series as an earlier one.
  abbrev pub IsDistinct : List (MetricSample F64) → Type 0
  IsDistinct [] = Unit
  IsDistinct (s ∷ samples) = All (λ t. same_series t s ≡ false) samples × IsDistinct samples

  abbrev IsNew : List (Text × Text) → MetricSample F64 → Type 0
  IsNew seen t = contains_pair t.name (series_key t.labels) seen ≡ false

  add_seen :
      (s : MetricSample F64) (seen : List (Text × Text)) (samples : List (MetricSample F64))
      → All (λ t. same_series t s ≡ false) samples
      → All (IsNew seen) samples
      → All (IsNew ((s.name, series_key s.labels) ∷ seen)) samples
  add_seen s seen [] h g = tt
  add_seen s seen (t ∷ samples) (h, hs) (g, gs) = (rw (h, g) refl, add_seen s seen samples hs gs)

  duplicates_from-IsDistinct :
      (seen : List (Text × Text)) (dups : List (Text × Unit {0}))
      (samples : List (MetricSample F64))
      → IsDistinct samples
      → All (IsNew seen) samples
      → duplicates_from seen dups samples ≡ dups
  unfolding duplicates_from
  duplicates_from-IsDistinct seen dups [] h g = refl
  duplicates_from-IsDistinct seen dups (s ∷ samples) (h, hs) (g, gs) =
      rw (g, duplicates_from)
        (duplicates_from-IsDistinct ((s.name, series_key s.labels) ∷ seen) dups samples hs
          (add_seen s seen samples h gs))

  All-IsNew : (samples : List (MetricSample F64)) → All (IsNew []) samples
  All-IsNew [] = tt
  All-IsNew (s ∷ samples) = (refl, All-IsNew samples)

  -- Of distinct series none is reported.
  pub duplicate_series-IsDistinct :
      (samples : List (MetricSample F64)) → IsDistinct samples → duplicate_series samples ≡ []
  unfolding duplicate_series
  duplicate_series-IsDistinct samples h =
      ap (λ (l : List (Text × Unit {0})). map (λ e. e.0) l)
        (duplicates_from-IsDistinct [] [] samples h (All-IsNew samples))

  -- Two lists of distinct series without a common one.
  append-IsDistinct :
      (ss ts : List (MetricSample F64))
      → IsDistinct ss
      → IsDistinct ts
      → All (λ s. All (λ t. same_series t s ≡ false) ts) ss
      → IsDistinct (ss ++ ts)
  append-IsDistinct [] ts hs ht h = ht
  append-IsDistinct (s ∷ ss) ts (h1, hs) ht (h, hh) = (join ss h1, append-IsDistinct ss ts hs ht hh)
    where
      join :
          (l : List (MetricSample F64))
          → All (λ t. same_series t s ≡ false) l
          → All (λ t. same_series t s ≡ false) (l ++ ts)
      join [] g = h
      join (x ∷ l) (g, gs) = (g, join l gs)

  -- Samples whose key is not that of the labels `l`.
  abbrev pub IsOther : Labels → List (MetricSample F64) → Type 0
  IsOther l = All (λ t. text_eq (series_key t.labels) (series_key l) ≡ false)

  other_key :
      (s : MetricSample F64) (ts : List (MetricSample F64))
      → IsOther s.labels ts
      → All (λ t. same_series t s ≡ false) ts
  other_key s [] h = tt
  other_key s (t ∷ ts) (h, hs) = (rw h (and-false (text_eq t.name s.name)), other_key s ts hs)

  other_keys :
      (l : Labels) (ss ts : List (MetricSample F64))
      → All (λ s. s.labels ≡ l) ss
      → IsOther l ts
      → All (λ s. All (λ t. same_series t s ≡ false) ts) ss
  other_keys l [] ts hs h = tt
  other_keys l (s ∷ ss) ts (e, hs) h =
      (other_key s ts (subst (λ m. IsOther m ts) (sym e) h), other_keys l ss ts hs h)

  -- Distinct samples under one label set, before distinct samples under others.
  pub block-IsDistinct :
      (l : Labels) (ss ts : List (MetricSample F64))
      → IsDistinct ss
      → All (λ s. s.labels ≡ l) ss
      → IsDistinct ts
      → IsOther l ts
      → IsDistinct (ss ++ ts)
  block-IsDistinct l ss ts hs same ht h = append-IsDistinct ss ts hs ht (other_keys l ss ts same h)

  pub append-IsOther :
      (l : Labels) (ss ts : List (MetricSample F64))
      → IsOther l ss
      → IsOther l ts
      → IsOther l (ss ++ ts)
  append-IsOther l ss ts hs ht = All-append _ ss ts hs ht
