-- ===== src/Registry/Groups.antt =====
-- What the loop of `encode_samples` collects for each name.
use netlink_exporter.Base.{
  List, [], ◌∷◌, Option, none, some, if◌then◌else◌, ◌≡◌, refl, ap, ◌∙◌, Bool-cases, inl, inr,
}
use mathlib.Core.Option
use netlink_exporter.Base.Map.{
  lookup, upsert, lookup-upsert_self, lookup-upsert_ne, IsAscending, upsert-IsAscending,
}
use netlink_exporter.Base.Order.{text_eq, text_eq_iff, text_ord}
use netlink_exporter.Base.Text.{Text}
use netlink_exporter.Metric.{Labels, MetricSample, MetricValue}
use netlink_exporter.Registry.{
  GroupEntry, Groups, new_group, add_observation, group_samples, series_key,
}

module _ {F64 : Type 0} where
  -- The samples of one name, in order.
  abbrev pub named : Text → List (MetricSample F64) → List (MetricSample F64)
  named n [] = []
  named n (s ∷ ss) = if text_eq n s.name then s ∷ named n ss else named n ss

  -- The first sample with a key.
  abbrev pub find_key : Text → List (MetricSample F64) → Option (Labels × MetricValue F64)
  find_key k [] = none
  find_key k (s ∷ ss) =
      if text_eq k (series_key s.labels) then some (s.labels, s.value) else find_key k ss

  abbrev pub observed : Text → List (Labels × MetricValue F64) → Option (Labels × MetricValue F64)
  observed k [] = none
  observed k ((l, v) ∷ obs) = if text_eq k (series_key l) then some (l, v) else observed k obs

  -- One group after the samples of its name.
  abbrev pub add_all : GroupEntry F64 → List (MetricSample F64) → GroupEntry F64
  add_all g [] = g
  add_all g (s ∷ ss) = add_all (add_observation s g) ss

  -- The group of a name from the samples of that name alone.
  abbrev pub group_of : List (MetricSample F64) → Option (GroupEntry F64)
  group_of [] = none
  group_of (s ∷ ss) = some (add_all (new_group s) (s ∷ ss))

  abbrev extend : Option (GroupEntry F64) → List (MetricSample F64) → Option (GroupEntry F64)
  extend none ss = group_of ss
  extend (some g) ss = some (add_all g ss)

  extend-nil : (o : Option (GroupEntry F64)) → o ≡ extend o []
  extend-nil none = refl
  extend-nil (some g) = refl

  extend-cons :
      (o : Option (GroupEntry F64)) (s : MetricSample F64) (ss : List (MetricSample F64))
      → extend (some (add_observation s (Option.get_or o (new_group s)))) ss ≡ extend o (s ∷ ss)
  extend-cons none s ss = refl
  extend-cons (some g) s ss = refl

  abbrev grown : MetricSample F64 → Groups F64 → Groups F64
  grown s groups = upsert s.name (new_group s) (add_observation s) groups

  lookup-grown :
      (n : Text) (groups : Groups F64) (s : MetricSample F64) (ss : List (MetricSample F64))
      → extend (lookup n (grown s groups)) (named n ss)
        ≡ extend (lookup n groups) (named n (s ∷ ss))
  lookup-grown n groups s ss = elim (Bool-cases (text_eq n s.name)) [
    | inl same ↦
        let found : lookup n (grown s groups)
            ≡ some (add_observation s (Option.get_or (lookup n groups) (new_group s))) =
          rw ((text_eq_iff n s.name).0 same)
            (lookup-upsert_self s.name (new_group s) (add_observation s) groups) in
        rw same (
          ap (λ (o : Option (GroupEntry F64)). extend o (named n ss)) found
          ∙ extend-cons (lookup n groups) s (named n ss))
    | inr other ↦ rw other (
        ap (λ (o : Option (GroupEntry F64)). extend o (named n ss))
          (lookup-upsert_ne n s.name (new_group s) (add_observation s) groups
            (λ e. cc ((text_eq_iff n s.name).1 e))))
  ]

  lookup-group_samples_from :
      (n : Text) (ss : List (MetricSample F64)) (groups : Groups F64)
      → lookup n (group_samples groups ss) ≡ extend (lookup n groups) (named n ss)
  unfolding group_samples
  lookup-group_samples_from n [] groups = extend-nil (lookup n groups)
  lookup-group_samples_from n (s ∷ ss) groups =
      lookup-group_samples_from n ss (grown s groups) ∙ lookup-grown n groups s ss

  -- Each name's group is what the samples of that name give, in their order; samples of other names
  -- have no part in it.
  pub lookup-group_samples :
      (n : Text) (ss : List (MetricSample F64))
      → lookup n (group_samples [] ss) ≡ group_of (named n ss)
  unfolding lookup
  lookup-group_samples n ss = lookup-group_samples_from n ss []

  group_samples_from-IsAscending :
      (ss : List (MetricSample F64)) (groups : Groups F64)
      → IsAscending groups
      → IsAscending (group_samples groups ss)
  unfolding group_samples
  group_samples_from-IsAscending [] groups h = h
  group_samples_from-IsAscending (s ∷ ss) groups h =
      group_samples_from-IsAscending ss (grown s groups)
        (upsert-IsAscending s.name (new_group s) (add_observation s) groups h)

  -- The names of the groups ascend strictly, so each has one header.
  pub group_samples-IsAscending : (ss : List (MetricSample F64)) → IsAscending (group_samples [] ss)
  group_samples-IsAscending ss = group_samples_from-IsAscending ss [] tt
