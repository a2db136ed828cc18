-- ===== src/Registry/Dedup.antt =====
-- What the dedup guard of `encode_samples` keeps in one group.
use netlink_exporter.Base.{
  Bool, true, false, ◌||◌, List, [], ◌∷◌, ◌++◌, Option, none, some, if◌then◌else◌, ◌≡◌, refl, sym,
  ap, ◌∙◌, arith, Bool-cases, inl, inr,
}
use netlink_exporter.Base.Map.{lookup}
use netlink_exporter.Base.Order.{text_eq, text_eq_iff, text_eq-false, text_ord}
use netlink_exporter.Base.Text.{Text}
use netlink_exporter.Metric.{Labels, MetricSample, MetricValue}
use netlink_exporter.Registry.{
  GroupEntry, new_group, add_observation, group_samples, series_key, contains,
}
use netlink_exporter.Registry.Groups.{named, find_key, observed, add_all, lookup-group_samples}

module _ {F64 : Type 0} where
  abbrev is_some : Option (Labels × MetricValue F64) → Bool
  is_some none = false
  is_some (some a) = true

  abbrev or_else :
      Option (Labels × MetricValue F64)
      → Option (Labels × MetricValue F64)
      → Option (Labels × MetricValue F64)
  or_else none b = b
  or_else (some a) b = some a

  or_else-none : (a : Option (Labels × MetricValue F64)) → or_else a none ≡ a
  or_else-none none = refl
  or_else-none (some a) = refl

  or_else_assoc :
      (a b c : Option (Labels × MetricValue F64))
      → or_else (or_else a b) c ≡ or_else a (or_else b c)
  or_else_assoc none b c = refl
  or_else_assoc (some a) b c = refl

  absorbs : (a b : Option (Labels × MetricValue F64)) → is_some a ≡ true → a ≡ or_else a b
  absorbs none b h = cc
  absorbs (some a) b h = refl

  is_some-or_else :
      (a b : Option (Labels × MetricValue F64)) → is_some (or_else a b) ≡ (is_some a || is_some b)
  is_some-or_else none b = refl
  is_some-or_else (some a) b = refl

  is_some-none : (a : Option (Labels × MetricValue F64)) → is_some a ≡ false → a ≡ none
  is_some-none none h = refl
  is_some-none (some a) h = cc

  abbrev only : Text → MetricSample F64 → Option (Labels × MetricValue F64)
  only k s = if text_eq k (series_key s.labels) then some (s.labels, s.value) else none

  observed-append :
      (k : Text) (obs : List (Labels × MetricValue F64)) (s : MetricSample F64)
      → observed k (obs ++ (s.labels, s.value) ∷ []) ≡ or_else (observed k obs) (only k s)
  observed-append k [] s = refl
  observed-append k ((l, v) ∷ obs) s = ground (arith, observed-append k obs s)

  find_key-cons :
      (k : Text) (s : MetricSample F64) (ss : List (MetricSample F64))
      → find_key k (s ∷ ss) ≡ or_else (only k s) (find_key k ss)
  find_key-cons k s ss = ground arith

  -- No key is written twice.
  abbrev pub DistinctKeys : List (Labels × MetricValue F64) → Type 0
  DistinctKeys [] = Unit
  DistinctKeys ((l, v) ∷ obs) = (observed (series_key l) obs ≡ none) × DistinctKeys obs

  -- The keys seen are those of the observations.
  abbrev IsConsistent : GroupEntry F64 → Type 0
  IsConsistent g = (k : Text) → contains k g.seen ≡ is_some (observed k g.observations)

  kept :
      (k : Text) (s : MetricSample F64) (g : GroupEntry F64)
      → is_some (observed k g.observations) ≡ true
      → observed k g.observations ≡ or_else (observed k g.observations) (only k s)
  kept k s g h = absorbs (observed k g.observations) (only k s) h

  observed-add_observation :
      (k : Text) (s : MetricSample F64) (g : GroupEntry F64)
      → IsConsistent g
      → observed k (add_observation s g).observations
        ≡ or_else (observed k g.observations) (only k s)
  unfolding add_observation
  observed-add_observation k s g h = elim (Bool-cases (contains (series_key s.labels) g.seen)) [
    | inl old ↦ rw old (elim (Bool-cases (text_eq k (series_key s.labels))) [
      | inl same ↦
          kept k s g (
            rw ((text_eq_iff k (series_key s.labels)).0 same) (sym (h (series_key s.labels)) ∙ old))
      | inr other ↦ rw other (sym (or_else-none (observed k g.observations)))
    ])
    | inr fresh ↦ rw fresh (observed-append k g.observations s)
  ]

  or_swap :
      (k : Text) (s : MetricSample F64) (b : Bool)
      → (text_eq k (series_key s.labels) || b) ≡ (b || is_some (only k s))
  or_swap k s true = ground arith
  or_swap k s false = ground arith

  add_observation-IsConsistent :
      (s : MetricSample F64) (g : GroupEntry F64)
      → IsConsistent g
      → IsConsistent (add_observation s g)
  unfolding add_observation
  add_observation-IsConsistent s g h k = elim (Bool-cases (contains (series_key s.labels) g.seen)) [
    | inl old ↦ rw old (h k)
    | inr fresh ↦ rw fresh (
        rw (observed-append k g.observations s) (
          rw (is_some-or_else (observed k g.observations) (only k s))
            (rw (← h k) (or_swap k s (contains k g.seen)))))
  ]

  DistinctKeys-append :
      (obs : List (Labels × MetricValue F64)) (s : MetricSample F64)
      → DistinctKeys obs
      → observed (series_key s.labels) obs ≡ none
      → DistinctKeys (obs ++ (s.labels, s.value) ∷ [])
  DistinctKeys-append [] s d h = (refl, tt)
  DistinctKeys-append ((l, v) ∷ obs) s (d, ds) h =
      elim (Bool-cases (text_eq (series_key s.labels) (series_key l))) [
        | inl same ↦ cc (rw same at h)
        | inr other ↦ (
          rw (observed-append (series_key l) obs s, d)
              (rw (text_eq-false (series_key s.labels) (series_key l) other)),
          DistinctKeys-append obs s ds (rw other at h),
        )
      ]

  add_observation-DistinctKeys :
      (s : MetricSample F64) (g : GroupEntry F64)
      → IsConsistent g
      → DistinctKeys g.observations
      → DistinctKeys (add_observation s g).observations
  unfolding add_observation
  add_observation-DistinctKeys s g h d = elim (Bool-cases (contains (series_key s.labels) g.seen)) [
    | inl old ↦ rw old d
    | inr fresh ↦ rw fresh (
        DistinctKeys-append g.observations s d
          (is_some-none _ (sym (h (series_key s.labels)) ∙ fresh)))
  ]

  header_kept :
      (s : MetricSample F64) (g : GroupEntry F64)
      → ((add_observation s g).help ≡ g.help) × ((add_observation s g).kind ≡ g.kind)
  unfolding add_observation
  header_kept s g = ground arith

  add_all-first :
      (ss : List (MetricSample F64)) (g : GroupEntry F64)
      → IsConsistent g
      → DistinctKeys g.observations
      → ((k : Text)
          → observed k (add_all g ss).observations
            ≡ or_else (observed k g.observations) (find_key k ss))
        × DistinctKeys (add_all g ss).observations
        × ((add_all g ss).help ≡ g.help)
        × ((add_all g ss).kind ≡ g.kind)
  add_all-first [] g h d = ((λ k. sym (or_else-none _)), d, refl, refl)
  add_all-first (s ∷ ss) g h d =
      let (found, distinct, help, kind) =
        add_all-first ss (add_observation s g) (add_observation-IsConsistent s g h)
          (add_observation-DistinctKeys s g h d) in
      (
        (λ k.
            found k
            ∙ ap (λ (o : Option (Labels × MetricValue F64)). or_else o (find_key k ss))
                (observed-add_observation k s g h)
            ∙ or_else_assoc (observed k g.observations) (only k s) (find_key k ss)
            ∙ ap (λ (o : Option (Labels × MetricValue F64)). or_else (observed k g.observations) o)
                (sym (find_key-cons k s ss))),
        distinct,
        help ∙ (header_kept s g).0,
        kind ∙ (header_kept s g).1,
      )

  -- For a name with a sample the loop holds a group. It has the help and the kind of the first sample
  -- of that name; under each key it holds exactly the first sample of that name with that key; and no
  -- key stands twice.
  pub group_samples-first :
      (n : Text) (ss : List (MetricSample F64)) (s : MetricSample F64)
      (rest : List (MetricSample F64))
      → named n ss ≡ s ∷ rest
      → (g : GroupEntry F64) × (lookup n (group_samples [] ss) ≡ some g)
        × ((k : Text) → observed k g.observations ≡ find_key k (named n ss))
        × DistinctKeys g.observations
        × (g.help ≡ s.help)
        × (g.kind ≡ s.kind)
  group_samples-first n ss s rest e =
      let (found, distinct, help, kind) = add_all-first (s ∷ rest) (new_group s) (λ k. refl) tt in
      (
        add_all (new_group s) (s ∷ rest),
        lookup-group_samples n ss ∙ rw e,
        (λ k. rw e (found k)),
        distinct,
        help,
        kind,
      )
