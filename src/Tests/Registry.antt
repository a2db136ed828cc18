-- ===== src/Tests/Registry.antt =====
-- Inputs for the theorems about crates/nlx-metrics/src/registry.rs.
use netlink_exporter.Base.{ℕ, ◌<◌, ◌≡◌, ◌≢◌, refl, List, [], ◌∷◌, ◌++◌, some, arith, true, false}
use netlink_exporter.Base.Map.{lookup}
use netlink_exporter.Base.Order.{text_ord}
use netlink_exporter.Base.Text.{Text, codes, decimal}
use netlink_exporter.Metric.{gauge, f64, Labels, MetricSample, counter_sample, gauge_sample}
use netlink_exporter.Registry.{
  Float, GroupEntry, group_samples, encode_samples, write_braces, write_header, write_value,
  newline,
}
use netlink_exporter.Registry.Dedup.{DistinctKeys, group_samples-first}
use netlink_exporter.Registry.Escape.{read_braces, printed, read_braces-write_braces}
use netlink_exporter.Registry.Groups.{named, find_key, observed}
use netlink_exporter.Registry.Key.{
  IsPlainLabels, labelled, one_group, series_key-injective, encode_samples-collision,
  encode_samples-repeats,
}

-- A stand-in for `f64`.
abbrev pub whole : Float ℕ
whole = record {
  is_nan = λ n. false;
  is_infinite = λ n. false;
  is_sign_positive = λ n. true;
  display = decimal;
}

abbrev eth : Labels
eth = (codes "dev", codes "eth\"0") ∷ []

abbrev samples : List (MetricSample ℕ)
samples =
    gauge_sample (codes "up") (codes "Up.") eth 1
    ∷ counter_sample (codes "drops") (codes "Drops.") eth 4
    ∷ gauge_sample (codes "up") (codes "Up.") eth 2
    ∷ []

group_samples-first_example :
    (g : GroupEntry ℕ) × (lookup (codes "up") (group_samples [] samples) ≡ some g)
    × ((k : Text) → observed k g.observations ≡ find_key k (named (codes "up") samples))
    × DistinctKeys g.observations
    × (g.help ≡ codes "Up.")
    × (g.kind ≡ gauge)
group_samples-first_example =
    group_samples-first (codes "up") samples (gauge_sample (codes "up") (codes "Up.") eth 1)
      (gauge_sample (codes "up") (codes "Up.") eth 2 ∷ []) refl

read_braces-write_braces_example :
    read_braces 1 (write_braces ((codes "a", codes "x\"}") ∷ []) ++ codes " 1")
    ≡ some (printed ((codes "a", codes "x\"}") ∷ []), codes " 1")
read_braces-write_braces_example =
    read_braces-write_braces (codes "a", codes "x\"}") [] (codes " 1")
      (((λ e. absurd (omega (arith, e))), tt), tt)

plain : (c : ℕ) → 2 < c → (c ≢ 1) × (c ≢ 2)
plain c h = (λ e. omega (arith, e, h), λ e. omega (arith, e, h))

abbrev plain_labels : Labels
plain_labels = (codes "a", codes "b") ∷ []

plain_labels-IsPlainLabels : IsPlainLabels plain_labels
plain_labels-IsPlainLabels = (((plain b'a' (omega arith), tt), (plain b'b' (omega arith), tt)), tt)

series_key-injective_example : plain_labels ≡ plain_labels
series_key-injective_example =
    series_key-injective plain_labels plain_labels plain_labels-IsPlainLabels
      plain_labels-IsPlainLabels refl

encode_samples-repeats_example :
    encode_samples whole (
      labelled whole (codes "m") (codes "M.") gauge ((codes "a", codes "v") ∷ []) (f64 1)
      ∷ labelled whole
          (codes "m")
          (codes "M.")
          gauge
          ((codes "a", codes "v" ++ 7 ∷ []) ∷ [])
          (f64 2)
      ∷ [])
    ≡ write_header whole
        (codes "m")
        (one_group whole (codes "m") (codes "M.") gauge ((codes "a", codes "v") ∷ []) (f64 1))
      ++ ((codes "m"
            ++ (write_braces ((codes "a", codes "v") ∷ [])
                ++ (codes " " ++ (write_value whole (f64 1) ++ newline))))
          ++ (codes "m"
              ++ (write_braces ((codes "a", codes "v") ∷ [])
                  ++ (codes " " ++ (write_value whole (f64 2) ++ newline)))))
encode_samples-repeats_example =
    encode_samples-repeats whole (codes "m") (codes "M.") gauge (codes "a") (codes "v") 7 (f64 1)
      (f64 2) (omega arith) (λ e. absurd (omega (arith, e)))

abbrev spelled : Labels
spelled = (codes "a", codes "v" ++ (2 ∷ (codes "b" ++ (1 ∷ codes "w")))) ∷ []

abbrev two_labels : Labels
two_labels = (codes "a", codes "v") ∷ (codes "b", codes "w") ∷ []

encode_samples-collision_example :
    (spelled ≢ two_labels)
    × (encode_samples whole (
          labelled whole (codes "m") (codes "M.") gauge spelled (f64 1)
          ∷ labelled whole (codes "m") (codes "M.") gauge two_labels (f64 2)
          ∷ [])
        ≡ encode_samples whole (labelled whole (codes "m") (codes "M.") gauge spelled (f64 1) ∷ []))
encode_samples-collision_example =
    encode_samples-collision whole (codes "m") (codes "M.") gauge (codes "a") (codes "v")
      (codes "b") (codes "w") (f64 1) (f64 2)
