-- ===== src/Tests/Tc.antt =====
-- Inputs for the theorems about crates/nlx-netlink/src/collectors/tc.rs.
use netlink_exporter.Base.{ℕ, List, [], ◌∷◌, ◌++◌, Option, some, ◌≡◌, refl, replicate, All, sym}
use mathlib.Core.Path.{subst}
use netlink_exporter.Base.Map.{lookup, upsert}
use netlink_exporter.Base.Text.{Text, codes}
use netlink_exporter.Registry.{duplicate_series}
use netlink_exporter.Registry.Key.{is_plain-IsPlain}
use netlink_exporter.Tc.{
  Agg, aggregate, agg_samples, frame_stats, parse_qdisc_frame, read_qdisc_attrs, read_qdisc_attr,
  parse_tca_stats2, read_stats_attrs, read_stats_attr,
}
use netlink_exporter.Tc.Series.{IsPlainKey, duplicate_series-agg_samples}
use netlink_exporter.Tc.Totals.{totals, saturated, sums, totals-aggregate}
use netlink_exporter.Wire.{Bytes, parse_attrs, collect, next, read_u64}
use netlink_exporter.Wire.Build.{push_nla, to_ne_bytes}

abbrev ascii : Bytes → Option Text
ascii bytes = some bytes

abbrev names : List (ℕ × Text)
names = (1, codes "lo") ∷ []

abbrev basic : ℕ → ℕ → Bytes
basic bytes packets = to_ne_bytes 8 bytes ++ to_ne_bytes 4 packets

-- A discipline of the interface 1, with 500 bytes in 3 packets.
abbrev qdisc : Bytes
qdisc =
    (0 ∷ 0 ∷ 0 ∷ 0 ∷ 1 ∷ replicate 15 0)
    ++ push_nla (push_nla [] 1 (codes "fq" ++ 0 ∷ [])) 7 (push_nla [] 1 (basic 500 3))

totals-aggregate_example :
    totals (codes "lo", codes "fq") (aggregate ascii names (qdisc ∷ (7 ∷ []) ∷ qdisc ∷ []) [])
    ≡ saturated (sums ascii names (codes "lo", codes "fq") (qdisc ∷ (7 ∷ []) ∷ qdisc ∷ []))
totals-aggregate_example =
    totals-aggregate ascii names (codes "lo", codes "fq") (qdisc ∷ (7 ∷ []) ∷ qdisc ∷ [])

abbrev one_total : Agg
one_total =
    (
      (codes "lo", codes "fq"),
      record { bytes = 500; packets = 3; drops = 0; overlimits = 0; backlog = 0 },
    )
    ∷ []

aggregate-qdisc : aggregate ascii names (qdisc ∷ []) [] ≡ one_total
unfolding aggregate frame_stats parse_qdisc_frame read_qdisc_attrs read_qdisc_attr parse_tca_stats2
    read_stats_attrs read_stats_attr parse_attrs collect next read_u64 lookup upsert push_nla
aggregate-qdisc = refl

duplicate_series-agg_samples_example :
    duplicate_series {F64 = ℕ} (agg_samples (λ n. n) (aggregate ascii names (qdisc ∷ []) [])) ≡ []
duplicate_series-agg_samples_example =
    duplicate_series-agg_samples (λ n. n) ascii names (qdisc ∷ [])
      (subst (All (λ e. IsPlainKey e.0)) (sym aggregate-qdisc)
        ((is_plain-IsPlain (codes "lo") refl, is_plain-IsPlain (codes "fq") refl), tt))
