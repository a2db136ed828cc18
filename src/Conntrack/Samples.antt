-- ===== src/Conntrack/Samples.antt =====
-- `stat_to_samples` of crates/nlx-netlink/src/collectors/conntrack.rs.
use netlink_exporter.Base.{ℕ, List, [], ◌∷◌, ◌++◌, Option, none, some}
use netlink_exporter.Base.Text.{Text, codes}
use netlink_exporter.Conntrack.{ConntrackStat}
use netlink_exporter.Metric.{MetricSample, counter_sample, gauge_sample}

module _ {F64 : Type 0} (of_u64 : ℕ → F64) where
  -- A counter without labels, if there is a value.
  abbrev optional_sample : Text → Text → Option ℕ → List (MetricSample F64)
  optional_sample name help none = []
  optional_sample name help (some n) = counter_sample name help [] n ∷ []

  unfoldable pub stat_to_samples : ConntrackStat → ℕ → List (MetricSample F64)
  stat_to_samples stat entries =
      counter_sample (codes "nft_conntrack_found_total")
          (codes "Total conntrack lookup hits (sum across CPUs).") [] stat.found
        ∷ counter_sample (codes "nft_conntrack_insert_total")
            (codes "Total conntrack entries inserted (sum across CPUs).") [] stat.inserted
        ∷ counter_sample (codes "nft_conntrack_drop_total")
            (codes "Total conntrack packets dropped because table was full (sum across CPUs).") []
            stat.dropped
        ∷ counter_sample (codes "nft_conntrack_early_drop_total")
            (codes "Total conntrack early drop events (sum across CPUs).") [] stat.early_drop
        ∷ counter_sample (codes "nft_conntrack_invalid_total")
            (codes "Total invalid conntrack packets (sum across CPUs).") [] stat.invalid
        ∷ optional_sample (codes "nft_conntrack_clash_resolve_total")
            (codes "Total conntrack clash-resolve events (kernel >= 5.10, sum across CPUs).")
            stat.clash_resolve
      ++ (optional_sample (codes "nft_conntrack_chaintoolong_total")
            (codes "Total conntrack chain-too-long events (kernel >= 5.12, sum across CPUs).")
            stat.chaintoolong
          ++ gauge_sample (codes "nft_conntrack_entries")
              (codes "Current number of active conntrack entries.") [] (of_u64 entries)
            ∷ [])
