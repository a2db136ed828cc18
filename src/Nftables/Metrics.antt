-- ===== src/Nftables/Metrics.antt =====
-- `build_metrics` of crates/nlx-netlink/src/collectors/nftables.rs, one function for each of its
-- sections. `of_u64` is the cast of an integer to an `f64`.
use netlink_exporter.Base.{
  ℕ, ◌-◌, List, [], ◌∷◌, ◌++◌, ltb, if◌then◌else◌, length, take, map, flat_map,
}
use netlink_exporter.Base.Map.{insert}
use netlink_exporter.Base.Order.{text_ord}
use netlink_exporter.Base.Text.{Text, codes, signed_decimal}
use netlink_exporter.Metric.{Labels, MetricSample, counter_sample, gauge_sample}
use netlink_exporter.Nftables.{NftTable, NftChain, NftSet, NftFlowtable}
use netlink_exporter.Nftables.Objects.{NftCounter, NftQuota, NftLimit}
use netlink_exporter.Nftables.Rules.{NftRuleCounter}

abbrev pub rule_counter_max_series : ℕ
rule_counter_max_series = 1000

abbrev pub table_labels : NftTable → Labels
table_labels t = insert (codes "family") t.family (insert (codes "table") t.name [])

abbrev pub chain_labels : NftChain → Labels
chain_labels c = insert (codes "policy") c.policy (
    insert (codes "priority") (signed_decimal c.priority) (
      insert (codes "hook") c.hook (
        insert (codes "type") c.chain_type
          (insert (codes "chain") c.chain (insert (codes "table") c.table [])))))

abbrev pub rule_labels : NftRuleCounter → Labels
rule_labels rc =
    insert (codes "comment") rc.comment
      (insert (codes "chain") rc.chain (insert (codes "table") rc.table []))

abbrev pub overflow_labels : Labels
overflow_labels =
    insert (codes "reason") (codes "cardinality_overflow")
      (insert (codes "collector") (codes "nftables") [])

-- The labels of named objects, with and without a type.
abbrev pub object_labels : Text → Text → Labels
object_labels table name = insert (codes "name") name (insert (codes "table") table [])

abbrev pub typed_labels : Text → Text → Text → Labels
typed_labels table name ty = insert (codes "type") ty (object_labels table name)

abbrev pub flowtable_labels : NftFlowtable → Labels
flowtable_labels ft = insert (codes "hw_offload") (if ft.hw_offload then codes "1" else codes "0") (
    insert (codes "priority") (signed_decimal ft.priority)
      (insert (codes "hook") ft.hook (object_labels ft.table ft.name)))

-- Everything that the dumps of one scrape give.
pub record Ruleset : Type 0 where
  pub tables : List NftTable
  pub chains : List NftChain
  pub rule_counters : List NftRuleCounter
  pub named_counters : List NftCounter
  pub sets : List NftSet
  pub quotas : List NftQuota
  pub limits : List NftLimit
  pub generation : ℕ
  pub flowtables : List NftFlowtable

module _ {F64 : Type 0} (of_u64 : ℕ → F64) where
  abbrev pub table_sample : NftTable → MetricSample F64
  table_sample t =
      gauge_sample (codes "nft_table_info")
        (codes "Metadata gauge (always 1) for each nftables table.") (table_labels t) (of_u64 1)

  abbrev pub chain_sample : NftChain → MetricSample F64
  chain_sample c =
      gauge_sample (codes "nft_chain_info")
        (codes "Metadata gauge (always 1) for each nftables chain.") (chain_labels c) (of_u64 1)

  abbrev pub rule_samples : NftRuleCounter → List (MetricSample F64)
  rule_samples rc =
      counter_sample (codes "nft_rule_counter_bytes_total")
        (codes "Total bytes matched by nftables rules carrying a counter expression.")
        (rule_labels rc) rc.bytes
      ∷ counter_sample (codes "nft_rule_counter_packets_total")
          (codes "Total packets matched by nftables rules carrying a counter expression.")
          (rule_labels rc) rc.packets
      ∷ []

  -- The sample of the rules beyond the cap, if there are any.
  unfoldable pub overflow_samples : ℕ → List (MetricSample F64)
  overflow_samples rules =
      let dropped = rules - rule_counter_max_series in
      if ltb 0 dropped
      then counter_sample (codes "nft_scrape_collector_error_total")
          (codes "Total errors during collection partitioned by collector and reason.")
          overflow_labels dropped
        ∷ []
      else []

  unfoldable pub rules_samples : List NftRuleCounter → List (MetricSample F64)
  unfolding overflow_samples
  rules_samples rules =
      flat_map rule_samples (take rule_counter_max_series rules) ++ overflow_samples (length rules)

  abbrev pub counter_samples : NftCounter → List (MetricSample F64)
  counter_samples nc =
      counter_sample (codes "nft_named_counter_bytes_total")
        (codes "Total bytes counted by a named nftables counter object.")
        (object_labels nc.table nc.name) nc.bytes
      ∷ counter_sample (codes "nft_named_counter_packets_total")
          (codes "Total packets counted by a named nftables counter object.")
          (object_labels nc.table nc.name) nc.packets
      ∷ []

  abbrev pub set_sample : NftSet → MetricSample F64
  set_sample s =
      gauge_sample (codes "nft_set_elements")
        (codes "Current number of elements in a named nftables set or map.")
        (typed_labels s.table s.name s.key_type) (of_u64 s.element_count)

  abbrev pub quota_samples : NftQuota → List (MetricSample F64)
  quota_samples q =
      gauge_sample (codes "nft_named_quota_bytes_total")
        (codes "Configured quota ceiling in bytes for a named nftables quota object.")
        (object_labels q.table q.name) (of_u64 q.bytes_ceiling)
      ∷ gauge_sample (codes "nft_named_quota_consumed_bytes_total")
          (codes "Bytes consumed against the quota ceiling for a named nftables quota object.")
          (object_labels q.table q.name) (of_u64 q.bytes_consumed)
      ∷ gauge_sample (codes "nft_named_quota_depleted")
          (codes "1 when the named quota object is depleted, 0 otherwise.")
          (object_labels q.table q.name) (if q.depleted then of_u64 1 else of_u64 0)
      ∷ []

  abbrev pub limit_samples : NftLimit → List (MetricSample F64)
  limit_samples l =
      gauge_sample (codes "nft_named_limit_rate")
        (codes "Configured rate for a named nftables limit object.")
        (typed_labels l.table l.name l.limit_type) (of_u64 l.rate)
      ∷ gauge_sample (codes "nft_named_limit_burst")
          (codes "Configured burst allowance for a named nftables limit object.")
          (typed_labels l.table l.name l.limit_type) (of_u64 l.burst)
      ∷ []

  abbrev pub generation_sample : ℕ → MetricSample F64
  generation_sample generation =
      gauge_sample (codes "nft_ruleset_generation")
        (codes "Current nftables ruleset generation ID (NFTA_GEN_ID).") [] (of_u64 generation)

  abbrev pub flowtable_sample : NftFlowtable → MetricSample F64
  flowtable_sample ft =
      gauge_sample (codes "nft_flowtable_info")
        (codes "Metadata gauge (always 1) for each nftables flowtable.") (flowtable_labels ft)
        (of_u64 1)

  unfoldable pub build_metrics : Ruleset → List (MetricSample F64)
  unfolding rules_samples
  build_metrics r =
      map table_sample r.tables
      ++ (map chain_sample r.chains
          ++ (rules_samples r.rule_counters
              ++ (flat_map counter_samples r.named_counters
                  ++ (map set_sample r.sets
                      ++ (flat_map quota_samples r.quotas
                          ++ (flat_map limit_samples r.limits
                              ++ (generation_sample r.generation
                                  ∷ map flowtable_sample r.flowtables)))))))
