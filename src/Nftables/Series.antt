-- ===== src/Nftables/Series.antt =====
-- The series that `build_metrics` of crates/nlx-netlink/src/collectors/nftables.rs makes of chains of
-- different families, and of many rules.
use netlink_exporter.Base.{
  ℕ, ◌*◌, ◌≤◌, List, [], ◌∷◌, Option, none, some, ◌≡◌, refl, sym, ap, ◌∙◌, map, filter_map,
  flat_map, length, take, length-take, length-append, arith,
}
use netlink_exporter.Base.Map.{upsert}
use netlink_exporter.Base.Order.{text_cmp_refl, text_eq_iff}
use netlink_exporter.Base.Text.{Text}
use netlink_exporter.Metric.{MetricSample}
use netlink_exporter.Nftables.{NftChain, parse_chain_frame}
use netlink_exporter.Nftables.Metrics.{chain_sample, rule_samples, rules_samples, overflow_samples}
use netlink_exporter.Nftables.Rules.{NftRuleCounter}
use netlink_exporter.Registry.{
  Float, encode_samples, group_samples, add_observation, series_key, new_group, GroupEntry,
  write_groups,
}
use netlink_exporter.Wire.{Bytes}

module _ {F64 : Type 0} (of_u64 : ℕ → F64) (float : Float F64) (lossy : Bytes → Text) where
  -- A sample again, next to itself, changes nothing.
  add_observation-again :
      (s : MetricSample F64)
      → add_observation s (add_observation s (new_group s)) ≡ add_observation s (new_group s)
  unfolding add_observation
  add_observation-again s =
      rw ((text_eq_iff (series_key s.labels) (series_key s.labels)).1 refl) refl

  encode_samples-again :
      (s : MetricSample F64) → encode_samples float (s ∷ s ∷ []) ≡ encode_samples float (s ∷ [])
  unfolding encode_samples group_samples upsert
  encode_samples-again s =
      rw (text_cmp_refl s.name, upsert)
        (ap (λ (g : GroupEntry F64). write_groups float ((s.name, g) ∷ []))
          (add_observation-again s))

  abbrev keep : Option NftChain → List NftChain → List NftChain
  keep none chains = chains
  keep (some c) chains = c ∷ chains

  encode_samples-keep :
      (o : Option NftChain)
      → encode_samples float (map (chain_sample of_u64) (keep o (keep o [])))
        ≡ encode_samples float (map (chain_sample of_u64) (keep o []))
  encode_samples-keep none = refl
  encode_samples-keep (some c) = encode_samples-again (chain_sample of_u64 c)

  filter-keep :
      (o : Option NftChain) (l : List NftChain) → (elim o [ none ↦ l | some c ↦ c ∷ l ]) ≡ keep o l
  filter-keep none l = refl
  filter-keep (some c) l = refl

  -- The family of a chain stands in the first byte of its frame, which no label keeps: of two chains
  -- that differ in nothing but their families, the exposition has one.
  pub encode_samples-families :
      (family other : ℕ) (frame : Bytes)
      → encode_samples float (
          map
            (chain_sample of_u64)
            (filter_map (parse_chain_frame lossy) ((family ∷ frame) ∷ (other ∷ frame) ∷ [])))
        ≡ encode_samples float (
            map
              (chain_sample of_u64)
              (filter_map (parse_chain_frame lossy) ((family ∷ frame) ∷ [])))
  unfolding parse_chain_frame
  encode_samples-families family other frame =
      let o = parse_chain_frame lossy (family ∷ frame) in
      let encoded : List NftChain → Text =
        λ chains. encode_samples float (map (chain_sample of_u64) chains) in
      ap encoded (filter-keep o _ ∙ ap (keep o) (filter-keep o []))
      ∙ encode_samples-keep o
      ∙ sym (ap encoded (filter-keep o []))

module _ {F64 : Type 0} (of_u64 : ℕ → F64) where
  length-flat_map :
      (rules : List NftRuleCounter)
      → length (flat_map (rule_samples of_u64) rules) ≡ 2 * length rules
  length-flat_map [] = refl
  length-flat_map (r ∷ rules) = omega (arith, length-flat_map rules)

  length-overflow_samples : (n : ℕ) → length (overflow_samples of_u64 n) ≤ 1
  unfolding overflow_samples
  length-overflow_samples n = ground arith

  -- However many rules have counters, the collector emits at most 2001 samples for them: two for each
  -- of the first 1000, and one that counts the rest.
  pub length-rules_samples :
      (rules : List NftRuleCounter) → length (rules_samples of_u64 rules) ≤ 2001
  unfolding rules_samples
  length-rules_samples rules = omega (
    arith,
    length-append (flat_map (rule_samples of_u64) (take 1000 rules))
        (overflow_samples of_u64 (length rules)),
    length-flat_map (take 1000 rules),
    length-take 1000 rules,
    length-overflow_samples (length rules),
  )
