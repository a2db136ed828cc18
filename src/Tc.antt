-- ===== src/Tc.antt =====
-- crates/nlx-netlink/src/collectors/tc.rs: the parsers of links and queueing disciplines, the totals by
-- device and kind, and their samples. `from_utf8` is `str::from_utf8`. An interface index is the bit
-- pattern of an `i32`: indexes are only looked up.
pub mod Collect
pub mod Totals
pub mod Series
use netlink_exporter.Base.{
  ℕ, ◌+◌, ◌-◌, ◌%◌, ◌^◌, Bool, true, false, List, [], ◌∷◌, ◌++◌, Option, none, some, min, ltb, leb,
  ◌==◌, if◌then◌else◌, length, drop,
}
use mathlib.Core.Option
use netlink_exporter.Base.Map.{insert, lookup, upsert}
use netlink_exporter.Base.Order.{text_ord, nat_ord, pair_ord}
use netlink_exporter.Base.Text.{Text, codes}
use netlink_exporter.Metric.{Labels, MetricSample, counter_sample, gauge_sample}
use netlink_exporter.Wire.{Bytes, Nla, parse_attrs, nested_attrs, from_ne_bytes, read_u64, slice}
use netlink_exporter.Wire.Names.{before_nul}

-- `QdiscStats`, and `AggStats`, which has the same fields.
pub record QdiscStats : Type 0 where
  pub bytes : ℕ
  pub packets : ℕ
  pub drops : ℕ
  pub overlimits : ℕ
  pub backlog : ℕ

abbrev pub no_stats : QdiscStats
no_stats = record { bytes = 0; packets = 0; drops = 0; overlimits = 0; backlog = 0 }

abbrev pub saturating_add : ℕ → ℕ → ℕ
saturating_add a b = min (a + b) (2 ^ 64 - 1)

-- `AggStats::add`
abbrev pub add : QdiscStats → QdiscStats → QdiscStats
add acc s = record {
  bytes = saturating_add acc.bytes s.bytes;
  packets = saturating_add acc.packets s.packets;
  drops = saturating_add acc.drops s.drops;
  overlimits = saturating_add acc.overlimits s.overlimits;
  backlog = saturating_add acc.backlog s.backlog;
}

-- The match on one attribute of `TCA_STATS2`, with the flag `found_basic`.
unfoldable pub read_stats_attr : Nla → QdiscStats × Bool → QdiscStats × Bool
read_stats_attr a (s, found_basic) =
    let eff_ty = a.ty % 2 ^ 15 in
    if eff_ty == 1
    then (if leb 12 (length a.payload)
        then (
          record s {
            bytes = Option.get_or (read_u64 a.payload) 0;
            packets = from_ne_bytes (slice 8 12 a.payload);
          },
          true,
        )
        else (s, found_basic))
    else if eff_ty == 3
    then (if leb 20 (length a.payload)
        then (
          record s {
            backlog = from_ne_bytes (slice 4 8 a.payload);
            drops = from_ne_bytes (slice 8 12 a.payload);
            overlimits = from_ne_bytes (slice 16 20 a.payload);
          },
          found_basic,
        )
        else (s, found_basic))
    else (s, found_basic)

unfoldable pub read_stats_attrs : List Nla → QdiscStats × Bool → QdiscStats × Bool
unfolding read_stats_attr
read_stats_attrs [] p = p
read_stats_attrs (a ∷ attrs) p = read_stats_attrs attrs (read_stats_attr a p)

unfoldable pub parse_tca_stats2 : Bytes → Option QdiscStats
unfolding read_stats_attrs
parse_tca_stats2 payload =
    let (s, found_basic) = read_stats_attrs (nested_attrs payload) (no_stats, false) in
    if found_basic then some s else none

pub record QdiscEntry : Type 0 where
  pub ifindex : ℕ
  pub kind : Text
  pub stats : Option QdiscStats

-- The keys `(device, kind)`, and the map `agg`.
abbrev pub Agg : Type 0
Agg = List ((Text × Text) × QdiscStats)

module _ (from_utf8 : Bytes → Option Text) where
  abbrev pub decode_ifname : Bytes → Option Text
  decode_ifname payload = from_utf8 (before_nul payload)

  -- The loop over the attributes of a link: it stops at the first name.
  unfoldable pub link_name : List Nla → Option Text
  link_name [] = none
  link_name (a ∷ attrs) =
      let rest = link_name attrs in if a.ty == 3 then decode_ifname a.payload else rest

  unfoldable pub add_link : Bytes → List (ℕ × Text) → List (ℕ × Text)
  unfolding link_name
  add_link frame map =
      if ltb (length frame) 16 then map else elim (link_name (parse_attrs (drop 16 frame))) [
        | none ↦ map
        | some name ↦ insert (from_ne_bytes (slice 4 8 frame)) name map
      ]

  unfoldable pub add_links : List Bytes → List (ℕ × Text) → List (ℕ × Text)
  unfolding add_link
  add_links [] map = map
  add_links (frame ∷ frames) map = add_links frames (add_link frame map)

  -- The match on one attribute of a queueing discipline.
  unfoldable pub read_qdisc_attr :
      Nla → Option Text × Option QdiscStats → Option Text × Option QdiscStats
  unfolding parse_tca_stats2
  read_qdisc_attr a (kind, stats) =
      if a.ty == 1
      then (decode_ifname a.payload, stats)
      else if a.ty == 7
      then (kind, parse_tca_stats2 a.payload)
      else (kind, stats)

  unfoldable pub read_qdisc_attrs :
      List Nla → Option Text × Option QdiscStats → Option Text × Option QdiscStats
  unfolding read_qdisc_attr
  read_qdisc_attrs [] p = p
  read_qdisc_attrs (a ∷ attrs) p = read_qdisc_attrs attrs (read_qdisc_attr a p)

  unfoldable pub parse_qdisc_frame : Bytes → Option QdiscEntry
  unfolding read_qdisc_attrs
  parse_qdisc_frame payload =
      if ltb (length payload) 20
      then none
      else let (kind, stats) = read_qdisc_attrs (parse_attrs (drop 20 payload)) (none, none) in
        some (record {
          ifindex = from_ne_bytes (slice 4 8 payload);
          kind = Option.get_or kind (codes "unknown");
          stats = stats;
        })

  -- The key and the counters that a frame adds, if it adds any.
  unfoldable pub frame_stats : List (ℕ × Text) → Bytes → Option ((Text × Text) × QdiscStats)
  unfolding parse_qdisc_frame
  frame_stats ifindex_map frame = elim (parse_qdisc_frame frame) [
    | none ↦ none
    | some entry ↦
        Option.map
          (λ s.
            ((Option.get_or (lookup entry.ifindex ifindex_map) (codes "unknown"), entry.kind), s))
          entry.stats
  ]

  unfoldable pub aggregate : List (ℕ × Text) → List Bytes → Agg → Agg
  unfolding frame_stats
  aggregate ifindex_map [] agg = agg
  aggregate ifindex_map (frame ∷ frames) agg =
      aggregate ifindex_map frames (elim (frame_stats ifindex_map frame) [
        | none ↦ agg
        | some (key, s) ↦ upsert key no_stats (λ acc. add acc s) agg
      ])

abbrev pub qdisc_labels : Text → Text → Labels
qdisc_labels device kind = insert (codes "kind") kind (insert (codes "device") device [])

module _ {F64 : Type 0} (of_u64 : ℕ → F64) where
  unfoldable pub emit_qdisc_metrics : Text → Text → QdiscStats → List (MetricSample F64)
  emit_qdisc_metrics device kind s =
      counter_sample (codes "nft_tc_qdisc_bytes_total")
        (codes
          "Total bytes processed by the qdisc (summed across multi-queue child qdiscs of the same kind).")
        (qdisc_labels device kind) s.bytes
      ∷ counter_sample (codes "nft_tc_qdisc_packets_total")
          (codes
            "Total packets processed by the qdisc (summed across multi-queue child qdiscs of the same kind).")
          (qdisc_labels device kind) s.packets
      ∷ counter_sample (codes "nft_tc_qdisc_drops_total")
          (codes
            "Total packets dropped by the qdisc (summed across multi-queue child qdiscs of the same kind).")
          (qdisc_labels device kind) s.drops
      ∷ counter_sample (codes "nft_tc_qdisc_overlimits_total")
          (codes
            "Total overlimit events on the qdisc (summed across multi-queue child qdiscs of the same kind).")
          (qdisc_labels device kind) s.overlimits
      ∷ gauge_sample (codes "nft_tc_qdisc_backlog_bytes")
          (codes
            "Current backlog size of the qdisc in bytes (summed across multi-queue child qdiscs of the same kind).")
          (qdisc_labels device kind) (of_u64 s.backlog)
      ∷ []

  unfoldable pub agg_samples : Agg → List (MetricSample F64)
  unfolding emit_qdisc_metrics
  agg_samples [] = []
  agg_samples (((device, kind), acc) ∷ agg) = emit_qdisc_metrics device kind acc ++ agg_samples agg
