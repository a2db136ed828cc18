-- ===== src/RtExtended.antt =====
-- crates/nlx-netlink/src/collectors/rt_extended.rs: the parsers of extended link statistics, and the
-- counts of forwarding entries.
pub mod Collect
pub mod Entries
pub mod Frames
use netlink_exporter.Base.{
  ℕ, ◌+◌, List, [], ◌∷◌, ◌++◌, Option, none, some, ltb, ◌==◌, if◌then◌else◌, length, get_or, take,
  drop, flat_map,
}
use netlink_exporter.Base.Counts.{count_by}
use netlink_exporter.Base.Map.{insert}
use netlink_exporter.Base.Order.{nat_ord, text_ord}
use netlink_exporter.Base.Text.{Text, codes, decimal}
use netlink_exporter.Metric.{Labels, MetricSample, counter_sample, gauge_sample}
use netlink_exporter.Wire.{Bytes, Nla, parse_attrs, nested_attrs, from_ne_bytes}
use netlink_exporter.Wire.Build.{to_ne_bytes}

-- `if_stats_msg`
unfoldable pub build_if_stats_msg : ℕ → ℕ → Bytes
build_if_stats_msg ifindex filter_mask =
    0 ∷ 0 ∷ (to_ne_bytes 2 0 ++ (to_ne_bytes 4 ifindex ++ to_ne_bytes 4 filter_mask))

abbrev pub if_label : ℕ → Text
if_label ifindex = codes "if" ++ decimal ifindex

abbrev pub interface_labels : Text → Labels
interface_labels label = insert (codes "interface") label []

-- The eight bytes from an offset on, as a number.
abbrev pub u64_at : ℕ → Bytes → ℕ
u64_at offset payload = from_ne_bytes (take 8 (drop offset payload))

module _ {F64 : Type 0} where
  -- The match on one attribute; 2 are the multicast statistics.
  unfoldable pub bridge_attr : Text → Nla → List (MetricSample F64)
  bridge_attr label a =
      if a.ty == 2
      then (if ltb (length a.payload) 16
          then []
          else counter_sample (codes "nft_link_xstats_bridge_rx_multicast_bytes_total")
              (codes "Bridge interface multicast receive bytes (RTM_GETSTATS BRIDGE_XSTATS_MCAST).")
              (interface_labels label) (u64_at 0 a.payload)
            ∷ counter_sample (codes "nft_link_xstats_bridge_tx_multicast_bytes_total")
                (codes
                  "Bridge interface multicast transmit bytes (RTM_GETSTATS BRIDGE_XSTATS_MCAST).")
                (interface_labels label) (u64_at 8 a.payload)
            ∷ [])
      else []

  unfoldable pub parse_bridge_xstats : Bytes → Text → List (MetricSample F64)
  unfolding bridge_attr
  parse_bridge_xstats payload label = flat_map (bridge_attr label) (nested_attrs payload)

  abbrev offload_samples : Text → Bytes → List (MetricSample F64)
  offload_samples label payload =
      if ltb (length payload) (24 + 8)
      then []
      else counter_sample (codes "nft_link_xstats_offload_rx_bytes_total")
          (codes "Hardware offload receive bytes per interface (RTM_GETSTATS OFFLOAD_XSTATS).")
          (interface_labels label) (u64_at 16 payload)
        ∷ counter_sample (codes "nft_link_xstats_offload_tx_bytes_total")
            (codes "Hardware offload transmit bytes per interface (RTM_GETSTATS OFFLOAD_XSTATS).")
            (interface_labels label) (u64_at 24 payload)
        ∷ []

  -- The match on one attribute: 1 are the hits of the processor, 3 those of layer 3.
  unfoldable pub offload_attr : Text → Nla → List (MetricSample F64)
  offload_attr label a =
      if a.ty == 1
      then offload_samples label a.payload
      else if a.ty == 3
      then offload_samples label a.payload
      else []

  unfoldable pub parse_offload_xstats : Bytes → Text → List (MetricSample F64)
  unfolding offload_attr
  parse_offload_xstats payload label = flat_map (offload_attr label) (nested_attrs payload)

  -- The match on one attribute of a frame.
  unfoldable pub stats_attr : Text → Nla → List (MetricSample F64)
  unfolding parse_bridge_xstats parse_offload_xstats
  stats_attr label a =
      if a.ty == 2
      then parse_bridge_xstats a.payload label
      else if a.ty == 4
      then parse_offload_xstats a.payload label
      else []

  -- The body of the loop over the frames: the first 16 bytes are skipped.
  unfoldable pub stats_frame : Bytes → List (MetricSample F64)
  unfolding stats_attr
  stats_frame frame =
      if ltb (length frame) 16
      then []
      else flat_map (stats_attr (if_label (from_ne_bytes (take 4 (drop 4 frame)))))
          (parse_attrs (drop 16 frame))

-- The interface that a frame counts for. `AF_BRIDGE` is 7.
abbrev pub fdb_key : Bytes → Option ℕ
fdb_key frame =
    if ltb (length frame) 12
    then none
    else if get_or frame 0 0 == 7
    then some (from_ne_bytes (take 4 (drop 4 frame)))
    else none

unfoldable pub fdb_counts : List Bytes → List (ℕ × ℕ)
fdb_counts frames = count_by fdb_key frames []

module _ {F64 : Type 0} (of_u64 : ℕ → F64) where
  abbrev pub fdb_sample : ℕ × ℕ → MetricSample F64
  fdb_sample (ifindex, count) =
      gauge_sample (codes "nft_bridge_fdb_entries")
        (codes "Bridge forwarding-database entry count per bridge interface.")
        (interface_labels (if_label ifindex)) (of_u64 count)

  abbrev pub rules_sample : Text → ℕ → MetricSample F64
  rules_sample family count =
      gauge_sample (codes "nft_fib_rules")
        (codes "Number of installed FIB policy-routing rules per address family.")
        (insert (codes "family") family []) (of_u64 count)

  abbrev pub nexthop_sample : ℕ → MetricSample F64
  nexthop_sample count =
      gauge_sample (codes "nft_nexthop_objects")
        (codes "Total installed kernel nexthop objects (kernel >= 5.3; 0 if unsupported).") []
        (of_u64 count)
