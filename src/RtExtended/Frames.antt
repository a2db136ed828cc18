-- ===== src/RtExtended/Frames.antt =====
-- Where crates/nlx-netlink/src/collectors/rt_extended.rs looks for the attributes of a frame.
use netlink_exporter.Base.{
  ℕ, ◌^◌, ◌≤◌, ◌<◌, ◌≡◌, ap, ◌∙◌, Bool, if◌then◌else◌, List, [], ◌++◌, length, drop, flat_map,
  ltb-false, arith, false, ltb,
}
use netlink_exporter.Metric.{MetricSample}
use netlink_exporter.RtExtended.{build_if_stats_msg, if_label, stats_attr, stats_frame}
use netlink_exporter.Wire.{Bytes, from_ne_bytes, parse_attrs}
use netlink_exporter.Wire.Build.{to_ne_bytes}

-- In a frame that starts with the message that `build_if_stats_msg` writes, of an index of 32 bits, the
-- loop reads the attributes four bytes after their start, behind the header of the first one.
pub stats_frame-build_if_stats_msg :
    {F64 : Type 0} (ifindex filter_mask : ℕ) (attrs : Bytes)
    → ifindex < 2 ^ 32
    → 4 ≤ length attrs
    → stats_frame {F64 = F64} (build_if_stats_msg ifindex filter_mask ++ attrs)
      ≡ flat_map (stats_attr (if_label ifindex)) (parse_attrs (drop 4 attrs))
unfolding stats_frame build_if_stats_msg
stats_frame-build_if_stats_msg {F64 = F64} ifindex filter_mask attrs fits long =
    let found : ℕ → List (MetricSample F64) =
      λ index. flat_map (stats_attr (if_label index)) (parse_attrs (drop 4 attrs)) in
    let enough : ltb (length (build_if_stats_msg ifindex filter_mask ++ attrs)) 16 ≡ false =
      ltb-false _ _ (omega (arith, long)) in
    let same : from_ne_bytes (to_ne_bytes 4 ifindex) ≡ ifindex = omega (arith, fits) in
    ap (λ (b : Bool). if b then [] else found (from_ne_bytes (to_ne_bytes 4 ifindex))) enough
    ∙ ap found same
