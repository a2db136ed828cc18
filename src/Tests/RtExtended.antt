-- ===== src/Tests/RtExtended.antt =====
-- Inputs for the theorems about crates/nlx-netlink/src/collectors/rt_extended.rs.
use netlink_exporter.Base.{ℕ, [], ◌++◌, ◌≡◌, refl, drop, flat_map, arith}
use netlink_exporter.RtExtended.{
  build_if_stats_msg, if_label, stats_attr, stats_frame, parse_bridge_xstats, bridge_attr,
  parse_offload_xstats, offload_attr,
}
use netlink_exporter.RtExtended.Frames.{stats_frame-build_if_stats_msg}
use netlink_exporter.Wire.{Bytes, parse_attrs, collect, next}
use netlink_exporter.Wire.Build.{push_nla, to_ne_bytes}

-- Multicast statistics of a bridge: 5 bytes received and 7 sent.
abbrev xstats : Bytes
xstats = push_nla [] 2 (push_nla [] 2 (to_ne_bytes 8 5 ++ to_ne_bytes 8 7))

-- None of them is found behind the message of the interface 3.
lost : stats_frame {F64 = ℕ} (build_if_stats_msg 3 10 ++ xstats) ≡ []
unfolding stats_frame build_if_stats_msg stats_attr parse_bridge_xstats bridge_attr
    parse_offload_xstats offload_attr parse_attrs collect next push_nla
lost = refl

stats_frame-build_if_stats_msg_example :
    stats_frame {F64 = ℕ} (build_if_stats_msg 3 10 ++ xstats)
    ≡ flat_map (stats_attr (if_label 3)) (parse_attrs (drop 4 xstats))
unfolding push_nla
stats_frame-build_if_stats_msg_example =
    stats_frame-build_if_stats_msg 3 10 xstats (omega arith) (omega arith)
