-- ===== src/Tests/DropMonitor.antt =====
-- Inputs for the theorems about crates/nlx-netlink/src/collectors/drop_monitor.rs.
use netlink_exporter.Base.{◌-◌, ◌^◌, ◌≡◌, List, [], ◌∷◌, min, some, arith}
use netlink_exporter.DropMonitor.{parse_summary_alert}
use netlink_exporter.DropMonitor.Alerts.{
  DropPoint, encode_alert, total, parse_summary_alert-encode_alert,
}
use netlink_exporter.DropMonitor.Stats.{events, stats_nla, stats_reply, stats_reply-push_nla}
use netlink_exporter.Wire.Build.{push_nla}
use netlink_exporter.Wire.RoundTrip.{push_all}

abbrev points : List DropPoint
points = record { pc = 4096; count = 3 } ∷ record { pc = 8192; count = 70000 } ∷ []

parse_summary_alert-encode_alert_example :
    parse_summary_alert (push_nla [] 0 (encode_alert points))
    ≡ record { sw = min (total points) (2 ^ 64 - 1); hw = 0 }
parse_summary_alert-encode_alert_example =
    parse_summary_alert-encode_alert points (omega arith) (omega arith, (omega arith, tt))

stats_reply-push_nla_example :
    stats_reply (some (9 ∷ 2 ∷ 0 ∷ 0 ∷ push_all [] (stats_nla 12 5 ∷ stats_nla 13 6 ∷ [])))
    ≡ events (5, 6)
stats_reply-push_nla_example = stats_reply-push_nla 9 2 0 0 5 6 (omega arith) (omega arith)
