-- ===== src/DropMonitor/Collect.antt =====
-- `DropMonitorCollector::collect`, `fetch_overflow_stats` and `parse_alert_frame` of
-- crates/nlx-netlink/src/collectors/drop_monitor.rs.
use netlink_exporter.Base.{
  ℕ, ◌≡◌, refl, ◌⊎◌, inl, inr, List, [], ◌∷◌, Option, none, some, ◌==◌, if◌then◌else◌, ltb, length,
  drop, Bool, true, false, Bool-cases,
}
use mathlib.Core.Option
use netlink_exporter.Base.Map.{insert, upsert}
use netlink_exporter.Base.Order.{text_ord}
use netlink_exporter.Base.Text.{Text, codes}
use netlink_exporter.DropMonitor.{DropCounters, saturating_add}
use netlink_exporter.DropMonitor.Stats.{DropEvent, events, stats_reply, read_stats}
use netlink_exporter.Metric.{MetricSample, counter_sample}
use netlink_exporter.Registry.{duplicate_series, series_key}
use netlink_exporter.Transport.{Result, ok, err}
use netlink_exporter.Wire.{Bytes, Nla, parse_attrs, nested_attrs, read_u16, read_u64}
use netlink_exporter.Wire.Names.{before_nul}

-- `fetch_overflow_stats`: what opening the socket, resolving the family and the request give. Any
-- failure is `None`.
unfoldable pub fetch_overflow_stats :
    Bool → Result (Option ℕ) → (ℕ → Result (List DropEvent)) → Option (List DropEvent)
fetch_overflow_stats false family fetch = none
fetch_overflow_stats true (err e) fetch = none
fetch_overflow_stats true (ok none) fetch = none
fetch_overflow_stats true (ok (some id)) fetch = elim (fetch id) [ ok l ↦ some l | err e ↦ none ]

module _ {F64 : Type 0} where
  abbrev pub total_sample : Text → ℕ → MetricSample F64
  total_sample origin total =
      counter_sample (codes "nft_drop_packets_total")
        (codes
          "Total packet drops observed via the NET_DM drop-monitor multicast ALERT stream since exporter start.")
        (insert (codes "reason") (codes "total") (insert (codes "origin") origin [])) total

  unfoldable pub unreported_samples : List DropEvent → List (MetricSample F64)
  unreported_samples [] = []
  unreported_samples (ev ∷ rest) =
      counter_sample (codes "nft_drop_monitor_unreported_total")
        (codes
          "Drops the kernel drop-monitor could not enqueue for reporting (per-CPU queue overflow); monitor-health signal, not a drop total.")
        (insert (codes "origin") ev.origin []) ev.dropped
      ∷ unreported_samples rest

  -- `collect`, which never fails: the totals, and the overflow counters if they could be had.
  unfoldable pub collect : DropCounters → Option (List DropEvent) → List (MetricSample F64)
  unfolding unreported_samples
  collect c overflow =
      total_sample (codes "sw") c.sw
      ∷ total_sample (codes "hw") c.hw
      ∷ unreported_samples (Option.get_or overflow [])

-- The variables of the loop in `parse_alert_frame`; names are the bytes that `lossy` decodes.
pub record PacketAlert : Type 0 where
  pub origin_raw : ℕ
  pub reason : Option Bytes
  pub hw_trap : Option Bytes
  pub dropped : ℕ

unfoldable pub add_dropped : List Nla → ℕ → ℕ
add_dropped [] dropped = dropped
add_dropped (inner ∷ rest) dropped = add_dropped rest (
    if inner.ty == 0
    then saturating_add dropped (Option.get_or (read_u64 inner.payload) 0)
    else dropped)

-- The match on one attribute: 14 is the origin, 23 the reason, 16 the trap's name, 12 the statistics.
unfoldable pub read_alert_attr : Nla → PacketAlert → PacketAlert
unfolding add_dropped
read_alert_attr a p =
    if a.ty == 14
    then record p { origin_raw = Option.get_or (read_u16 a.payload) 0 }
    else if a.ty == 23
    then record p { reason = some (before_nul a.payload) }
    else if a.ty == 16
    then record p { hw_trap = some (before_nul a.payload) }
    else if a.ty == 12
    then record p { dropped = add_dropped (nested_attrs a.payload) p.dropped }
    else p

unfoldable pub read_alert : List Nla → PacketAlert → PacketAlert
unfolding read_alert_attr
read_alert [] p = p
read_alert (a ∷ attrs) p = read_alert attrs (read_alert_attr a p)

-- `lossy` is `String::from_utf8_lossy`.
unfoldable pub parse_alert_frame : (Bytes → Text) → Bytes → Option DropEvent
unfolding read_alert
parse_alert_frame lossy attrs_buf =
    let p : PacketAlert =
      read_alert (parse_attrs attrs_buf)
        (record { origin_raw = 0; reason = none; hw_trap = none; dropped = 0 }) in
    if p.origin_raw == 0
    then Option.map (λ r. record { reason = lossy r; origin = codes "sw"; dropped = p.dropped })
        p.reason
    else some (record {
      reason = Option.get_or (Option.map lossy p.hw_trap) (codes "unknown");
      origin = codes "hw";
      dropped = p.dropped;
    })

stats_reply-cases :
    (reply : Option Bytes)
    → (stats_reply reply ≡ []) ⊎ ((p : ℕ × ℕ) × (stats_reply reply ≡ events p))
unfolding stats_reply
stats_reply-cases none = inl refl
stats_reply-cases (some payload) = elim (Bool-cases (ltb (length payload) 4)) [
  | inl short ↦ inl (rw short refl)
  | inr long ↦ inr (read_stats (parse_attrs (drop 4 payload)) 0 0, rw long refl)
]

-- Whatever the counters are and whatever the kernel replies, the collector emits no series twice.
pub duplicate_series-collect :
    (F64 : Type 0) (c : DropCounters) (reply : Option Bytes)
    → duplicate_series {F64 = F64} (collect c (some (stats_reply reply))) ≡ []
unfolding collect duplicate_series series_key insert upsert
duplicate_series-collect F64 c reply = elim (stats_reply-cases reply) [
  | inl e ↦ rw e refl
  | inr (p, e) ↦ rw e refl
]
