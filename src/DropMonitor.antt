-- ===== src/DropMonitor.antt =====
-- crates/nlx-netlink/src/collectors/drop_monitor.rs: the drop counters, the alerts and the statistics.
pub mod Alerts
pub mod Stats
pub mod Collect
use netlink_exporter.Base.{
  ℕ, zero, suc, ◌+◌, ◌-◌, ◌%◌, ◌^◌, Bool, true, false, ◌&&◌, ◌||◌, List, [], ◌∷◌, ◌++◌, Option,
  none, some, min, ltb, leb, ◌==◌, if◌then◌else◌, length, get_or, take, drop,
}
use mathlib.Core.Option
use netlink_exporter.Base.Text.{Text, codes}
use netlink_exporter.Transport.{
  NetlinkError, Result, ok, err, recv_buf_overflow, error_text, nlmsg_hdrlen,
}
use netlink_exporter.Transport.Dump.{Received}
use netlink_exporter.Transport.Ring.{uring_recv}
use netlink_exporter.Wire.{
  Bytes, Nla, align4, from_ne_bytes, slice, parse_attrs, nested_attrs, read_u32,
}

-- `DropCounters`, and what one alert adds to them.
pub record DropCounters : Type 0 where
  pub sw : ℕ
  pub hw : ℕ

-- `saturating_add` on `u64`
abbrev pub saturating_add : ℕ → ℕ → ℕ
saturating_add a b = min (a + b) (2 ^ 64 - 1)

abbrev pub read_u32_or_zero : Bytes → ℕ
read_u32_or_zero payload = Option.get_or (read_u32 payload) 0

-- The loop over the drop points; `rest` is the payload from the point's offset on.
unfoldable pub add_points : ℕ → Bytes → ℕ → ℕ
add_points zero rest sw = sw
add_points (suc entries) rest sw =
    let later =
      add_points entries (drop 12 rest) (saturating_add sw (read_u32_or_zero (slice 8 12 rest))) in
    if ltb (length rest) 12 then sw else later

-- The two inner loops: 18 is `NET_DM_ATTR_HW_ENTRY`, 19 `NET_DM_ATTR_HW_TRAP_COUNT`.
unfoldable pub add_trap_counts : List Nla → ℕ → ℕ
add_trap_counts [] hw = hw
add_trap_counts (f ∷ fields) hw =
    add_trap_counts fields
      (if f.ty == 19 then saturating_add hw (read_u32_or_zero f.payload) else hw)

unfoldable pub add_hw_entries : List Nla → ℕ → ℕ
add_hw_entries [] hw = hw
add_hw_entries (entry ∷ entries) hw =
    add_hw_entries entries
      (if entry.ty == 18 then add_trap_counts (nested_attrs entry.payload) hw else hw)

-- The match on one attribute: 0 is `NET_DM_ATTR_ALERT_UNSPEC`, 17 `NET_DM_ATTR_HW_ENTRIES`.
unfoldable pub add_alert_attr : Nla → DropCounters → DropCounters
unfolding add_points add_hw_entries
add_alert_attr a c =
    if a.ty == 0
    then (if ltb (length a.payload) 4 then c else record c {
      sw = add_points (read_u32_or_zero (take 4 a.payload)) (drop 4 a.payload) c.sw;
    })
    else if a.ty == 17
    then record c { hw = add_hw_entries (nested_attrs a.payload) c.hw }
    else c

unfoldable pub add_alert_attrs : List Nla → DropCounters → DropCounters
add_alert_attrs [] c = c
add_alert_attrs (a ∷ attrs) c = add_alert_attrs attrs (add_alert_attr a c)

unfoldable pub parse_summary_alert : Bytes → DropCounters
unfolding add_alert_attrs
parse_summary_alert attrs_buf = add_alert_attrs (parse_attrs attrs_buf) (record { sw = 0; hw = 0 })

-- `fetch_add` on both counters; adding nothing is the same as not adding.
abbrev pub fetch_add : DropCounters → DropCounters → DropCounters
fetch_add c d = record { sw = (c.sw + d.sw) % 2 ^ 64; hw = (c.hw + d.hw) % 2 ^ 64 }

-- The body of the `while` loop for one message. `NET_DM_CMD_ALERT` is 1.
unfoldable pub add_message : ℕ → ℕ → Bytes → DropCounters → DropCounters
unfolding parse_summary_alert
add_message family_id ty mpayload c =
    if ty == family_id && (leb 4 (length mpayload) && get_or mpayload 0 0 == 1)
    then fetch_add c (parse_summary_alert (drop 4 mpayload))
    else c

-- The `while` loop over a datagram, on fuel; `rest` is `&data[pos..]`.
unfoldable pub drain_loop : ℕ → ℕ → Bytes → DropCounters → DropCounters
drain_loop zero family_id rest c = c
drain_loop (suc fuel) family_id rest c =
    let nl = from_ne_bytes (slice 0 4 rest) in
    let later =
      drain_loop fuel family_id (drop (align4 nl) rest)
        (add_message family_id (from_ne_bytes (slice 4 6 rest)) (slice nlmsg_hdrlen nl rest) c) in
    if ltb (length rest) nlmsg_hdrlen
    then c
    else if ltb nl nlmsg_hdrlen || ltb (length rest) nl
    then c
    else later

-- Each round takes a header at least, so the length of the data is enough fuel.
unfoldable pub drain : ℕ → Bytes → DropCounters → DropCounters
unfolding drain_loop
drain family_id data_ c = drain_loop (length data_) family_id data_ c

module _ (os_error : ℕ → Text) where
  -- The receive loop of `recv_loop`: the counters, and the error that ends it, if any.
  unfoldable pub recv_loop : ℕ → List Received → DropCounters → DropCounters × Option Text
  recv_loop family_id [] c = (c, none)
  recv_loop family_id (r ∷ script) c = elim (uring_recv os_error r.completion) [
    | err recv_buf_overflow ↦ recv_loop family_id script c
    | err e ↦ (c, some (codes "recv: " ++ error_text e))
    | ok n ↦ recv_loop family_id script (drain family_id (take n r.buffer) c)
  ]
