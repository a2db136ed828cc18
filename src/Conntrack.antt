-- ===== src/Conntrack.antt =====
-- crates/nlx-netlink/src/collectors/conntrack.rs: the statistics of the processors, the number of
-- entries, and the parser of flows. `release` arithmetic on a `u64` wraps.
pub mod Samples
pub mod Sums
pub mod Expect
pub mod Collect
use mathlib.Core.List.{foldl}
use mathlib.Core.Option
use netlink_exporter.Base.{
  ℕ, ◌+◌, ◌/◌, ◌%◌, ◌^◌, Bool, true, false, List, [], ◌∷◌, Option, none, some, ltb, ◌==◌,
  if◌then◌else◌, length, drop,
}
use netlink_exporter.Base.Text.{Text, codes}
use netlink_exporter.Wire.{Bytes, Nla, parse_attrs, nested_attrs, read_u8, read_u32_be, read_u64_be}

abbrev pub nfgenmsg_len : ℕ
nfgenmsg_len = 4

abbrev pub nfgenmsg_unspec : Bytes
nfgenmsg_unspec = 0 ∷ 0 ∷ 0 ∷ 0 ∷ []

pub record CpuStatSum : Type 0 where
  pub found : ℕ
  pub invalid : ℕ
  pub inserted : ℕ
  pub insert_failed : ℕ
  pub dropped : ℕ
  pub early_drop : ℕ
  pub error : ℕ
  pub search_restart : ℕ
  pub clash_resolve : Option ℕ
  pub chaintoolong : Option ℕ

pub record ConntrackStat : Type 0 where
  pub found : ℕ
  pub inserted : ℕ
  pub dropped : ℕ
  pub early_drop : ℕ
  pub invalid : ℕ
  pub clash_resolve : Option ℕ
  pub chaintoolong : Option ℕ

abbrev pub no_sum : CpuStatSum
no_sum = record {
  found = 0;
  invalid = 0;
  inserted = 0;
  insert_failed = 0;
  dropped = 0;
  early_drop = 0;
  error = 0;
  search_restart = 0;
  clash_resolve = none;
  chaintoolong = none;
}

abbrev pub add_u64 : ℕ → ℕ → ℕ
add_u64 a b = (a + b) % 2 ^ 64

-- `*field.get_or_insert(0) += v`
abbrev pub add_option : Option ℕ → ℕ → Option ℕ
add_option o v = some (add_u64 (Option.get_or o 0) v)

abbrev pub stat_value : Nla → ℕ
stat_value a = Option.get_or (read_u32_be a.payload) 0

-- The match on one attribute of a processor's statistics.
unfoldable pub cpu_attr : CpuStatSum → Nla → CpuStatSum
cpu_attr s a =
    if a.ty == 2
    then record s { found = add_u64 s.found (stat_value a) }
    else if a.ty == 4
    then record s { invalid = add_u64 s.invalid (stat_value a) }
    else if a.ty == 8
    then record s { inserted = add_u64 s.inserted (stat_value a) }
    else if a.ty == 9
    then record s { insert_failed = add_u64 s.insert_failed (stat_value a) }
    else if a.ty == 10
    then record s { dropped = add_u64 s.dropped (stat_value a) }
    else if a.ty == 11
    then record s { early_drop = add_u64 s.early_drop (stat_value a) }
    else if a.ty == 12
    then record s { error = add_u64 s.error (stat_value a) }
    else if a.ty == 13
    then record s { search_restart = add_u64 s.search_restart (stat_value a) }
    else if a.ty == 14
    then record s { clash_resolve = add_option s.clash_resolve (stat_value a) }
    else if a.ty == 15
    then record s { chaintoolong = add_option s.chaintoolong (stat_value a) }
    else s

unfoldable pub accumulate_cpu_stat : CpuStatSum → Bytes → CpuStatSum
unfolding cpu_attr
accumulate_cpu_stat sum payload = foldl cpu_attr sum (parse_attrs payload)

-- The loop over the frames; a frame too short is skipped.
unfoldable pub sum_frames : CpuStatSum → List Bytes → CpuStatSum
unfolding accumulate_cpu_stat
sum_frames sum [] = sum
sum_frames sum (frame ∷ frames) =
    sum_frames
      (if ltb (length frame) nfgenmsg_len
        then sum
        else accumulate_cpu_stat sum (drop nfgenmsg_len frame))
      frames

-- What `fetch_cpu_stats` makes of the frames.
unfoldable pub cpu_stats : List Bytes → ConntrackStat
unfolding sum_frames
cpu_stats frames =
    let sum = sum_frames no_sum frames in
    record {
      found = sum.found;
      inserted = sum.inserted;
      dropped = sum.dropped;
      early_drop = sum.early_drop;
      invalid = sum.invalid;
      clash_resolve = sum.clash_resolve;
      chaintoolong = sum.chaintoolong;
    }

-- The first `CTA_STATS_GLOBAL_ENTRIES` (1) that can be read, or zero.
unfoldable pub global_entries : List Nla → ℕ
global_entries [] = 0
global_entries (a ∷ attrs) =
    let rest = global_entries attrs in
    if a.ty == 1 then Option.get_or (read_u32_be a.payload) rest else rest

-- What `fetch_global_entries` makes of the reply.
unfoldable pub entries_reply : Option Bytes → ℕ
unfolding global_entries
entries_reply none = 0
entries_reply (some frame) =
    if ltb (length frame) nfgenmsg_len
    then 0
    else global_entries (parse_attrs (drop nfgenmsg_len frame))

unfoldable pub proto_label : ℕ → Text
proto_label proto =
    if proto == 6
    then codes "tcp"
    else if proto == 17
    then codes "udp"
    else if proto == 1
    then codes "icmp"
    else if proto == 58
    then codes "icmpv6"
    else if proto == 132
    then codes "sctp"
    else if proto == 33
    then codes "dccp"
    else if proto == 136
    then codes "udplite"
    else codes "other"

unfoldable pub tcp_state_label : ℕ → Text
tcp_state_label state =
    if state == 0
    then codes "none"
    else if state == 1
    then codes "syn_sent"
    else if state == 2
    then codes "syn_recv"
    else if state == 3
    then codes "established"
    else if state == 4
    then codes "fin_wait"
    else if state == 5
    then codes "close_wait"
    else if state == 6
    then codes "last_ack"
    else if state == 7
    then codes "time_wait"
    else if state == 8
    then codes "close"
    else if state == 9
    then codes "listen"
    else codes "other"

pub record ConntrackFlow : Type 0 where
  pub protocol : Text
  pub state : Text
  pub orig_bytes : ℕ
  pub orig_packets : ℕ
  pub reply_bytes : ℕ
  pub reply_packets : ℕ

-- The variables of the loop in `parse_flow_frame`; counters are pairs of packets and bytes.
pub record FlowState : Type 0 where
  pub proto : ℕ
  pub state : Text
  pub orig : ℕ × ℕ
  pub reply : ℕ × ℕ
  pub is_tcp : Bool

-- `CTA_PROTO_NUM` (1) in `CTA_TUPLE_PROTO` (2).
unfoldable pub proto_attr : ℕ × Bool → Nla → ℕ × Bool
proto_attr (proto, is_tcp) a =
    if a.ty == 1
    then (elim (read_u8 a.payload) [ none ↦ (proto, is_tcp) | some p ↦ (p, p == 6) ])
    else (proto, is_tcp)

unfoldable pub tuple_attr : ℕ × Bool → Nla → ℕ × Bool
unfolding proto_attr
tuple_attr p a = if a.ty == 2 then foldl proto_attr p (nested_attrs a.payload) else p

-- `CTA_PROTOINFO_TCP_STATE` (1) in `CTA_PROTOINFO_TCP` (1).
unfoldable pub tcp_attr : Text → Nla → Text
unfolding tcp_state_label
tcp_attr state a =
    if a.ty == 1
    then Option.get_or (Option.map tcp_state_label (read_u8 a.payload)) state
    else state

unfoldable pub protoinfo_attr : Text → Nla → Text
unfolding tcp_attr
protoinfo_attr state a = if a.ty == 1 then foldl tcp_attr state (nested_attrs a.payload) else state

-- `CTA_COUNTERS_PACKETS` (1) and `CTA_COUNTERS_BYTES` (2).
unfoldable pub counters_attr : ℕ × ℕ → Nla → ℕ × ℕ
counters_attr (packets, bytes) a =
    if a.ty == 1
    then (Option.get_or (read_u64_be a.payload) 0, bytes)
    else if a.ty == 2
    then (packets, Option.get_or (read_u64_be a.payload) 0)
    else (packets, bytes)

-- `IPS_ASSURED` is the bit of weight 4 of the status.
abbrev pub status_state : ℕ → Text
status_state status = if status / 4 % 2 == 1 then codes "established" else codes "new"

-- The match on one attribute of a flow: 1 is the tuple, 3 the status, 4 what the protocol says, 9 and
-- 10 the counters of the two directions.
unfoldable pub flow_attr : FlowState → Nla → FlowState
unfolding tuple_attr protoinfo_attr counters_attr
flow_attr f a =
    if a.ty == 1
    then (let (proto, is_tcp) = foldl tuple_attr (f.proto, f.is_tcp) (nested_attrs a.payload) in
        record f { proto = proto; is_tcp = is_tcp })
    else if a.ty == 3
    then (if f.is_tcp then f else record f {
      state = Option.get_or (Option.map status_state (read_u32_be a.payload)) f.state;
    })
    else if a.ty == 4
    then (if f.is_tcp
        then record f { state = foldl protoinfo_attr f.state (nested_attrs a.payload) }
        else f)
    else if a.ty == 9
    then record f { orig = foldl counters_attr f.orig (nested_attrs a.payload) }
    else if a.ty == 10
    then record f { reply = foldl counters_attr f.reply (nested_attrs a.payload) }
    else f

abbrev no_flow : FlowState
no_flow = record { proto = 0; state = codes "new"; orig = (0, 0); reply = (0, 0); is_tcp = false }

unfoldable pub parse_flow_frame : Bytes → Option ConntrackFlow
unfolding flow_attr proto_label
parse_flow_frame frame =
    if ltb (length frame) nfgenmsg_len
    then none
    else let f = foldl flow_attr no_flow (parse_attrs (drop nfgenmsg_len frame)) in
      some (record {
        protocol = proto_label f.proto;
        state = f.state;
        orig_bytes = f.orig.1;
        orig_packets = f.orig.0;
        reply_bytes = f.reply.1;
        reply_packets = f.reply.0;
      })
