-- ===== src/Ipvs/Stats.antt =====
-- The statistics of crates/nlx-netlink/src/collectors/ipvs.rs, in their two layouts.
use mathlib.Core.List.{foldl}
use mathlib.Core.Option
use netlink_exporter.Base.{ℕ, Option, none, some, ◌==◌, if◌then◌else◌}
use netlink_exporter.Wire.{Bytes, Nla, nested_attrs, read_u32, read_u64}

pub record Stats64 : Type 0 where
  pub conns : ℕ
  pub in_pkts : ℕ
  pub out_pkts : ℕ
  pub in_bytes : ℕ
  pub out_bytes : ℕ
  pub cps : ℕ
  pub in_pps : ℕ
  pub out_pps : ℕ
  pub in_bps : ℕ
  pub out_bps : ℕ

abbrev pub no_stats : Stats64
no_stats = record {
  conns = 0;
  in_pkts = 0;
  out_pkts = 0;
  in_bytes = 0;
  out_bytes = 0;
  cps = 0;
  in_pps = 0;
  out_pps = 0;
  in_bps = 0;
  out_bps = 0;
}

-- The match on one attribute of the 64-bit statistics.
unfoldable pub stats64_attr : Stats64 → Nla → Stats64
stats64_attr s a =
    if a.ty == 1
    then record s { conns = Option.get_or (read_u64 a.payload) 0 }
    else if a.ty == 2
    then record s { in_pkts = Option.get_or (read_u64 a.payload) 0 }
    else if a.ty == 3
    then record s { out_pkts = Option.get_or (read_u64 a.payload) 0 }
    else if a.ty == 4
    then record s { in_bytes = Option.get_or (read_u64 a.payload) 0 }
    else if a.ty == 5
    then record s { out_bytes = Option.get_or (read_u64 a.payload) 0 }
    else if a.ty == 6
    then record s { cps = Option.get_or (read_u64 a.payload) 0 }
    else if a.ty == 7
    then record s { in_pps = Option.get_or (read_u64 a.payload) 0 }
    else if a.ty == 8
    then record s { out_pps = Option.get_or (read_u64 a.payload) 0 }
    else if a.ty == 9
    then record s { in_bps = Option.get_or (read_u64 a.payload) 0 }
    else if a.ty == 10
    then record s { out_bps = Option.get_or (read_u64 a.payload) 0 }
    else s

unfoldable pub parse_stats64 : Bytes → Stats64
unfolding stats64_attr
parse_stats64 payload = foldl stats64_attr no_stats (nested_attrs payload)

-- The match on one attribute of the 32-bit statistics, whose byte counters have 64 bits.
unfoldable pub stats32_attr : Stats64 → Nla → Stats64
stats32_attr s a =
    if a.ty == 1
    then record s { conns = Option.get_or (read_u32 a.payload) 0 }
    else if a.ty == 2
    then record s { in_pkts = Option.get_or (read_u32 a.payload) 0 }
    else if a.ty == 3
    then record s { out_pkts = Option.get_or (read_u32 a.payload) 0 }
    else if a.ty == 4
    then record s { in_bytes = Option.get_or (read_u64 a.payload) 0 }
    else if a.ty == 5
    then record s { out_bytes = Option.get_or (read_u64 a.payload) 0 }
    else if a.ty == 6
    then record s { cps = Option.get_or (read_u32 a.payload) 0 }
    else if a.ty == 7
    then record s { in_pps = Option.get_or (read_u32 a.payload) 0 }
    else if a.ty == 8
    then record s { out_pps = Option.get_or (read_u32 a.payload) 0 }
    else if a.ty == 9
    then record s { in_bps = Option.get_or (read_u32 a.payload) 0 }
    else if a.ty == 10
    then record s { out_bps = Option.get_or (read_u32 a.payload) 0 }
    else s

unfoldable pub parse_stats32 : Bytes → Stats64
unfolding stats32_attr
parse_stats32 payload = foldl stats32_attr no_stats (nested_attrs payload)

-- The 64-bit statistics if they are there, else the 32-bit ones.
abbrev pub choose_stats : Option Bytes → Option Bytes → Stats64
choose_stats (some p) stats32 = parse_stats64 p
choose_stats none (some p) = parse_stats32 p
choose_stats none none = no_stats
