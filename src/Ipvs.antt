-- ===== src/Ipvs.antt =====
-- crates/nlx-netlink/src/collectors/ipvs.rs: the parsers of services and destinations. `lossy` is
-- `String::from_utf8_lossy`.
pub mod Collect
pub mod Keys
pub mod Numbers
pub mod Requests
pub mod Samples
pub mod Stats
use mathlib.Core.List.{foldl}
use mathlib.Core.Option
use netlink_exporter.Base.{
  ℕ, Bool, true, false, ◌&&◌, List, [], ◌∷◌, Option, none, some, leb, ◌==◌, if◌then◌else◌, length,
  take,
}
use netlink_exporter.Base.Digits.{lower_hex}
use netlink_exporter.Base.Text.{Text, codes, decimal}
use netlink_exporter.Ipvs.Stats.{choose_stats, parse_stats64, parse_stats32}
use netlink_exporter.Wire.{
  Bytes, Nla, parse_attrs, nested_attrs, read_u16, read_u16_be, read_u32, read_u64,
}
use netlink_exporter.Wire.Names.{before_nul}

-- `Ipv4Addr` and `Ipv6Addr` of the standard library: `Display` of an address given by its bytes, and
-- its `FromStr`.
pub record Addresses : Type 0 where
  pub show_v4 : Bytes → Text
  pub show_v6 : Bytes → Text
  pub parse_v4 : Text → Option Bytes
  pub parse_v6 : Text → Option Bytes

-- The variables of the loop in `parse_service`.
pub record ServiceState : Type 0 where
  pub af : ℕ
  pub proto : ℕ
  pub addr_bytes : Option Bytes
  pub port : ℕ
  pub fwmark : ℕ
  pub sched : Text
  pub stats64_payload : Option Bytes
  pub stats32_payload : Option Bytes

pub record IpvsService : Type 0 where
  pub proto : Text
  pub vip : Text
  pub port : Text
  pub sched : Text
  pub conns : ℕ
  pub in_pkts : ℕ
  pub out_pkts : ℕ
  pub in_bytes : ℕ
  pub out_bytes : ℕ
  pub cps : ℕ
  pub in_pps : ℕ
  pub out_pps : ℕ
  pub in_bps : ℕ
  pub out_bps : ℕ

-- The variables of the loop in `parse_destination`.
pub record DestState : Type 0 where
  pub dest_af : Option ℕ
  pub addr_bytes : Option Bytes
  pub rport : ℕ
  pub weight : ℕ
  pub active : ℕ
  pub inactive : ℕ
  pub stats64_payload : Option Bytes
  pub stats32_payload : Option Bytes

pub record IpvsDestination : Type 0 where
  pub svc_proto : Text
  pub svc_vip : Text
  pub svc_port : Text
  pub rip : Text
  pub rport : Text
  pub weight : ℕ
  pub active_conns : ℕ
  pub inactive_conns : ℕ
  pub conns : ℕ
  pub in_bytes : ℕ
  pub out_bytes : ℕ

abbrev pub af_inet : ℕ
af_inet = 2

abbrev pub af_inet6 : ℕ
af_inet6 = 10

abbrev pub proto_str : ℕ → Text
proto_str proto =
    if proto == 6
    then codes "tcp"
    else if proto == 17
    then codes "udp"
    else if proto == 132
    then codes "sctp"
    else codes "unknown"

abbrev pub has_colon : Text → Bool
has_colon [] = false
has_colon (c ∷ cs) = let rest = has_colon cs in if c == b':' then true else rest

-- The family that a service's address shows.
abbrev pub svc_af : Text → ℕ
svc_af vip = if has_colon vip then af_inet6 else af_inet

abbrev pub no_service : ServiceState
no_service = record {
  af = af_inet;
  proto = 0;
  addr_bytes = none;
  port = 0;
  fwmark = 0;
  sched = codes "unknown";
  stats64_payload = none;
  stats32_payload = none;
}

abbrev pub no_dest : DestState
no_dest = record {
  dest_af = none;
  addr_bytes = none;
  rport = 0;
  weight = 0;
  active = 0;
  inactive = 0;
  stats64_payload = none;
  stats32_payload = none;
}

-- The match on one attribute of a destination.
unfoldable pub dest_attr : DestState → Nla → DestState
dest_attr d a =
    if a.ty == 1
    then record d { addr_bytes = some a.payload }
    else if a.ty == 2
    then record d { rport = Option.get_or (read_u16_be a.payload) 0 }
    else if a.ty == 4
    then record d { weight = Option.get_or (read_u32 a.payload) 0 }
    else if a.ty == 7
    then record d { active = Option.get_or (read_u32 a.payload) 0 }
    else if a.ty == 8
    then record d { inactive = Option.get_or (read_u32 a.payload) 0 }
    else if a.ty == 11
    then record d { dest_af = read_u16 a.payload }
    else if a.ty == 12
    then record d { stats64_payload = some a.payload }
    else if a.ty == 10
    then record d { stats32_payload = some a.payload }
    else d

module _ (lossy : Bytes → Text) where
  -- The match on one attribute of a service.
  unfoldable pub service_attr : ServiceState → Nla → ServiceState
  service_attr v a =
      if a.ty == 1
      then record v { af = Option.get_or (read_u16 a.payload) af_inet }
      else if a.ty == 2
      then record v { proto = Option.get_or (read_u16 a.payload) 0 }
      else if a.ty == 3
      then record v { addr_bytes = some a.payload }
      else if a.ty == 4
      then record v { port = Option.get_or (read_u16_be a.payload) 0 }
      else if a.ty == 5
      then record v { fwmark = Option.get_or (read_u32 a.payload) 0 }
      else if a.ty == 6
      then record v { sched = lossy (before_nul a.payload) }
      else if a.ty == 12
      then record v { stats64_payload = some a.payload }
      else if a.ty == 10
      then record v { stats32_payload = some a.payload }
      else v

module _ (addresses : Addresses) where
  unfoldable pub addr_to_str : ℕ → Bytes → Text
  addr_to_str af bytes =
      if (af == af_inet) && leb 4 (length bytes)
      then addresses.show_v4 (take 4 bytes)
      else if (af == af_inet6) && leb 16 (length bytes)
      then addresses.show_v6 (take 16 bytes)
      else []

  -- The end of `parse_service`.
  abbrev pub finish_service : ServiceState → IpvsService
  finish_service v =
      let stats = choose_stats v.stats64_payload v.stats32_payload in
      record {
        proto = proto_str v.proto;
        vip = if v.fwmark == 0 then addr_to_str v.af (Option.get_or v.addr_bytes []) else [];
        port = if v.fwmark == 0 then decimal v.port else b'0' ∷ b'x' ∷ lower_hex v.fwmark;
        sched = v.sched;
        conns = stats.conns;
        in_pkts = stats.in_pkts;
        out_pkts = stats.out_pkts;
        in_bytes = stats.in_bytes;
        out_bytes = stats.out_bytes;
        cps = stats.cps;
        in_pps = stats.in_pps;
        out_pps = stats.out_pps;
        in_bps = stats.in_bps;
        out_bps = stats.out_bps;
      }

  unfoldable pub parse_destination : Bytes → IpvsService → Option IpvsDestination
  unfolding addr_to_str dest_attr
  parse_destination attrs_buf svc =
      let d : DestState = foldl dest_attr no_dest (parse_attrs attrs_buf) in
      let stats = choose_stats d.stats64_payload d.stats32_payload in
      some (record {
        svc_proto = svc.proto;
        svc_vip = svc.vip;
        svc_port = svc.port;
        rip =
            addr_to_str (Option.get_or d.dest_af (svc_af svc.vip)) (Option.get_or d.addr_bytes []);
        rport = decimal d.rport;
        weight = d.weight;
        active_conns = d.active;
        inactive_conns = d.inactive;
        conns = stats.conns;
        in_bytes = stats.in_bytes;
        out_bytes = stats.out_bytes;
      })

  unfoldable pub parse_service : (Bytes → Text) → Bytes → Option IpvsService
  unfolding service_attr addr_to_str
  parse_service lossy attrs_buf =
      some (finish_service (foldl (service_attr lossy) no_service (parse_attrs attrs_buf)))
