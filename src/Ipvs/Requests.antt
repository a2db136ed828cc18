-- ===== src/Ipvs/Requests.antt =====
-- The requests of crates/nlx-netlink/src/collectors/ipvs.rs.
use netlink_exporter.Base.{ℕ, ◌+◌, ◌^◌, [], ◌∷◌, Option, none, some, if◌then◌else◌, is_empty}
use netlink_exporter.Base.Digits.{from_str_radix, starts_0x, trim_0x}
use netlink_exporter.Base.Order.{text_eq}
use netlink_exporter.Base.Text.{Text, codes}
use netlink_exporter.Ipvs.{Addresses, IpvsService, svc_af}
use netlink_exporter.Wire.{Bytes}
use netlink_exporter.Wire.Build.{push_nla, to_ne_bytes, to_be_bytes}

abbrev pub build_genl_payload : ℕ → Bytes
build_genl_payload cmd = cmd ∷ 1 ∷ 0 ∷ 0 ∷ []

abbrev pub proto_number : Text → ℕ
proto_number proto =
    if text_eq proto (codes "tcp")
    then 6
    else if text_eq proto (codes "udp")
    then 17
    else if text_eq proto (codes "sctp")
    then 132
    else 0

-- A mark that cannot be read is left out.
abbrev pub push_fwmark : Bytes → Option ℕ → Bytes
push_fwmark inner none = inner
push_fwmark inner (some fwmark) = push_nla inner 5 (to_ne_bytes 4 fwmark)

-- As is a port,
abbrev pub push_port : Bytes → Option ℕ → Bytes
push_port inner none = inner
push_port inner (some port) = push_nla inner 4 (to_be_bytes 2 port)

-- and an address, tried in both forms.
abbrev pub push_parsed : Bytes → Option Bytes → Option Bytes → Bytes
push_parsed inner (some octets) v6 = push_nla inner 3 octets
push_parsed inner none (some octets) = push_nla inner 3 octets
push_parsed inner none none = inner

module _ (addresses : Addresses) where
  abbrev pub push_addr : Bytes → Text → Bytes
  push_addr inner vip =
      if is_empty vip
      then inner
      else push_parsed inner (addresses.parse_v4 vip) (addresses.parse_v6 vip)

  -- The attributes that name a service.
  unfoldable pub service_key : IpvsService → Bytes
  service_key svc =
      let with_af = push_nla [] 1 (to_ne_bytes 2 (svc_af svc.vip)) in
      if starts_0x svc.port
      then push_fwmark with_af (from_str_radix 16 (2 ^ 32) (trim_0x svc.port))
      else push_port
          (push_addr (push_nla with_af 2 (to_ne_bytes 2 (proto_number svc.proto))) svc.vip)
          (from_str_radix 10 (2 ^ 16) svc.port)

  -- The key in an `IPVS_CMD_ATTR_SERVICE`, with the flag of a nest.
  unfoldable pub build_dest_request : IpvsService → Bytes
  unfolding service_key
  build_dest_request svc = push_nla (8 ∷ 1 ∷ 0 ∷ 0 ∷ []) (2 ^ 15 + 1) (service_key svc)
