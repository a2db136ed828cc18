-- ===== src/Rt.antt =====
-- crates/nlx-netlink/src/collectors/rt.rs: the parser of links, the counts of addresses, routes and
-- neighbours, and their samples. `from_utf8` is `str::from_utf8`.
pub mod Collect
pub mod Numbers
use mathlib.Core.List.{foldl}
use mathlib.Core.Option
use netlink_exporter.Base.{
  ℕ, ◌+◌, ◌/◌, ◌%◌, ◌^◌, Bool, true, false, ◌&&◌, List, [], ◌∷◌, ◌++◌, Option, none, some, ltb, leb,
  ◌==◌, if◌then◌else◌, length, drop, get_or,
}
use netlink_exporter.Base.Counts.{count_by}
use netlink_exporter.Base.Map.{insert}
use netlink_exporter.Base.Order.{text_ord, pair_ord}
use netlink_exporter.Base.Text.{Text, codes}
use netlink_exporter.Metric.{Labels, MetricSample, counter_sample, gauge_sample}
use netlink_exporter.Wire.{
  Bytes, Nla, parse_attrs, from_ne_bytes, read_u8, read_u32, read_u64, slice,
}
use netlink_exporter.Wire.Names.{before_nul}

unfoldable pub family_label : ℕ → Text
family_label family =
    if family == 2 then codes "inet" else if family == 10 then codes "inet6" else codes "other"

-- The bit of weight `2 ^ k`.
abbrev pub bit : ℕ → ℕ → Bool
bit k n = n / 2 ^ k % 2 == 1

unfoldable pub nud_state_label : ℕ → Text
nud_state_label state =
    if bit 7 state
    then codes "permanent"
    else if bit 1 state
    then codes "reachable"
    else if bit 2 state
    then codes "stale"
    else if bit 3 state
    then codes "delay"
    else if bit 4 state
    then codes "probe"
    else if bit 5 state
    then codes "failed"
    else if bit 6 state
    then codes "noarp"
    else if bit 0 state
    then codes "incomplete"
    else codes "unknown"

unfoldable pub table_label : ℕ → Text
table_label id =
    if id == 0
    then codes "unspec"
    else if id == 253
    then codes "default"
    else if id == 254
    then codes "main"
    else if id == 255
    then codes "local"
    else codes "other"

pub record LinkStats : Type 0 where
  pub name : Text
  pub up : Bool
  pub rx_bytes : ℕ
  pub tx_bytes : ℕ
  pub rx_packets : ℕ
  pub tx_packets : ℕ
  pub rx_errors : ℕ
  pub tx_errors : ℕ
  pub rx_dropped : ℕ
  pub tx_dropped : ℕ

-- The variables of the loop in `parse_link_frame`.
pub record LinkState : Type 0 where
  pub name : Option Text
  pub operstate : Option ℕ
  pub stats64_payload : Option Bytes

-- `read_u64(&s[from..]).unwrap_or(0)`
abbrev pub u64_at : ℕ → Bytes → ℕ
u64_at from s = Option.get_or (read_u64 (drop from s)) 0

-- `map_or` on the payload of the statistics.
abbrev pub stat : ℕ → Option Bytes → ℕ
stat from none = 0
stat from (some s) = u64_at from s

-- `IFF_UP` is the bit 0 of the flags, `IFF_RUNNING` the bit 6; an `operstate` of 6 is up.
abbrev pub oper_up : Option ℕ → ℕ → Bool
oper_up none flags = bit 0 flags
oper_up (some s) flags = s == 6

module _ (from_utf8 : Bytes → Option Text) where
  -- The match on one attribute of a link: 3 is the name, 16 the state, 23 the statistics.
  unfoldable pub link_attr : LinkState → Nla → LinkState
  link_attr l a =
      if a.ty == 3
      then record l { name = from_utf8 (before_nul a.payload) }
      else if a.ty == 16
      then record l { operstate = read_u8 a.payload }
      else if a.ty == 23
      then (if leb 64 (length a.payload) then record l { stats64_payload = some a.payload } else l)
      else l

  unfoldable pub parse_link_frame : Bytes → Option LinkStats
  unfolding link_attr
  parse_link_frame payload =
      if ltb (length payload) 16
      then none
      else let flags = from_ne_bytes (slice 8 12 payload) in
        let l : LinkState =
          foldl link_attr (record { name = none; operstate = none; stats64_payload = none })
            (parse_attrs (drop 16 payload)) in
        Option.map
          (λ name. record {
            name = name;
            up = oper_up l.operstate flags && (bit 0 flags && bit 6 flags);
            rx_bytes = stat 16 l.stats64_payload;
            tx_bytes = stat 24 l.stats64_payload;
            rx_packets = stat 0 l.stats64_payload;
            tx_packets = stat 8 l.stats64_payload;
            rx_errors = stat 32 l.stats64_payload;
            tx_errors = stat 40 l.stats64_payload;
            rx_dropped = stat 48 l.stats64_payload;
            tx_dropped = stat 56 l.stats64_payload;
          })
          l.name

-- What an address, a route and a neighbour count for, if they do.
unfoldable pub address_key : Bytes → Option Text
unfolding family_label
address_key [] = none
address_key (family ∷ rest) = some (family_label family)

-- The loop over a route's attributes stops at the first `RTA_TABLE` (15).
unfoldable pub route_table : ℕ → List Nla → ℕ
route_table table_id [] = table_id
route_table table_id (a ∷ attrs) =
    let rest = route_table table_id attrs in
    if a.ty == 15 then Option.get_or (read_u32 a.payload) table_id else rest

unfoldable pub route_key : Bytes → Option (Text × Text)
unfolding route_table family_label table_label
route_key frame =
    if ltb (length frame) 12
    then none
    else some (
      family_label (get_or frame 0 0),
      table_label (route_table (get_or frame 4 0) (parse_attrs (drop 12 frame))),
    )

-- `AF_BRIDGE` is 7.
unfoldable pub neighbour_key : Bytes → Option (Text × Text)
unfolding family_label nud_state_label
neighbour_key frame =
    if ltb (length frame) 12
    then none
    else if get_or frame 0 0 == 7
    then none
    else some (family_label (get_or frame 0 0), nud_state_label (from_ne_bytes (slice 8 10 frame)))

unfoldable pub count_addresses : List Bytes → List (Text × ℕ)
unfolding address_key
count_addresses frames = count_by address_key frames []

unfoldable pub count_routes : List Bytes → List ((Text × Text) × ℕ)
unfolding route_key
count_routes frames = count_by route_key frames []

unfoldable pub count_neighbours : List Bytes → List ((Text × Text) × ℕ)
unfolding neighbour_key
count_neighbours frames = count_by neighbour_key frames []

abbrev pub device_labels : Text → Labels
device_labels name = insert (codes "device") name []

-- The two labels of a route and of a neighbour.
abbrev pub pair_labels : Text → Text × Text → Labels
pair_labels second (family, value) = insert second value (insert (codes "family") family [])

module _ {F64 : Type 0} (of_u64 : ℕ → F64) where
  unfoldable pub emit_link_metrics : LinkStats → List (MetricSample F64)
  emit_link_metrics s =
      let count : Text → Text → ℕ → MetricSample F64 =
        λ name help value. counter_sample name help (device_labels s.name) value in
      count (codes "nft_link_receive_bytes_total") (codes "Total bytes received on the interface.")
        s.rx_bytes
      ∷ count (codes "nft_link_transmit_bytes_total")
          (codes "Total bytes transmitted on the interface.") s.tx_bytes
      ∷ count (codes "nft_link_receive_packets_total")
          (codes "Total packets received on the interface.") s.rx_packets
      ∷ count (codes "nft_link_transmit_packets_total")
          (codes "Total packets transmitted on the interface.") s.tx_packets
      ∷ count (codes "nft_link_receive_errors_total")
          (codes "Total receive errors on the interface.") s.rx_errors
      ∷ count (codes "nft_link_transmit_errors_total")
          (codes "Total transmit errors on the interface.") s.tx_errors
      ∷ count (codes "nft_link_receive_drops_total") (codes "Total receive drops on the interface.")
          s.rx_dropped
      ∷ count (codes "nft_link_transmit_drops_total")
          (codes "Total transmit drops on the interface.") s.tx_dropped
      ∷ gauge_sample (codes "nft_link_up")
          (codes "1 if the interface is operationally up, 0 otherwise.") (device_labels s.name)
          (if s.up then of_u64 1 else of_u64 0)
      ∷ []

  abbrev pub address_sample : Text × ℕ → MetricSample F64
  address_sample (family, count) =
      gauge_sample (codes "nft_address_count")
        (codes "Number of IP addresses assigned by address family.")
        (insert (codes "family") family []) (of_u64 count)

  abbrev pub route_sample : (Text × Text) × ℕ → MetricSample F64
  route_sample (key, count) =
      gauge_sample (codes "nft_route_count")
        (codes "Number of routes by address family and routing table.")
        (pair_labels (codes "table") key) (of_u64 count)

  abbrev pub neighbour_sample : (Text × Text) × ℕ → MetricSample F64
  neighbour_sample (key, count) =
      gauge_sample (codes "nft_neighbor_count")
        (codes "Number of neighbour (ARP/NDP) entries by family and state.")
        (pair_labels (codes "state") key) (of_u64 count)
