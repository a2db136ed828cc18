-- ===== src/Wireguard.antt =====
-- crates/nlx-netlink/src/collectors/wireguard.rs: the parsers of links, devices and peers, and the
-- merging of a device's frames. `lossy` is `String::from_utf8_lossy`.
pub mod Collect
pub mod Frames
pub mod Samples
pub mod Secrets
use Prim.Native.Nat.{bit_xor}
use mathlib.Core.List.{foldl}
use mathlib.Core.Option
use netlink_exporter.Base.{
  ℕ, zero, suc, ◌+◌, ◌*◌, ◌/◌, ◌%◌, ◌^◌, Bool, true, false, not, List, [], ◌∷◌, ◌++◌, Option, none,
  some, ltb, leb, ◌==◌, if◌then◌else◌, length, is_empty, take, drop,
}
use netlink_exporter.Base.Order.{text_eq}
use netlink_exporter.Base.Text.{Text, codes}
use netlink_exporter.Wire.{
  Bytes, Nla, parse_attrs, nested_attrs, from_ne_bytes, read_u16, read_u32, read_u64,
}
use netlink_exporter.Wire.Build.{push_nla}
use netlink_exporter.Wire.Names.{before_nul}

-- The lowest `width` hexadecimal digits of a number.
abbrev hex_digit : ℕ → ℕ
hex_digit d = if ltb d 10 then 48 + d else 87 + d

abbrev pub hex : ℕ → ℕ → Text
hex zero v = []
hex (suc width) v = hex width (v / 16) ++ hex_digit (v % 16) ∷ []

-- The loop of `pubkey_hash` over the bytes of the key.
unfoldable pub fnv_step : ℕ → ℕ → ℕ
fnv_step h b = bit_xor h b * 0x100000001b3 % 2 ^ 64

unfoldable pub pubkey_hash : Bytes → Text
unfolding fnv_step
pubkey_hash key = hex 16 (foldl fnv_step 0xcbf29ce484222325 key)

-- The variables of the loop in `parse_peer`.
pub record PeerState : Type 0 where
  pub peer_id : Text
  pub rx_bytes : ℕ
  pub tx_bytes : ℕ
  pub last_hs_tv_sec : ℕ
  pub keepalive_secs : ℕ
  pub endpoint_present : Bool

pub record WireguardPeer (F64 : Type 0) : Type 0 where
  pub peer_id : Text
  pub rx_bytes : ℕ
  pub tx_bytes : ℕ
  pub last_handshake_secs : Option F64
  pub persistent_keepalive_secs : ℕ
  pub endpoint_present : Bool

pub record WireguardDevice (F64 : Type 0) : Type 0 where
  pub if_name : Text
  pub listen_port : ℕ
  pub fwmark : ℕ
  pub peers : List (WireguardPeer F64)

abbrev pub no_peer : PeerState
no_peer = record {
  peer_id = [];
  rx_bytes = 0;
  tx_bytes = 0;
  last_hs_tv_sec = 0;
  keepalive_secs = 0;
  endpoint_present = false;
}

-- The match on one attribute of a peer: 1 is the public key, 4 the endpoint, 5 the keepalive, 6 the
-- handshake, 7 and 8 the byte counters. The preshared key, 2, is discarded.
unfoldable pub peer_attr : PeerState → Nla → PeerState
unfolding pubkey_hash
peer_attr p a =
    if a.ty == 1
    then record p { peer_id = pubkey_hash a.payload }
    else if a.ty == 2
    then p
    else if a.ty == 4
    then record p { endpoint_present = not (is_empty a.payload) }
    else if a.ty == 5
    then record p { keepalive_secs = Option.get_or (read_u16 a.payload) 0 }
    else if a.ty == 6
    then (if leb 8 (length a.payload)
        then record p { last_hs_tv_sec = from_ne_bytes (take 8 a.payload) }
        else p)
    else if a.ty == 7
    then record p { rx_bytes = Option.get_or (read_u64 a.payload) 0 }
    else if a.ty == 8
    then record p { tx_bytes = Option.get_or (read_u64 a.payload) 0 }
    else p

-- Whether a link is a wireguard device: `IFLA_INFO_KIND` (1) in `IFLA_LINKINFO` (18).
unfoldable pub kind_attr : Bool → Nla → Bool
kind_attr is_wg inner =
    if inner.ty == 1
    then (if text_eq (before_nul inner.payload) (codes "wireguard") then true else is_wg)
    else is_wg

module _ (lossy : Bytes → Text) where
  -- The match on one attribute of a link. `IFLA_IFNAME` is 3.
  unfoldable pub link_attr : Option Text × Bool → Nla → Option Text × Bool
  unfolding kind_attr
  link_attr (name, is_wg) a =
      if a.ty == 3
      then (some (lossy (before_nul a.payload)), is_wg)
      else if a.ty == 18
      then (name, foldl kind_attr is_wg (nested_attrs a.payload))
      else (name, is_wg)

  unfoldable pub wireguard_ifname : Bytes → Option Text
  unfolding link_attr
  wireguard_ifname attrs =
      let (name, is_wg) = foldl link_attr (none, false) (parse_attrs attrs) in
      if is_wg then name else none

  -- The loop over the frames of the links.
  unfoldable pub wireguard_names : List Bytes → List Text
  unfolding wireguard_ifname
  wireguard_names [] = []
  wireguard_names (frame ∷ frames) =
      let rest = wireguard_names frames in
      if ltb (length frame) 16
      then rest
      else elim (wireguard_ifname (drop 16 frame)) [ none ↦ rest | some name ↦ name ∷ rest ]

-- `ifname` as its bytes.
unfoldable pub build_wg_payload : Bytes → Bytes
build_wg_payload ifname = push_nla (0 ∷ 1 ∷ 0 ∷ 0 ∷ []) 2 (ifname ++ 0 ∷ [])

module _ {F64 : Type 0} (of_u64 : ℕ → F64) where
  -- The end of `parse_peer`.
  abbrev pub finish_peer : PeerState → Option (WireguardPeer F64)
  finish_peer p =
      if is_empty p.peer_id
      then none
      else some (record {
        peer_id = p.peer_id;
        rx_bytes = p.rx_bytes;
        tx_bytes = p.tx_bytes;
        last_handshake_secs =
            if p.last_hs_tv_sec == 0 then none else some (of_u64 p.last_hs_tv_sec);
        persistent_keepalive_secs = p.keepalive_secs;
        endpoint_present = p.endpoint_present;
      })

  unfoldable pub parse_peer : Bytes → Option (WireguardPeer F64)
  unfolding peer_attr
  parse_peer attrs_buf = finish_peer (foldl peer_attr no_peer (parse_attrs attrs_buf))

  -- The loop over the containers of the peers.
  unfoldable pub parse_peers : List Nla → List (WireguardPeer F64)
  unfolding parse_peer
  parse_peers [] = []
  parse_peers (c ∷ containers) = elim (parse_peer c.payload) [
    | none ↦ parse_peers containers
    | some peer ↦ peer ∷ parse_peers containers
  ]

  abbrev pub no_device : WireguardDevice F64
  no_device = record { if_name = []; listen_port = 0; fwmark = 0; peers = [] }

  module _ (lossy : Bytes → Text) where
    -- The match on one attribute of a device: 2 is the name, 6 the port, 7 the mark, 8 the peers. The
    -- private key, 3, is discarded.
    unfoldable pub device_attr : WireguardDevice F64 → Nla → WireguardDevice F64
    unfolding parse_peers
    device_attr d a =
        if a.ty == 2
        then record d { if_name = lossy (before_nul a.payload) }
        else if a.ty == 3
        then d
        else if a.ty == 6
        then record d { listen_port = Option.get_or (read_u16 a.payload) 0 }
        else if a.ty == 7
        then record d { fwmark = Option.get_or (read_u32 a.payload) 0 }
        else if a.ty == 8
        then record d { peers = d.peers ++ parse_peers (nested_attrs a.payload) }
        else d

    unfoldable pub parse_device : Bytes → Option (WireguardDevice F64)
    unfolding device_attr
    parse_device attrs_buf =
        let d = foldl device_attr no_device (parse_attrs attrs_buf) in
        if is_empty d.if_name then none else some d

    -- What a further frame of a device adds.
    abbrev pub extend : WireguardDevice F64 → WireguardDevice F64 → WireguardDevice F64
    extend d parsed = record {
      if_name = d.if_name;
      listen_port = if d.listen_port == 0 then parsed.listen_port else d.listen_port;
      fwmark = if d.fwmark == 0 then parsed.fwmark else d.fwmark;
      peers = d.peers ++ parsed.peers;
    }

    -- The device that a frame holds behind its generic netlink header, if any.
    abbrev pub frame_device : Bytes → Option (WireguardDevice F64)
    frame_device frame = if ltb (length frame) 4 then none else parse_device (drop 4 frame)

    abbrev pub merge_one :
        Option (WireguardDevice F64) → Option (WireguardDevice F64) → Option (WireguardDevice F64)
    merge_one dev none = dev
    merge_one none (some parsed) = some parsed
    merge_one (some d) (some parsed) = some (extend d parsed)

    unfoldable pub merge_onto :
        Option (WireguardDevice F64) → List Bytes → Option (WireguardDevice F64)
    unfolding parse_device
    merge_onto dev [] = dev
    merge_onto dev (frame ∷ frames) = merge_onto (merge_one dev (frame_device frame)) frames

    unfoldable pub merge_device_frames : List Bytes → Option (WireguardDevice F64)
    unfolding merge_onto
    merge_device_frames frames = merge_onto none frames
