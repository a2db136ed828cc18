-- ===== src/Wireguard/Samples.antt =====
-- `push_device_metrics` of crates/nlx-netlink/src/collectors/wireguard.rs. An `i64` is its bit pattern.
use netlink_exporter.Base.{
  ℕ, ◌+◌, ◌-◌, ◌*◌, ◌%◌, ◌^◌, List, [], ◌∷◌, ◌++◌, Option, none, some, leb, if◌then◌else◌, length,
  take, length-take, min, ◌≡◌, refl, arith,
}
use netlink_exporter.Base.Map.{insert}
use netlink_exporter.Base.Order.{text_ord}
use netlink_exporter.Base.Text.{Text, codes}
use netlink_exporter.Metric.{Labels, MetricSample, counter_sample, gauge_sample}
use netlink_exporter.Wireguard.{WireguardPeer, WireguardDevice}

-- The casts to and from `f64`, and its infinity.
pub record Casts (F64 : Type 0) : Type 0 where
  pub of_u64 : ℕ → F64
  pub to_i64 : F64 → ℕ
  pub infinity : F64

abbrev pub device_labels : Text → Labels
device_labels if_name = insert (codes "interface") if_name []

abbrev pub peer_labels : Text → Text → Labels
peer_labels if_name peer_id = insert (codes "peer") peer_id (insert (codes "interface") if_name [])

module _ {F64 : Type 0} (c : Casts F64) (now_secs : ℕ) where
  unfoldable pub handshake_age : Option F64 → F64
  handshake_age none = c.infinity
  handshake_age (some tv_sec) =
      let age = (now_secs + (2 ^ 64 - c.to_i64 tv_sec)) % 2 ^ 64 in
      if leb (2 ^ 63) age then c.of_u64 0 else c.of_u64 age

  unfoldable pub peer_samples : Text → List (WireguardPeer F64) → List (MetricSample F64)
  unfolding handshake_age
  peer_samples if_name [] = []
  peer_samples if_name (peer ∷ peers) =
      counter_sample (codes "nft_wireguard_peer_receive_bytes_total")
        (codes "WireGuard peer cumulative bytes received.") (peer_labels if_name peer.peer_id)
        peer.rx_bytes
      ∷ counter_sample (codes "nft_wireguard_peer_transmit_bytes_total")
          (codes "WireGuard peer cumulative bytes transmitted.") (peer_labels if_name peer.peer_id)
          peer.tx_bytes
      ∷ gauge_sample (codes "nft_wireguard_peer_last_handshake_seconds")
          (codes "Seconds since last WireGuard handshake; +Inf when never.")
          (peer_labels if_name peer.peer_id) (handshake_age peer.last_handshake_secs)
      ∷ gauge_sample (codes "nft_wireguard_peer_persistent_keepalive_seconds")
          (codes "WireGuard peer persistent keepalive interval in seconds; 0 when disabled.")
          (peer_labels if_name peer.peer_id) (c.of_u64 peer.persistent_keepalive_secs)
      ∷ peer_samples if_name peers

  unfoldable pub push_device_metrics : WireguardDevice F64 → ℕ → List (MetricSample F64)
  unfolding peer_samples
  push_device_metrics dev max_peers =
      gauge_sample (codes "nft_wireguard_device_info")
        (codes "WireGuard device presence (always 1 when the interface exists).")
        (device_labels dev.if_name) (c.of_u64 1)
      ∷ gauge_sample (codes "nft_wireguard_device_listen_port")
          (codes "WireGuard device UDP listen port; 0 when unbound.") (device_labels dev.if_name)
          (c.of_u64 dev.listen_port)
      ∷ gauge_sample (codes "nft_wireguard_device_fwmark")
          (codes "WireGuard device firewall mark; 0 when unset.") (device_labels dev.if_name)
          (c.of_u64 dev.fwmark)
      ∷ gauge_sample (codes "nft_wireguard_device_peer_count")
          (codes
            "Total number of WireGuard peers configured on this interface (before max_peers cap).")
          (device_labels dev.if_name) (c.of_u64 (length dev.peers))
      ∷ peer_samples dev.if_name (take max_peers dev.peers)

  -- The loop over the devices.
  unfoldable pub devices_samples : ℕ → List (WireguardDevice F64) → List (MetricSample F64)
  unfolding push_device_metrics
  devices_samples max_peers [] = []
  devices_samples max_peers (dev ∷ devices) =
      push_device_metrics dev max_peers ++ devices_samples max_peers devices

  length-peer_samples :
      (if_name : Text) (peers : List (WireguardPeer F64))
      → length (peer_samples if_name peers) ≡ 4 * length peers
  unfolding peer_samples
  length-peer_samples if_name [] = refl
  length-peer_samples if_name (peer ∷ peers) = omega (arith, length-peer_samples if_name peers)

  -- A device has four samples of its own and four for each peer, of at most `max_peers` peers.
  pub length-push_device_metrics :
      (dev : WireguardDevice F64) (max_peers : ℕ)
      → length (push_device_metrics dev max_peers) ≡ 4 + 4 * min max_peers (length dev.peers)
  unfolding push_device_metrics
  length-push_device_metrics dev max_peers = omega (
    arith,
    length-peer_samples dev.if_name (take max_peers dev.peers),
    length-take max_peers dev.peers,
  )
