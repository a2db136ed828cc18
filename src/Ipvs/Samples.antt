-- ===== src/Ipvs/Samples.antt =====
-- The samples of crates/nlx-netlink/src/collectors/ipvs.rs. `of_u64` is the cast to `f64`.
use netlink_exporter.Base.{ℕ, List, [], ◌∷◌}
use netlink_exporter.Base.Map.{insert}
use netlink_exporter.Base.Order.{text_ord}
use netlink_exporter.Base.Text.{codes}
use netlink_exporter.Ipvs.{IpvsService, IpvsDestination}
use netlink_exporter.Metric.{Labels, MetricSample, counter_sample, gauge_sample}

abbrev pub svc_labels : IpvsService → Labels
svc_labels svc =
    insert (codes "port") svc.port
      (insert (codes "vip") svc.vip (insert (codes "proto") svc.proto []))

abbrev pub dest_labels : IpvsService → IpvsDestination → Labels
dest_labels svc dest =
    insert (codes "rport") dest.rport (insert (codes "rip") dest.rip (svc_labels svc))

module _ {F64 : Type 0} (of_u64 : ℕ → F64) where
  unfoldable pub push_svc_metrics : IpvsService → Labels → List (MetricSample F64)
  push_svc_metrics svc labels =
      counter_sample (codes "nft_ipvs_connections_total")
        (codes "IPVS virtual service total connections.") labels svc.conns
      ∷ counter_sample (codes "nft_ipvs_incoming_packets_total")
          (codes "IPVS virtual service incoming packets.") labels svc.in_pkts
      ∷ counter_sample (codes "nft_ipvs_outgoing_packets_total")
          (codes "IPVS virtual service outgoing packets.") labels svc.out_pkts
      ∷ counter_sample (codes "nft_ipvs_incoming_bytes_total")
          (codes "IPVS virtual service incoming bytes.") labels svc.in_bytes
      ∷ counter_sample (codes "nft_ipvs_outgoing_bytes_total")
          (codes "IPVS virtual service outgoing bytes.") labels svc.out_bytes
      ∷ gauge_sample (codes "nft_ipvs_connections_rate")
          (codes "IPVS virtual service EMA connections per second.") labels (of_u64 svc.cps)
      ∷ gauge_sample (codes "nft_ipvs_incoming_packets_rate")
          (codes "IPVS virtual service EMA incoming packets per second.") labels (of_u64 svc.in_pps)
      ∷ gauge_sample (codes "nft_ipvs_outgoing_packets_rate")
          (codes "IPVS virtual service EMA outgoing packets per second.") labels
          (of_u64 svc.out_pps)
      ∷ gauge_sample (codes "nft_ipvs_incoming_bytes_rate")
          (codes "IPVS virtual service EMA incoming bytes per second.") labels (of_u64 svc.in_bps)
      ∷ gauge_sample (codes "nft_ipvs_outgoing_bytes_rate")
          (codes "IPVS virtual service EMA outgoing bytes per second.") labels (of_u64 svc.out_bps)
      ∷ []

  unfoldable pub push_dest_metrics : IpvsService → IpvsDestination → List (MetricSample F64)
  push_dest_metrics svc dest =
      gauge_sample (codes "nft_ipvs_dest_weight") (codes "IPVS destination configured weight.")
        (dest_labels svc dest) (of_u64 dest.weight)
      ∷ gauge_sample (codes "nft_ipvs_dest_active_connections")
          (codes "IPVS destination current active connections.") (dest_labels svc dest)
          (of_u64 dest.active_conns)
      ∷ gauge_sample (codes "nft_ipvs_dest_inactive_connections")
          (codes "IPVS destination current inactive connections.") (dest_labels svc dest)
          (of_u64 dest.inactive_conns)
      ∷ counter_sample (codes "nft_ipvs_dest_connections_total")
          (codes "IPVS destination total connections.") (dest_labels svc dest) dest.conns
      ∷ counter_sample (codes "nft_ipvs_dest_incoming_bytes_total")
          (codes "IPVS destination total incoming bytes.") (dest_labels svc dest) dest.in_bytes
      ∷ counter_sample (codes "nft_ipvs_dest_outgoing_bytes_total")
          (codes "IPVS destination total outgoing bytes.") (dest_labels svc dest) dest.out_bytes
      ∷ []
