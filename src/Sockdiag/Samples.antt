-- ===== src/Sockdiag/Samples.antt =====
-- The samples that `collect_sockdiag` of crates/nlx-netlink/src/collectors/sockdiag.rs builds.
-- `of_u64` is the cast of a `u64` to an `f64`.
use netlink_exporter.Base.{ℕ, Bool, true, false, ◌||◌, List, [], ◌∷◌, ◌++◌, Option, none, some, ltb}
use netlink_exporter.Base.Map.{insert, lookup}
use netlink_exporter.Base.Order.{text_ord}
use netlink_exporter.Base.Text.{codes}
use netlink_exporter.Metric.{Labels, MetricSample, counter_sample, gauge_sample}
use netlink_exporter.Sockdiag.{Bucket, Totals}
use netlink_exporter.Sockdiag.Keys.{Protocol, tcp, SockKey, protocol_str, state_str, protocol_ord}

-- The labels of a bucket.
abbrev pub bucket_labels : SockKey → Labels
bucket_labels key =
    insert (codes "state") (state_str key.state)
      (insert (codes "protocol") (protocol_str key.protocol) [])

abbrev pub protocol_labels : Protocol → Labels
protocol_labels protocol = insert (codes "protocol") (protocol_str protocol) []

abbrev is_some : Option ℕ → Bool
is_some none = false
is_some (some n) = true

module _ {F64 : Type 0} (of_u64 : ℕ → F64) where
  unfoldable pub bucket_samples : List (SockKey × Bucket) → List (MetricSample F64)
  bucket_samples [] = []
  bucket_samples ((key, bucket) ∷ rest) =
      gauge_sample (codes "nft_socket_count") (codes "Number of sockets by protocol and state")
        (bucket_labels key) (of_u64 bucket.count)
      ∷ gauge_sample (codes "nft_socket_receive_queue_bytes")
          (codes "Sum of receive queue bytes per socket bucket") (bucket_labels key)
          (of_u64 bucket.rqueue)
      ∷ gauge_sample (codes "nft_socket_send_queue_bytes")
          (codes "Sum of send queue bytes per socket bucket") (bucket_labels key)
          (of_u64 bucket.wqueue)
      ∷ bucket_samples rest

  unfoldable pub drop_samples : List (Protocol × ℕ) → List (MetricSample F64)
  drop_samples [] = []
  drop_samples ((protocol, drop_count) ∷ rest) =
      counter_sample (codes "nft_socket_drops_total")
        (codes "Total socket drops from INET_DIAG_SKMEMINFO") (protocol_labels protocol) drop_count
      ∷ drop_samples rest

  unfoldable pub retransmit_samples : Totals → List (MetricSample F64)
  retransmit_samples t =
      elim (ltb 0 t.retransmits || is_some (lookup tcp t.drops)) as (λ b. List (MetricSample F64)) [
        | false ↦ []
        | true ↦
            counter_sample (codes "nft_socket_retransmits_total")
              (codes "Total TCP cumulative retransmits from tcp_info") (protocol_labels tcp)
              t.retransmits
            ∷ []
      ]

  unfoldable pub totals_samples : Totals → List (MetricSample F64)
  unfolding bucket_samples drop_samples retransmit_samples
  totals_samples t = bucket_samples t.bucket_map ++ (drop_samples t.drops ++ retransmit_samples t)
