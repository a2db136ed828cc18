-- ===== src/Sockdiag/Others.antt =====
-- Unknown states in crates/nlx-netlink/src/collectors/sockdiag.rs: one bucket each, one label for all.
use netlink_exporter.Base.{ℕ, ◌≡◌, refl, [], ◌∷◌}
use netlink_exporter.Registry.{Float, encode_samples, group_samples, add_observation, series_key}
use netlink_exporter.Base.Map.{upsert, insert}
use netlink_exporter.Base.Order.{text_ord}
use netlink_exporter.Sockdiag.{Bucket}
use netlink_exporter.Sockdiag.Keys.{Protocol, tcp, udp, other}
use netlink_exporter.Sockdiag.Samples.{bucket_samples}

module _ {F64 : Type 0} (of_u64 : ℕ → F64) (float : Float F64) where
  -- Of two unknown states `m` and `n` of a protocol, only the first one's bucket is in the exposition:
  -- the registry takes the second one's samples, which have the same labels, for repetitions.
  pub encode_samples-other :
      (protocol : Protocol) (m n : ℕ) (a b : Bucket)
      → encode_samples float (
          bucket_samples of_u64 (
            (record { protocol = protocol; state = other m }, a)
            ∷ (record { protocol = protocol; state = other n }, b)
            ∷ []))
        ≡ encode_samples float
            (bucket_samples of_u64 ((record { protocol = protocol; state = other m }, a) ∷ []))
  unfolding bucket_samples encode_samples group_samples add_observation series_key upsert insert
  encode_samples-other tcp m n a b = refl
  encode_samples-other udp m n a b = refl
