-- ===== src/Tests/Nftables.antt =====
-- Inputs for the theorems about crates/nlx-netlink/src/collectors/nftables.rs.
use netlink_exporter.Base.{ℕ, List, [], ◌∷◌, ◌++◌, ◌≡◌, map, filter_map}
use netlink_exporter.Base.Text.{Text, codes}
use netlink_exporter.Nftables.{parse_chain_frame}
use netlink_exporter.Nftables.Metrics.{chain_sample}
use netlink_exporter.Nftables.Series.{encode_samples-families}
use netlink_exporter.Registry.{encode_samples}
use netlink_exporter.Tests.Registry.{whole}
use netlink_exporter.Wire.{Bytes}
use netlink_exporter.Wire.Build.{push_nla}

abbrev ascii : Bytes → Text
ascii bytes = bytes

-- A record of another type, an empty comment, and a comment.
abbrev records : List (ℕ × Bytes)
records = (1, 65 ∷ []) ∷ (0, 0 ∷ []) ∷ (0, codes "drop invalid" ++ 0 ∷ []) ∷ []

-- The frame of a chain behind its family, 2 for ip and 10 for ip6.
abbrev chain : Bytes
chain =
    (0 ∷ 0 ∷ 0 ∷ [])
    ++ push_nla (push_nla [] 1 (codes "filter" ++ 0 ∷ [])) 3 (codes "INPUT" ++ 0 ∷ [])

encode_samples-families_example :
    encode_samples whole (
      map
        (chain_sample (λ n. n))
        (filter_map (parse_chain_frame ascii) ((2 ∷ chain) ∷ (10 ∷ chain) ∷ [])))
    ≡ encode_samples whole
        (map (chain_sample (λ n. n)) (filter_map (parse_chain_frame ascii) ((2 ∷ chain) ∷ [])))
encode_samples-families_example = encode_samples-families (λ n. n) whole ascii 2 10 chain
