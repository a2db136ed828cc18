-- ===== src/Wire/Build.antt =====
-- Writing attributes: `to_ne_bytes`, `to_be_bytes`, and `push_nla` of
-- crates/nlx-netlink/src/collectors/drop_monitor.rs.
use netlink_exporter.Base.{ℕ, zero, suc, ◌+◌, ◌-◌, ◌/◌, ◌%◌, ◌^◌, [], ◌∷◌, ◌++◌, length, replicate}
use netlink_exporter.Wire.{Bytes, align4, nla_hdrlen}

-- The low `width` bytes of a number, lowest first.
abbrev pub to_ne_bytes : ℕ → ℕ → Bytes
to_ne_bytes zero v = []
to_ne_bytes (suc width) v = v % 256 ∷ to_ne_bytes width (v / 256)

-- The same, highest first.
abbrev pub to_be_bytes : ℕ → ℕ → Bytes
to_be_bytes zero v = []
to_be_bytes (suc width) v = to_be_bytes width (v / 256) ++ v % 256 ∷ []

-- What `push_nla` appends. `nla_len` is cast to a `u16`.
abbrev pub encode_nla : ℕ → Bytes → Bytes
encode_nla ty payload =
    to_ne_bytes 2 ((nla_hdrlen + length payload) % 2 ^ 16)
    ++ (to_ne_bytes 2 ty
        ++ (payload
            ++ replicate (align4 (nla_hdrlen + length payload) - (nla_hdrlen + length payload)) 0))

unfoldable pub push_nla : Bytes → ℕ → Bytes → Bytes
push_nla buf ty payload = buf ++ encode_nla ty payload
