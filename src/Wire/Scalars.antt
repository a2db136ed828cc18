-- ===== src/Wire/Scalars.antt =====
-- The typed readers against the writers of the same width.
use netlink_exporter.Base.{ℕ, ◌^◌, ◌<◌, ◌++◌, none, some, ◌≡◌, ◌↔◌, arith, length}
use netlink_exporter.Wire.{
  Bytes, read_u16, read_u32, read_u64, read_u16_be, read_u32_be, read_u64_be,
}
use netlink_exporter.Wire.Build.{to_ne_bytes, to_be_bytes}

-- The readers of both byte orders give back what the writers of the same width and order wrote,
-- whatever follows it: 16, 32 and 64 bits.
pub read-to_bytes :
    (v : ℕ) (rest : Bytes)
    → (v < 2 ^ 16
        → (read_u16 (to_ne_bytes 2 v ++ rest) ≡ some v)
          × (read_u16_be (to_be_bytes 2 v ++ rest) ≡ some v))
      × (v < 2 ^ 32
          → (read_u32 (to_ne_bytes 4 v ++ rest) ≡ some v)
            × (read_u32_be (to_be_bytes 4 v ++ rest) ≡ some v))
      × (v < 2 ^ 64
          → (read_u64 (to_ne_bytes 8 v ++ rest) ≡ some v)
            × (read_u64_be (to_be_bytes 8 v ++ rest) ≡ some v))
unfolding read_u16 read_u32 read_u64 read_u16_be read_u32_be read_u64_be
read-to_bytes v rest = (
  λ h. (ground arith, ground arith),
  λ h. (ground arith, ground arith),
  λ h. (ground arith, ground arith),
)

-- A reader answers `none` exactly when its payload is too short.
pub read-eq-none :
    (p : Bytes)
    → ((read_u16 p ≡ none) ↔ (length p < 2))
      × ((read_u32 p ≡ none) ↔ (length p < 4))
      × ((read_u64 p ≡ none) ↔ (length p < 8))
unfolding read_u16 read_u32 read_u64
read-eq-none p = (ground arith, ground arith, ground arith)
