-- ===== src/Tests/Rt.antt =====
-- Inputs for the theorems about crates/nlx-netlink/src/collectors/rt.rs.
use netlink_exporter.Base.{List, [], ◌∷◌, ◌≤◌, length, replicate}
use netlink_exporter.Rt.{count_addresses, count_routes, count_neighbours}
use netlink_exporter.Rt.Numbers.{length-counts}
use netlink_exporter.Wire.{Bytes}

-- Messages of two families, and one of a bridge.
abbrev frames : List Bytes
frames = (2 ∷ replicate 11 0) ∷ (10 ∷ replicate 11 0) ∷ (7 ∷ replicate 11 0) ∷ []

length-counts_example :
    (length (count_addresses frames) ≤ 3)
    × (length (count_routes frames) ≤ 15)
    × (length (count_neighbours frames) ≤ 27)
length-counts_example = length-counts frames
