-- ===== src/Rt/Numbers.antt =====
-- The counts of crates/nlx-netlink/src/collectors/rt.rs: what they are, and how many there can be.
use netlink_exporter.Base.{
  ℕ, ◌%◌, ◌^◌, ◌≤◌, ◌≡◌, List, [], ◌∷◌, length, get_or, drop, ◌==◌, ltb, Bool-cases, inl, inr,
}
use mathlib.Core.List.{Memᴰ}
use netlink_exporter.Base.Counts.{count_of, count_of-count_by, number_of}
use netlink_exporter.Base.Finite.{mem-if, mem-pairs, pairs, OptionIn, length-count_by}
use netlink_exporter.Base.Order.{text_ord, pair_ord}
use netlink_exporter.Base.Text.{Text, codes}
use netlink_exporter.Rt.{
  family_label, nud_state_label, table_label, route_table, address_key, route_key, neighbour_key,
  count_addresses, count_routes, count_neighbours,
}
use netlink_exporter.Wire.{Bytes, from_ne_bytes, slice, parse_attrs}

-- The count of an address family, of a family and a table, and of a family and a state is the number
-- of frames with them, modulo 2 ^ 64: no frame is lost or counted twice, and frames that are too short
-- and neighbours of bridges do not count.
pub count_of-counts :
    (frames : List Bytes) (family value : Text)
    → (count_of family (count_addresses frames) ≡ number_of family address_key frames % 2 ^ 64)
      × (count_of (family, value) (count_routes frames)
          ≡ number_of (family, value) route_key frames % 2 ^ 64)
      × (count_of (family, value) (count_neighbours frames)
          ≡ number_of (family, value) neighbour_key frames % 2 ^ 64)
unfolding count_addresses count_routes count_neighbours
count_of-counts frames family value = (
  count_of-count_by family address_key frames,
  count_of-count_by (family, value) route_key frames,
  count_of-count_by (family, value) neighbour_key frames,
)

abbrev families : List Text
families = codes "inet" ∷ codes "inet6" ∷ codes "other" ∷ []

abbrev tables : List Text
tables = codes "unspec" ∷ codes "default" ∷ codes "main" ∷ codes "local" ∷ codes "other" ∷ []

abbrev states : List Text
states =
    codes "permanent"
    ∷ codes "reachable"
    ∷ codes "stale"
    ∷ codes "delay"
    ∷ codes "probe"
    ∷ codes "failed"
    ∷ codes "noarp"
    ∷ codes "incomplete"
    ∷ codes "unknown"
    ∷ []

-- The label is that of one of the branches.
mem-family_label : (family : ℕ) → Memᴰ (family_label family) families
unfolding family_label
mem-family_label family = search (mem-if, Memᴰ.head) depth 12

mem-table_label : (id : ℕ) → Memᴰ (table_label id) tables
unfolding table_label
mem-table_label id = search (mem-if, Memᴰ.head) depth 12

mem-nud_state_label : (state : ℕ) → Memᴰ (nud_state_label state) states
unfolding nud_state_label
mem-nud_state_label state = search (mem-if, Memᴰ.head) depth 12

address_key-OptionIn : (frame : Bytes) → OptionIn families (address_key frame)
unfolding address_key
address_key-OptionIn [] = tt
address_key-OptionIn (family ∷ rest) = mem-family_label family

route_key-OptionIn : (frame : Bytes) → OptionIn (pairs families tables) (route_key frame)
unfolding route_key
route_key-OptionIn frame = elim (Bool-cases (ltb (length frame) 12)) [
  | inl short ↦ rw short tt
  | inr long ↦ rw long (
      mem-pairs (mem-family_label (get_or frame 0 0))
        (mem-table_label (route_table (get_or frame 4 0) (parse_attrs (drop 12 frame)))))
]

neighbour_key-OptionIn : (frame : Bytes) → OptionIn (pairs families states) (neighbour_key frame)
unfolding neighbour_key
neighbour_key-OptionIn frame = elim (Bool-cases (ltb (length frame) 12)) [
  | inl short ↦ rw short tt
  | inr long ↦ elim (Bool-cases (get_or frame 0 0 == 7)) [
    | inl bridge ↦ rw (long, bridge) tt
    | inr other ↦
        rw (long, other)
          (mem-pairs (mem-family_label (get_or frame 0 0))
            (mem-nud_state_label (from_ne_bytes (slice 8 10 frame))))
  ]
]

-- Whatever the kernel has, the collector emits at most 3 counts of addresses, 15 of routes and 27 of
-- neighbours.
pub length-counts :
    (frames : List Bytes)
    → (length (count_addresses frames) ≤ 3)
      × (length (count_routes frames) ≤ 15)
      × (length (count_neighbours frames) ≤ 27)
unfolding count_addresses count_routes count_neighbours
length-counts frames = (
  length-count_by families address_key frames address_key-OptionIn,
  length-count_by (pairs families tables) route_key frames route_key-OptionIn,
  length-count_by (pairs families states) neighbour_key frames neighbour_key-OptionIn,
)
