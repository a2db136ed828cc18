-- ===== src/RtExtended/Entries.antt =====
-- The counts of forwarding entries in crates/nlx-netlink/src/collectors/rt_extended.rs.
use netlink_exporter.Base.{ℕ, ◌%◌, ◌^◌, ◌≡◌, List}
use netlink_exporter.Base.Counts.{count_of, number_of, count_of-count_by}
use netlink_exporter.Base.Order.{nat_ord}
use netlink_exporter.RtExtended.{fdb_key, fdb_counts}
use netlink_exporter.Wire.{Bytes}

-- The count of an interface is the number of frames of the bridge family for it, modulo 2 ^ 64; frames
-- that are too short or of another family count for none.
pub count_of-fdb_counts :
    (ifindex : ℕ) (frames : List Bytes)
    → count_of ifindex (fdb_counts frames) ≡ number_of ifindex fdb_key frames % 2 ^ 64
unfolding fdb_counts
count_of-fdb_counts ifindex frames = count_of-count_by ifindex fdb_key frames
