-- ===== src/Sockdiag/Buckets.antt =====
-- What `parse_frame` of crates/nlx-netlink/src/collectors/sockdiag.rs counts.
use netlink_exporter.Base.{
  ℕ, ◌+◌, ◌^◌, ◌<◌, Bool, true, false, ◌&&◌, List, [], ◌∷◌, Option, leb, if◌then◌else◌, length,
}
use mathlib.Core.Option
use netlink_exporter.Base.Map.{lookup}
use netlink_exporter.Base.Order.{Ordering}
use netlink_exporter.Sockdiag.{
  Bucket, empty_bucket, Totals, add_u64, frame_state, inet_diag_msg_min,
}
use netlink_exporter.Sockdiag.Keys.{Protocol, SockKey, key_cmp, key_ord, protocol_ord}
use netlink_exporter.Wire.{Bytes, from_ne_bytes, slice}

abbrev pub key_eq : SockKey → SockKey → Bool
key_eq a b = elim (key_cmp a b) [ Ordering.eq ↦ true | _ ↦ false ]

-- The bucket under a key, empty if there is none.
abbrev pub bucket : SockKey → Totals → Bucket
bucket k t = Option.get_or (lookup k t.bucket_map) empty_bucket

-- A frame counts for a key: it is long enough, and has the key's protocol and state.
abbrev pub counts : SockKey → Protocol → Bool → Bytes → Bool
counts k protocol is_udp frame =
    leb inet_diag_msg_min (length frame)
    && key_eq k (record { protocol = protocol; state = frame_state is_udp frame })

abbrev pub frames_counted : SockKey → Protocol → Bool → List Bytes → ℕ
frames_counted k protocol is_udp [] = 0
frames_counted k protocol is_udp (frame ∷ frames) =
    (if counts k protocol is_udp frame then 1 else 0) + frames_counted k protocol is_udp frames

abbrev pub rqueue_sum : SockKey → Protocol → Bool → List Bytes → ℕ
rqueue_sum k protocol is_udp [] = 0
rqueue_sum k protocol is_udp (frame ∷ frames) =
    (if counts k protocol is_udp frame then from_ne_bytes (slice 56 60 frame) else 0)
    + rqueue_sum k protocol is_udp frames

abbrev pub wqueue_sum : SockKey → Protocol → Bool → List Bytes → ℕ
wqueue_sum k protocol is_udp [] = 0
wqueue_sum k protocol is_udp (frame ∷ frames) =
    (if counts k protocol is_udp frame then from_ne_bytes (slice 60 64 frame) else 0)
    + wqueue_sum k protocol is_udp frames

-- A bucket with more in it, and when its fields are `u64`s.
abbrev pub grow : Bucket → ℕ → ℕ → ℕ → Bucket
grow b count rqueue wqueue = record {
  count = add_u64 b.count count;
  rqueue = add_u64 b.rqueue rqueue;
  wqueue = add_u64 b.wqueue wqueue;
}

abbrev pub IsBucket : Bucket → Type 0
IsBucket b = (b.count < 2 ^ 64) × ((b.rqueue < 2 ^ 64) × (b.wqueue < 2 ^ 64))
