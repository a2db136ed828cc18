-- ===== src/Sockdiag.antt =====
-- crates/nlx-netlink/src/collectors/sockdiag.rs: the keys and the accumulation of one frame.
pub mod Keys
pub mod Buckets
pub mod Collect
pub mod Restarts
pub mod Samples
pub mod Others
use netlink_exporter.Base.{
  ℕ, ◌+◌, ◌%◌, ◌^◌, Bool, true, false, not, ◌&&◌, List, [], ◌∷◌, ltb, leb, ◌==◌, if◌then◌else◌,
  length, get_or, drop,
}
use netlink_exporter.Base.Map.{upsert}
use netlink_exporter.Base.Text.{Text, codes}
use netlink_exporter.Sockdiag.Keys.{
  Protocol, tcp, udp, SocketState, SockKey, from_kernel, key_ord, protocol_ord,
}
use netlink_exporter.Wire.{Bytes, Nla, from_ne_bytes, slice, parse_attrs}

abbrev pub inet_diag_msg_min : ℕ
inet_diag_msg_min = 72

pub record Bucket : Type 0 where
  pub count : ℕ
  pub rqueue : ℕ
  pub wqueue : ℕ

abbrev pub empty_bucket : Bucket
empty_bucket = record { count = 0; rqueue = 0; wqueue = 0 }

-- The three accumulators of `collect_sockdiag`.
pub record Totals : Type 0 where
  pub bucket_map : List (SockKey × Bucket)
  pub drops : List (Protocol × ℕ)
  pub retransmits : ℕ

-- `u64` addition of a release build, which wraps.
abbrev pub add_u64 : ℕ → ℕ → ℕ
add_u64 a b = (a + b) % 2 ^ 64

-- The match on one attribute: 7 is `INET_DIAG_SKMEMINFO`, 2 `INET_DIAG_INFO`.
unfoldable pub add_attr : Protocol → Bool → Nla → Totals → Totals
add_attr protocol is_udp nla t =
    if nla.ty == 7 && leb 36 (length nla.payload)
    then record t {
      drops = upsert protocol 0 (λ d. add_u64 d (from_ne_bytes (slice 32 36 nla.payload))) t.drops;
    }
    else if nla.ty == 2 && (not is_udp && leb 104 (length nla.payload))
    then record t {
      retransmits = add_u64 t.retransmits (from_ne_bytes (slice 100 104 nla.payload));
    }
    else t

unfoldable pub add_attrs : Protocol → Bool → List Nla → Totals → Totals
add_attrs protocol is_udp [] t = t
add_attrs protocol is_udp (nla ∷ attrs) t =
    add_attrs protocol is_udp attrs (add_attr protocol is_udp nla t)

abbrev pub frame_state : Bool → Bytes → SocketState
frame_state is_udp frame = from_kernel (get_or frame 1 0) is_udp

abbrev pub add_bucket : Bytes → Bucket → Bucket
add_bucket frame b = record {
  count = add_u64 b.count 1;
  rqueue = add_u64 b.rqueue (from_ne_bytes (slice 56 60 frame));
  wqueue = add_u64 b.wqueue (from_ne_bytes (slice 60 64 frame));
}

-- `parse_frame`. The slices of four bytes lie within the 72, so their conversions do not fail.
unfoldable pub parse_frame : Bytes → Protocol → Bool → Totals → Totals
unfolding add_attrs
parse_frame frame protocol is_udp t =
    if ltb (length frame) inet_diag_msg_min
    then t
    else add_attrs protocol is_udp (parse_attrs (drop inet_diag_msg_min frame)) (record t {
      bucket_map =
          upsert (record { protocol = protocol; state = frame_state is_udp frame }) empty_bucket
            (add_bucket frame) t.bucket_map;
    })

-- The loop over the frames of one dump.
unfoldable pub parse_frames : List Bytes → Protocol → Bool → Totals → Totals
parse_frames [] protocol is_udp t = t
parse_frames (frame ∷ frames) protocol is_udp t =
    parse_frames frames protocol is_udp (parse_frame frame protocol is_udp t)
