-- ===== src/DropMonitor/Stats.antt =====
-- `start_monitoring` and `fetch_stats` of crates/nlx-netlink/src/collectors/drop_monitor.rs.
use netlink_exporter.Base.{
  ℕ, ◌^◌, ◌+◌, ◌<◌, ◌≡◌, refl, ap, ◌∙◌, Bool, ◌||◌, List, [], ◌∷◌, Option, none, some, ltb, ◌==◌,
  if◌then◌else◌, length, drop, arith, ltb-false,
}
use mathlib.Core.Option
use netlink_exporter.Base.Text.{Text, codes}
use netlink_exporter.DropMonitor.Alerts.{to_ne_bytes-IsBytes}
use netlink_exporter.Transport.{Result, ok, err, kernel_error, ◌>>=◌}
use netlink_exporter.Transport.Dump.{Ends, returns, waiting, Kernel}
use netlink_exporter.Transport.Single.{request_single}
use netlink_exporter.Wire.{Bytes, Nla, parse_attrs, nested_attrs, read_u64}
use netlink_exporter.Wire.Build.{push_nla, to_ne_bytes}
use netlink_exporter.Wire.RoundTrip.{Fits, parse_attrs-push_nla, push_all}
use netlink_exporter.Wire.Scalars.{read-to_bytes}

pub record DropEvent : Type 0 where
  pub reason : Text
  pub origin : Text
  pub dropped : ℕ

-- `NET_DM_GENL_VERSION` is 2.
abbrev pub genl_hdr : ℕ → Bytes
genl_hdr cmd = cmd ∷ 2 ∷ 0 ∷ 0 ∷ []

-- `EBUSY`, `EALREADY` and `EAGAIN` say that monitoring is on already.
abbrev pub is_benign : ℕ → Bool
is_benign errno = errno == 16 || (errno == 114 || errno == 11)

unfoldable pub accept_benign : Result (Option Bytes) → Result (Unit {0})
accept_benign (ok reply) = ok tt
accept_benign (err (kernel_error errno)) =
    if is_benign errno then ok tt else err (kernel_error errno)
accept_benign (err e) = err e

-- The loop over a nested attribute, with `NET_DM_ATTR_STATS_DROPPED` (0).
unfoldable pub dropped_in : List Nla → ℕ → ℕ
dropped_in [] dropped = dropped
dropped_in (inner ∷ rest) dropped =
    dropped_in rest (if inner.ty == 0 then Option.get_or (read_u64 inner.payload) 0 else dropped)

-- The loop over the reply: 12 is `NET_DM_ATTR_STATS`, 13 `NET_DM_ATTR_HW_STATS`.
unfoldable pub read_stats : List Nla → ℕ → ℕ → ℕ × ℕ
unfolding dropped_in
read_stats [] sw_dropped hw_dropped = (sw_dropped, hw_dropped)
read_stats (attr ∷ rest) sw_dropped hw_dropped =
    read_stats rest
      (if attr.ty == 12 then dropped_in (nested_attrs attr.payload) sw_dropped else sw_dropped)
      (if attr.ty == 13 then dropped_in (nested_attrs attr.payload) hw_dropped else hw_dropped)

abbrev pub events : ℕ × ℕ → List DropEvent
events (sw_dropped, hw_dropped) =
    record { reason = codes "total"; origin = codes "sw"; dropped = sw_dropped }
    ∷ record { reason = codes "total"; origin = codes "hw"; dropped = hw_dropped }
    ∷ []

-- What `fetch_stats` makes of the reply.
unfoldable pub stats_reply : Option Bytes → List DropEvent
unfolding read_stats
stats_reply none = []
stats_reply (some payload) =
    if ltb (length payload) 4 then [] else events (read_stats (parse_attrs (drop 4 payload)) 0 0)

module _ (os_error : ℕ → Text) where
  -- `NET_DM_CMD_CONFIG` (2) with summary mode, then `NET_DM_CMD_START` (3); `NLM_F_ACK` is 4. The
  -- kernel answers the two requests with `k` and `l`.
  unfoldable pub start_monitoring : Kernel → Kernel → ℕ → ℕ → Ends (Result (Unit {0}) × ℕ)
  unfolding accept_benign
  start_monitoring k l counter family_id =
      elim (request_single os_error k counter family_id 4 (push_nla (genl_hdr 2) 1 (0 ∷ []))) [
        | waiting ↦ waiting
        | returns (r, counter') ↦ elim (accept_benign r) [
          | err e ↦ returns (err e, counter')
          | ok u ↦ elim (request_single os_error l counter' family_id 4 (genl_hdr 3)) [
            | waiting ↦ waiting
            | returns (r', counter'') ↦ returns (accept_benign r', counter'')
          ]
        ]
      ]

  -- `NET_DM_CMD_STATS_GET` is 8.
  unfoldable pub fetch_stats : Kernel → ℕ → ℕ → Ends (Result (List DropEvent) × ℕ)
  unfolding stats_reply
  fetch_stats k counter family_id =
      elim (request_single os_error k counter family_id 0 (genl_hdr 8)) [
        | waiting ↦ waiting
        | returns (r, counter') ↦ returns (r >>= (λ reply. ok (stats_reply reply)), counter')
      ]

  -- Monitoring starts when the kernel accepts both commands or says that it is on already.
  pub start_monitoring-benign :
      (k l : Kernel) (counter family_id : ℕ) (r s : Result (Option Bytes)) (counter' counter'' : ℕ)
      → request_single os_error k counter family_id 4 (push_nla (genl_hdr 2) 1 (0 ∷ []))
        ≡ returns (r, counter')
      → request_single os_error l counter' family_id 4 (genl_hdr 3) ≡ returns (s, counter'')
      → accept_benign r ≡ ok tt
      → start_monitoring k l counter family_id ≡ returns (accept_benign s, counter'')
  unfolding start_monitoring
  start_monitoring-benign k l counter family_id r s counter' counter'' e f a =
      rw (e, start_monitoring) (rw a (rw f refl))

-- One of the two nested attributes; bit 15 is `NLA_F_NESTED`.
abbrev pub stats_nla : ℕ → ℕ → Nla
stats_nla ty dropped = record { ty = 2 ^ 15 + ty; payload = push_nla [] 0 (to_ne_bytes 8 dropped) }

stats_nla-Fits : (ty v : ℕ) → ty < 2 ^ 15 → Fits (stats_nla ty v)
unfolding push_nla
stats_nla-Fits ty v h = record {
  ty_fits = omega (arith, h);
  len_fits = omega arith;
  are_bytes = (omega arith, (omega arith, (omega arith, (omega arith, to_ne_bytes-IsBytes 8 v))));
}

dropped_in-stats_nla :
    (ty v : ℕ) → v < 2 ^ 64 → dropped_in (nested_attrs (stats_nla ty v).payload) 0 ≡ v
unfolding dropped_in
dropped_in-stats_nla ty v h =
    let inner : Nla = record { ty = 0; payload = to_ne_bytes 8 v } in
    ap (λ (l : List Nla). dropped_in l 0)
      (parse_attrs-push_nla (inner ∷ []) (
        record {
          ty_fits = omega arith;
          len_fits = omega arith;
          are_bytes = to_ne_bytes-IsBytes 8 v;
        },
        tt,
      ))
    ∙ ap (λ (o : Option ℕ). Option.get_or o 0) ((read-to_bytes v []).2 h).0

-- A reply with both numbers of drops, of 64 bits each, after its four header bytes, is read as these
-- numbers.
pub stats_reply-push_nla :
    (a b c d sw hw : ℕ)
    → sw < 2 ^ 64
    → hw < 2 ^ 64
    → stats_reply (some (a ∷ b ∷ c ∷ d ∷ push_all [] (stats_nla 12 sw ∷ stats_nla 13 hw ∷ [])))
      ≡ events (sw, hw)
unfolding stats_reply
stats_reply-push_nla a b c d sw hw bs bh =
    let attrs : Bytes = push_all [] (stats_nla 12 sw ∷ stats_nla 13 hw ∷ []) in
    ap (λ (t : Bool). if t then [] else events (read_stats (parse_attrs attrs) 0 0))
      (ltb-false (length (a ∷ b ∷ c ∷ d ∷ attrs)) 4 (omega arith))
    ∙ ap (λ (l : List Nla). events (read_stats l 0 0))
        (parse_attrs-push_nla (stats_nla 12 sw ∷ stats_nla 13 hw ∷ [])
          (stats_nla-Fits 12 sw (omega arith), (stats_nla-Fits 13 hw (omega arith), tt)))
    ∙ (λ i. events (dropped_in-stats_nla 12 sw bs i, dropped_in-stats_nla 13 hw bh i))
