-- ===== src/DropMonitor/Alerts.antt =====
-- `parse_summary_alert` of crates/nlx-netlink/src/collectors/drop_monitor.rs on the alerts that a
-- kernel writes.
use netlink_exporter.Base.{
  if◌then◌else◌, ℕ, zero, suc, ◌+◌, ◌-◌, ◌*◌, ◌/◌, ◌^◌, ◌<◌, ◌≤◌, ◌≡◌, refl, ap, ◌∙◌, List, [], ◌∷◌,
  ◌++◌, min, length, All, All-append, arith, Bool, false, ltb, ltb-false, Option,
}
use mathlib.Core.Option
use netlink_exporter.DropMonitor.{
  DropCounters, saturating_add, read_u32_or_zero, add_points, add_alert_attr, add_alert_attrs,
  parse_summary_alert,
}
use netlink_exporter.Wire.{Bytes, IsBytes, Nla}
use netlink_exporter.Wire.Build.{to_ne_bytes, push_nla}
use netlink_exporter.Wire.RoundTrip.{Fits, parse_attrs-push_nla}
use netlink_exporter.Wire.Scalars.{read-to_bytes}

-- `net_dm_drop_point`
pub record DropPoint : Type 0 where
  pub pc : ℕ
  pub count : ℕ

abbrev pub encode_points : List DropPoint → Bytes
encode_points [] = []
encode_points (p ∷ points) = to_ne_bytes 8 p.pc ++ (to_ne_bytes 4 p.count ++ encode_points points)

-- `net_dm_alert_msg`
abbrev pub encode_alert : List DropPoint → Bytes
encode_alert points = to_ne_bytes 4 (length points) ++ encode_points points

abbrev pub total : List DropPoint → ℕ
total [] = 0
total (p ∷ points) = p.count + total points

read_u32_or_zero-to_ne_bytes : (v : ℕ) → v < 2 ^ 32 → read_u32_or_zero (to_ne_bytes 4 v) ≡ v
read_u32_or_zero-to_ne_bytes v h =
    ap (λ (o : Option ℕ). Option.get_or o 0) ((read-to_bytes v []).1 h).0

add_point :
    (p : DropPoint) (n : ℕ) (rest : Bytes) (sw : ℕ)
    → p.count < 2 ^ 32
    → add_points (suc n) (to_ne_bytes 8 p.pc ++ (to_ne_bytes 4 p.count ++ rest)) sw
      ≡ add_points n rest (saturating_add sw p.count)
unfolding add_points
add_point p n rest sw h =
    let point : Bytes = to_ne_bytes 8 p.pc ++ (to_ne_bytes 4 p.count ++ rest) in
    let whole : ltb (length point) 12 ≡ false = ltb-false (length point) 12 (omega arith) in
    ap
      (λ (b : Bool).
        if b
        then sw
        else add_points n rest (saturating_add sw (read_u32_or_zero (to_ne_bytes 4 p.count))))
      whole
    ∙ ap (λ (c : ℕ). add_points n rest (saturating_add sw c))
        (read_u32_or_zero-to_ne_bytes p.count h)

add_points-encode_points :
    (points : List DropPoint) (sw : ℕ)
    → All (λ p. p.count < 2 ^ 32) points
    → sw < 2 ^ 64
    → add_points (length points) (encode_points points) sw ≡ min (sw + total points) (2 ^ 64 - 1)
unfolding add_points
add_points-encode_points [] sw h b = omega (arith, b)
add_points-encode_points (p ∷ points) sw (h, hs) b =
    add_point p (length points) (encode_points points) sw h
    ∙ add_points-encode_points points (saturating_add sw p.count) hs (omega arith)
    ∙ omega arith

pub to_ne_bytes-IsBytes : (width v : ℕ) → IsBytes (to_ne_bytes width v)
to_ne_bytes-IsBytes zero v = tt
to_ne_bytes-IsBytes (suc width) v = (omega arith, to_ne_bytes-IsBytes width (v / 256))

encode_points-IsBytes : (points : List DropPoint) → IsBytes (encode_points points)
encode_points-IsBytes [] = tt
encode_points-IsBytes (p ∷ points) =
    All-append (λ x. x < 256) (to_ne_bytes 8 p.pc) (to_ne_bytes 4 p.count ++ encode_points points)
      (to_ne_bytes-IsBytes 8 p.pc)
      (All-append (λ x. x < 256) (to_ne_bytes 4 p.count) (encode_points points)
        (to_ne_bytes-IsBytes 4 p.count) (encode_points-IsBytes points))

length-encode_points :
    (points : List DropPoint) → length (encode_points points) ≡ 12 * length points
length-encode_points [] = refl
length-encode_points (p ∷ points) = omega (arith, length-encode_points points)

alert_nla : List DropPoint → Nla
alert_nla points = record { ty = 0; payload = encode_alert points }

alert_nla-Fits : (points : List DropPoint) → length points ≤ 5000 → Fits (alert_nla points)
unfolding alert_nla
alert_nla-Fits points h = record {
  ty_fits = omega arith;
  len_fits = omega (arith, h, length-encode_points points);
  are_bytes =
      All-append (λ x. x < 256) (to_ne_bytes 4 (length points)) (encode_points points)
        (to_ne_bytes-IsBytes 4 (length points)) (encode_points-IsBytes points);
}

-- An alert of at most 5000 drop points, each with a count of 32 bits, is read as the sum of the
-- counts, or 2 ^ 64 - 1 if the sum is larger, in the software counter, and none in hardware.
pub parse_summary_alert-encode_alert :
    (points : List DropPoint)
    → length points ≤ 5000
    → All (λ p. p.count < 2 ^ 32) points
    → parse_summary_alert (push_nla [] 0 (encode_alert points))
      ≡ record { sw = min (total points) (2 ^ 64 - 1); hw = 0 }
unfolding parse_summary_alert add_alert_attrs add_alert_attr alert_nla
parse_summary_alert-encode_alert points h counts =
    ap (λ (l : List Nla). add_alert_attrs l (record { sw = 0; hw = 0 }))
      (parse_attrs-push_nla (alert_nla points ∷ []) (alert_nla-Fits points h, tt))
    ∙ ap
        (λ (b : Bool).
          if b
          then counters 0
          else counters (
              add_points (read_u32_or_zero (to_ne_bytes 4 (length points))) (encode_points points)
                0))
        (ltb-false (length (encode_alert points)) 4 (omega arith))
    ∙ ap (λ (n : ℕ). counters (add_points n (encode_points points) 0))
        (read_u32_or_zero-to_ne_bytes (length points) (omega (arith, h)))
    ∙ ap counters (add_points-encode_points points 0 counts (omega arith) ∙ omega arith)
  where
    counters : ℕ → DropCounters
    counters n = record { sw = n; hw = 0 }
