-- ===== src/Tc/Totals.antt =====
-- What the totals by device and kind of crates/nlx-netlink/src/collectors/tc.rs hold.
use netlink_exporter.Base.{
  ℕ, ◌+◌, ◌-◌, ◌^◌, ◌≡◌, refl, sym, ap, ◌∙◌, inl, inr, Bool, true, false, List, [], ◌∷◌, Option,
  none, some, Bool-cases, if◌then◌else◌, min, arith,
}
use mathlib.Core.Option
use netlink_exporter.Base.Map.{lookup, upsert, lookup-upsert_self, lookup-upsert_ne}
use netlink_exporter.Base.Order.{Ordering, pair_cmp, pair_cmp_eq, pair_cmp_refl, text_ord, pair_ord}
use netlink_exporter.Base.Text.{Text}
use netlink_exporter.Tc.{QdiscStats, no_stats, add, Agg, aggregate, frame_stats}
use netlink_exporter.Wire.{Bytes}

abbrev pub key_eq : Text × Text → Text × Text → Bool
key_eq a b = elim (pair_cmp a b) [ Ordering.eq ↦ true | _ ↦ false ]

key_eq→eq : (a b : Text × Text) → key_eq a b ≡ true → a ≡ b
key_eq→eq a b e = pair_cmp_eq a b (ground (arith, e))

key_eq_refl : (a b : Text × Text) → a ≡ b → key_eq a b ≡ true
key_eq_refl a b e = ap (key_eq a) (sym e) ∙ rw (pair_cmp_refl a, key_eq)

-- The counters under a key, zeros if there are none.
abbrev pub totals : Text × Text → Agg → QdiscStats
totals k agg = Option.get_or (lookup k agg) no_stats

-- Sums that do not saturate, and a bound on all of them.
abbrev pub plus : QdiscStats → QdiscStats → QdiscStats
plus a b = record {
  bytes = a.bytes + b.bytes;
  packets = a.packets + b.packets;
  drops = a.drops + b.drops;
  overlimits = a.overlimits + b.overlimits;
  backlog = a.backlog + b.backlog;
}

abbrev pub saturated : QdiscStats → QdiscStats
saturated s = record {
  bytes = min s.bytes (2 ^ 64 - 1);
  packets = min s.packets (2 ^ 64 - 1);
  drops = min s.drops (2 ^ 64 - 1);
  overlimits = min s.overlimits (2 ^ 64 - 1);
  backlog = min s.backlog (2 ^ 64 - 1);
}

stats_path :
    {a b : QdiscStats}
    → a.bytes ≡ b.bytes
    → a.packets ≡ b.packets
    → a.drops ≡ b.drops
    → a.overlimits ≡ b.overlimits
    → a.backlog ≡ b.backlog
    → a ≡ b
stats_path e1 e2 e3 e4 e5 =
    λ i. record { bytes = e1 i; packets = e2 i; drops = e3 i; overlimits = e4 i; backlog = e5 i }

totals-upsert :
    (k key : Text × Text) (s : QdiscStats) (agg : Agg)
    → totals k (upsert key no_stats (λ acc. add acc s) agg)
      ≡ (if key_eq k key then add (totals k agg) s else totals k agg)
totals-upsert k key s agg = elim (Bool-cases (key_eq k key)) [
  | inl same ↦
      let e : k ≡ key = key_eq→eq k key same in
      rw same (
        ap (λ (j : Text × Text). totals k (upsert j no_stats (λ acc. add acc s) agg)) (sym e)
        ∙ ap (λ (o : Option QdiscStats). Option.get_or o no_stats)
            (lookup-upsert_self k no_stats (λ acc. add acc s) agg))
  | inr other ↦ rw other (
      ap (λ (o : Option QdiscStats). Option.get_or o no_stats)
        (lookup-upsert_ne k key no_stats (λ acc. add acc s) agg
          (λ e. cc (other, key_eq_refl k key e))))
]

add-saturated : (t s : QdiscStats) → add (saturated t) s ≡ saturated (plus t s)
add-saturated t s = stats_path (omega arith) (omega arith) (omega arith) (omega arith) (omega arith)

plus_zero : (t : QdiscStats) → t ≡ plus t no_stats
plus_zero t = stats_path (omega arith) (omega arith) (omega arith) (omega arith) (omega arith)

zero_plus : (t : QdiscStats) → plus no_stats t ≡ t
zero_plus t = stats_path (omega arith) (omega arith) (omega arith) (omega arith) (omega arith)

plus_assoc : (a b c : QdiscStats) → plus (plus a b) c ≡ plus a (plus b c)
plus_assoc a b c = stats_path (omega arith) (omega arith) (omega arith) (omega arith) (omega arith)

add_if :
    (b : Bool) (u t s : QdiscStats)
    → u ≡ saturated t
    → (if b then add u s else u) ≡ saturated (plus t (if b then s else no_stats))
add_if true u t s e = ap (λ (x : QdiscStats). add x s) e ∙ add-saturated t s
add_if false u t s e = e ∙ ap saturated (plus_zero t)

-- What a frame adds to the counters of a key.
abbrev pub added : Text × Text → Option ((Text × Text) × QdiscStats) → QdiscStats
added k none = no_stats
added k (some (key, s)) = if key_eq k key then s else no_stats

module _ (from_utf8 : Bytes → Option Text) (ifindex_map : List (ℕ × Text)) (k : Text × Text) where
  -- The sums over all frames, as plain numbers.
  abbrev pub sums : List Bytes → QdiscStats
  sums [] = no_stats
  sums (frame ∷ frames) = plus (added k (frame_stats from_utf8 ifindex_map frame)) (sums frames)

  totals-one :
      (o : Option ((Text × Text) × QdiscStats)) (agg : Agg) (t : QdiscStats)
      → totals k agg ≡ saturated t
      → totals k
          (elim o [ none ↦ agg | some (key, s) ↦ upsert key no_stats (λ acc. add acc s) agg ])
        ≡ saturated (plus t (added k o))
  totals-one none agg t e = e ∙ ap saturated (plus_zero t)
  totals-one (some (key, s)) agg t e =
      totals-upsert k key s agg ∙ add_if (key_eq k key) (totals k agg) t s e

  totals-onto :
      (frames : List Bytes) (agg : Agg) (t : QdiscStats)
      → totals k agg ≡ saturated t
      → totals k (aggregate from_utf8 ifindex_map frames agg) ≡ saturated (plus t (sums frames))
  unfolding aggregate
  totals-onto [] agg t e = e ∙ ap saturated (plus_zero t)
  totals-onto (frame ∷ frames) agg t e =
      totals-onto frames _ _ (totals-one (frame_stats from_utf8 ifindex_map frame) agg t e)
      ∙ ap saturated (plus_assoc t _ _)

  -- The counters of a device and a kind after a dump are the sums over all frames with that device
  -- and kind, each cut off at 2 ^ 64 - 1: nothing is lost or counted for another key.
  pub totals-aggregate :
      (frames : List Bytes)
      → totals k (aggregate from_utf8 ifindex_map frames []) ≡ saturated (sums frames)
  unfolding lookup
  totals-aggregate frames =
      totals-onto frames [] no_stats refl ∙ ap saturated (zero_plus (sums frames))
