-- ===== src/Tc/Series.antt =====
-- The series that `collect` of crates/nlx-netlink/src/collectors/tc.rs emits.
use netlink_exporter.Base.{ℕ, false, List, [], ◌∷◌, Option, none, some, ◌≡◌, refl, ap, All}
use netlink_exporter.Base.Map.{IsAscending, IsAbove, upsert, upsert-IsAscending, insert}
use netlink_exporter.Base.Order.{Ordering, pair_cmp, pair_cmp_refl, text_eq, text_ord, pair_ord}
use netlink_exporter.Base.Text.{Text, codes}
use netlink_exporter.Metric.{Labels}
use netlink_exporter.Registry.{duplicate_series, series_key}
use netlink_exporter.Registry.Distinct.{
  IsDistinct, IsOther, duplicate_series-IsDistinct, block-IsDistinct,
}
use netlink_exporter.Registry.Key.{IsPlain, IsPlainLabels, is_plain-IsPlain, series_key-ne}
use netlink_exporter.Tc.{
  QdiscStats, no_stats, add, Agg, aggregate, frame_stats, qdisc_labels, emit_qdisc_metrics,
  agg_samples,
}
use netlink_exporter.Wire.{Bytes}

-- No device and no kind holds a separator of the keys.
abbrev pub IsPlainKey : Text × Text → Type 0
IsPlainKey key = IsPlain key.0 × IsPlain key.1

abbrev flat_labels : Text × Text → Labels
flat_labels (device, kind) = (codes "device", device) ∷ (codes "kind", kind) ∷ []

flat_labels-IsPlain : (key : Text × Text) → IsPlainKey key → IsPlainLabels (flat_labels key)
flat_labels-IsPlain (device, kind) (hd, hk) =
    ((is_plain-IsPlain (codes "device") refl, hd), ((is_plain-IsPlain (codes "kind") refl, hk), tt))

flat_labels-injective : (a b : Text × Text) → flat_labels a ≡ flat_labels b → a ≡ b
flat_labels-injective (d, k) (d', k') e = cc

keys_differ :
    (a b : Text × Text)
    → IsPlainKey a
    → IsPlainKey b
    → pair_cmp a b ≡ Ordering.lt
    → text_eq (series_key (qdisc_labels b.0 b.1)) (series_key (qdisc_labels a.0 a.1)) ≡ false
unfolding insert upsert
keys_differ a b ha hb e =
    series_key-ne (flat_labels b) (flat_labels a) (flat_labels-IsPlain b hb)
      (flat_labels-IsPlain a ha)
      (λ eq. cc (e, ap (pair_cmp a) (flat_labels-injective b a eq), pair_cmp_refl a))

module _ {F64 : Type 0} (of_u64 : ℕ → F64) where
  emit_qdisc_metrics-IsDistinct :
      (device kind : Text) (s : QdiscStats) → IsDistinct (emit_qdisc_metrics of_u64 device kind s)
  unfolding emit_qdisc_metrics
  emit_qdisc_metrics-IsDistinct device kind s = (
    (refl, (refl, (refl, (refl, tt)))),
    ((refl, (refl, (refl, tt))), ((refl, (refl, tt)), ((refl, tt), (tt, tt)))),
  )

  agg_samples-IsOther :
      (a : Text × Text) (agg : Agg)
      → IsPlainKey a
      → All (λ e. IsPlainKey e.0) agg
      → IsAbove a agg
      → IsOther (qdisc_labels a.0 a.1) (agg_samples of_u64 agg)
  unfolding agg_samples emit_qdisc_metrics
  agg_samples-IsOther a [] ha hs above = tt
  agg_samples-IsOther a (((device, kind), s) ∷ agg) ha (h, hs) (e, above) =
      let other = keys_differ a (device, kind) ha h e in
      (other, (other, (other, (other, (other, agg_samples-IsOther a agg ha hs above)))))

  agg_samples-IsDistinct :
      (agg : Agg)
      → All (λ e. IsPlainKey e.0) agg
      → IsAscending agg
      → IsDistinct (agg_samples of_u64 agg)
  unfolding agg_samples emit_qdisc_metrics
  agg_samples-IsDistinct [] hs asc = tt
  agg_samples-IsDistinct (((device, kind), s) ∷ agg) (h, hs) (above, asc) =
      block-IsDistinct (qdisc_labels device kind) (emit_qdisc_metrics of_u64 device kind s)
        (agg_samples of_u64 agg) (emit_qdisc_metrics-IsDistinct device kind s)
        (refl, (refl, (refl, (refl, (refl, tt))))) (agg_samples-IsDistinct agg hs asc)
        (agg_samples-IsOther (device, kind) agg h hs above)

  aggregate-IsAscending :
      (from_utf8 : Bytes → Option Text) (ifindex_map : List (ℕ × Text)) (frames : List Bytes)
      (agg : Agg)
      → IsAscending agg
      → IsAscending (aggregate from_utf8 ifindex_map frames agg)
  unfolding aggregate
  aggregate-IsAscending from_utf8 ifindex_map [] agg h = h
  aggregate-IsAscending from_utf8 ifindex_map (frame ∷ frames) agg h =
      aggregate-IsAscending from_utf8 ifindex_map frames _
        (one (frame_stats from_utf8 ifindex_map frame))
    where
      one :
          (o : Option ((Text × Text) × QdiscStats))
          → IsAscending
              (elim o [ none ↦ agg | some (key, s) ↦ upsert key no_stats (λ acc. add acc s) agg ])
      one none = h
      one (some (key, s)) = upsert-IsAscending key no_stats _ agg h

  -- Whatever the frames of the queueing disciplines are, the collector emits no series twice, when no
  -- device and no kind among its totals holds a separator of the keys.
  pub duplicate_series-agg_samples :
      (from_utf8 : Bytes → Option Text) (ifindex_map : List (ℕ × Text)) (frames : List Bytes)
      → All (λ e. IsPlainKey e.0) (aggregate from_utf8 ifindex_map frames [])
      → duplicate_series (agg_samples of_u64 (aggregate from_utf8 ifindex_map frames [])) ≡ []
  duplicate_series-agg_samples from_utf8 ifindex_map frames h =
      duplicate_series-IsDistinct _
        (agg_samples-IsDistinct _ h (aggregate-IsAscending from_utf8 ifindex_map frames [] tt))
