-- ===== src/Registry/Key.antt =====
-- `series_key` and the dedup guard's notion of a series.
use netlink_exporter.Base.{
  ℕ, ◌<◌, [], ◌∷◌, ◌++◌, ◌≡◌, ◌≢◌, refl, sym, ap, ◌∙◌, arith, All, append_assoc, length,
  length-append, append-nil, Bool-cases, inl, inr, Bool, true, false, ◌&&◌, ltb,
}
use netlink_exporter.Base.Text.{Text, codes}
use netlink_exporter.Metric.{Labels}
use netlink_exporter.Base.Map.{upsert}
use netlink_exporter.Base.Order.{text_eq, text_eq_iff, text_cmp_refl}
use netlink_exporter.Metric.{MetricKind, MetricValue, MetricSample}
use netlink_exporter.Registry.{
  series_key, Float, encode_samples, group_samples, add_observation, write_groups,
  write_observations, write_header, write_sample_line, write_braces, write_labels, write_value,
  escape_char, escape_label_value, newline, GroupEntry, Groups,
}

-- No separator of the key stands in the text.
abbrev pub IsPlain : Text → Type 0
IsPlain s = All (λ c. (c ≢ 1) × (c ≢ 2)) s

-- The same as a test, for texts that are written out.
abbrev pub is_plain : Text → Bool
is_plain [] = true
is_plain (c ∷ s) = ltb 2 c && is_plain s

pub is_plain-IsPlain : (s : Text) → is_plain s ≡ true → IsPlain s
is_plain-IsPlain [] h = tt
is_plain-IsPlain (c ∷ s) h = ((ground arith, ground arith), is_plain-IsPlain s (ground arith))

-- The text up to the first separator is determined.
cut_eq :
    (sep : ℕ) (a b s t : Text)
    → All (λ c. c ≢ sep) a
    → All (λ c. c ≢ sep) b
    → a ++ sep ∷ s ≡ b ++ sep ∷ t
    → (a ≡ b) × (s ≡ t)
cut_eq sep [] [] s t ha hb e = ground arith
cut_eq sep [] (y ∷ b) s t ha hb e = ground arith
cut_eq sep (x ∷ a) [] s t ha hb e = ground arith
cut_eq sep (x ∷ a) (y ∷ b) s t ha hb e = ground (arith, cut_eq sep a b s t)

nil-ne-append : (a : Text) (c : ℕ) (s : Text) → [] ≢ a ++ c ∷ s
nil-ne-append [] c s e = cc
nil-ne-append (x ∷ a) c s e = cc

abbrev pub IsPlainLabels : Labels → Type 0
IsPlainLabels labels = All (λ l. IsPlain l.0 × IsPlain l.1) labels

no_one : (s : Text) → IsPlain s → All (λ c. c ≢ 1) s
no_one [] h = tt
no_one (c ∷ s) (e, h) = (e.0, no_one s h)

no_two : (s : Text) → IsPlain s → All (λ c. c ≢ 2) s
no_two [] h = tt
no_two (c ∷ s) (e, h) = (e.1, no_two s h)

-- Label sets whose names and values hold neither separator have the same key only if they are equal.
pub series_key-injective :
    (l m : Labels) → IsPlainLabels l → IsPlainLabels m → series_key l ≡ series_key m → l ≡ m
unfolding series_key
series_key-injective [] [] hl hm e = refl
series_key-injective [] ((j, w) ∷ m) hl hm e = absurd (nil-ne-append j _ _ e)
series_key-injective ((k, v) ∷ l) [] hl hm e = absurd (nil-ne-append k _ _ (sym e))
series_key-injective ((k, v) ∷ l) ((j, w) ∷ m) ((hk, hv), hl) ((hj, hw), hm) e =
    let (same_name, e1) = cut_eq 1 k j _ _ (no_one k hk) (no_one j hj) e in
    let (same_value, e2) = cut_eq 2 v w _ _ (no_two v hv) (no_two w hw) e1 in
    cc (same_name, same_value, series_key-injective l m hl hm e2)

-- Different label sets without separators have different keys.
pub series_key-ne :
    (l m : Labels)
    → IsPlainLabels l
    → IsPlainLabels m
    → l ≢ m
    → text_eq (series_key l) (series_key m) ≡ false
series_key-ne l m hl hm ne = elim (Bool-cases (text_eq (series_key l) (series_key m))) [
  | inl same ↦ absurd (ne (series_key-injective l m hl hm ((text_eq_iff _ _).0 same)))
  | inr other ↦ other
]

-- A value that holds both separators spells two labels.
series_key_collision :
    (a v b w : Text)
    → series_key ((a, v ++ (2 ∷ (b ++ (1 ∷ w)))) ∷ []) ≡ series_key ((a, v) ∷ (b, w) ∷ [])
unfolding series_key
series_key_collision a v b w =
    ap (λ (t : Text). a ++ (1 ∷ t))
      (append_assoc v (2 ∷ (b ++ (1 ∷ w))) (2 ∷ [])
        ∙ ap (λ (t : Text). v ++ (2 ∷ t)) (append_assoc b (1 ∷ w) (2 ∷ [])))

key_differs : (k v : Text) (c : ℕ) → series_key ((k, v ++ c ∷ []) ∷ []) ≢ series_key ((k, v) ∷ [])
unfolding series_key
key_differs k v c e = omega (
  arith,
  ap (λ (t : Text). length t) e,
  length-append k (1 ∷ ((v ++ c ∷ []) ++ 2 ∷ [])),
  length-append (v ++ c ∷ []) (2 ∷ []),
  length-append v (c ∷ []),
  length-append k (1 ∷ (v ++ 2 ∷ [])),
  length-append v (2 ∷ []),
)

module _ {F64 : Type 0} (float : Float F64) (name help : Text) (kind : MetricKind) where
  abbrev pub labelled : Labels → MetricValue F64 → MetricSample F64
  labelled labels value = record {
    name = name;
    help = help;
    kind = kind;
    labels = labels;
    value = value;
  }

  abbrev pub one_group : Labels → MetricValue F64 → GroupEntry F64
  one_group l x = record {
    help = help;
    kind = kind;
    seen = series_key l ∷ [];
    observations = (l, x) ∷ [];
  }

  group_pair :
      (l m : Labels) (x y : MetricValue F64)
      → group_samples [] (labelled l x ∷ labelled m y ∷ [])
        ≡ (name, add_observation (labelled m y) (one_group l x)) ∷ []
  unfolding group_samples upsert add_observation
  group_pair l m x y = rw (text_cmp_refl name, upsert)

  -- The guard keeps one of two samples with the same key, and both of two with different keys.
  encode_pair_same :
      (l m : Labels) (x y : MetricValue F64)
      → series_key m ≡ series_key l
      → encode_samples float (labelled l x ∷ labelled m y ∷ [])
        ≡ encode_samples float (labelled l x ∷ [])
  unfolding encode_samples
  encode_pair_same l m x y e =
      ap (λ (g : Groups F64). write_groups float g) (group_pair l m x y)
      ∙ unfold add_observation upsert group_samples in
        rw ((text_eq_iff (series_key m) (series_key l)).1 e)

  encode_pair_ne :
      (l m : Labels) (x y : MetricValue F64)
      → series_key m ≢ series_key l
      → encode_samples float (labelled l x ∷ labelled m y ∷ [])
        ≡ write_header float name (one_group l x)
          ++ (write_sample_line float name l x ++ write_sample_line float name m y)
  unfolding encode_samples
  encode_pair_ne l m x y ne = elim (Bool-cases (text_eq (series_key m) (series_key l))) [
    | inl same ↦ absurd (ne ((text_eq_iff _ _).0 same))
    | inr other ↦
        ap (λ (g : Groups F64). write_groups float g) (group_pair l m x y)
        ∙ unfold add_observation write_groups write_observations in rw other (simp append-nil)
  ]

  -- A sample is dropped although no sample with its labels was seen: the key of the labels
  -- `a = v, b = w` is that of one label `a` whose value spells both separators.
  pub encode_samples-collision :
      (a v b w : Text) (x y : MetricValue F64)
      → let l : Labels = (a, v ++ (2 ∷ (b ++ (1 ∷ w)))) ∷ [] in
        let m : Labels = (a, v) ∷ (b, w) ∷ [] in
        (l ≢ m)
        × (encode_samples float (labelled l x ∷ labelled m y ∷ [])
            ≡ encode_samples float (labelled l x ∷ []))
  encode_samples-collision a v b w x y =
      (λ e. cc e, encode_pair_same _ _ x y (sym (series_key_collision a v b w)))

  escape_append_control :
      (v : Text) (c : ℕ)
      → c < 0x20
      → c ≢ b'\n'
      → escape_label_value (v ++ c ∷ []) ≡ escape_label_value v
  unfolding escape_label_value
  escape_append_control [] c h ne = ground arith
  escape_append_control (d ∷ v) c h ne =
      ap (λ (t : Text). escape_char d ++ t) (escape_append_control v c h ne)

  -- The body repeats a series, which the guard is there to prevent: two values that differ by a
  -- control character at the end, other than a newline, have different keys and one printed form.
  pub encode_samples-repeats :
      (k v : Text) (c : ℕ) (x y : MetricValue F64)
      → c < 0x20
      → c ≢ b'\n'
      → let l : Labels = (k, v) ∷ [] in
        let line : MetricValue F64 → Text =
          λ z. name ++ (write_braces l ++ (codes " " ++ (write_value float z ++ newline))) in
        encode_samples float (labelled l x ∷ labelled ((k, v ++ c ∷ []) ∷ []) y ∷ [])
        ≡ write_header float name (one_group l x) ++ (line x ++ line y)
  encode_samples-repeats k v c x y h ne =
      encode_pair_ne ((k, v) ∷ []) ((k, v ++ c ∷ []) ∷ []) x y (key_differs k v c)
      ∙ unfold write_sample_line write_braces write_labels in rw (escape_append_control v c h ne)
