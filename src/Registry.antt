-- ===== src/Registry.antt =====
-- crates/nlx-metrics/src/registry.rs: from samples to the exposition text.
-- Writing to a `String` never fails, so `encode_samples` and the functions below it return their text.
pub mod Escape
pub mod Groups
pub mod Dedup
pub mod Key
pub mod Distinct
use netlink_exporter.Base.{
  ℕ, ◌+◌, Bool, true, false, ◌&&◌, ◌||◌, List, [], ◌∷◌, ◌++◌, Option, ltb, ◌==◌, if◌then◌else◌, map,
}
use netlink_exporter.Base.Map.{upsert}
use netlink_exporter.Base.Order.{text_eq, text_ord}
use netlink_exporter.Base.Text.{Text, codes, decimal}
use netlink_exporter.Metric.{
  MetricKind, counter, gauge, histogram, MetricValue, u64, f64, Labels, MetricSample,
}

-- What the encoder asks of an `f64`; `display` is its `Display` form.
pub record Float (F64 : Type 0) : Type 0 where
  pub is_nan : F64 → Bool
  pub is_infinite : F64 → Bool
  pub is_sign_positive : F64 → Bool
  pub display : F64 → Text

-- The key of a label set: `k \u{1} v \u{2}` for each label.
unfoldable pub series_key : Labels → Text
series_key [] = []
series_key ((k, v) ∷ labels) = k ++ (1 ∷ (v ++ (2 ∷ series_key labels)))

unfoldable pub kind_str : MetricKind → Text
kind_str counter = codes "counter"
kind_str gauge = codes "gauge"
kind_str histogram = codes "histogram"

-- What `escape_help` appends for one character.
abbrev pub escape_help_char : ℕ → Text
escape_help_char c = if c == b'\\' then codes "\\\\" else if c == b'\n' then codes "\\n" else c ∷ []

unfoldable pub escape_help : Text → Text
escape_help [] = []
escape_help (c ∷ s) = escape_help_char c ++ escape_help s

-- What `escape_label_value` appends for one character; control characters are left out.
abbrev pub escape_char : ℕ → Text
escape_char c =
    if c == b'\\'
    then codes "\\\\"
    else if c == b'"'
    then codes "\\\""
    else if c == b'\n'
    then codes "\\n"
    else if ltb c 0x20
    then []
    else c ∷ []

unfoldable pub escape_label_value : Text → Text
escape_label_value [] = []
escape_label_value (c ∷ s) = escape_char c ++ escape_label_value s

abbrev pub newline : Text
newline = b'\n' ∷ []

-- The loop over the labels inside the braces; `first` is the source's flag.
unfoldable pub write_labels : Bool → Labels → Text
write_labels first [] = []
write_labels first ((k, v) ∷ labels) =
    (if first then [] else codes ",")
    ++ (k ++ (codes "=\"" ++ (escape_label_value v ++ (codes "\"" ++ write_labels false labels))))

-- `{…}`, or nothing for no labels.
unfoldable pub write_braces : Labels → Text
write_braces [] = []
write_braces (l ∷ labels) = codes "{" ++ (write_labels true (l ∷ labels) ++ codes "}")

-- A group while it is built: its header, the keys seen, and what is to be written.
pub record GroupEntry (F64 : Type 0) : Type 0 where
  pub help : Text
  pub kind : MetricKind
  pub seen : List Text
  pub observations : List (Labels × MetricValue F64)

abbrev pub contains : Text → List Text → Bool
contains key [] = false
contains key (k ∷ seen) = text_eq key k || contains key seen

abbrev pub contains_pair : Text → Text → List (Text × Text) → Bool
contains_pair name key [] = false
contains_pair name key ((n, k) ∷ seen) =
    (text_eq name n && text_eq key k) || contains_pair name key seen

abbrev pub Groups : Type 0 → Type 0
Groups F64 = List (Text × GroupEntry F64)

module _ {F64 : Type 0} where
  abbrev pub new_group : MetricSample F64 → GroupEntry F64
  new_group s = record { help = s.help; kind = s.kind; seen = []; observations = [] }

  -- The dedup guard: an observation is kept if its key is new.
  unfoldable pub add_observation : MetricSample F64 → GroupEntry F64 → GroupEntry F64
  add_observation s g = if contains (series_key s.labels) g.seen then g else record g {
    seen = series_key s.labels ∷ g.seen;
    observations = g.observations ++ (s.labels, s.value) ∷ [];
  }

  -- The loop over the samples.
  unfoldable pub group_samples : Groups F64 → List (MetricSample F64) → Groups F64
  group_samples groups [] = groups
  group_samples groups (s ∷ samples) =
      group_samples (upsert s.name (new_group s) (add_observation s) groups) samples

  -- `duplicate_series`: the names, in ascending order, with a repeated key. `seen` holds the pairs
  -- of a name and a key, `dups` is the set of names.
  unfoldable pub duplicates_from :
      List (Text × Text) → List (Text × Unit {0}) → List (MetricSample F64) → List (Text × Unit {0})
  duplicates_from seen dups [] = dups
  duplicates_from seen dups (s ∷ samples) =
      let key = series_key s.labels in
      elim (contains_pair s.name key seen) [
        | true ↦ duplicates_from seen (upsert s.name tt (λ u. u) dups) samples
        | false ↦ duplicates_from ((s.name, key) ∷ seen) dups samples
      ]

  unfoldable pub duplicate_series : List (MetricSample F64) → List Text
  unfolding duplicates_from
  duplicate_series samples = map (λ e. e.0) (duplicates_from [] [] samples)

module _ {F64 : Type 0} (float : Float F64) where
  unfoldable pub write_f64 : F64 → Text
  write_f64 v =
      if float.is_nan v
      then codes "NaN"
      else if float.is_infinite v
      then (if float.is_sign_positive v then codes "+Inf" else codes "-Inf")
      else float.display v

  unfoldable pub write_value : MetricValue F64 → Text
  unfolding write_f64
  write_value (u64 n) = decimal n
  write_value (f64 v) = write_f64 v

  unfoldable pub write_sample_line : Text → Labels → MetricValue F64 → Text
  write_sample_line name labels value =
      name ++ (write_braces labels ++ (codes " " ++ (write_value value ++ newline)))

  unfoldable pub write_observations : Text → List (Labels × MetricValue F64) → Text
  write_observations name [] = []
  write_observations name ((labels, value) ∷ rest) =
      write_sample_line name labels value ++ write_observations name rest

  abbrev pub write_header : Text → GroupEntry F64 → Text
  write_header name g =
      codes "# HELP "
      ++ (name
          ++ (codes " "
              ++ (escape_help g.help
                  ++ (newline
                      ++ (codes "# TYPE "
                          ++ (name ++ (codes " " ++ (kind_str g.kind ++ newline))))))))

  unfoldable pub write_groups : List (Text × GroupEntry F64) → Text
  write_groups [] = []
  write_groups ((name, g) ∷ groups) =
      write_header name g ++ (write_observations name g.observations ++ write_groups groups)

  unfoldable pub encode_samples : List (MetricSample F64) → Text
  encode_samples samples = write_groups (group_samples [] samples)

  -- The adapter's state is the encoded body. `update_samples` replaces it, and logs the duplicates.
  unfoldable pub update_samples : Text → List (MetricSample F64) → Text × List Text
  update_samples encoded samples = (encode_samples samples, duplicate_series samples)
