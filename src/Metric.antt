-- ===== src/Metric.antt =====
-- crates/nlx-domain/src/metric.rs: the samples that collectors hand to the registry. `f64` is a
-- parameter: the type of the values, and in `Registry` what the encoder asks of one.
use netlink_exporter.Base.{ℕ, List}
use netlink_exporter.Base.Text.{Text}

pub data MetricKind : Type 0 where
  counter gauge histogram : MetricKind

pub data MetricValue (F64 : Type 0) : Type 0 where
  u64 : ℕ → MetricValue F64
  f64 : F64 → MetricValue F64

-- `BTreeMap<String, String>`
abbrev pub Labels : Type 0
Labels = List (Text × Text)

pub record MetricSample (F64 : Type 0) : Type 0 where
  pub name : Text
  pub help : Text
  pub kind : MetricKind
  pub labels : Labels
  pub value : MetricValue F64

module _ {F64 : Type 0} where
  -- `MetricSample::counter` and `MetricSample::gauge`
  abbrev pub counter_sample : Text → Text → Labels → ℕ → MetricSample F64
  counter_sample name help labels value = record {
    name = name;
    help = help;
    kind = counter;
    labels = labels;
    value = u64 value;
  }

  abbrev pub gauge_sample : Text → Text → Labels → F64 → MetricSample F64
  gauge_sample name help labels value = record {
    name = name;
    help = help;
    kind = gauge;
    labels = labels;
    value = f64 value;
  }
