-- ===== src/Scrape.antt =====
-- crates/netlink_exporter/src/scrape.rs and crates/nlx-ports/src/error.rs: one scrape over all
-- collectors. What a collector's `collect()` under `timeout` gives in a scrape, and the time that it
-- takes, belong to the collector; the metrics registry is a parameter, as is the build's version.
pub mod Samples
pub mod Errors
use netlink_exporter.Base.{
  ℕ, ◌+◌, ◌%◌, ◌^◌, Bool, true, false, List, [], ◌∷◌, ◌++◌, Option, none, some, if◌then◌else◌,
}
use mathlib.Core.Option
use netlink_exporter.Base.Map.{lookup, insert}
use netlink_exporter.Base.Order.{text_ord}
use netlink_exporter.Base.Text.{Text, codes}
use netlink_exporter.Metric.{Labels, MetricSample, counter_sample, gauge_sample}

pub data CollectError : Type 0 where
  unavailable : Text → CollectError
  dump_intr recv_buf_overflow : CollectError
  parse : Text → CollectError
  timeout : ℕ → CollectError
  io : Text → CollectError

-- `Result<Vec<MetricSample>, CollectError>`
pub data Outcome (F64 : Type 0) : Type 0 where
  collected : List (MetricSample F64) → Outcome F64
  failed : CollectError → Outcome F64

-- What `timeout(…, collector.collect())` gives.
pub data Timed (F64 : Type 0) : Type 0 where
  in_time : Outcome F64 → Timed F64
  elapsed : Timed F64

-- A collector during one scrape.
pub record Collector (F64 : Type 0) : Type 0 where
  pub name : Text
  pub run : Timed F64
  pub seconds : F64

pub record CollectorResult (F64 : Type 0) : Type 0 where
  pub name : Text
  pub success : Bool
  pub duration_secs : F64

-- The error counters, `AtomicU64` each.
abbrev pub Stats : Type 0
Stats = List (Text × ℕ)

pub record ScrapeService : Type 0 where
  pub availability : List (Text × Bool)
  pub scrape_timeout_ms : ℕ
  pub stats : Stats

-- `stats.get(name)` and `increment_error` there.
unfoldable pub increment_error : Text → Stats → Stats
increment_error name stats = elim (lookup name stats) as (λ o. Stats) [
  | none ↦ stats
  | some n ↦ insert name ((n + 1) % 2 ^ 64) stats
]

unfoldable pub load_error : Text → Stats → ℕ
load_error name stats = Option.get_or (lookup name stats) 0

unfoldable pub is_available : Text → List (Text × Bool) → Bool
is_available name availability = Option.get_or (lookup name availability) false

-- The local variables of the loop, and the counters.
pub record Progress (F64 : Type 0) : Type 0 where
  pub stats : Stats
  pub all : List (MetricSample F64)
  pub results : List (CollectorResult F64)

module _ {F64 : Type 0} where
  unfoldable pub new_stats : Stats → List (Collector F64) → Stats
  new_stats stats [] = stats
  new_stats stats (c ∷ collectors) = new_stats (insert c.name 0 stats) collectors

  unfoldable pub new : List (Collector F64) → ℕ → List (Text × Bool) → ScrapeService
  new collectors scrape_timeout_ms availability = record {
    availability = availability;
    scrape_timeout_ms = scrape_timeout_ms;
    stats = new_stats [] collectors;
  }

  -- The flattening of the two layers of errors.
  unfoldable pub outcome : ℕ → Timed F64 → Outcome F64
  outcome ms (in_time inner) = inner
  outcome ms elapsed = failed (timeout ms)

module _ {F64 : Type 0} (zero_f64 : F64) where
  -- The body of the loop over the collectors.
  unfoldable pub collect_one : ScrapeService → Collector F64 → Progress F64 → Progress F64
  unfolding is_available outcome
  collect_one service c p = elim (is_available c.name service.availability) as (λ b. Progress F64) [
    | false ↦ record p {
      results =
          p.results ++ record { name = c.name; success = true; duration_secs = zero_f64 } ∷ [];
    }
    | true ↦ elim (outcome service.scrape_timeout_ms c.run) as (λ o. Progress F64) [
      | collected samples ↦ record p {
        all = p.all ++ samples;
        results =
            p.results ++ record { name = c.name; success = true; duration_secs = c.seconds } ∷ [];
      }
      | failed e ↦ record {
        stats = increment_error c.name p.stats;
        all = p.all;
        results =
            p.results ++ record { name = c.name; success = false; duration_secs = c.seconds } ∷ [];
      }
    ]
  ]

  unfoldable pub collect_all : ScrapeService → List (Collector F64) → Progress F64 → Progress F64
  collect_all service [] p = p
  collect_all service (c ∷ collectors) p = collect_all service collectors (collect_one service c p)

module _ {F64 : Type 0} (zero_f64 one_f64 : F64) (version : Text) where
  abbrev pub flag : Bool → F64
  flag b = if b then one_f64 else zero_f64

  -- `nft_up` and `nft_build_info`.
  abbrev pub exporter_samples : List (MetricSample F64)
  exporter_samples =
      gauge_sample (codes "nft_up") (codes "Exporter liveness: 1 if the exporter is up.") [] one_f64
      ∷ gauge_sample (codes "nft_build_info")
          (codes "A metric with value 1 exposing build information.")
          (insert (codes "version") version []) one_f64
      ∷ []

  -- The four samples of one collector.
  unfoldable pub collector_samples :
      ScrapeService → Stats → CollectorResult F64 → List (MetricSample F64)
  unfolding is_available load_error
  collector_samples service stats cr =
      let labels : Labels = insert (codes "collector") cr.name [] in
      let l : Labels = insert (codes "collector") cr.name labels in
      gauge_sample (codes "nft_scrape_collector_available")
        (codes "1 if the collector's kernel subsystem was available at startup.") l
        (flag (is_available cr.name service.availability))
      ∷ gauge_sample (codes "nft_scrape_collector_success")
          (codes "1 if the last scrape of this collector succeeded.") l (flag cr.success)
      ∷ gauge_sample (codes "nft_scrape_collector_duration_seconds")
          (codes "Duration of the last scrape cycle for this collector in seconds.") l
          cr.duration_secs
      ∷ counter_sample (codes "nft_scrape_collector_error_total")
          (codes "Total number of scrape errors for this collector since process start.") labels
          (load_error cr.name stats)
      ∷ []

  unfoldable pub telemetry :
      ScrapeService → Stats → List (CollectorResult F64) → List (MetricSample F64)
  telemetry service stats [] = []
  telemetry service stats (cr ∷ results) =
      collector_samples service stats cr ++ telemetry service stats results

  -- `scrape`: the service and the registry after it, and the samples that it returns, always `Ok`.
  -- An error of the registry is logged only.
  unfoldable pub scrape :
      {M : Type 0}
      → (M → List (MetricSample F64) → M × Option Text)
      → List (Collector F64)
      → ScrapeService
      → M
      → (ScrapeService × M) × List (MetricSample F64)
  scrape update_samples collectors service registry =
      let p : Progress F64 =
        collect_all zero_f64 service collectors
          (record { stats = service.stats; all = []; results = [] }) in
      let all : List (MetricSample F64) =
        p.all ++ (exporter_samples ++ telemetry service p.stats p.results) in
      ((record service { stats = p.stats }, (update_samples registry all).0), all)
