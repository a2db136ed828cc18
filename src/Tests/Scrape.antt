-- ===== src/Tests/Scrape.antt =====
-- Inputs for the theorems about crates/netlink_exporter/src/scrape.rs.
use netlink_exporter.Base.{
  ℕ, ◌%◌, ◌^◌, ◌≡◌, refl, List, [], ◌∷◌, ◌++◌, map, Option, some, Bool, true, suc,
}
use netlink_exporter.Base.Text.{Text, codes}
use netlink_exporter.Metric.{MetricSample, gauge_sample}
use netlink_exporter.Scrape.{
  Collector, ScrapeService, collected, in_time, elapsed, exporter_samples, load_error, new, scrape,
  telemetry,
}
use netlink_exporter.Scrape.Errors.{scrapes, total_failures, load_error-scrapes}
use netlink_exporter.Scrape.Samples.{contributions, report, scrape-samples}

abbrev fast : Collector ℕ
fast = record {
  name = codes "fast";
  run = in_time (collected (gauge_sample (codes "m") (codes "M.") [] 5 ∷ []));
  seconds = 1;
}

abbrev hung : Collector ℕ
hung = record { name = codes "hung"; run = elapsed; seconds = 2 }

abbrev absent : Collector ℕ
absent = record { name = codes "absent"; run = elapsed; seconds = 9 }

abbrev availability : List (Text × Bool)
availability = (codes "fast", true) ∷ (codes "hung", true) ∷ []

abbrev collectors : List (Collector ℕ)
collectors = fast ∷ absent ∷ hung ∷ []

abbrev service : ScrapeService
service = new collectors 50 availability

-- A registry that counts its updates and always fails.
abbrev count_updates : ℕ → List (MetricSample ℕ) → ℕ × Option Text
count_updates n samples = (suc n, some [])

scrape-samples_example :
    (scrape 0 1 (codes "1.0") count_updates collectors service 0).1
    ≡ contributions service collectors
      ++ (exporter_samples 0 1 (codes "1.0")
          ++ telemetry 0 1
              (codes "1.0")
              service
              (scrape 0 1 (codes "1.0") count_updates collectors service 0).0.0.stats
              (map (report 0 service) collectors))
scrape-samples_example = scrape-samples 0 1 (codes "1.0") count_updates collectors service 0

load_error-scrapes_example :
    load_error
      (codes "hung")
      (scrapes 0 1 (codes "1.0") count_updates (collectors ∷ collectors ∷ []) service 0).0.stats
    ≡ total_failures (codes "hung") availability (collectors ∷ collectors ∷ []) % 2 ^ 64
load_error-scrapes_example =
    load_error-scrapes 0 1 (codes "1.0") count_updates collectors 50 availability
      (collectors ∷ collectors ∷ []) 0 (codes "hung") refl
