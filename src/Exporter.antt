-- ===== src/Exporter.antt =====
-- crates/netlink_exporter/src/main.rs: the start-up and the ports that it fills.
pub mod Requests
use netlink_exporter.Base.{ℕ, suc, ◌+◌, Bool, true, false, List, [], ◌∷◌, Option, none, some}
use netlink_exporter.Base.Map.{insert}
use netlink_exporter.Base.Order.{text_ord}
use netlink_exporter.Base.Text.{Text}
use netlink_exporter.Http.{Ports}
use netlink_exporter.Metric.{MetricSample}
use netlink_exporter.Registry.{Float, update_samples}
use netlink_exporter.Scrape.{Collector, ScrapeService, new, scrape}
use netlink_exporter.Wire.{Bytes}

-- The start-up probes: a collector's name and what `probe_available()` gives.
unfoldable pub probe_all : List (Text × Bool) → List (Text × Bool) → List (Text × Bool)
probe_all availability [] = availability
probe_all availability ((name, available) ∷ probes) =
    probe_all (insert name available availability) probes

-- The state that requests share. `round` counts the scrapes.
pub record Exporter : Type 0 where
  pub service : ScrapeService
  pub encoded : Text
  pub ready : Bool
  pub round : ℕ

module _ {F64 : Type 0} (zero_f64 one_f64 : F64) (version : Text) (float : Float F64)
    (utf8 : Text → Bytes) (collectors : ℕ → List (Collector F64)) where
  -- `run` up to `serve`: the probes, the empty registry, the service, and `set_ready`.
  unfoldable pub start : List (Text × Bool) → ℕ → Exporter
  unfolding probe_all
  start probes scrape_timeout_ms = record {
    service = new (collectors 0) scrape_timeout_ms (probe_all [] probes);
    encoded = [];
    ready = true;
    round = 0;
  }

  -- `ScrapeService::scrape` over the text registry.
  unfoldable pub run_scrape : Exporter → Exporter × List (MetricSample F64)
  run_scrape e =
      let r =
        scrape zero_f64 one_f64 version
          (λ encoded samples. ((update_samples float encoded samples).0, none)) (collectors e.round)
          e.service e.encoded in
      (record e { service = r.0.0; encoded = r.0.1; round = suc e.round }, r.1)

  -- `HealthService` is always healthy; `encode_text` gives the stored body.
  unfoldable pub exporter_ports : Ports Exporter
  unfolding run_scrape
  exporter_ports = record {
    scrape = λ e. ((run_scrape e).0, true);
    encode_text = λ e. some (utf8 e.encoded);
    is_healthy = λ e. true;
    is_ready = λ e. e.ready;
  }
