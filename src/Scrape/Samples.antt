-- ===== src/Scrape/Samples.antt =====
-- The samples that `scrape` of crates/netlink_exporter/src/scrape.rs returns.
use netlink_exporter.Base.{
  ◌≡◌, refl, sym, ap, ◌∙◌, Bool, true, false, List, [], ◌∷◌, ◌++◌, map, append_assoc, append-nil,
  Option, arith,
}
use netlink_exporter.Base.Text.{Text}
use netlink_exporter.Metric.{MetricSample}
use netlink_exporter.Scrape.{
  Collector, CollectorResult, ScrapeService, Timed, in_time, elapsed, collected, failed, Progress,
  collect_one, collect_all, outcome, is_available, exporter_samples, telemetry, scrape,
}

module _ {F64 : Type 0} where
  -- What one collector adds: its samples, if it is available and succeeds in time.
  abbrev pub timed_samples : Timed F64 → List (MetricSample F64)
  timed_samples (in_time (collected samples)) = samples
  timed_samples (in_time (failed e)) = []
  timed_samples elapsed = []

  abbrev pub timed_success : Timed F64 → Bool
  timed_success (in_time (collected samples)) = true
  timed_success (in_time (failed e)) = false
  timed_success elapsed = false

  abbrev pub contribution : ScrapeService → Collector F64 → List (MetricSample F64)
  contribution service c =
      elim (is_available c.name service.availability) as (λ b. List (MetricSample F64)) [
        | true ↦ timed_samples c.run
        | false ↦ []
      ]

  abbrev pub contributions : ScrapeService → List (Collector F64) → List (MetricSample F64)
  contributions service [] = []
  contributions service (c ∷ cs) = contribution service c ++ contributions service cs

module _ {F64 : Type 0} (zero_f64 : F64) where
  abbrev pub report : ScrapeService → Collector F64 → CollectorResult F64
  report service c = elim (is_available c.name service.availability) as (λ b. CollectorResult F64) [
    | true ↦ record { name = c.name; success = timed_success c.run; duration_secs = c.seconds }
    | false ↦ record { name = c.name; success = true; duration_secs = zero_f64 }
  ]

  collect_one-all :
      (service : ScrapeService) (c : Collector F64) (p : Progress F64)
      → ((collect_one zero_f64 service c p).all ≡ p.all ++ contribution service c)
        × ((collect_one zero_f64 service c p).results ≡ p.results ++ report service c ∷ [])
  unfolding collect_one outcome
  collect_one-all service c p = ground (arith, append-nil p.all)

  collect_all-all :
      (service : ScrapeService) (cs : List (Collector F64)) (p : Progress F64)
      → ((collect_all zero_f64 service cs p).all ≡ p.all ++ contributions service cs)
        × ((collect_all zero_f64 service cs p).results ≡ p.results ++ map (report service) cs)
  unfolding collect_all
  collect_all-all service [] p = (sym (append-nil p.all), sym (append-nil p.results))
  collect_all-all service (c ∷ cs) p =
      let (here_all, here_results) = collect_one-all service c p in
      let (later_all, later_results) =
        collect_all-all service cs (collect_one zero_f64 service c p) in
      (
        later_all
            ∙ ap (λ (s : List (MetricSample F64)). s ++ contributions service cs) here_all
            ∙ append_assoc p.all (contribution service c) (contributions service cs),
        later_results
            ∙ ap (λ (s : List (CollectorResult F64)). s ++ map (report service) cs) here_results
            ∙ append_assoc p.results (report service c ∷ []) (map (report service) cs),
      )

module _ {F64 : Type 0} (zero_f64 one_f64 : F64) (version : Text) where
  -- A scrape returns the samples of each available collector that succeeded in time, in the order of
  -- the collectors, whatever the others and the registry did, then `nft_up` and `nft_build_info`,
  -- then the four samples of every collector, with the error counters as they stand after the scrape.
  pub scrape-samples :
      {M : Type 0} (update_samples : M → List (MetricSample F64) → M × Option Text)
      (collectors : List (Collector F64)) (service : ScrapeService) (registry : M)
      → (scrape zero_f64 one_f64 version update_samples collectors service registry).1
        ≡ contributions service collectors
          ++ (exporter_samples zero_f64 one_f64 version
              ++ telemetry zero_f64 one_f64 version service
                  (scrape zero_f64 one_f64 version update_samples collectors service
                    registry).0.0.stats
                  (map (report zero_f64 service) collectors))
  unfolding scrape
  scrape-samples update_samples collectors service registry =
      let (all, results) =
        collect_all-all zero_f64 service collectors
          (record { stats = service.stats; all = []; results = [] }) in
      rw (all, results) refl
