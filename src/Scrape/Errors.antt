-- ===== src/Scrape/Errors.antt =====
-- The error counters and the availability guard of `scrape` of crates/netlink_exporter/src/scrape.rs.
use netlink_exporter.Base.{
  ℕ, ◌+◌, ◌%◌, ◌^◌, ◌<◌, ◌&&◌, ◌||◌, if◌then◌else◌, ◌≡◌, refl, sym, ap, ◌∙◌, inl, inr, ◌⊎◌, Bool,
  true, false, List, [], ◌∷◌, ◌++◌, Option, some, Bool-cases, Option-cases, arith,
}
use mathlib.Core.Option
use netlink_exporter.Base.Map.{lookup, insert, upsert, lookup-upsert_self, lookup-upsert_ne}
use netlink_exporter.Base.Order.{text_eq, text_eq_iff, text_ord}
use netlink_exporter.Base.Text.{Text}
use netlink_exporter.Metric.{MetricSample}
use netlink_exporter.Scrape.{
  Collector, Timed, in_time, elapsed, ScrapeService, Stats, collected, failed, Progress,
  collect_one, collect_all, outcome, is_available, increment_error, load_error, new_stats, new,
  scrape,
}

module _ {F64 : Type 0} where
  -- A run that fails or does not end within the timeout.
  abbrev pub fails : Timed F64 → Bool
  fails (in_time (collected samples)) = false
  fails (in_time (failed e)) = true
  fails elapsed = true

  -- The collector is available, and its run fails.
  abbrev pub is_failure : List (Text × Bool) → Collector F64 → Bool
  is_failure availability c = is_available c.name availability && fails c.run

  -- The failures under a name in one scrape.
  abbrev pub failures : Text → List (Text × Bool) → List (Collector F64) → ℕ
  failures name availability [] = 0
  failures name availability (c ∷ cs) =
      (if is_failure availability c && text_eq c.name name then 1 else 0)
      + failures name availability cs

  -- Names are those of the collectors.
  abbrev pub is_named : Text → List (Collector F64) → Bool
  is_named name [] = false
  is_named name (c ∷ cs) = text_eq c.name name || is_named name cs

increment_error_self :
    (k : Text) (stats : Stats) (v : ℕ)
    → lookup k stats ≡ some v
    → lookup k (increment_error k stats) ≡ some ((v + 1) % 2 ^ 64)
unfolding insert increment_error
increment_error_self k stats v h =
    rw (h, increment_error) (lookup-upsert_self k ((v + 1) % 2 ^ 64) (λ _. (v + 1) % 2 ^ 64) stats)

increment_error_ne :
    (name k : Text) (stats : Stats)
    → (k ≡ name → ⊥)
    → lookup k (increment_error name stats) ≡ lookup k stats
unfolding insert increment_error
increment_error_ne name k stats ne = elim (Option-cases (lookup name stats)) [
  | inl e ↦ rw (e, increment_error) refl
  | inr (n, e) ↦
      rw (e, increment_error)
        (lookup-upsert_ne k name ((n + 1) % 2 ^ 64) (λ _. (n + 1) % 2 ^ 64) stats ne)
]

lookup-increment_error :
    (name k : Text) (stats : Stats) (v : ℕ)
    → v < 2 ^ 64
    → lookup k stats ≡ some v
    → lookup k (increment_error name stats)
      ≡ some ((v + (if text_eq name k then 1 else 0)) % 2 ^ 64)
lookup-increment_error name k stats v b h = elim (Bool-cases (text_eq name k)) [
  | inl same ↦
      let e : name ≡ k = (text_eq_iff name k).0 same in
      rw same
        (ap (λ (n : Text). lookup k (increment_error n stats)) e ∙ increment_error_self k stats v h)
  | inr other ↦ rw other (
      increment_error_ne name k stats (λ e. cc (other, (text_eq_iff name k).1 (sym e)))
      ∙ h
      ∙ ap some (omega arith))
]

lookup-collect_one :
    {F64 : Type 0} (zero_f64 : F64) (service : ScrapeService) (c : Collector F64) (p : Progress F64)
    (name : Text) (v : ℕ)
    → v < 2 ^ 64
    → lookup name p.stats ≡ some v
    → lookup name (collect_one zero_f64 service c p).stats
      ≡ some (
          (v + (if is_failure service.availability c && text_eq c.name name then 1 else 0))
          % 2 ^ 64)
unfolding collect_one outcome
lookup-collect_one zero_f64 service c p name v b h =
    ground (arith, lookup-increment_error c.name name p.stats v b h)

lookup-collect_all :
    {F64 : Type 0} (zero_f64 : F64) (service : ScrapeService) (cs : List (Collector F64))
    (p : Progress F64) (name : Text) (v : ℕ)
    → v < 2 ^ 64
    → lookup name p.stats ≡ some v
    → lookup name (collect_all zero_f64 service cs p).stats
      ≡ some ((v + failures name service.availability cs) % 2 ^ 64)
unfolding collect_all
lookup-collect_all zero_f64 service [] p name v b h = h ∙ ap some (omega arith)
lookup-collect_all zero_f64 service (c ∷ cs) p name v b h =
    lookup-collect_all zero_f64 service cs (collect_one zero_f64 service c p) name
      ((v + (if is_failure service.availability c && text_eq c.name name then 1 else 0)) % 2 ^ 64)
      (omega arith) (lookup-collect_one zero_f64 service c p name v b h)
    ∙ ap some (omega arith)

lookup-insert_zero :
    (name k : Text) (stats : Stats)
    → (lookup name stats ≡ some 0) ⊎ (text_eq k name ≡ true)
    → lookup name (insert k 0 stats) ≡ some 0
unfolding insert
lookup-insert_zero name k stats h = elim (Bool-cases (text_eq k name)) [
  | inl same ↦
      let e : k ≡ name = (text_eq_iff k name).0 same in
      ap (λ (n : Text). lookup n (upsert k 0 (λ _. 0) stats)) (sym e)
      ∙ lookup-upsert_self k 0 (λ _. 0) stats
  | inr other ↦ elim h [
    | inl there ↦
        lookup-upsert_ne name k 0 (λ _. 0) stats (λ e. cc (other, (text_eq_iff k name).1 (sym e)))
        ∙ there
    | inr same ↦ cc
  ]
]

new_stats-zero :
    {F64 : Type 0} (name : Text) (stats : Stats) (cs : List (Collector F64))
    → (lookup name stats ≡ some 0) ⊎ (is_named name cs ≡ true)
    → lookup name (new_stats stats cs) ≡ some 0
unfolding new_stats
new_stats-zero name stats [] (inl h) = h
new_stats-zero name stats [] (inr h) = cc
new_stats-zero name stats (c ∷ cs) (inl h) =
    new_stats-zero name (insert c.name 0 stats) cs
      (inl (lookup-insert_zero name c.name stats (inl h)))
new_stats-zero name stats (c ∷ cs) (inr h) = elim (Bool-cases (text_eq c.name name)) [
  | inl same ↦
      new_stats-zero name (insert c.name 0 stats) cs
        (inl (lookup-insert_zero name c.name stats (inr same)))
  | inr other ↦ new_stats-zero name (insert c.name 0 stats) cs (inr (cc (h, other)))
]

-- Scrapes one after the other, each with what its collectors do.
abbrev pub scrapes :
    {F64 M : Type 0} (zero_f64 one_f64 : F64) (version : Text)
    → (M → List (MetricSample F64) → M × Option Text)
    → List (List (Collector F64))
    → ScrapeService
    → M
    → ScrapeService × M
scrapes zero_f64 one_f64 version update_samples [] service registry = (service, registry)
scrapes zero_f64 one_f64 version update_samples (cs ∷ rest) service registry =
    let r = (scrape zero_f64 one_f64 version update_samples cs service registry).0 in
    scrapes zero_f64 one_f64 version update_samples rest r.0 r.1

abbrev pub total_failures :
    {F64 : Type 0} → Text → List (Text × Bool) → List (List (Collector F64)) → ℕ
total_failures name availability [] = 0
total_failures name availability (cs ∷ rest) =
    failures name availability cs + total_failures name availability rest

lookup-scrapes :
    {F64 M : Type 0} (zero_f64 one_f64 : F64) (version : Text)
    (update_samples : M → List (MetricSample F64) → M × Option Text)
    (rounds : List (List (Collector F64))) (service : ScrapeService) (registry : M) (name : Text)
    (v : ℕ)
    → v < 2 ^ 64
    → lookup name service.stats ≡ some v
    → lookup name (scrapes zero_f64 one_f64 version update_samples rounds service registry).0.stats
      ≡ some ((v + total_failures name service.availability rounds) % 2 ^ 64)
unfolding scrape
lookup-scrapes zero_f64 one_f64 version update_samples [] service registry name v b h =
    h ∙ ap some (omega arith)
lookup-scrapes zero_f64 one_f64 version update_samples (cs ∷ rest) service registry name v b h =
    let r = (scrape zero_f64 one_f64 version update_samples cs service registry).0 in
    lookup-scrapes zero_f64 one_f64 version update_samples rest r.0 r.1 name
      ((v + failures name service.availability cs) % 2 ^ 64) (omega arith)
      (lookup-collect_all zero_f64 service cs
        (record { stats = service.stats; all = []; results = [] }) name v b h)
    ∙ ap some (omega arith)

collect_all-unavailable :
    {F64 : Type 0} (zero_f64 : F64) (service : ScrapeService) (before after : List (Collector F64))
    (c d : Collector F64) (p : Progress F64)
    → c.name ≡ d.name
    → is_available c.name service.availability ≡ false
    → collect_all zero_f64 service (before ++ c ∷ after) p
      ≡ collect_all zero_f64 service (before ++ d ∷ after) p
unfolding collect_all collect_one
collect_all-unavailable zero_f64 service [] after c d p e off =
    ap (collect_all zero_f64 service after) (ground (arith, e, off))
collect_all-unavailable zero_f64 service (b ∷ before) after c d p e off =
    collect_all-unavailable zero_f64 service before after c d (collect_one zero_f64 service b p) e
      off

module _ {F64 : Type 0} (zero_f64 one_f64 : F64) (version : Text) where
  -- After any number of scrapes with a new service, the error counter of each of its collectors is
  -- the number of times that a collector of that name was available and failed or ran out of time,
  -- modulo 2 ^ 64, whatever the other collectors and the registry did.
  pub load_error-scrapes :
      {M : Type 0} (update_samples : M → List (MetricSample F64) → M × Option Text)
      (collectors : List (Collector F64)) (ms : ℕ) (availability : List (Text × Bool))
      (rounds : List (List (Collector F64))) (registry : M) (name : Text)
      → is_named name collectors ≡ true
      → load_error name
          (scrapes zero_f64 one_f64 version update_samples rounds
            (new collectors ms availability)
            registry).0.stats
        ≡ total_failures name availability rounds % 2 ^ 64
  unfolding load_error new
  load_error-scrapes update_samples collectors ms availability rounds registry name h =
      ap (λ (o : Option ℕ). Option.get_or o 0)
        (lookup-scrapes zero_f64 one_f64 version update_samples rounds
          (new collectors ms availability) registry name 0 (omega arith)
          (new_stats-zero name [] collectors (inr h)))
      ∙ omega arith

  -- A scrape does the same whatever a collector does whose name is not available: it is not run.
  pub scrape-unavailable :
      {M : Type 0} (update_samples : M → List (MetricSample F64) → M × Option Text)
      (before after : List (Collector F64)) (c d : Collector F64) (service : ScrapeService)
      (registry : M)
      → c.name ≡ d.name
      → is_available c.name service.availability ≡ false
      → scrape zero_f64 one_f64 version update_samples (before ++ c ∷ after) service registry
        ≡ scrape zero_f64 one_f64 version update_samples (before ++ d ∷ after) service registry
  unfolding scrape
  scrape-unavailable update_samples before after c d service registry e off =
      rw
        (collect_all-unavailable zero_f64 service before after c d
          (record { stats = service.stats; all = []; results = [] }) e off)
        refl
