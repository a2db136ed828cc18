-- ===== src/Ipvs/Numbers.antt =====
-- How many samples crates/nlx-netlink/src/collectors/ipvs.rs gives at most.
use netlink_exporter.Base.{
  ℕ, ◌+◌, ◌*◌, ◌≤◌, ◌≡◌, refl, inl, inr, List, [], ◌∷◌, ◌++◌, Option, none, some, length, take,
  length-append, length-take, flat_map, arith,
}
use netlink_exporter.Base.Text.{Text, codes}
use mathlib.Core.Path.{subst}
use netlink_exporter.Ipvs.{Addresses, IpvsService, IpvsDestination}
use netlink_exporter.Ipvs.Collect.{
  service_samples, dump_dests_for, collect_services, dump_services_with_sock, collect_family,
  outcome_of, with_family, collect, ipvs_max_dests, ipvs_max_services,
}
use netlink_exporter.Ipvs.Samples.{push_svc_metrics, push_dest_metrics, svc_labels}
use netlink_exporter.Metric.{MetricSample}
use netlink_exporter.Scrape.{Outcome, collected, failed}
use netlink_exporter.Transport.{Result, ok, err}
use netlink_exporter.Transport.Dump.{Ends, returns, waiting, Kernel, Socket}
use netlink_exporter.Transport.Genl.{resolve_genl_family}
use netlink_exporter.Transport.Retries.{Session, Step, and_then}
use netlink_exporter.Wire.{Bytes}

-- A step that ends well ends with at most `bound` samples.
abbrev AtMost : {F64 : Type 0} → ℕ → Step (List (MetricSample F64)) → Type 0
AtMost bound waiting = Unit
AtMost bound (returns (s, inl e)) = Unit
AtMost bound (returns (s, inr out)) = length out ≤ bound

and_then-AtMost :
    {F64 A : Type 0} (bound : ℕ) (step : Step A)
    (next : Session → A → Step (List (MetricSample F64)))
    → ((s : Session) (a : A) → AtMost bound (next s a))
    → AtMost bound (and_then step next)
and_then-AtMost bound waiting next h = tt
and_then-AtMost bound (returns (s', inl x)) next h = tt
and_then-AtMost bound (returns (s', inr a)) next h = h s' a

AtMost-le :
    {F64 : Type 0} (a b : ℕ) (step : Step (List (MetricSample F64)))
    → a ≤ b
    → AtMost a step
    → AtMost b step
AtMost-le a b waiting le h = tt
AtMost-le a b (returns (s, inl e)) le h = tt
AtMost-le a b (returns (s, inr out)) le h = omega (arith, le, h)

-- An outcome with samples has at most `bound`.
abbrev Bounded : {F64 : Type 0} → ℕ → Ends (Outcome F64) → Type 0
Bounded bound waiting = Unit
Bounded bound (returns (collected samples)) = length samples ≤ bound
Bounded bound (returns (failed e)) = Unit

outcome_of-Bounded :
    {F64 : Type 0} (bound : ℕ) (step : Step (List (MetricSample F64)))
    → AtMost bound step
    → Bounded bound (outcome_of step)
outcome_of-Bounded bound waiting h = tt
outcome_of-Bounded bound (returns (s, inl e)) h = tt
outcome_of-Bounded bound (returns (s, inr out)) h = h

with_family-Bounded :
    {F64 : Type 0} (bound : ℕ) (resolved : Ends (Result (Option ℕ) × ℕ))
    (next : ℕ → ℕ → Step (List (MetricSample F64)))
    → ((family_id counter : ℕ) → AtMost bound (next family_id counter))
    → Bounded bound (with_family resolved next)
with_family-Bounded bound waiting next h = tt
with_family-Bounded bound (returns (err e, counter)) next h = tt
with_family-Bounded bound (returns (ok none, counter)) next h = omega arith
with_family-Bounded bound (returns (ok (some family_id), counter)) next h =
    outcome_of-Bounded bound (next family_id counter) (h family_id counter)

module _ {F64 : Type 0} (of_u64 : ℕ → F64) where
  length-push_dest_metrics :
      (svc : IpvsService) (dests : List IpvsDestination)
      → length (flat_map (push_dest_metrics of_u64 svc) dests) ≡ 6 * length dests
  unfolding push_dest_metrics
  length-push_dest_metrics svc [] = refl
  length-push_dest_metrics svc (dest ∷ dests) = omega (arith, length-push_dest_metrics svc dests)

  length-push_svc_metrics :
      (svc : IpvsService) → length (push_svc_metrics of_u64 svc (svc_labels svc)) ≡ 10
  unfolding push_svc_metrics
  length-push_svc_metrics svc = refl

  length-service_samples :
      (svc : IpvsService) (dests : List IpvsDestination)
      → length (service_samples of_u64 svc dests) ≤ 10 + 6 * 256
  length-service_samples svc dests = omega (
    arith,
    length-append (push_svc_metrics of_u64 svc (svc_labels svc))
        (flat_map (push_dest_metrics of_u64 svc) (take ipvs_max_dests dests)),
    length-push_svc_metrics svc,
    length-push_dest_metrics svc (take ipvs_max_dests dests),
    length-take ipvs_max_dests dests,
  )

  module _ (os_error : ℕ → Text) (addresses : Addresses) where
    collect_services-AtMost :
        (family_id : ℕ) (services : List IpvsService) (s : Session) (out : List (MetricSample F64))
        → AtMost
            (length out + (10 + 6 * 256) * length services)
            (collect_services os_error addresses family_id of_u64 services s out)
    unfolding collect_services
    collect_services-AtMost family_id [] s out = omega arith
    collect_services-AtMost family_id (svc ∷ services) s out =
        and_then-AtMost _ (dump_dests_for os_error addresses family_id svc s) _ (λ s' dests.
          AtMost-le _ _ _
            (omega (
              arith,
              length-append out (service_samples of_u64 svc dests),
              length-service_samples svc dests,
            ))
            (collect_services-AtMost family_id services s'
              (out ++ service_samples of_u64 svc dests)))

    module _ (lossy : Bytes → Text) where
      collect_family-AtMost :
          (family_id : ℕ) (s : Session)
          → AtMost
              (512 * (10 + 6 * 256))
              (collect_family os_error addresses lossy of_u64 family_id s)
      unfolding collect_family
      collect_family-AtMost family_id s =
          and_then-AtMost _ (dump_services_with_sock os_error addresses family_id lossy s) _
            (λ s' services.
              AtMost-le _ _ _ (omega (arith, length-take ipvs_max_services services))
                (collect_services-AtMost family_id (take ipvs_max_services services) s' []))

      collect-Bounded :
          (opened : Result Socket) (k : Kernel) (counter : ℕ) (kernels : List Kernel)
          → Bounded
              (512 * (10 + 6 * 256))
              (collect os_error addresses lossy of_u64 opened k counter kernels)
      unfolding collect
      collect-Bounded (err e) k counter kernels = tt
      collect-Bounded (ok sock) k counter kernels =
          with_family-Bounded _ (resolve_genl_family os_error k counter (codes "IPVS")) _
            (λ family_id counter'.
              collect_family-AtMost family_id
                (record { sock = sock; counter = counter'; kernels = kernels }))

      -- A scrape gives at most 791552 samples, whatever the kernel reports: 512 services with 256
      -- destinations each, ten samples for a service and six for a destination.
      pub length-collect :
          (opened : Result Socket) (k : Kernel) (counter : ℕ) (kernels : List Kernel)
          {samples : List (MetricSample F64)}
          → collect os_error addresses lossy of_u64 opened k counter kernels
            ≡ returns (collected samples)
          → length samples ≤ 791552
      length-collect opened k counter kernels e =
          subst (Bounded 791552) e (collect-Bounded opened k counter kernels)
