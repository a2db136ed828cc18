-- ===== src/Ipvs/Collect.antt =====
-- The dumps and `collect` of crates/nlx-netlink/src/collectors/ipvs.rs. An error of a dump is its text.
use netlink_exporter.Base.{
  ℕ, List, [], ◌∷◌, ◌++◌, Option, none, some, inl, inr, ltb, ◌==◌, if◌then◌else◌, length, take,
  drop, filter_map, flat_map,
}
use netlink_exporter.Base.Text.{Text, codes}
use netlink_exporter.Ipvs.{
  Addresses, IpvsService, IpvsDestination, parse_service, parse_destination,
}
use netlink_exporter.Ipvs.Requests.{build_genl_payload, build_dest_request}
use netlink_exporter.Ipvs.Samples.{svc_labels, push_svc_metrics, push_dest_metrics}
use netlink_exporter.Metric.{MetricSample}
use netlink_exporter.Scrape.{Outcome, collected, failed, io}
use netlink_exporter.Transport.{Result, ok, err, dump_intr, error_text}
use netlink_exporter.Transport.Dump.{Ends, returns, waiting, Kernel, Socket}
use netlink_exporter.Transport.Genl.{resolve_genl_family}
use netlink_exporter.Transport.Retries.{Session, Step, and_then, dump_with_retries, dump_attempts}
use netlink_exporter.Wire.{Bytes, Nla, parse_attrs}

abbrev pub ipvs_max_services : ℕ
ipvs_max_services = 512

abbrev pub ipvs_max_dests : ℕ
ipvs_max_dests = 256

-- `DomainError::Collector` of a text, as text.
abbrev domain_text : Text → Text
domain_text text = codes "collector error: " ++ text

-- The containers of type `ty` behind the generic netlink header of a frame, parsed.
abbrev pub in_frame : {A : Type 0} → ℕ → (Bytes → Option A) → Bytes → List A
in_frame ty read frame =
    if ltb (length frame) 4
    then []
    else filter_map (λ (top : Nla). if top.ty == ty then read top.payload else none)
        (parse_attrs (drop 4 frame))

-- The end of `dump_services_with_sock`.
abbrev pub services_reply : {A : Type 0} → (List Bytes → A) → Session × Result (List Bytes) → Step A
services_reply read (s, ok frames) = returns (s, inr (read frames))
services_reply read (s, err dump_intr) =
    returns (s, inl (domain_text (codes "IPVS service dump interrupted")))
services_reply read (s, err e) = returns (s, inl (domain_text (error_text e)))

-- The end of `dump_dests_for`.
abbrev pub dests_reply : {A : Type 0} → (List Bytes → A) → Session × Result (List Bytes) → Step A
dests_reply read (s, ok frames) = returns (s, inr (read frames))
dests_reply read (s, err e) = returns (s, inl (domain_text (error_text e)))

module _ {F64 : Type 0} (of_u64 : ℕ → F64) where
  -- What a service and its destinations add.
  abbrev pub service_samples : IpvsService → List IpvsDestination → List (MetricSample F64)
  service_samples svc dests =
      push_svc_metrics of_u64 svc (svc_labels svc)
      ++ flat_map (push_dest_metrics of_u64 svc) (take ipvs_max_dests dests)

module _ (os_error : ℕ → Text) (addresses : Addresses) (family_id : ℕ) where
  -- `IPVS_CMD_GET_SERVICE` is 4.
  unfoldable pub dump_services_with_sock : (Bytes → Text) → Session → Step (List IpvsService)
  dump_services_with_sock lossy s =
      elim (dump_with_retries os_error family_id (build_genl_payload 4) s) [
        | waiting ↦ waiting
        | returns r ↦ services_reply (flat_map (in_frame 1 (parse_service addresses lossy))) r
      ]

  -- One attempt: an interrupted dump is an error.
  unfoldable pub dump_dests_for : IpvsService → Session → Step (List IpvsDestination)
  dump_dests_for svc s =
      elim (dump_attempts os_error family_id 1 (build_dest_request addresses svc) s) [
        | waiting ↦ waiting
        | returns r ↦
            dests_reply (flat_map (in_frame 2 (λ payload. parse_destination addresses payload svc)))
              r
      ]

  module _ {F64 : Type 0} (of_u64 : ℕ → F64) where
    -- The loop over the services.
    unfoldable pub collect_services :
        List IpvsService → Session → List (MetricSample F64) → Step (List (MetricSample F64))
    unfolding dump_dests_for
    collect_services [] s out = returns (s, inr out)
    collect_services (svc ∷ services) s out =
        and_then (dump_dests_for svc s)
          (λ s' dests. collect_services services s' (out ++ service_samples of_u64 svc dests))

-- The end of `collect`.
abbrev pub outcome_of : {F64 : Type 0} → Step (List (MetricSample F64)) → Ends (Outcome F64)
outcome_of waiting = waiting
outcome_of (returns (s, inl e)) = returns (failed (io e))
outcome_of (returns (s, inr out)) = returns (collected out)

-- The `match` on the resolved family, and what follows once it is known.
abbrev pub with_family :
    {F64 : Type 0}
    → Ends (Result (Option ℕ) × ℕ)
    → (ℕ → ℕ → Step (List (MetricSample F64)))
    → Ends (Outcome F64)
with_family waiting next = waiting
with_family (returns (err e, counter)) next = returns (failed (io (error_text e)))
with_family (returns (ok none, counter)) next = returns (collected [])
with_family (returns (ok (some family_id), counter)) next = outcome_of (next family_id counter)

module _ (os_error : ℕ → Text) (addresses : Addresses) (lossy : Bytes → Text) where
  -- What follows once the family is known.
  unfoldable pub collect_family :
      {F64 : Type 0} → (ℕ → F64) → ℕ → Session → Step (List (MetricSample F64))
  unfolding collect_services dump_services_with_sock
  collect_family of_u64 family_id s =
      and_then (dump_services_with_sock os_error addresses family_id lossy s) (λ s' services.
        collect_services os_error addresses family_id of_u64 (take ipvs_max_services services) s'
          [])

  -- `collect`: `opened` is what opening the socket gives, `k` answers the request for the family.
  unfoldable pub collect :
      {F64 : Type 0} → (ℕ → F64) → Result Socket → Kernel → ℕ → List Kernel → Ends (Outcome F64)
  unfolding collect_family
  collect of_u64 (err e) k counter kernels = returns (failed (io (error_text e)))
  collect of_u64 (ok sock) k counter kernels =
      with_family (resolve_genl_family os_error k counter (codes "IPVS")) (λ family_id counter'.
        collect_family of_u64 family_id
          (record { sock = sock; counter = counter'; kernels = kernels }))
