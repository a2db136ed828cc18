-- ===== src/RtExtended/Collect.antt =====
-- The dumps and `collect` of crates/nlx-netlink/src/collectors/rt_extended.rs. An error of a dump is its
-- text.
use netlink_exporter.Base.{
  ℕ, Bool, true, false, ◌&&◌, ◌||◌, List, [], ◌∷◌, ◌++◌, inl, inr, ◌==◌, if◌then◌else◌, length, map,
  flat_map, replicate,
}
use netlink_exporter.Base.Text.{Text, codes}
use netlink_exporter.Metric.{MetricSample}
use netlink_exporter.RtExtended.{
  build_if_stats_msg, stats_frame, fdb_counts, fdb_sample, rules_sample, nexthop_sample,
}
use netlink_exporter.Scrape.{Outcome, collected, failed, io}
use netlink_exporter.Transport.{Result, ok, err, dump_intr, kernel_error, error_text}
use netlink_exporter.Transport.Dump.{Ends, returns, waiting, Kernel, Socket}
use netlink_exporter.Transport.Retries.{Session, Step, and_then, dump_with_retries, dump_attempts}
use netlink_exporter.Wire.{Bytes}

abbrev starts_with : Text → Text → Bool
starts_with [] text = true
starts_with (p ∷ part) [] = false
starts_with (p ∷ part) (c ∷ cs) = let rest = starts_with part cs in (p == c) && rest

-- `str::contains` of a text
unfoldable pub contains_text : Text → Text → Bool
contains_text part [] = starts_with part []
contains_text part (c ∷ cs) =
    let rest = contains_text part cs in if starts_with part (c ∷ cs) then true else rest

-- The end of a dump with restarts; `interrupted` is the text when they are used up.
abbrev pub reply :
    {A : Type 0} → Text → (List Bytes → A) → Ends (Session × Result (List Bytes)) → Step A
reply interrupted read waiting = waiting
reply interrupted read (returns (s, ok frames)) = returns (s, inr (read frames))
reply interrupted read (returns (s, err dump_intr)) = returns (s, inl interrupted)
reply interrupted read (returns (s, err e)) = returns (s, inl (error_text e))

-- The number of rules of one family. `EINVAL` is 22.
abbrev pub rule_count : Ends (Session × Result (List Bytes)) → Step ℕ
rule_count waiting = waiting
rule_count (returns (s, ok frames)) = returns (s, inr (length frames))
rule_count (returns (s, err (kernel_error errno))) =
    if errno == 22 then returns (s, inr 0) else returns (s, inl (error_text (kernel_error errno)))
rule_count (returns (s, err dump_intr)) = returns (s, inr 0)
rule_count (returns (s, err e)) = returns (s, inl (error_text e))

abbrev pub nexthop_count : Ends (Session × Result (List Bytes)) → Step ℕ
nexthop_count waiting = waiting
nexthop_count (returns (s, ok frames)) = returns (s, inr (length frames))
nexthop_count (returns (s, err (kernel_error errno))) =
    if errno == 22
    then returns (s, inl (codes "errno=22"))
    else returns (s, inl (error_text (kernel_error errno)))
nexthop_count (returns (s, err e)) = returns (s, inl (error_text e))

abbrev pub rule_families : List (Text × ℕ)
rule_families = (codes "inet", 2) ∷ (codes "inet6", 10) ∷ (codes "mpls", 28) ∷ []

module _ (os_error : ℕ → Text) {F64 : Type 0} (of_u64 : ℕ → F64) where
  abbrev Samples : Type 0
  Samples = List (MetricSample F64)

  -- `RTM_GETSTATS` is 94; the filter asks for the statistics 2 and 4.
  unfoldable pub collect_link_xstats : Session → Step (List (MetricSample F64))
  collect_link_xstats s =
      reply (codes "RTM_GETSTATS dump interrupted too many times") (flat_map stats_frame)
        (dump_with_retries os_error 94 (build_if_stats_msg 0 10) s)

  -- `RTM_GETNEIGH` is 30.
  unfoldable pub collect_bridge_fdb : Session → Step (List (MetricSample F64))
  collect_bridge_fdb s =
      reply (codes "RTM_GETNEIGH AF_BRIDGE dump interrupted")
        (λ frames. map (fdb_sample of_u64) (fdb_counts frames))
        (dump_with_retries os_error 30 (7 ∷ replicate 11 0) s)

  -- The loop over the families: one dump for each. `RTM_GETRULE` is 34.
  unfoldable pub collect_fib_rules :
      List (Text × ℕ) → Session → List (MetricSample F64) → Step (List (MetricSample F64))
  collect_fib_rules [] s out = returns (s, inr out)
  collect_fib_rules ((label, family) ∷ families) s out =
      and_then (rule_count (dump_attempts os_error 34 1 (family ∷ replicate 11 0) s))
        (λ s' count. collect_fib_rules families s' (out ++ rules_sample of_u64 label count ∷ []))

  -- `RTM_GETNEXTHOP` is 106.
  unfoldable pub collect_nexthop_count : Session → Step ℕ
  collect_nexthop_count s = nexthop_count (dump_attempts os_error 106 1 (replicate 8 0) s)

  -- The match on the extended statistics: an unknown request is no failure.
  abbrev pub with_xstats :
      Step (List (MetricSample F64))
      → (Session → List (MetricSample F64) → Ends (Outcome F64))
      → Ends (Outcome F64)
  with_xstats waiting next = waiting
  with_xstats (returns (s, inr samples)) next = next s samples
  with_xstats (returns (s, inl e)) next =
      if contains_text (codes "errno=22") e || contains_text (codes "errno=95") e
      then next s []
      else returns (failed (io e))

  -- The matches on the other dumps: a failure is logged only.
  abbrev pub or_none :
      Step (List (MetricSample F64))
      → (Session → List (MetricSample F64) → Ends (Outcome F64))
      → Ends (Outcome F64)
  or_none waiting next = waiting
  or_none (returns (s, inr samples)) next = next s samples
  or_none (returns (s, inl e)) next = next s []

  -- The match on the number of next hops.
  abbrev pub nexthop_samples : Step ℕ → Step (List (MetricSample F64))
  nexthop_samples waiting = waiting
  nexthop_samples (returns (s, inr count)) = returns (s, inr (nexthop_sample of_u64 count ∷ []))
  nexthop_samples (returns (s, inl e)) =
      if contains_text (codes "errno=22") e
      then returns (s, inr (nexthop_sample of_u64 0 ∷ []))
      else returns (s, inr [])

  -- `collect`: `opened` is what opening the socket gives.
  unfoldable pub collect : Result Socket → ℕ → List Kernel → Ends (Outcome F64)
  unfolding collect_link_xstats collect_bridge_fdb collect_fib_rules collect_nexthop_count
  collect (err e) counter kernels = returns (failed (io (error_text e)))
  collect (ok sock) counter kernels =
      with_xstats
        (collect_link_xstats (record { sock = sock; counter = counter; kernels = kernels }))
        λ s xstats. or_none (collect_bridge_fdb s) λ s fdb.
          or_none (collect_fib_rules rule_families s []) λ s rules.
            or_none (nexthop_samples (collect_nexthop_count s))
              λ s nexthops. returns (collected (xstats ++ (fdb ++ (rules ++ nexthops))))
