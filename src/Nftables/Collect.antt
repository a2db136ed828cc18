-- ===== src/Nftables/Collect.antt =====
-- The dumps and `collect` of crates/nlx-netlink/src/collectors/nftables.rs. Every dump opens a socket
-- of its own; the sequence counter and the kernel are the same for all.
use mathlib.Core.Option
use netlink_exporter.Base.{ℕ, suc, List, [], ◌∷◌, ◌++◌, Option, filter_map}
use netlink_exporter.Base.Text.{Text, codes}
use netlink_exporter.Nftables.{
  nfgenmsg, parse_table_frame, parse_chain_frame, parse_set_frame, parse_gen_frame,
  parse_flowtable_frame,
}
use netlink_exporter.Nftables.Metrics.{build_metrics}
use netlink_exporter.Nftables.Objects.{parse_counter, parse_quota, parse_limit}
use netlink_exporter.Nftables.Rules.{parse_rule_frame}
use netlink_exporter.Scrape.{CollectError, Outcome, collected, failed, io}
use netlink_exporter.Transport.{NetlinkError, Result, ok, err, error_text, max_dump_restarts}
use netlink_exporter.Transport.Dump.{Ends, returns, waiting, Kernel, Socket}
use netlink_exporter.Transport.Retries.{Session, dump_attempts}
use netlink_exporter.Transport.Single.{request_single}
use netlink_exporter.Wire.{Bytes}

-- `map_domain_err` of `DomainError::Collector`.
abbrev pub map_domain_err : NetlinkError → CollectError
map_domain_err e = io (codes "collector error: " ++ error_text e)

-- What the dumps share: what opening each socket gives, the sequence counter, and the kernel's
-- answers to the dumps.
pub record World : Type 0 where
  pub opened : List (Result Socket)
  pub counter : ℕ
  pub kernels : List Kernel

module _ (os_error : ℕ → Text) (lossy : Bytes → Text) where
  -- `nft_dump`: after the first attempt as many more as restarts are allowed.
  unfoldable pub nft_dump : ℕ → ℕ → Session → Ends (Session × Result (List Bytes))
  nft_dump msg_type family s =
      dump_attempts os_error msg_type (suc max_dump_restarts) (nfgenmsg family) s

  -- A dump on a fresh socket, its frames parsed: `dump_tables` and its like.
  unfoldable pub dump_with :
      {A : Type 0} → ℕ → (Bytes → Option A) → World → Ends (World × Result (List A))
  unfolding nft_dump
  dump_with msg_type read w = elim w.opened [
    | [] ↦ waiting
    | err e ∷ opened ↦ returns (record w { opened = opened }, err e)
    | ok sock ∷ opened ↦
        elim (nft_dump msg_type 0
          (record { sock = sock; counter = w.counter; kernels = w.kernels })) [
            | waiting ↦ waiting
            | returns (s, err e) ↦
                returns
                  (record { opened = opened; counter = s.counter; kernels = s.kernels }, err e)
            | returns (s, ok frames) ↦ returns (
              record { opened = opened; counter = s.counter; kernels = s.kernels },
              ok (filter_map read frames),
            )
          ]
  ]

  -- `get_ruleset_generation`: a single request on a fresh socket, answered by the next kernel.
  unfoldable pub get_ruleset_generation : World → Ends (World × Result ℕ)
  get_ruleset_generation w = elim w.opened [
    | [] ↦ waiting
    | err e ∷ opened ↦ returns (record w { opened = opened }, err e)
    | ok sock ∷ opened ↦ elim w.kernels [
      | [] ↦ waiting
      | k ∷ kernels ↦ elim (request_single os_error k w.counter 0xa10 0 (nfgenmsg 0)) [
        | waiting ↦ waiting
        | returns (err e, counter) ↦
            returns (record { opened = opened; counter = counter; kernels = kernels }, err e)
        | returns (ok reply, counter) ↦ returns (
          record { opened = opened; counter = counter; kernels = kernels },
          ok (Option.get_or (Option.bind reply parse_gen_frame) 0),
        )
      ]
    ]
  ]

  -- `?` after `map_err(map_domain_err)`.
  abbrev pub and_then :
      {A F64 : Type 0}
      → Ends (World × Result A)
      → (World → A → Ends (Outcome F64))
      → Ends (Outcome F64)
  and_then waiting f = waiting
  and_then (returns (w, err e)) f = returns (failed (map_domain_err e))
  and_then (returns (w, ok a)) f = f w a

  unfoldable pub collect : {F64 : Type 0} → (ℕ → F64) → World → Ends (Outcome F64)
  unfolding dump_with get_ruleset_generation
  collect of_u64 w = and_then (dump_with 0xa01 (parse_table_frame lossy) w) λ w tables.
      and_then (dump_with 0xa04 (parse_chain_frame lossy) w) λ w chains.
        and_then (dump_with 0xa07 (parse_rule_frame lossy) w) λ w rule_counters.
          and_then (dump_with 0xa13 (parse_counter lossy) w) λ w named_counters.
            and_then (dump_with 0xa0a (parse_set_frame lossy) w) λ w sets.
              and_then (dump_with 0xa13 (parse_quota lossy) w) λ w quotas.
                and_then (dump_with 0xa13 (parse_limit lossy) w) λ w limits.
                  and_then (get_ruleset_generation w) λ w generation.
                    and_then (dump_with 0xa17 (parse_flowtable_frame lossy) w) λ w flowtables.
                      returns (
                        collected (
                          build_metrics of_u64 (record {
                            tables = tables;
                            chains = chains;
                            rule_counters = rule_counters;
                            named_counters = named_counters;
                            sets = sets;
                            quotas = quotas;
                            limits = limits;
                            generation = generation;
                            flowtables = flowtables;
                          })))
