-- ===== src/Conntrack/Collect.antt =====
-- The dumps and `collect` of crates/nlx-netlink/src/collectors/conntrack.rs.
use netlink_exporter.Base.{ℕ, zero, suc, List, [], ◌∷◌, Option, none, some, ◌==◌, if◌then◌else◌}
use netlink_exporter.Base.Text.{Text, codes}
use netlink_exporter.Conntrack.{
  ConntrackStat, ConntrackFlow, nfgenmsg_unspec, cpu_stats, entries_reply, parse_flow_frame,
}
use netlink_exporter.Conntrack.Samples.{stat_to_samples}
use netlink_exporter.Scrape.{CollectError, Outcome, collected, failed, unavailable, io}
use netlink_exporter.Scrape
use netlink_exporter.Transport.{
  NetlinkError, Result, ok, err, dump_intr, recv_buf_overflow, kernel_error, error_text,
  max_dump_restarts,
}
use netlink_exporter.Transport.Dump.{Ends, returns, waiting, Kernel, Socket, dump}
use netlink_exporter.Transport.Retries.{dump_attempts}
use netlink_exporter.Transport.Single.{request_single}
use netlink_exporter.Wire.{Bytes}

-- `ENOENT` is 2.
abbrev pub map_nl_err : NetlinkError → CollectError
map_nl_err dump_intr = Scrape.CollectError.dump_intr
map_nl_err recv_buf_overflow = Scrape.CollectError.recv_buf_overflow
map_nl_err (kernel_error errno) =
    if errno == 2
    then unavailable (codes "ENOENT — nf_conntrack not present")
    else io (error_text (kernel_error errno))
map_nl_err e = io (error_text e)

abbrev pub ct_dump_max_entries : ℕ
ct_dump_max_entries = 200000

-- The loop over the frames of a dump of flows, up to the cap; `room` is what is left of it.
unfoldable pub flows_of : ℕ → List Bytes → List ConntrackFlow
flows_of room [] = []
flows_of zero (frame ∷ frames) = []
flows_of (suc room) (frame ∷ frames) = elim (parse_flow_frame frame) [
  | none ↦ flows_of (suc room) frames
  | some flow ↦ flow ∷ flows_of room frames
]

-- `unwrap_or_else` on the number of entries.
abbrev pub entries_or_zero : Result (Option Bytes) → ℕ
entries_or_zero (ok reply) = entries_reply reply
entries_or_zero (err e) = 0

module _ (os_error : ℕ → Text) where
  -- `dump_flows`: `opened` is what opening the socket gives, errors are their texts.
  -- `IPCTNL_MSG_CT_GET` is 257.
  unfoldable pub dump_flows : Result Socket → ℕ → List Kernel → Ends (Result (List ConntrackFlow))
  unfolding flows_of
  dump_flows (err e) counter kernels = returns (err e)
  dump_flows (ok sock) counter kernels =
      elim (dump_attempts os_error 257 (suc max_dump_restarts) nfgenmsg_unspec
        (record { sock = sock; counter = counter; kernels = kernels })) [
          | waiting ↦ waiting
          | returns (s, err e) ↦ returns (err e)
          | returns (s, ok frames) ↦ returns (ok (flows_of ct_dump_max_entries frames))
        ]

  -- `fetch_cpu_stats`: one dump, without restarts. `IPCTNL_MSG_CT_GET_STATS_CPU` is 260.
  unfoldable pub fetch_cpu_stats : Kernel → Socket → ℕ → Ends ((Socket × Result ConntrackStat) × ℕ)
  fetch_cpu_stats k sock counter = elim (dump os_error k sock counter 260 0 nfgenmsg_unspec) [
    | waiting ↦ waiting
    | returns ((sock', err e), counter') ↦ returns ((sock', err e), counter')
    | returns ((sock', ok frames), counter') ↦ returns ((sock', ok (cpu_stats frames)), counter')
  ]

  -- `collect`: `k` answers the dump, `k'` the request for the entries (261), whose failure is no
  -- failure of the collector.
  unfoldable pub collect :
      {F64 : Type 0} → (ℕ → F64) → Result Socket → ℕ → Kernel → Kernel → Ends (Outcome F64)
  unfolding fetch_cpu_stats
  collect of_u64 (err e) counter k k' = returns (failed (io (error_text e)))
  collect of_u64 (ok sock) counter k k' = elim (fetch_cpu_stats k sock counter) [
    | waiting ↦ waiting
    | returns ((sock', err e), counter') ↦ returns (failed (map_nl_err e))
    | returns ((sock', ok stat), counter') ↦
        elim (request_single os_error k' counter' 261 0 nfgenmsg_unspec) [
          | waiting ↦ waiting
          | returns (r, counter'') ↦
              returns (collected (stat_to_samples of_u64 stat (entries_or_zero r)))
        ]
  ]
