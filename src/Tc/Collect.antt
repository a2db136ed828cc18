-- ===== src/Tc/Collect.antt =====
-- The dumps and `collect` of crates/nlx-netlink/src/collectors/tc.rs.
use netlink_exporter.Base.{ℕ, List, [], Option, replicate}
use netlink_exporter.Base.Text.{Text}
use netlink_exporter.Scrape.{CollectError, Outcome, collected, failed, unavailable, io, parse}
use netlink_exporter.Scrape
use netlink_exporter.Tc.{add_links, aggregate, agg_samples}
use netlink_exporter.Transport.{
  NetlinkError, Result, ok, err, dump_intr, recv_buf_overflow, parse_failed, error_text,
}
use netlink_exporter.Transport.Dump.{Ends, returns, waiting, Kernel, Socket}
use netlink_exporter.Transport.Retries.{Session, dump_with_retries}
use netlink_exporter.Wire.{Bytes}

abbrev pub nl_err_to_collect : NetlinkError → CollectError
nl_err_to_collect dump_intr = Scrape.CollectError.dump_intr
nl_err_to_collect recv_buf_overflow = Scrape.CollectError.recv_buf_overflow
nl_err_to_collect (parse_failed s) = parse s
nl_err_to_collect e = io (error_text e)

module _ (os_error : ℕ → Text) (from_utf8 : Bytes → Option Text) where
  -- `RTM_GETLINK` is 18; the payload is an `ifinfomsg` of zeros.
  unfoldable pub build_ifindex_map : Session → Ends (Session × Result (List (ℕ × Text)))
  build_ifindex_map s = elim (dump_with_retries os_error 18 (replicate 16 0) s) [
    | waiting ↦ waiting
    | returns (s', err e) ↦ returns (s', err e)
    | returns (s', ok frames) ↦ returns (s', ok (add_links from_utf8 frames []))
  ]

  -- `collect`: `opened` is what opening the socket gives. `RTM_GETQDISC` is 38; the payload is a
  -- `tcmsg` of zeros.
  unfoldable pub collect :
      {F64 : Type 0} → (ℕ → F64) → Result Socket → ℕ → List Kernel → Ends (Outcome F64)
  unfolding build_ifindex_map
  collect of_u64 (err e) counter kernels = returns (failed (unavailable (error_text e)))
  collect of_u64 (ok sock) counter kernels =
      elim (build_ifindex_map (record { sock = sock; counter = counter; kernels = kernels })) [
        | waiting ↦ waiting
        | returns (s, err e) ↦ returns (failed (nl_err_to_collect e))
        | returns (s, ok ifindex_map) ↦ elim (dump_with_retries os_error 38 (replicate 20 0) s) [
          | waiting ↦ waiting
          | returns (s', err e) ↦ returns (failed (nl_err_to_collect e))
          | returns (s', ok frames) ↦
              returns (collected (agg_samples of_u64 (aggregate from_utf8 ifindex_map frames [])))
        ]
      ]
