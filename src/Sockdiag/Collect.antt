-- ===== src/Sockdiag/Collect.antt =====
-- `dump_one_family` and `collect_sockdiag` of crates/nlx-netlink/src/collectors/sockdiag.rs. The
-- kernel answers each dump with an entry of `kernels`.
use netlink_exporter.Base.{
  ℕ, ◌-◌, ◌^◌, Bool, true, false, List, [], ◌∷◌, ◌++◌, replicate, ◌⊎◌, inl, inr,
}
use netlink_exporter.Base.Text.{Text}
use netlink_exporter.Scrape.{CollectError, Outcome, collected, failed, io}
use netlink_exporter.Scrape
use netlink_exporter.Sockdiag.{Totals, parse_frames}
use netlink_exporter.Sockdiag.Keys.{Protocol, tcp, udp}
use netlink_exporter.Sockdiag.Samples.{totals_samples}
use netlink_exporter.Transport.{
  NetlinkError, Result, ok, err, dump_intr, recv_buf_overflow, error_text, max_dump_restarts,
}
use netlink_exporter.Transport.Dump.{Ends, returns, waiting, Kernel, Socket}
use netlink_exporter.Transport.Retries.{Session, dump_attempts}
use netlink_exporter.Wire.{Bytes}
use netlink_exporter.Wire.Build.{to_ne_bytes}

-- `inet_diag_req_v2`, 56 bytes: the extensions are 0x42, the states all of them.
abbrev pub diag_request : ℕ → ℕ → Bytes
diag_request family proto =
    (family ∷ proto ∷ 0x42 ∷ 0 ∷ []) ++ (to_ne_bytes 4 (2 ^ 32 - 1) ++ replicate 48 0)

abbrev pub to_collect_error : NetlinkError → CollectError
to_collect_error dump_intr = Scrape.CollectError.dump_intr
to_collect_error recv_buf_overflow = Scrape.CollectError.recv_buf_overflow
to_collect_error e = io (error_text e)

abbrev pub is_udp : Protocol → Bool
is_udp tcp = false
is_udp udp = true

abbrev pub dumps : List (ℕ × (ℕ × Protocol))
dumps = (2, (6, tcp)) ∷ (2, (17, udp)) ∷ (10, (6, tcp)) ∷ (10, (17, udp)) ∷ []

abbrev pub no_totals : Totals
no_totals = record { bucket_map = []; drops = []; retransmits = 0 }

module _ (os_error : ℕ → Text) where
  -- `SOCK_DIAG_BY_FAMILY` is 20.
  unfoldable pub dump_one_family : Session → ℕ → ℕ → Ends (Session × Result (List Bytes))
  unfolding dump_attempts
  dump_one_family s family proto =
      dump_attempts os_error 20 max_dump_restarts (diag_request family proto) s

  -- The loops over families and protocols, as one over the list of their pairs.
  unfoldable pub collect_dumps :
      List (ℕ × (ℕ × Protocol)) → Session → Totals → Ends (Session × (CollectError ⊎ Totals))
  collect_dumps [] s t = returns (s, inr t)
  collect_dumps ((family, (proto, protocol)) ∷ rest) s t = elim (dump_one_family s family proto) [
    | waiting ↦ waiting
    | returns (s', err e) ↦ returns (s', inl (to_collect_error e))
    | returns (s', ok frames) ↦
        collect_dumps rest s' (parse_frames frames protocol (is_udp protocol) t)
  ]

  -- `opened` is what opening the socket gives.
  unfoldable pub collect_sockdiag :
      {F64 : Type 0} → (ℕ → F64) → Result Socket → ℕ → List Kernel → Ends (Outcome F64)
  collect_sockdiag of_u64 (err e) counter kernels = returns (failed (io (error_text e)))
  collect_sockdiag of_u64 (ok sock) counter kernels =
      elim (collect_dumps dumps (record { sock = sock; counter = counter; kernels = kernels })
        no_totals) [
          | waiting ↦ waiting
          | returns (s, inl e) ↦ returns (failed e)
          | returns (s, inr t) ↦ returns (collected (totals_samples of_u64 t))
        ]
