-- ===== src/Rt/Collect.antt =====
-- The dumps and `collect` of crates/nlx-netlink/src/collectors/rt.rs.
use netlink_exporter.Base.{ℕ, List, ◌++◌, Option, replicate, map, flat_map, filter_map}
use netlink_exporter.Base.Text.{Text}
use netlink_exporter.Rt.{
  parse_link_frame, emit_link_metrics, count_addresses, count_routes, count_neighbours,
  address_sample, route_sample, neighbour_sample,
}
use netlink_exporter.Scrape.{Outcome, collected, failed, unavailable}
use netlink_exporter.Tc.Collect.{nl_err_to_collect}
use netlink_exporter.Transport.{Result, ok, err, error_text}
use netlink_exporter.Transport.Dump.{Ends, returns, waiting, Kernel, Socket}
use netlink_exporter.Transport.Retries.{Session, dump_with_retries}
use netlink_exporter.Wire.{Bytes}

module _ (os_error : ℕ → Text) (from_utf8 : Bytes → Option Text) where
  -- A dump, `map_err(nl_err_to_collect)?`, and what follows with its frames.
  abbrev pub with_frames :
      {F64 : Type 0}
      → ℕ
      → Bytes
      → Session
      → (Session → List Bytes → Ends (Outcome F64))
      → Ends (Outcome F64)
  with_frames msg_type payload s next = elim (dump_with_retries os_error msg_type payload s) [
    | waiting ↦ waiting
    | returns (s', err e) ↦ returns (failed (nl_err_to_collect e))
    | returns (s', ok frames) ↦ next s' frames
  ]

  -- `collect`: the dumps of links (18), addresses (22), routes (26) and neighbours (30), each with its
  -- header of zeros. `opened` is what opening the socket gives.
  unfoldable pub collect :
      {F64 : Type 0} → (ℕ → F64) → Result Socket → ℕ → List Kernel → Ends (Outcome F64)
  collect of_u64 (err e) counter kernels = returns (failed (unavailable (error_text e)))
  collect of_u64 (ok sock) counter kernels =
      with_frames 18 (replicate 16 0) (record { sock = sock; counter = counter; kernels = kernels })
        λ s link_frames. with_frames 22 (replicate 8 0) s λ s addr_frames.
          with_frames 26 (replicate 12 0) s λ s route_frames.
            with_frames 30 (replicate 12 0) s λ s neigh_frames. returns (
              collected (
                flat_map (emit_link_metrics of_u64)
                  (filter_map (parse_link_frame from_utf8) link_frames)
                ++ (map (address_sample of_u64) (count_addresses addr_frames)
                    ++ (map (route_sample of_u64) (count_routes route_frames)
                        ++ map (neighbour_sample of_u64) (count_neighbours neigh_frames)))))
