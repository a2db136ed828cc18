-- ===== src/Tests/Conntrack.antt =====
-- Inputs for the theorems about crates/nlx-netlink/src/collectors/conntrack.rs and
-- conntrack_expect.rs.
use netlink_exporter.Base.{ℕ, suc, ◌*◌, List, [], ◌∷◌, none, ◌≡◌, refl}
use netlink_exporter.Base.Text.{Text, codes}
use netlink_exporter.Conntrack.{cpu_stats, nfgenmsg_unspec}
use netlink_exporter.Conntrack.Expect.{collect, collect-expectations}
use netlink_exporter.Conntrack.Sums.{sums_of, all_attrs, cpu_stats-sums_of}
use netlink_exporter.Metric.{gauge_sample}
use netlink_exporter.Scrape.{collected}
use netlink_exporter.Transport.{
  ok, max_dump_restarts, build_request, next_seq, parse_datagram, parse_loop, action,
}
use netlink_exporter.Transport.Datagram.{Message}
use netlink_exporter.Transport.Dump.{
  returns, Kernel, Socket, dump, blocking_dump, dump_loop, recv_phase,
}
use netlink_exporter.Transport.Dump.Frames.{received}
use netlink_exporter.Transport.Retries.{dump_attempts}
use netlink_exporter.Transport.Ring.{done, uring_send, uring_recv}
use netlink_exporter.Wire.{Bytes}
use netlink_exporter.Wire.Build.{push_nla, to_be_bytes}

-- Two processors, with a frame that is too short between them.
abbrev frames : List Bytes
frames =
    push_nla (push_nla (0 ∷ 0 ∷ 0 ∷ 0 ∷ []) 2 (to_be_bytes 4 7)) 14 (to_be_bytes 4 1)
    ∷ (0 ∷ 0 ∷ [])
    ∷ push_nla (0 ∷ 0 ∷ 0 ∷ 0 ∷ []) 2 (to_be_bytes 4 5)
    ∷ []

cpu_stats-sums_of_example : cpu_stats frames ≡ sums_of (all_attrs frames)
cpu_stats-sums_of_example = cpu_stats-sums_of frames

abbrev ascii : Bytes → Text
ascii bytes = bytes

abbrev no_text : ℕ → Text
no_text e = []

abbrev data_message : Bytes → Message
data_message payload = record { ty = 513; flags = 2; seq = 7; payload = payload }

abbrev done_message : Message
done_message = record { ty = 3; flags = 2; seq = 7; payload = 0 ∷ 0 ∷ 0 ∷ 0 ∷ [] }

-- One expectation, and a frame that is too short.
abbrev kernels : List Kernel
kernels =
    record {
      dup_error = none;
      ring_error = none;
      sends = done 20 ∷ [];
      script =
          received (record {
            messages =
                data_message (0 ∷ 0 ∷ 0 ∷ 0 ∷ []) ∷ data_message (7 ∷ []) ∷ done_message ∷ [];
            tail = [];
            stale = [];
          })
          ∷ [];
      grow_error = none;
      join_error = none;
    }
    ∷ []

abbrev sock : Socket
sock = record { rcvbuf_size = 4 * 1024 * 1024; nl_family = 12 }

dumped :
    dump_attempts no_text 0x201
      (suc max_dump_restarts)
      nfgenmsg_unspec
      (record { sock = sock; counter = 1; kernels = kernels })
    ≡ returns (
      record { sock = sock; counter = 2; kernels = [] },
      ok ((0 ∷ 0 ∷ 0 ∷ 0 ∷ []) ∷ (7 ∷ []) ∷ []),
    )
unfolding dump_attempts dump blocking_dump dump_loop recv_phase uring_send uring_recv build_request
    next_seq parse_datagram parse_loop action
dumped = refl

collect-expectations_example :
    collect no_text ascii (λ n. n) (ok sock) 1 kernels
    ≡ returns (
        collected (
          gauge_sample
            (codes "nft_conntrack_expectations")
            (codes "Number of active conntrack expectations.")
            []
            1
          ∷ []))
collect-expectations_example =
    collect-expectations no_text ascii (λ n. n) sock 1 kernels
      (record { sock = sock; counter = 2; kernels = [] }) ((0 ∷ 0 ∷ 0 ∷ 0 ∷ []) ∷ (7 ∷ []) ∷ [])
      dumped
