-- ===== src/Tests/Restart.antt =====
-- Inputs for the theorems about the restart of a dump in crates/nlx-netlink/src/transport.rs.
use netlink_exporter.Base.{ℕ, ◌*◌, ◌≤◌, ◌≡◌, refl, [], ◌∷◌, none, arith, true, false}
use netlink_exporter.Base.Text.{Text}
use netlink_exporter.Transport.{
  ok, err, recv_buf_overflow, max_rcvbuf, build_request, next_seq, parse_datagram, parse_loop,
  action,
}
use netlink_exporter.Transport.Dump.{
  returns, dump_loop, dump, Received, Kernel, Socket, grown, recv_phase, starved, blocking_dump,
}
use netlink_exporter.Transport.Dump.Restart.{dump_loop-restart, dump-rcvbuf_le}
use netlink_exporter.Transport.Ring.{done, failed, uring_send, uring_recv}

abbrev no_text : ℕ → Text
no_text e = []

abbrev overflow : Received
overflow = record { completion = failed 105; buffer = [] }

abbrev done_datagram : Received
done_datagram = record {
  completion = done 16;
  buffer = 16 ∷ 0 ∷ 0 ∷ 0 ∷ 3 ∷ 0 ∷ 0 ∷ 0 ∷ 1 ∷ 0 ∷ 0 ∷ 0 ∷ 0 ∷ 0 ∷ 0 ∷ 0 ∷ [];
}

sent : uring_send no_text (1 ∷ []) (done 1) ≡ ok 1
unfolding uring_send
sent = refl

overflows : uring_recv no_text overflow.completion ≡ err recv_buf_overflow
unfolding uring_recv
overflows = refl

starts_starved : recv_phase no_text [] [] ≡ starved
starts_starved = unfold recv_phase in refl

dump_loop-restart_example :
    dump_loop no_text
      (1 ∷ [])
      none
      (done 1 ∷ done 1 ∷ [])
      (overflow ∷ done_datagram ∷ [])
      false
      4096
    ≡ dump_loop no_text (1 ∷ []) none (done 1 ∷ []) (done_datagram ∷ []) true (grown 4096)
dump_loop-restart_example =
    dump_loop-restart no_text (1 ∷ []) (done 1) (done 1 ∷ []) [] overflow (done_datagram ∷ []) 4096
      sent starts_starved overflows (λ e. absurd (omega (arith, e)))

abbrev sock : Socket
sock = record { rcvbuf_size = 4 * 1024 * 1024; nl_family = 4 }

abbrev grown_sock : Socket
grown_sock = record { rcvbuf_size = 8 * 1024 * 1024; nl_family = 4 }

abbrev kernel : Kernel
kernel = record {
  dup_error = none;
  ring_error = none;
  sends = done 16 ∷ done 16 ∷ [];
  script = overflow ∷ done_datagram ∷ [];
  grow_error = none;
  join_error = none;
}

dumped : dump no_text kernel sock 1 20 0 [] ≡ returns ((grown_sock, ok []), 2)
unfolding dump blocking_dump dump_loop recv_phase uring_send uring_recv build_request next_seq
    parse_datagram parse_loop action
dumped = refl

dump-rcvbuf_le_example :
    (grown_sock.rcvbuf_size ≤ max_rcvbuf) × (sock.rcvbuf_size ≤ grown_sock.rcvbuf_size)
dump-rcvbuf_le_example = dump-rcvbuf_le no_text kernel sock 1 20 0 [] (omega arith) dumped
