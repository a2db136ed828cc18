-- ===== src/Transport/Ring.antt =====
-- `uring_send` and `uring_recv` of crates/nlx-netlink/src/transport.rs: what one submission and its
-- completion mean. The ring and the kernel are outside the repository: a completion is an argument.
use netlink_exporter.Base.{ℕ, not, ◌++◌, ◌==◌, if◌then◌else◌, length}
use netlink_exporter.Base.Text.{Text, codes, decimal}
use netlink_exporter.Transport.{Result, ok, err, send_failed, recv_failed, recv_buf_overflow}
use netlink_exporter.Wire.{Bytes}

-- How a submission ends: the queue is full, waiting fails, no completion is there, or one is there
-- with its `i32` result, `done n` for n ≥ 0 and `failed e` for -e.
pub data Completion : Type 0 where
  push_error : Text → Completion
  wait_error : Text → Completion
  no_cqe : Completion
  failed : ℕ → Completion
  done : ℕ → Completion

-- `libc::ENOBUFS`
abbrev pub enobufs : ℕ
enobufs = 105

-- `io::Error::from_raw_os_error(e).to_string()` is the standard library's table of messages.
module _ (os_error : ℕ → Text) where
  unfoldable pub uring_send : Bytes → Completion → Result ℕ
  uring_send buf (push_error e) = err (send_failed (codes "SQ push: " ++ e))
  uring_send buf (wait_error e) = err (send_failed (codes "submit_and_wait: " ++ e))
  uring_send buf no_cqe = err (send_failed (codes "no CQE after submit_and_wait"))
  uring_send buf (failed e) = err (send_failed (os_error e))
  uring_send buf (done sent) =
      if not (sent == length buf)
      then err (
          send_failed (
            codes "partial send: "
            ++ (decimal sent ++ (codes " of " ++ (decimal (length buf) ++ codes " bytes")))))
      else ok sent

  unfoldable pub uring_recv : Completion → Result ℕ
  uring_recv (push_error e) = err (recv_failed (codes "SQ push: " ++ e))
  uring_recv (wait_error e) = err (recv_failed (codes "submit_and_wait: " ++ e))
  uring_recv no_cqe = err (recv_failed (codes "no CQE after submit_and_wait"))
  uring_recv (failed e) =
      if e == enobufs then err recv_buf_overflow else err (recv_failed (os_error e))
  uring_recv (done n) = ok n
