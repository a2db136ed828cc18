-- ===== src/Transport/Dump.antt =====
-- `blocking_dump` and `NetlinkSocket::dump` of crates/nlx-netlink/src/transport.rs.
-- The kernel's side is a script: the completion of each send, of each receive with the buffer that it
-- leaves, and the result of growing the receive buffer, in the order in which the code asks for them.
pub mod Restart
pub mod Frames
use Prim.Native.Nat.{bit_or}
use netlink_exporter.Base.{
  ℕ, zero, suc, ◌+◌, ◌-◌, ◌*◌, ◌^◌, Bool, true, false, List, [], ◌∷◌, ◌++◌, Option, none, some, min,
  ◌==◌, if◌then◌else◌,
}
use netlink_exporter.Base.Text.{Text, codes}
use netlink_exporter.Transport.{
  NetlinkError, Result, ok, err, recv_buf_overflow, recv_failed, max_rcvbuf, parse_datagram,
  join_failed, open_failed, build_request,
}
use netlink_exporter.Transport.Ring.{Completion, uring_send, uring_recv}
use netlink_exporter.Wire.{Bytes}

-- How a call ends. `waiting` is no result: the script is used up, and the call waits for the kernel.
pub data Ends {ℓ} (A : Type ℓ) : Type ℓ where
  returns : A → Ends A
  waiting : Ends A

pub record Received : Type 0 where
  pub completion : Completion
  pub buffer : Bytes

-- How the inner loop `'recv` ends: all frames are there, the kernel's buffer overflowed (with what
-- the kernel delivers after that), or an error.
pub data Phase : Type 0 where
  complete : List Bytes → Phase
  overflowed : List Received → Phase
  broken : NetlinkError → Phase
  starved : Phase

-- `rcvbuf_size.saturating_mul(2).min(MAX_RCVBUF)`
abbrev pub grown : ℕ → ℕ
grown rcvbuf = min (min (rcvbuf * 2) (2 ^ 64 - 1)) max_rcvbuf

-- What the kernel, the standard library and the executor answer during one call.
pub record Kernel : Type 0 where
  pub dup_error : Option Text
  pub ring_error : Option Text
  pub sends : List Completion
  pub script : List Received
  pub grow_error : Option Text
  pub join_error : Option Text

pub record Socket : Type 0 where
  pub rcvbuf_size : ℕ
  pub nl_family : ℕ

-- The `match` on the result of one receive, `later` being the loop's next round.
abbrev pub after_parse : Result Bool × List Bytes → (List Bytes → Phase) → Phase
after_parse (ok true, out) later = complete out
after_parse (ok false, out) later = later out
after_parse (err e, out) later = broken e

module _ (os_error : ℕ → Text) where
  unfoldable pub recv_phase : List Received → List Bytes → Phase
  recv_phase [] out = starved
  recv_phase (r ∷ script) out = elim (uring_recv os_error r.completion) [
    | err recv_buf_overflow ↦ overflowed script
    | err e ↦ broken e
    | ok n ↦ after_parse (parse_datagram r.buffer n out) (λ out'. recv_phase script out')
  ]

  -- The outer loop: one round for each send. `retried` is `enobufs_retried`.
  unfoldable pub dump_loop :
      Bytes
      → Option Text
      → List Completion
      → List Received
      → Bool
      → ℕ
      → Ends (Result (List Bytes × ℕ))
  dump_loop request grow_error [] script retried rcvbuf = waiting
  dump_loop request grow_error (s ∷ sends) script retried rcvbuf =
      elim (uring_send os_error request s) [
        | err e ↦ returns (err e)
        | ok n ↦ elim (recv_phase script []) [
          | complete out ↦ returns (ok (out, rcvbuf))
          | starved ↦ waiting
          | broken e ↦ returns (err e)
          | overflowed left ↦ elim retried [
            | true ↦ returns (err recv_buf_overflow)
            | false ↦ elim (grown rcvbuf == rcvbuf) [
              | true ↦ returns (err recv_buf_overflow)
              | false ↦ elim grow_error [
                | some e ↦ returns (err (recv_failed (codes "SO_RCVBUF grow: " ++ e)))
                | none ↦ dump_loop request grow_error sends left true (grown rcvbuf)
              ]
            ]
          ]
        ]
      ]

  unfoldable pub blocking_dump : Kernel → ℕ → Bytes → Ends (Result (List Bytes × ℕ))
  blocking_dump k rcvbuf request = elim k.ring_error [
    | some e ↦ returns (err (open_failed (codes "io_uring::new: " ++ e)))
    | none ↦ dump_loop request k.grow_error k.sends k.script false rcvbuf
  ]

  -- The `match` on what the blocking thread gives back.
  abbrev pub store_rcvbuf :
      Socket → Option Text → Result (List Bytes × ℕ) → Socket × Result (List Bytes)
  store_rcvbuf sock none (ok (frames, rcvbuf)) = (record sock { rcvbuf_size = rcvbuf }, ok frames)
  store_rcvbuf sock none (err e) = (sock, err e)
  store_rcvbuf sock (some e) r = (sock, err (join_failed e))

  -- `NetlinkSocket::dump`: the socket and the sequence counter after the call, and its result.
  -- `NLM_F_DUMP` is 0x300.
  unfoldable pub dump :
      Kernel → Socket → ℕ → ℕ → ℕ → Bytes → Ends ((Socket × Result (List Bytes)) × ℕ)
  dump k sock counter msg_type flags payload =
      let (request, counter') = build_request counter msg_type (bit_or flags 0x300) payload in
      elim k.dup_error [
        | some e ↦ returns ((sock, err (open_failed (codes "dup failed: " ++ e))), counter')
        | none ↦ elim (blocking_dump k sock.rcvbuf_size request) [
          | waiting ↦ waiting
          | returns r ↦ returns (store_rcvbuf sock k.join_error r, counter')
        ]
      ]
