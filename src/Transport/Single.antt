-- ===== src/Transport/Single.antt =====
-- `blocking_request_single` and `NetlinkSocket::request_single` of
-- crates/nlx-netlink/src/transport.rs.
pub mod Replies
use mathlib.Core.List.{head?}
use netlink_exporter.Base.{ℕ, Bool, true, false, not, ◌||◌, List, [], ◌∷◌, ◌++◌, Option, none, some}
use netlink_exporter.Base.Text.{Text, codes}
use netlink_exporter.Transport.{
  NetlinkError, Result, ok, err, open_failed, join_failed, parse_datagram, build_request,
}
use netlink_exporter.Transport.Dump.{Ends, returns, waiting, Received, Kernel, Socket}
use netlink_exporter.Transport.Ring.{uring_send, uring_recv}
use netlink_exporter.Wire.{Bytes}

abbrev is_empty : List Bytes → Bool
is_empty [] = true
is_empty (x ∷ xs) = false

abbrev first : List Bytes → Option Bytes
first [] = none
first (x ∷ xs) = some x

-- The test behind `parse_datagram`, `later` being the loop's next round.
abbrev pub after_single :
    Result Bool × List Bytes
    → (List Bytes → Ends (Result (Option Bytes)))
    → Ends (Result (Option Bytes))
after_single (err e, out) later = returns (err e)
after_single (ok end, out) later = elim (end || not (is_empty out)) [
  | true ↦ returns (ok (first out))
  | false ↦ later out
]

module _ (os_error : ℕ → Text) where
  unfoldable pub single_loop : List Received → List Bytes → Ends (Result (Option Bytes))
  single_loop [] out = waiting
  single_loop (r ∷ script) out = elim (uring_recv os_error r.completion) [
    | err e ↦ returns (err e)
    | ok n ↦ after_single (parse_datagram r.buffer n out) (λ out'. single_loop script out')
  ]

  -- One send, and the receive loop. The kernel's script answers as in `Dump`.
  unfoldable pub blocking_request_single : Kernel → Bytes → Ends (Result (Option Bytes))
  blocking_request_single k request = elim k.ring_error [
    | some e ↦ returns (err (open_failed (codes "io_uring::new: " ++ e)))
    | none ↦ elim k.sends [
      | [] ↦ waiting
      | s ∷ sends ↦ elim (uring_send os_error request s) [
        | err e ↦ returns (err e)
        | ok n ↦ single_loop k.script []
      ]
    ]
  ]

  -- The result of the call and the sequence counter after it; the socket is as before.
  unfoldable pub request_single : Kernel → ℕ → ℕ → ℕ → Bytes → Ends (Result (Option Bytes) × ℕ)
  request_single k counter msg_type flags payload =
      let (request, counter') = build_request counter msg_type flags payload in
      elim k.dup_error [
        | some e ↦ returns (err (open_failed (codes "dup failed: " ++ e)), counter')
        | none ↦ elim (blocking_request_single k request) [
          | waiting ↦ waiting
          | returns r ↦ elim k.join_error [
            | none ↦ returns (r, counter')
            | some e ↦ returns (err (join_failed e), counter')
          ]
        ]
      ]
