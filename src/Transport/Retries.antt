-- ===== src/Transport/Retries.antt =====
-- The collectors' loops around `NetlinkSocket::dump` that start an interrupted dump again. The kernel
-- answers each dump with an entry of `kernels`.
pub mod Attempts
use netlink_exporter.Base.{ℕ, zero, suc, List, [], ◌∷◌, ◌⊎◌, inl, inr}
use netlink_exporter.Base.Text.{Text}
use netlink_exporter.Transport.{Result, ok, err, dump_intr, max_dump_restarts}
use netlink_exporter.Transport.Dump.{Ends, returns, waiting, Kernel, Socket, dump}
use netlink_exporter.Wire.{Bytes}

-- The variables that the dumps change: the socket, the sequence counter, and the kernel's script.
pub record Session : Type 0 where
  pub sock : Socket
  pub counter : ℕ
  pub kernels : List Kernel

-- A step with the session, which may wait or fail with a text.
abbrev pub Step : Type 0 → Type 0
Step A = Ends (Session × (Text ⊎ A))

abbrev pub and_then : {A B : Type 0} → Step A → (Session → A → Step B) → Step B
and_then waiting next = waiting
and_then (returns (s, inl e)) next = returns (s, inl e)
and_then (returns (s, inr a)) next = next s a

-- The `match` on one attempt, `again` being the next one.
abbrev pub after_attempt :
    Session
    → Result (List Bytes)
    → Ends (Session × Result (List Bytes))
    → Ends (Session × Result (List Bytes))
after_attempt s (ok frames) again = returns (s, ok frames)
after_attempt s (err dump_intr) again = again
after_attempt s (err e) again = returns (s, err e)

module _ (os_error : ℕ → Text) (msg_type : ℕ) where
  -- The loop with `left` attempts before it gives up.
  unfoldable pub dump_attempts : ℕ → Bytes → Session → Ends (Session × Result (List Bytes))
  dump_attempts zero req s = returns (s, err dump_intr)
  dump_attempts (suc left) req s = elim s.kernels [
    | [] ↦ waiting
    | k ∷ kernels ↦ elim (dump os_error k s.sock s.counter msg_type 0 req) [
      | waiting ↦ waiting
      | returns ((sock, r), counter) ↦
          let s' : Session = record { sock = sock; counter = counter; kernels = kernels } in
          after_attempt s' r (dump_attempts left req s')
    ]
  ]

  -- `dump_with_retries` of collectors/tc.rs: `restarts` counts up to the limit.
  unfoldable pub dump_with_retries : Bytes → Session → Ends (Session × Result (List Bytes))
  unfolding dump_attempts
  dump_with_retries payload s = dump_attempts max_dump_restarts payload s
