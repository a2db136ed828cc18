-- ===== src/Transport/Retries/Attempts.antt =====
-- How many attempts the loops around a dump take.
use netlink_exporter.Base.{
  ℕ, zero, suc, ◌+◌, ◌≤◌, ◌≡◌, refl, List, [], ◌∷◌, length, inl, inr, ◌⊎◌, arith,
}
use netlink_exporter.Base.Text.{Text}
use netlink_exporter.Transport.{
  Result, ok, err, open_failed, dump_intr, recv_buf_overflow, recv_failed, send_failed,
  kernel_error, parse_failed, join_failed,
}
use netlink_exporter.Transport.Dump.{Ends, returns, waiting, Kernel, Socket, dump}
use netlink_exporter.Transport.Retries.{Session, after_attempt, dump_attempts}
use netlink_exporter.Wire.{Bytes}

-- From `total` dumps that the kernel answers, at most `n` were used; all `n`, if the result is that
-- the dump was interrupted.
abbrev pub Uses : ℕ → ℕ → Ends (Session × Result (List Bytes)) → Type 0
Uses total n waiting = Unit
Uses total n (returns (s, r)) =
    (total ≤ n + length s.kernels) × (r ≡ err dump_intr → total ≡ n + length s.kernels)

after_attempt-Uses :
    (s : Session) (r : Result (List Bytes)) (again : Ends (Session × Result (List Bytes)))
    (total n : ℕ)
    → total ≡ suc (length s.kernels)
    → Uses total (suc n) again
    → Uses total (suc n) (after_attempt s r again)
after_attempt-Uses s (ok frames) again total n e h = (omega (arith, e), λ f. cc)
after_attempt-Uses s (err dump_intr) again total n e h = h
after_attempt-Uses s (err (open_failed x)) again total n e h = (omega (arith, e), λ f. cc)
after_attempt-Uses s (err recv_buf_overflow) again total n e h = (omega (arith, e), λ f. cc)
after_attempt-Uses s (err (recv_failed x)) again total n e h = (omega (arith, e), λ f. cc)
after_attempt-Uses s (err (send_failed x)) again total n e h = (omega (arith, e), λ f. cc)
after_attempt-Uses s (err (kernel_error x)) again total n e h = (omega (arith, e), λ f. cc)
after_attempt-Uses s (err (parse_failed x)) again total n e h = (omega (arith, e), λ f. cc)
after_attempt-Uses s (err (join_failed x)) again total n e h = (omega (arith, e), λ f. cc)

Uses-suc :
    (total n : ℕ) (e : Ends (Session × Result (List Bytes)))
    → Uses total n e
    → Uses (suc total) (suc n) e
Uses-suc total n waiting h = tt
Uses-suc total n (returns (s, r)) h = (omega (arith, h.0), λ f. omega (arith, h.1 f))

Ends-cases {ℓ} : {A : Type ℓ} (e : Ends A) → (e ≡ waiting) ⊎ ((a : A) × (e ≡ returns a))
Ends-cases waiting = inl refl
Ends-cases (returns a) = inr (a, refl)

module _ (os_error : ℕ → Text) (msg_type : ℕ) where
  pub dump_attempts-Uses :
      (n : ℕ) (req : Bytes) (sock : Socket) (counter : ℕ) (kernels : List Kernel)
      → Uses (length kernels) n (
          dump_attempts os_error msg_type n req
            (record { sock = sock; counter = counter; kernels = kernels }))
  unfolding dump_attempts
  dump_attempts-Uses zero req sock counter kernels = (omega arith, λ f. omega arith)
  dump_attempts-Uses (suc n) req sock counter [] = tt
  dump_attempts-Uses (suc n) req sock counter (k ∷ kernels) =
      elim (Ends-cases (dump os_error k sock counter msg_type 0 req)) [
        | inl e ↦ rw (e, dump_attempts) tt
        | inr (((sock', r), counter'), e) ↦
            rw (e, dump_attempts)
              (after_attempt-Uses (record { sock = sock'; counter = counter'; kernels = kernels }) r
                (dump_attempts os_error msg_type n req
                  (record { sock = sock'; counter = counter'; kernels = kernels }))
                (suc (length kernels)) n refl
                (Uses-suc (length kernels) n _ (dump_attempts-Uses n req sock' counter' kernels)))
      ]
