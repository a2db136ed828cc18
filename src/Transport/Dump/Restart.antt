-- ===== src/Transport/Dump/Restart.antt =====
-- The overflow circuit-breaker of `blocking_dump`.
use Prim.Native.Nat.{bit_or}
use netlink_exporter.Base.{
  ℕ, ◌≤◌, Bool, true, false, List, [], ◌∷◌, ◌++◌, Option, none, ◌≡◌, ◌≢◌, ◌⊎◌, inl, inr, refl,
  arith,
}
use netlink_exporter.Base.Text.{Text}
use netlink_exporter.Transport.{
  NetlinkError, Result, ok, err, recv_buf_overflow, max_rcvbuf, parse_datagram, build_request,
}
use netlink_exporter.Transport.Ring.{Completion, uring_send, uring_recv}
use netlink_exporter.Transport.Dump.{
  Ends, returns, waiting, Received, Phase, complete, overflowed, broken, starved, grown, Kernel,
  Socket, after_parse, recv_phase, dump_loop, blocking_dump, dump,
}
use netlink_exporter.Wire.{Bytes}

Result-cases {ℓ} :
    {A : Type ℓ} (r : Result A) → ((a : A) × (r ≡ ok a)) ⊎ ((e : NetlinkError) × (r ≡ err e))
Result-cases (ok a) = inl (a, refl)
Result-cases (err e) = inr (e, refl)

-- The phases other than an overflow.
abbrev other_phase : Ends (List Bytes ⊎ NetlinkError) → Phase
other_phase (returns (inl out)) = complete out
other_phase (returns (inr e)) = broken e
other_phase waiting = starved

Overflowed-cases :
    (p : Phase)
    → ((left : List Received) × (p ≡ overflowed left))
      ⊎ ((q : Ends (List Bytes ⊎ NetlinkError)) × (p ≡ other_phase q))
Overflowed-cases (overflowed left) = inl (left, refl)
Overflowed-cases (complete out) = inr (returns (inl out), refl)
Overflowed-cases (broken x) = inr (returns (inr x), refl)
Overflowed-cases starved = inr (waiting, refl)

module _ (os_error : ℕ → Text) where
  -- A receive that reports an overflow, after receives that neither end the dump nor fail.
  after_parse_starved :
      (p : Result Bool × List Bytes) (script : List Received) (r : Received) (after : List Received)
      → uring_recv os_error r.completion ≡ err recv_buf_overflow
      → ((out : List Bytes)
          → recv_phase os_error script out ≡ starved
          → recv_phase os_error (script ++ r ∷ after) out ≡ overflowed after)
      → after_parse p (λ out. recv_phase os_error script out) ≡ starved
      → after_parse p (λ out. recv_phase os_error (script ++ r ∷ after) out) ≡ overflowed after
  after_parse_starved (ok true, out) script r after e ih h = cc
  after_parse_starved (ok false, out) script r after e ih h = ih out h
  after_parse_starved (err x, out) script r after e ih h = cc

  pub recv_phase-overflow :
      (before : List Received) (r : Received) (after : List Received) (out : List Bytes)
      → uring_recv os_error r.completion ≡ err recv_buf_overflow
      → recv_phase os_error before out ≡ starved
      → recv_phase os_error (before ++ r ∷ after) out ≡ overflowed after
  unfolding recv_phase
  recv_phase-overflow [] r after out e h = rw (e, recv_phase)
  recv_phase-overflow (x ∷ before) r after out e h =
      elim (Result-cases (uring_recv os_error x.completion)) [
        | inl (n, got) ↦
            rw (got, recv_phase)
              (after_parse_starved (parse_datagram x.buffer n out) before r after e
                (λ o. recv_phase-overflow before r after o e) (rw (got, recv_phase) at h))
        | inr (recv_buf_overflow, got) ↦ cc (rw (got, recv_phase) at h)
        | inr (other, got) ↦ ground (arith, h)
      ]

  module _ (request : Bytes) where
    -- At the first overflow of a dump whose buffer can grow, behind receives that neither end the dump
    -- nor fail, the dump goes on as a new one with the larger buffer: the frames that it has are
    -- dropped, the request is sent again, and there is no further restart.
    pub dump_loop-restart :
        (s : Completion) (sends : List Completion) (before : List Received) (r : Received)
        (after : List Received) (rcvbuf : ℕ) {n : ℕ}
        → uring_send os_error request s ≡ ok n
        → recv_phase os_error before [] ≡ starved
        → uring_recv os_error r.completion ≡ err recv_buf_overflow
        → grown rcvbuf ≢ rcvbuf
        → dump_loop os_error request none (s ∷ sends) (before ++ r ∷ after) false rcvbuf
          ≡ dump_loop os_error request none sends after true (grown rcvbuf)
    unfolding dump_loop
    dump_loop-restart s sends before r after rcvbuf hs hb hr hg =
        ground (arith, recv_phase-overflow before r after [] hr hb)

    -- After a restart nothing depends on further sends: the code never asks for a third.
    dump_loop_retried :
        (g : Option Text) (s : Completion) (sends : List Completion) (script : List Received)
        (rcvbuf : ℕ)
        → dump_loop os_error request g (s ∷ sends) script true rcvbuf
          ≡ dump_loop os_error request g (s ∷ []) script true rcvbuf
    unfolding dump_loop
    dump_loop_retried g s sends script rcvbuf = ground arith

    -- Whatever the kernel answers, a dump that has not restarted yet sends its request at most twice.
    pub dump_loop_two_sends :
        (g : Option Text) (s0 s1 : Completion) (sends : List Completion) (script : List Received)
        (rcvbuf : ℕ)
        → dump_loop os_error request g (s0 ∷ s1 ∷ sends) script false rcvbuf
          ≡ dump_loop os_error request g (s0 ∷ s1 ∷ []) script false rcvbuf
    unfolding dump_loop
    dump_loop_two_sends g s0 s1 sends script rcvbuf = ground arith

    -- A second overflow ends the dump with that error: both sends succeed, and what is received before
    -- the first overflow and between the two neither ends the dump nor fails.
    pub dump_loop_second_overflow :
        (s0 s1 : Completion) (sends : List Completion) (before between after : List Received)
        (r0 r1 : Received) (rcvbuf : ℕ) {n m : ℕ}
        → uring_send os_error request s0 ≡ ok n
        → uring_send os_error request s1 ≡ ok m
        → uring_recv os_error r0.completion ≡ err recv_buf_overflow
        → uring_recv os_error r1.completion ≡ err recv_buf_overflow
        → recv_phase os_error before [] ≡ starved
        → recv_phase os_error between [] ≡ starved
        → dump_loop os_error request none
            (s0 ∷ s1 ∷ sends)
            (before ++ r0 ∷ (between ++ r1 ∷ after))
            false
            rcvbuf
          ≡ returns (err recv_buf_overflow)
    unfolding dump_loop
    dump_loop_second_overflow s0 s1 sends before between after r0 r1 rcvbuf h0 h1 e0 e1 q0 q1 =
        ground (
          arith,
          recv_phase-overflow before r0 (between ++ r1 ∷ after) [] e0 q0,
          recv_phase-overflow between r1 after [] e1 q1,
        )

    -- A dump that returns leaves the buffer size alone, or has doubled it once, up to the maximum.
    dump_loop-retried_rcvbuf :
        (g : Option Text) (sends : List Completion) (script : List Received) (rcvbuf : ℕ)
        {frames : List Bytes} {b : ℕ}
        → dump_loop os_error request g sends script true rcvbuf ≡ returns (ok (frames, b))
        → b ≡ rcvbuf
    unfolding dump_loop
    dump_loop-retried_rcvbuf g [] script rcvbuf h = cc
    dump_loop-retried_rcvbuf g (s ∷ sends) script rcvbuf h = ground arith

    pub dump_loop-rcvbuf :
        (g : Option Text) (sends : List Completion) (script : List Received) (rcvbuf : ℕ)
        {frames : List Bytes} {b : ℕ}
        → dump_loop os_error request g sends script false rcvbuf ≡ returns (ok (frames, b))
        → (b ≡ rcvbuf) ⊎ (b ≡ grown rcvbuf)
    unfolding dump_loop
    dump_loop-rcvbuf g [] script rcvbuf h = cc
    dump_loop-rcvbuf g (s ∷ sends) script rcvbuf {frames} {b} h =
        elim (Overflowed-cases (recv_phase os_error script [])) [
          | inl (left, e) ↦ ground (
            arith,
            e,
            dump_loop-retried_rcvbuf g sends left (grown rcvbuf) {frames = frames} {b = b},
          )
          | inr (q, e) ↦ ground (arith, e)
        ]

  abbrev Keeps : ℕ → Ends (Result (List Bytes × ℕ)) → Type 0
  Keeps rcvbuf (returns (ok (frames, b))) = (rcvbuf ≤ b) × (b ≤ max_rcvbuf)
  Keeps rcvbuf (returns (err e)) = Unit
  Keeps rcvbuf waiting = Unit

  Keeps-of :
      (rcvbuf : ℕ) (e : Ends (Result (List Bytes × ℕ)))
      → rcvbuf ≤ max_rcvbuf
      → ((frames : List Bytes) (b : ℕ)
          → e ≡ returns (ok (frames, b))
          → (b ≡ rcvbuf) ⊎ (b ≡ grown rcvbuf))
      → Keeps rcvbuf e
  Keeps-of rcvbuf (returns (ok (frames, b))) h f = ground (arith, f frames b refl)
  Keeps-of rcvbuf (returns (err e)) h f = tt
  Keeps-of rcvbuf waiting h f = tt

  blocking_dump-Keeps :
      (k : Kernel) (rcvbuf : ℕ) (request : Bytes)
      → rcvbuf ≤ max_rcvbuf
      → Keeps rcvbuf (blocking_dump os_error k rcvbuf request)
  unfolding blocking_dump
  blocking_dump-Keeps k rcvbuf request h =
      let inner =
        Keeps-of rcvbuf (dump_loop os_error request k.grow_error k.sends k.script false rcvbuf) h
          (λ frames b e. dump_loop-rcvbuf request k.grow_error k.sends k.script rcvbuf e) in
      ground (arith, inner)

  -- If the size that a socket tracks for its receive buffer is at most the maximum, it is after a dump
  -- that returns, and it is no smaller than before.
  pub dump-rcvbuf_le :
      (k : Kernel) (sock : Socket) (counter msg_type flags : ℕ) (payload : Bytes) {sock' : Socket}
      {r : Result (List Bytes)} {counter' : ℕ}
      → sock.rcvbuf_size ≤ max_rcvbuf
      → dump os_error k sock counter msg_type flags payload ≡ returns ((sock', r), counter')
      → (sock'.rcvbuf_size ≤ max_rcvbuf) × (sock.rcvbuf_size ≤ sock'.rcvbuf_size)
  unfolding dump blocking_dump
  dump-rcvbuf_le k sock counter msg_type flags payload h e =
      let request = (build_request counter msg_type (bit_or flags 0x300) payload).0 in
      ground (arith, blocking_dump-Keeps k sock.rcvbuf_size request h)
