-- ===== src/Transport/Datagram/Reading.antt =====
-- What the messages of a datagram ask of `parse_datagram` of crates/nlx-netlink/src/transport.rs, as a
-- relation on messages.
use netlink_exporter.Base.{
  ℕ, ◌-◌, ◌/◌, ◌%◌, ◌^◌, ◌≤◌, ◌<◌, Bool, true, false, List, [], ◌∷◌, ◌++◌, ◌≡◌, ◌≢◌, ◌↔◌, ◌∙◌, sym,
  refl, inl, inr, arith, length, take, All, Bool-cases, ◌==◌, ltb, append-nil, append_assoc,
  append-nil, append_assoc,
}
use mathlib.Core.Path.{subst, ap}
use netlink_exporter.Base.Text.{codes}
use netlink_exporter.Transport.{
  Result, ok, err, dump_intr, recv_buf_overflow, kernel_error, parse_failed, Action, finish, go_on,
  action, error_action, parse_datagram,
}
use netlink_exporter.Transport.Datagram.{
  Message, IsMessage, encode_all, run, parse_datagram-encode_all,
}
use netlink_exporter.Wire.{Bytes, from_ne_bytes}

-- The flag `NLM_F_DUMP_INTR`, the fifth bit.
abbrev pub intr_flag : Message → ℕ
intr_flag m = m.flags / 16 % 2

-- The error number of an `NLMSG_ERROR`, as the bit pattern of an `i32`.
abbrev pub errno_bits : Message → ℕ
errno_bits m = from_ne_bytes (take 4 m.payload)

-- What one message asks, with the payloads collected before it. The types 1, 2, 3 and 4 are
-- `NLMSG_NOOP`, `NLMSG_ERROR`, `NLMSG_DONE` and `NLMSG_OVERRUN`.
pub data Asks (m : Message) (out : List Bytes) : Action → Type 0 where
  interrupted : intr_flag m ≡ 1 → Asks m out (finish (err dump_intr))
  noop : intr_flag m ≡ 0 → m.ty ≡ 1 → Asks m out (go_on out)
  short_error :
      intr_flag m ≡ 0
      → m.ty ≡ 2
      → length m.payload < 4
      → Asks m out (finish (err (parse_failed (codes "NLMSG_ERROR payload too short"))))
  ack :
      intr_flag m ≡ 0
      → m.ty ≡ 2
      → 4 ≤ length m.payload
      → errno_bits m ≡ 0
      → Asks m out (finish (ok true))
  positive_error :
      intr_flag m ≡ 0
      → m.ty ≡ 2
      → 4 ≤ length m.payload
      → errno_bits m ≢ 0
      → errno_bits m < 2 ^ 31
      → Asks m out (finish (err (kernel_error (errno_bits m))))
  negative_error :
      intr_flag m ≡ 0
      → m.ty ≡ 2
      → 4 ≤ length m.payload
      → 2 ^ 31 ≤ errno_bits m
      → Asks m out (finish (err (kernel_error (2 ^ 32 - errno_bits m))))
  done : intr_flag m ≡ 0 → m.ty ≡ 3 → Asks m out (finish (ok true))
  overrun : intr_flag m ≡ 0 → m.ty ≡ 4 → Asks m out (finish (err recv_buf_overflow))
  payload :
      intr_flag m ≡ 0
      → m.ty ≢ 1
      → m.ty ≢ 2
      → m.ty ≢ 3
      → m.ty ≢ 4
      → Asks m out (go_on (out ++ m.payload ∷ []))

-- The messages one after the other, up to the first that asks to end.
pub data Reads : List Message → List Bytes → Result Bool × List Bytes → Type 0 where
  at_end : {out : List Bytes} → Reads [] out (ok false, out)
  ends :
      {m : Message} {ms : List Message} {out : List Bytes} {r : Result Bool}
      → Asks m out (finish r)
      → Reads (m ∷ ms) out (r, out)
  goes_on :
      {m : Message} {ms : List Message} {out out' : List Bytes} {r : Result Bool × List Bytes}
      → Asks m out (go_on out')
      → Reads ms out' r
      → Reads (m ∷ ms) out r

error_action-Asks :
    (m : Message) (out : List Bytes)
    → intr_flag m ≡ 0
    → m.ty ≡ 2
    → Asks m out (error_action m.payload)
unfolding error_action
error_action-Asks m out intr ty = elim (Bool-cases (ltb (length m.payload) 4)) [
  | inl short ↦ rw (error_action, short) (short_error intr ty (ground (arith, short)))
  | inr long ↦ elim (Bool-cases (errno_bits m == 0)) [
    | inl zero_bits ↦
        rw (error_action, long, zero_bits)
          (ack intr ty (ground (arith, long)) (ground (arith, zero_bits)))
    | inr bits ↦ elim (Bool-cases (ltb (errno_bits m) (2 ^ 31))) [
      | inl low ↦
          rw (error_action, long, bits, low)
            (positive_error intr ty (ground (arith, long)) (λ e. ground (arith, bits, e))
              (ground (arith, low)))
      | inr high ↦
          rw (error_action, long, bits, high)
            (negative_error intr ty (ground (arith, long)) (ground (arith, high)))
    ]
  ]
]

-- The decision of the code is one that the relation allows.
action-Asks : (m : Message) (out : List Bytes) → Asks m out (action m.ty m.flags m.payload out)
unfolding action
action-Asks m out = elim (Bool-cases (m.flags / 2 ^ 4 % 2 == 1)) [
  | inl flagged ↦ rw (action, flagged) (interrupted (ground (arith, flagged)))
  | inr unflagged ↦
      let plain : intr_flag m ≡ 0 = ground (arith, unflagged) in
      elim (Bool-cases (m.ty == 1)) [
        | inl ty1 ↦ rw (action, unflagged, ty1) (noop plain (ground (arith, ty1)))
        | inr no1 ↦ elim (Bool-cases (m.ty == 3)) [
          | inl ty3 ↦ rw (action, unflagged, no1, ty3) (done plain (ground (arith, ty3)))
          | inr no3 ↦ elim (Bool-cases (m.ty == 4)) [
            | inl ty4 ↦ rw (action, unflagged, no1, no3, ty4) (overrun plain (ground (arith, ty4)))
            | inr no4 ↦ elim (Bool-cases (m.ty == 2)) [
              | inl ty2 ↦
                  rw (action, unflagged, no1, no3, no4, ty2)
                    (error_action-Asks m out plain (ground (arith, ty2)))
              | inr no2 ↦
                  rw (action, unflagged, no1, no3, no4, no2)
                    (payload plain (λ e. ground (arith, no1, e)) (λ e. ground (arith, no2, e))
                      (λ e. ground (arith, no3, e)) (λ e. ground (arith, no4, e)))
            ]
          ]
        ]
      ]
]

-- The rest of a run after what one message asked.
abbrev after : List Message → List Bytes → Action → Result Bool × List Bytes
after ms out (finish r) = (r, out)
after ms out (go_on out') = run ms out'

after-Reads :
    (m : Message) (ms : List Message) (out : List Bytes) (a : Action)
    → ((out' : List Bytes) → Reads ms out' (run ms out'))
    → Asks m out a
    → Reads (m ∷ ms) out (after ms out a)
after-Reads m ms out (finish r) later asks = ends asks
after-Reads m ms out (go_on out') later asks = goes_on asks (later out')

run-Reads : (ms : List Message) (out : List Bytes) → Reads ms out (run ms out)
run-Reads [] out = at_end
run-Reads (m ∷ ms) out =
    after-Reads m ms out (action m.ty m.flags m.payload out) (run-Reads ms) (action-Asks m out)

-- The relation allows no other decision.
Asks-action :
    {m : Message} {out : List Bytes} {a : Action}
    → Asks m out a
    → action m.ty m.flags m.payload out ≡ a
unfolding action error_action
Asks-action (interrupted intr) = ground (arith, intr)
Asks-action (noop plain ty) = ground (arith, plain, ty)
Asks-action (short_error plain ty short) = ground (arith, plain, ty, short)
Asks-action (ack plain ty long bits) = ground (arith, plain, ty, long, bits)
Asks-action (positive_error plain ty long bits low) = ground (arith, plain, ty, long, bits, low)
Asks-action (negative_error plain ty long high) = ground (arith, plain, ty, long, high)
Asks-action (done plain ty) = ground (arith, plain, ty)
Asks-action (overrun plain ty) = ground (arith, plain, ty)
Asks-action (payload plain no1 no2 no3 no4) = ground (arith, plain, no1, no2, no3, no4)

pub Reads-run :
    {ms : List Message} {out : List Bytes} {r : Result Bool × List Bytes}
    → Reads ms out r
    → run ms out ≡ r
Reads-run at_end = refl
Reads-run (ends {ms = ms} {out = out} asks) = ap (after ms out) (Asks-action asks)
Reads-run (goes_on {ms = ms} {out = out} asks later) =
    ap (after ms out) (Asks-action asks) ∙ Reads-run later

-- The output is only added to.
Asks-append :
    {m : Message} {out out' : List Bytes}
    → Asks m out (go_on out')
    → (more : List Bytes) × (out' ≡ out ++ more)
Asks-append {out = out} (noop plain ty) = ([], sym (append-nil out))
Asks-append {m = m} (payload plain no1 no2 no3 no4) = (m.payload ∷ [], refl)

pub Reads-append :
    {ms : List Message} {out : List Bytes} {r : Result Bool × List Bytes}
    → Reads ms out r
    → (more : List Bytes) × (r.1 ≡ out ++ more)
Reads-append (at_end {out = out}) = ([], sym (append-nil out))
Reads-append (ends {out = out} asks) = ([], sym (append-nil out))
Reads-append (goes_on {out = out} asks later) =
    let (more, e) = Asks-append asks in
    let (rest, e') = Reads-append later in
    (more ++ rest, e' ∙ ap (λ (o : List Bytes). o ++ rest) e ∙ append_assoc out more rest)

-- On a datagram of `len` bytes that holds padded messages and then less than a header, the parser's
-- result and output are exactly those of reading the messages one after the other, up to the first
-- that asks to end: one with `NLM_F_DUMP_INTR` ends as interrupted, whatever its type; otherwise a `NLMSG_NOOP`
-- is skipped, a `NLMSG_DONE` ends, a `NLMSG_OVERRUN` ends as overflow, a `NLMSG_ERROR` ends, well if
-- its number is zero and with the number's absolute value if not, and any other message adds its
-- payload to the output. Bytes of the receive buffer past `len` have no effect.
pub parse_datagram-Reads :
    (ms : List Message) (tail stale : Bytes) (out : List Bytes) (r : Result Bool × List Bytes)
    → All IsMessage ms
    → length tail < 16
    → (parse_datagram ((encode_all ms ++ tail) ++ stale) (length (encode_all ms ++ tail)) out ≡ r)
      ↔ Reads ms out r
parse_datagram-Reads ms tail stale out r h ht =
    let parsed = parse_datagram-encode_all ms tail stale out h ht in
    (
      λ e. subst (Reads ms out) (sym parsed ∙ e) (run-Reads ms out),
      λ reads. parsed ∙ Reads-run reads,
    )
