-- ===== src/Transport/Dump/Frames.antt =====
-- What a dump returns, message by message.
use netlink_exporter.Base.{
  ℕ, ◌/◌, ◌%◌, ◌^◌, ◌<◌, Bool, true, List, [], ◌∷◌, ◌++◌, Option, ◌≡◌, ◌⊎◌, sym, ap, ◌∙◌, arith,
  length, All, map, append_assoc, append-nil,
}
use netlink_exporter.Base.Text.{Text}
use netlink_exporter.Transport.{Result, ok, go_on, action}
use netlink_exporter.Transport.Ring.{Completion, done, uring_send, uring_recv}
use netlink_exporter.Transport.Datagram.{
  Message, IsMessage, encode_all, run, parse_datagram-encode_all,
}
use netlink_exporter.Transport.Dump.{
  returns, Received, complete, after_parse, recv_phase, dump_loop,
}
use netlink_exporter.Wire.{Bytes}

-- A message of a dump that carries data: no control type, and no interruption flag.
pub record IsData (m : Message) : Type 0 where
  pub message : IsMessage m
  pub no_intr : m.flags / 2 ^ 4 % 2 ≡ 0
  pub no_control : (m.ty ≡ 0) ⊎ (4 < m.ty)

action-IsData :
    (m : Message) (out : List Bytes)
    → IsData m
    → action m.ty m.flags m.payload out ≡ go_on (out ++ m.payload ∷ [])
unfolding action
action-IsData m out d = ground (arith, d.no_intr, d.no_control)

abbrev pub payloads : List Message → List Bytes
payloads [] = []
payloads (m ∷ ms) = m.payload ∷ payloads ms

-- Data messages are appended in order; what follows them decides the rest.
pub run-IsData :
    (ms more : List Message) (out : List Bytes)
    → All IsData ms
    → run (ms ++ more) out ≡ run more (out ++ payloads ms)
run-IsData [] more out h = ap (λ (o : List Bytes). run more o) (sym (append-nil out))
run-IsData (m ∷ ms) more out (d, h) =
    rw (action-IsData m out d, run)
      (run-IsData ms more (out ++ m.payload ∷ []) h
        ∙ ap (λ (o : List Bytes). run more o) (append_assoc out (m.payload ∷ []) (payloads ms)))

run-done :
    (end : Message) (more : List Message) (out : List Bytes)
    → end.ty ≡ 3
    → end.flags / 2 ^ 4 % 2 ≡ 0
    → run (end ∷ more) out ≡ (ok true, out)
unfolding action
run-done end more out h3 hf = ground arith

-- A receive buffer that holds the messages, a fragment shorter than a header, and stale bytes.
pub record Chunk : Type 0 where
  pub messages : List Message
  pub tail : Bytes
  pub stale : Bytes

abbrev pub received : Chunk → Received
received c = record {
  completion = done (length (encode_all c.messages ++ c.tail));
  buffer = (encode_all c.messages ++ c.tail) ++ c.stale;
}

pub record IsChunk (c : Chunk) : Type 0 where
  pub all_data : All IsData c.messages
  pub short : length c.tail < 16

abbrev pub all_payloads : List Chunk → List Bytes
all_payloads [] = []
all_payloads (c ∷ cs) = payloads c.messages ++ all_payloads cs

pub All-map {ℓ κ μ} :
    {A : Type ℓ} {P : A → Type κ} {Q : A → Type μ}
    → ((a : A) → P a → Q a)
    → (xs : List A) → All P xs
    → All Q xs
All-map f [] h = tt
All-map f (x ∷ xs) (p, h) = (f x p, All-map f xs h)

module _ (os_error : ℕ → Text) where
  recv_phase-received :
      (c : Chunk) (script : List Received) (out : List Bytes)
      → All IsMessage c.messages
      → length c.tail < 16
      → recv_phase os_error (received c ∷ script) out
        ≡ after_parse (run c.messages out) (λ out'. recv_phase os_error script out')
  unfolding recv_phase uring_recv
  recv_phase-received c script out h ht =
      ap (λ (p : Result Bool × List Bytes). after_parse p (λ out'. recv_phase os_error script out'))
        (parse_datagram-encode_all c.messages c.tail c.stale out h ht)

  recv_phase-data :
      (cs : List Chunk) (script : List Received) (out : List Bytes)
      → All IsChunk cs
      → recv_phase os_error (map received cs ++ script) out
        ≡ recv_phase os_error script (out ++ all_payloads cs)
  recv_phase-data [] script out h =
      ap (λ (o : List Bytes). recv_phase os_error script o) (sym (append-nil out))
  recv_phase-data (c ∷ cs) script out (d, h) =
      recv_phase-received c (map received cs ++ script) out
        (All-map (λ m x. x.message) c.messages d.all_data) d.short
      ∙ ap
          (λ (ms : List Message).
            after_parse (run ms out) (λ o. recv_phase os_error (map received cs ++ script) o))
          (sym (append-nil c.messages))
      ∙ rw (run-IsData c.messages [] out d.all_data) (
          recv_phase-data cs script (out ++ payloads c.messages) h
          ∙ ap (λ (o : List Bytes). recv_phase os_error script o)
              (append_assoc out (payloads c.messages) (all_payloads cs)))

  -- A dump whose request is sent and whose answer is data messages over any number of datagrams, and
  -- in the last one `NLMSG_DONE`, returns the payloads of all of them in the order of arrival, whatever
  -- stands behind `NLMSG_DONE`, in the stale part of the buffers, or in the script after it.
  pub dump_loop-payloads :
      (request : Bytes) (g : Option Text) (s : Completion) (sends : List Completion) {n : ℕ}
      (cs : List Chunk) (last : Chunk) (ms : List Message) (end : Message) (more : List Message)
      (script : List Received) (retried : Bool) (rcvbuf : ℕ)
      → uring_send os_error request s ≡ ok n
      → All IsChunk cs
      → last.messages ≡ ms ++ end ∷ more
      → All IsMessage last.messages
      → length last.tail < 16
      → All IsData ms
      → end.ty ≡ 3
      → end.flags / 2 ^ 4 % 2 ≡ 0
      → dump_loop os_error request g
          (s ∷ sends)
          (map received cs ++ received last ∷ script)
          retried
          rcvbuf
        ≡ returns (ok (all_payloads cs ++ payloads ms, rcvbuf))
  unfolding dump_loop
  dump_loop-payloads request g s sends cs last ms end more script retried rcvbuf hs hc hl hm ht hd
        h3 hf =
      let seen : List Bytes = all_payloads cs in
      let phase : recv_phase os_error (map received cs ++ received last ∷ script) []
          ≡ complete (seen ++ payloads ms) =
        recv_phase-data cs (received last ∷ script) [] hc
        ∙ recv_phase-received last script seen hm ht
        ∙ ap (λ (l : List Message). after_parse (run l seen) (λ o. recv_phase os_error script o)) hl
        ∙ ap (λ (p : Result Bool × List Bytes). after_parse p (λ o. recv_phase os_error script o))
            (run-IsData ms (end ∷ more) seen hd ∙ run-done end more (seen ++ payloads ms) h3 hf) in
      ground (arith, phase)
