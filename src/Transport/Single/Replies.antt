-- ===== src/Transport/Single/Replies.antt =====
-- A single request returns with the first data message, and needs no `NLMSG_DONE`.
use netlink_exporter.Base.{
  ℕ, ◌/◌, ◌%◌, ◌^◌, ◌<◌, Bool, true, false, List, [], ◌∷◌, ◌++◌, Option, some, ◌≡◌, refl, sym, ap,
  ◌∙◌, arith, length, All, map, append-nil,
}
use netlink_exporter.Base.Text.{Text}
use netlink_exporter.Transport.{Result, ok, err, action}
use netlink_exporter.Transport.Datagram.{Message, IsMessage, run, parse_datagram-encode_all}
use netlink_exporter.Transport.Datagram.Reading.{Reads, Reads-run, Reads-append}
use netlink_exporter.Transport.Dump.{Ends, returns, Received}
use netlink_exporter.Transport.Dump.Frames.{IsData, run-IsData, Chunk, received, All-map}
use netlink_exporter.Transport.Ring.{uring_recv}
use netlink_exporter.Transport.Single.{single_loop, after_single}
use netlink_exporter.Wire.{Bytes}

-- `NLMSG_NOOP`, with no interruption flag.
pub record IsNoop (m : Message) : Type 0 where
  pub message : IsMessage m
  pub no_intr : m.flags / 2 ^ 4 % 2 ≡ 0
  pub noop : m.ty ≡ 1

run-IsNoop :
    (ms more : List Message) (out : List Bytes)
    → All IsNoop ms
    → run (ms ++ more) out ≡ run more out
unfolding action
run-IsNoop [] more out h = refl
run-IsNoop (m ∷ ms) more out (n, h) = ground (arith, n.no_intr, n.noop, run-IsNoop ms more out h)

-- What the call returns when the datagram with the reply has been read.
abbrev pub reply_of : Bytes → Result Bool → Result (Option Bytes)
reply_of reply (ok stop) = ok (some reply)
reply_of reply (err e) = err e

after_single-reply_of :
    (reply : Bytes) (more : List Bytes) (next : List Bytes → Ends (Result (Option Bytes)))
    (res : Result Bool)
    → after_single (res, reply ∷ more) next ≡ returns (reply_of reply res)
after_single-reply_of reply more next (ok true) = refl
after_single-reply_of reply more next (ok false) = refl
after_single-reply_of reply more next (err e) = refl

module _ (os_error : ℕ → Text) where
  single_loop-received :
      (c : Chunk) (script : List Received) (out : List Bytes)
      → All IsMessage c.messages
      → length c.tail < 16
      → single_loop os_error (received c ∷ script) out
        ≡ after_single (run c.messages out) (λ out'. single_loop os_error script out')
  unfolding single_loop uring_recv
  single_loop-received c script out h ht =
      ap
        (λ (p : Result Bool × List Bytes).
          after_single p (λ out'. single_loop os_error script out'))
        (parse_datagram-encode_all c.messages c.tail c.stale out h ht)

  -- A datagram of `NLMSG_NOOP`s alone is skipped.
  pub single_loop-IsNoop :
      (cs : List Chunk) (script : List Received)
      → All (λ c. All IsNoop c.messages × (length c.tail < 16)) cs
      → single_loop os_error (map received cs ++ script) [] ≡ single_loop os_error script []
  single_loop-IsNoop [] script h = refl
  single_loop-IsNoop (c ∷ cs) script ((hc, ht), h) =
      single_loop-received c (map received cs ++ script) []
        (All-map (λ m n. n.message) c.messages hc) ht
      ∙ ap
          (λ (l : List Message).
            after_single (run l []) (λ o. single_loop os_error (map received cs ++ script) o))
          (sym (append-nil c.messages))
      ∙ ap
          (λ (p : Result Bool × List Bytes).
            after_single p (λ o. single_loop os_error (map received cs ++ script) o))
          (run-IsNoop c.messages [] [] hc)
      ∙ single_loop-IsNoop cs script h

  -- After datagrams of `NLMSG_NOOP`s alone, a datagram of `NLMSG_NOOP`s, a data message and any other
  -- messages ends the call at once, whatever the kernel would still send. The call returns the payload
  -- of that first data message if the messages behind it in the datagram are read to their end or to
  -- one that ends well, and the error if one of them ends with an error.
  pub single_loop-reply :
      (cs : List Chunk) (c : Chunk) (noops : List Message) (m : Message) (ms : List Message)
      (script : List Received) (res : Result Bool) (out : List Bytes)
      → All (λ d. All IsNoop d.messages × (length d.tail < 16)) cs
      → c.messages ≡ noops ++ m ∷ ms
      → All IsMessage c.messages
      → All IsNoop noops
      → IsData m
      → Reads ms (m.payload ∷ []) (res, out)
      → length c.tail < 16
      → single_loop os_error (map received cs ++ received c ∷ script) []
        ≡ returns (reply_of m.payload res)
  single_loop-reply cs c noops m ms script res out hcs hl hm hn d reads ht =
      let next : List Bytes → Ends (Result (Option Bytes)) = λ o. single_loop os_error script o in
      let (more, e) = Reads-append reads in
      single_loop-IsNoop cs (received c ∷ script) hcs
      ∙ single_loop-received c script [] hm ht
      ∙ ap (λ (l : List Message). after_single (run l []) next) hl
      ∙ ap (λ (p : Result Bool × List Bytes). after_single p next)
          (run-IsNoop noops (m ∷ ms) [] hn ∙ run-IsData (m ∷ []) ms [] (d, tt) ∙ Reads-run reads)
      ∙ ap (λ (o : List Bytes). after_single (res, o) next) e
      ∙ after_single-reply_of m.payload more next res
