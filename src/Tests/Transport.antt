-- ===== src/Tests/Transport.antt =====
-- Inputs for the theorems about the messages of crates/nlx-netlink/src/transport.rs.
use netlink_exporter.Base.{
  ℕ, ◌≡◌, ◌↔◌, refl, true, inr, [], ◌∷◌, ◌++◌, map, length, none, some, arith, false,
}
use netlink_exporter.Base.Text.{Text}
use netlink_exporter.Transport.{ok, parse_datagram}
use netlink_exporter.Transport.Datagram.{Message, IsMessage, encode_all}
use netlink_exporter.Transport.Datagram.Reading.{Asks, Reads, ends, goes_on, parse_datagram-Reads}
use netlink_exporter.Transport.Dump.{returns, dump_loop}
use netlink_exporter.Transport.Dump.Frames.{
  Chunk, IsChunk, IsData, received, payloads, all_payloads, dump_loop-payloads,
}
use netlink_exporter.Transport.Genl.{family_reply}
use netlink_exporter.Transport.Genl.Resolve.{family_reply-id}
use netlink_exporter.Transport.Ring.{done, uring_send}
use netlink_exporter.Transport.Single.{single_loop}
use netlink_exporter.Transport.Single.Replies.{IsNoop, single_loop-reply}
use netlink_exporter.Wire.{Nla}
use netlink_exporter.Wire.Build.{to_ne_bytes}
use netlink_exporter.Wire.RoundTrip.{push_all}

abbrev pub no_text : ℕ → Text
no_text e = []

abbrev data_message : Message
data_message = record { ty = 20; flags = 2; seq = 7; payload = 1 ∷ 2 ∷ 3 ∷ [] }

abbrev done_message : Message
done_message = record { ty = 3; flags = 2; seq = 7; payload = 0 ∷ 0 ∷ 0 ∷ 0 ∷ [] }

abbrev noop_message : Message
noop_message = record { ty = 1; flags = 0; seq = 7; payload = [] }

abbrev data_is_message : IsMessage data_message
data_is_message = record { ty_fits = omega arith; flags_fits = omega arith; len_fits = omega arith }

abbrev done_is_message : IsMessage done_message
done_is_message = record { ty_fits = omega arith; flags_fits = omega arith; len_fits = omega arith }

abbrev noop_is_message : IsMessage noop_message
noop_is_message = record { ty_fits = omega arith; flags_fits = omega arith; len_fits = omega arith }

abbrev data_is_data : IsData data_message
data_is_data = record {
  message = data_is_message;
  no_intr = omega arith;
  no_control = inr (omega arith);
}

parse_datagram-Reads_example :
    (parse_datagram
        ((encode_all (data_message ∷ done_message ∷ []) ++ 9 ∷ []) ++ 8 ∷ [])
        (length (encode_all (data_message ∷ done_message ∷ []) ++ 9 ∷ []))
        []
      ≡ (ok true, (1 ∷ 2 ∷ 3 ∷ []) ∷ []))
    ↔ Reads (data_message ∷ done_message ∷ []) [] (ok true, (1 ∷ 2 ∷ 3 ∷ []) ∷ [])
parse_datagram-Reads_example =
    parse_datagram-Reads (data_message ∷ done_message ∷ []) (9 ∷ []) (8 ∷ []) []
      (ok true, (1 ∷ 2 ∷ 3 ∷ []) ∷ []) (data_is_message, (done_is_message, tt)) (omega arith)

-- The reading that this run has: the data message is taken, then the end.
read_both : Reads (data_message ∷ done_message ∷ []) [] (ok true, (1 ∷ 2 ∷ 3 ∷ []) ∷ [])
read_both =
    goes_on
      (Asks.payload refl (λ e. omega (arith, e)) (λ e. omega (arith, e)) (λ e. omega (arith, e))
        (λ e. omega (arith, e)))
      (ends (Asks.done refl refl))

abbrev data_chunk : Chunk
data_chunk = record { messages = data_message ∷ data_message ∷ []; tail = []; stale = 5 ∷ [] }

abbrev last_chunk : Chunk
last_chunk = record { messages = data_message ∷ done_message ∷ []; tail = []; stale = [] }

abbrev data_is_chunk : IsChunk data_chunk
data_is_chunk = record { all_data = (data_is_data, (data_is_data, tt)); short = omega arith }

sent : uring_send no_text (1 ∷ []) (done 1) ≡ ok 1
unfolding uring_send
sent = refl

dump_loop-payloads_example :
    dump_loop no_text
      (1 ∷ [])
      none
      (done 1 ∷ [])
      (map received (data_chunk ∷ []) ++ received last_chunk ∷ [])
      false
      4096
    ≡ returns (ok (all_payloads (data_chunk ∷ []) ++ payloads (data_message ∷ []), 4096))
dump_loop-payloads_example =
    dump_loop-payloads no_text (1 ∷ []) none (done 1) [] (data_chunk ∷ []) last_chunk
      (data_message ∷ []) done_message [] [] false 4096 sent (data_is_chunk, tt) refl
      (data_is_message, (done_is_message, tt)) (omega arith) (data_is_data, tt) refl (omega arith)

abbrev noop_chunk : Chunk
noop_chunk = record { messages = noop_message ∷ []; tail = []; stale = [] }

abbrev noop_is_noop : IsNoop noop_message
noop_is_noop = record { message = noop_is_message; no_intr = omega arith; noop = refl }

abbrev reply_chunk : Chunk
reply_chunk = record {
  messages = noop_message ∷ data_message ∷ done_message ∷ [];
  tail = [];
  stale = [];
}

single_loop-reply_example :
    single_loop no_text (map received (noop_chunk ∷ []) ++ received reply_chunk ∷ []) []
    ≡ returns (ok (some (1 ∷ 2 ∷ 3 ∷ [])))
single_loop-reply_example =
    single_loop-reply no_text (noop_chunk ∷ []) reply_chunk (noop_message ∷ []) data_message
      (done_message ∷ []) [] (ok true) ((1 ∷ 2 ∷ 3 ∷ []) ∷ [])
      (((noop_is_noop, tt), omega arith), tt) refl
      (noop_is_message, (data_is_message, (done_is_message, tt))) (noop_is_noop, tt) data_is_data
      (ends (Asks.done refl refl)) (omega arith)

abbrev version_nla : Nla
version_nla = record { ty = 3; payload = 1 ∷ 0 ∷ 0 ∷ 0 ∷ [] }

abbrev id_nla : Nla
id_nla = record { ty = 1; payload = to_ne_bytes 2 21 ++ [] }

family_reply-id_example :
    family_reply (ok (some (1 ∷ 2 ∷ 0 ∷ 0 ∷ push_all [] (version_nla ∷ id_nla ∷ []))))
    ≡ ok (some 21)
family_reply-id_example =
    family_reply-id 1 2 0 0 21 [] (version_nla ∷ []) [] (omega arith)
      (
        record {
          ty_fits = omega arith;
          len_fits = omega arith;
          are_bytes = (omega arith, (omega arith, (omega arith, (omega arith, tt))));
        },
        (
          record {
            ty_fits = omega arith;
            len_fits = omega arith;
            are_bytes = (omega arith, (omega arith, tt));
          },
          tt,
        ),
      )
      ((λ e. absurd (omega (arith, e))), tt)
