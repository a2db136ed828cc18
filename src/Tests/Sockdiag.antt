-- ===== src/Tests/Sockdiag.antt =====
-- Inputs for the theorems about crates/nlx-netlink/src/collectors/sockdiag.rs.
use netlink_exporter.Base.{◌≡◌, List, [], ◌∷◌, ◌++◌, replicate, some, none}
use netlink_exporter.Base.Text.{codes}
use netlink_exporter.Registry.{encode_samples}
use netlink_exporter.Sockdiag.{Bucket}
use netlink_exporter.Transport.Retries.{Session}
use netlink_exporter.Sockdiag.Keys.{SockKey, tcp, listen, other}
use netlink_exporter.Sockdiag.Others.{encode_samples-other}
use netlink_exporter.Sockdiag.Samples.{bucket_samples}
use netlink_exporter.Tests.Registry.{whole}
use netlink_exporter.Wire.{Bytes}

abbrev listening : SockKey
listening = record { protocol = tcp; state = listen }

-- A listening socket with three bytes in its receive queue, and a frame that is too short.
abbrev frames : List Bytes
frames = (2 ∷ 10 ∷ replicate 54 0 ++ (3 ∷ replicate 15 0)) ∷ (2 ∷ 10 ∷ []) ∷ []

-- One dump, whose file descriptor cannot be duplicated.
abbrev session : Session
session = record {
  sock = record { rcvbuf_size = 4096; nl_family = 4 };
  counter = 1;
  kernels =
      record {
        dup_error = some (codes "EMFILE");
        ring_error = none;
        sends = [];
        script = [];
        grow_error = none;
        join_error = none;
      }
      ∷ [];
}

abbrev one_socket : Bucket
one_socket = record { count = 1; rqueue = 0; wqueue = 0 }

encode_samples-other_example :
    encode_samples whole (
      bucket_samples
        (λ n. n)
        ((record { protocol = tcp; state = other 13 }, one_socket)
          ∷ (record { protocol = tcp; state = other 14 }, one_socket)
          ∷ []))
    ≡ encode_samples whole
        (bucket_samples (λ n. n) ((record { protocol = tcp; state = other 13 }, one_socket) ∷ []))
encode_samples-other_example = encode_samples-other (λ n. n) whole tcp 13 14 one_socket one_socket
