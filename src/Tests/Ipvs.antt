-- ===== src/Tests/Ipvs.antt =====
-- Inputs for the theorems about crates/nlx-netlink/src/collectors/ipvs.rs.
use netlink_exporter.Base.{
  ℕ, ◌+◌, ◌-◌, ◌*◌, ◌^◌, ◌≤◌, ◌≡◌, refl, ap, inl, false, List, [], ◌∷◌, ◌++◌, map, Option, none,
  some, ◌==◌, if◌then◌else◌, length, arith,
}
use netlink_exporter.Base.Text.{Text, codes, decimal, decimal_fuel}
use netlink_exporter.Ipvs.{
  Addresses, has_colon, service_attr, dest_attr, addr_to_str, parse_service, parse_destination,
}
use netlink_exporter.Ipvs.Requests.{service_key, build_dest_request}
use netlink_exporter.Ipvs.Samples.{push_svc_metrics, push_dest_metrics}
use netlink_exporter.Base.Digits.{from_str_radix, read_digits, to_digit}
use netlink_exporter.Ipvs.Collect.{
  collect, collect_family, collect_services, dump_dests_for, dump_services_with_sock,
}
use netlink_exporter.Ipvs.Keys.{
  IsAddresses, address_key, fwmark_key, request_for, request_for-address_key,
  request_for-fwmark_key, service_state,
}
use netlink_exporter.Ipvs.Numbers.{length-collect}
use netlink_exporter.Metric.{MetricSample}
use netlink_exporter.Scrape.{Outcome, collected, failed}
use netlink_exporter.Transport.{ok, build_request, next_seq, parse_datagram, parse_loop, action}
use netlink_exporter.Transport.Genl.{
  resolve_genl_family, family_request, family_reply, find_family_id,
}
use netlink_exporter.Transport.Retries.{dump_with_retries, dump_attempts}
use netlink_exporter.Transport.Single.{request_single, blocking_request_single, single_loop}
use netlink_exporter.Transport.Datagram.{Message}
use netlink_exporter.Transport.Dump.{
  Ends, returns, waiting, Kernel, Socket, dump, blocking_dump, dump_loop, recv_phase,
}
use netlink_exporter.Transport.Dump.Frames.{received}
use netlink_exporter.Transport.Ring.{done, uring_send, uring_recv}
use netlink_exporter.Wire.{Bytes, IsBytes, Nla, parse_attrs, next}
use netlink_exporter.Wire
use netlink_exporter.Wire.Build.{push_nla, to_ne_bytes}
use netlink_exporter.Wire.RoundTrip.{push_all}

-- Forms of addresses: the bytes behind a mark, shifted past the colon for version 4.
abbrev behind : ℕ → Text → Option Bytes
behind mark [] = none
behind mark (c ∷ cs) = if c == mark then some cs else none

abbrev shifted : Option Bytes → Option Bytes
shifted none = none
shifted (some cs) = some (map (λ c. c - 59) cs)

abbrev forms : Addresses
forms = record {
  show_v4 = λ b. b'.' ∷ map (λ c. c + 59) b;
  show_v6 = λ b. b':' ∷ b;
  parse_v4 = λ t. shifted (behind b'.' t);
  parse_v6 = λ t. behind b':' t;
}

map-shift : (b : Bytes) → map (λ c. c - 59) (map (λ c. c + 59) b) ≡ b
map-shift [] = refl
map-shift (c ∷ b) = rw (map-shift b) (ap (λ (d : ℕ). d ∷ b) (omega arith))

has_colon-shift : (b : Bytes) → has_colon (map (λ c. c + 59) b) ≡ false
has_colon-shift [] = refl
has_colon-shift (c ∷ b) = rw (has_colon-shift b) (ground arith)

forms-IsAddresses : IsAddresses forms
forms-IsAddresses = record {
  v4_reads = λ b h len. ap (λ (t : Bytes). some t) (map-shift b);
  v4_filled = λ b h len. refl;
  v4_plain = λ b h len. has_colon-shift b;
  v6_reads = λ b h len. refl;
  v6_no_v4 = λ b h len. refl;
  v6_colon = λ b h len. refl;
}

abbrev ascii : Bytes → Text
ascii bytes = bytes

-- 10.0.0.1:80 over TCP, behind its scheduler.
abbrev vip : Bytes
vip = 10 ∷ 0 ∷ 0 ∷ 1 ∷ []

abbrev service : Bytes
service = push_all [] (record { ty = 6; payload = codes "rr" ++ 0 ∷ [] } ∷ address_key 2 6 vip 80)

request_for-address_key_example :
    request_for forms ascii service
    ≡ some (push_nla (8 ∷ 1 ∷ 0 ∷ 0 ∷ []) (2 ^ 15 + 1) (push_all [] (address_key 2 6 vip 80)))
unfolding service_attr parse_attrs Wire.collect next push_nla Wire.read_u16 Wire.read_u16_be
request_for-address_key_example =
    request_for-address_key forms ascii service vip forms-IsAddresses refl refl
      ((omega arith, (omega arith, (omega arith, (omega arith, tt)))), inl (refl, refl)) (inl refl)
      (omega arith)

-- A service of version 6 with the mark 5.
abbrev marked : Bytes
marked = push_all [] (fwmark_key 10 5)

mark_five : (service_state ascii marked).fwmark ≡ 5
unfolding service_attr parse_attrs Wire.collect next push_nla Wire.read_u32
mark_five = refl

request_for-fwmark_key_example :
    request_for forms ascii marked
    ≡ some (push_nla (8 ∷ 1 ∷ 0 ∷ 0 ∷ []) (2 ^ 15 + 1) (push_all [] (fwmark_key 2 5)))
unfolding service_attr parse_attrs Wire.collect next push_nla Wire.read_u32
request_for-fwmark_key_example =
    request_for-fwmark_key forms ascii marked (λ e. absurd (omega (arith, e, mark_five)))
      (omega (arith, mark_five))

abbrev no_text : ℕ → Text
no_text e = []

abbrev message : Bytes → Message
message payload = record { ty = 20; flags = 2; seq = 7; payload = payload }

abbrev last : Message
last = record { ty = 3; flags = 2; seq = 7; payload = 0 ∷ 0 ∷ 0 ∷ 0 ∷ [] }

-- A kernel that takes `sent` bytes and answers with messages in one datagram.
abbrev answers : ℕ → List Message → Kernel
answers sent messages = record {
  dup_error = none;
  ring_error = none;
  sends = done sent ∷ [];
  script = received (record { messages = messages; tail = []; stale = [] }) ∷ [];
  grow_error = none;
  join_error = none;
}

abbrev header : Bytes
header = 1 ∷ 1 ∷ 0 ∷ 0 ∷ []

abbrev family_kernel : Kernel
family_kernel = answers 32 (message (push_nla header 1 (to_ne_bytes 2 21)) ∷ [])

abbrev kernels : List Kernel
kernels =
    answers 20 (message (push_nla header 1 service) ∷ last ∷ [])
    ∷ answers 56 (message (push_nla header 2 (push_nla [] 4 (to_ne_bytes 4 3))) ∷ last ∷ [])
    ∷ []

abbrev sock : Socket
sock = record { rcvbuf_size = 4 * 1024 * 1024; nl_family = 16 }

abbrev samples_of : Ends (Outcome ℕ) → List (MetricSample ℕ)
samples_of (returns (collected samples)) = samples
samples_of (returns (failed e)) = []
samples_of waiting = []

abbrev scrape : Ends (Outcome ℕ)
scrape = collect no_text forms ascii (λ n. n) (ok sock) family_kernel 1 kernels

succeeds : scrape ≡ returns (collected (samples_of scrape))
unfolding collect collect_family collect_services dump_dests_for dump_services_with_sock
    service_attr dest_attr addr_to_str parse_service parse_destination service_key
    build_dest_request push_svc_metrics push_dest_metrics from_str_radix read_digits to_digit
    decimal decimal_fuel parse_attrs Wire.collect next push_nla Wire.read_u16 Wire.read_u16_be
    Wire.read_u32 resolve_genl_family family_request family_reply find_family_id request_single
    blocking_request_single single_loop dump_with_retries dump_attempts dump blocking_dump dump_loop
    recv_phase uring_send uring_recv build_request next_seq parse_datagram parse_loop action
succeeds = refl

sixteen : length (samples_of scrape) ≡ 16
unfolding collect collect_family collect_services dump_dests_for dump_services_with_sock
    service_attr dest_attr addr_to_str parse_service parse_destination service_key
    build_dest_request push_svc_metrics push_dest_metrics from_str_radix read_digits to_digit
    decimal decimal_fuel parse_attrs Wire.collect next push_nla Wire.read_u16 Wire.read_u16_be
    Wire.read_u32 resolve_genl_family family_request family_reply find_family_id request_single
    blocking_request_single single_loop dump_with_retries dump_attempts dump blocking_dump dump_loop
    recv_phase uring_send uring_recv build_request next_seq parse_datagram parse_loop action
sixteen = refl

length-collect_example : length (samples_of scrape) ≤ 791552
length-collect_example =
    length-collect (λ n. n) no_text forms ascii (ok sock) family_kernel 1 kernels succeeds
