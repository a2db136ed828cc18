-- ===== src/Transport.antt =====
-- crates/nlx-netlink/src/transport.rs: errors, request frames, datagrams, completions of the ring.
pub mod Datagram
pub mod Ring
pub mod Dump
pub mod Single
pub mod Genl
pub mod Retries
use Prim.Native.Nat.{bit_or}
use netlink_exporter.Base.{
  ℕ, zero, suc, ◌+◌, ◌-◌, ◌*◌, ◌/◌, ◌%◌, ◌^◌, Bool, true, false, not, List, [], ◌∷◌, ◌++◌, min, max,
  ltb, leb, ◌==◌, if◌then◌else◌, length, get_or, take, drop,
}
use netlink_exporter.Base.Text.{Text, codes, decimal}
use netlink_exporter.Wire.{Bytes, align4, from_ne_bytes, slice}
use netlink_exporter.Wire.Build.{to_ne_bytes}

-- `errno` is the bit pattern of an `i32`; messages are texts.
pub data NetlinkError : Type 0 where
  open_failed : Text → NetlinkError
  dump_intr : NetlinkError
  recv_buf_overflow : NetlinkError
  recv_failed : Text → NetlinkError
  send_failed : Text → NetlinkError
  kernel_error : ℕ → NetlinkError
  parse_failed : Text → NetlinkError
  join_failed : Text → NetlinkError

pub data Result {ℓ} (A : Type ℓ) : Type ℓ where
  ok : A → Result A
  err : NetlinkError → Result A

infixl 5 ◌>>=◌
abbrev pub ◌>>=◌ {ℓ κ} : {A : Type ℓ} {B : Type κ} → Result A → (A → Result B) → Result B
ok a >>= f = f a
err e >>= f = err e

-- `to_string()` of an error. An errno of 2 ^ 31, which `abs` leaves as it is, prints as `-2147483648`.
unfoldable pub error_text : NetlinkError → Text
error_text (open_failed e) = codes "netlink socket open failed: " ++ e
error_text dump_intr = codes "netlink dump interrupted (NLM_F_DUMP_INTR); retry required"
error_text recv_buf_overflow = codes "netlink receive buffer overflow (ENOBUFS)"
error_text (recv_failed e) = codes "recvmsg error: " ++ e
error_text (send_failed e) = codes "sendmsg error: " ++ e
error_text (kernel_error errno) =
    codes "netlink kernel error: errno="
    ++ (if ltb errno (2 ^ 31) then decimal errno else b'-' ∷ decimal (2 ^ 32 - errno))
error_text (parse_failed e) = codes "netlink frame parse error: " ++ e
error_text (join_failed e) = codes "blocking thread join error: " ++ e

abbrev pub nlmsg_hdrlen : ℕ
nlmsg_hdrlen = 16

abbrev pub recv_buf_len : ℕ
recv_buf_len = 32 * 1024

abbrev pub min_rcvbuf : ℕ
min_rcvbuf = 4 * 1024 * 1024

abbrev pub max_rcvbuf : ℕ
max_rcvbuf = 16 * 1024 * 1024

abbrev pub max_dump_restarts : ℕ
max_dump_restarts = 8

-- `SEQ.fetch_add(1)`: the number given out, and the counter after it.
unfoldable pub next_seq : ℕ → ℕ × ℕ
next_seq seq = (seq, (seq + 1) % 2 ^ 32)

-- A frame as `build_request` lays it out; `build_nlmsg` of drop_monitor.rs has the same layout.
abbrev pub frame_bytes : ℕ → ℕ → ℕ → ℕ → Bytes → Bytes
frame_bytes total ty flags seq payload =
    to_ne_bytes 4 total
    ++ (to_ne_bytes 2 ty
        ++ (to_ne_bytes 2 flags ++ (to_ne_bytes 4 seq ++ (to_ne_bytes 4 0 ++ payload))))

-- The frame and the sequence counter after it. `NLM_F_REQUEST` is 1.
unfoldable pub build_request : ℕ → ℕ → ℕ → Bytes → Bytes × ℕ
unfolding next_seq
build_request counter msg_type flags payload =
    let (seq, counter') = next_seq counter in
    (
      frame_bytes ((nlmsg_hdrlen + length payload) % 2 ^ 32) msg_type (bit_or 1 flags) seq payload,
      counter',
    )

-- `raw_errno.abs()` on the bit pattern of an `i32`.
abbrev pub abs_i32 : ℕ → ℕ
abs_i32 w = if ltb w (2 ^ 31) then w else 2 ^ 32 - w

-- What one message asks of the loop: end with a result, or go on with the output so far.
pub data Action : Type 0 where
  finish : Result Bool → Action
  go_on : List Bytes → Action

-- The match on `NLMSG_ERROR`.
unfoldable pub error_action : Bytes → Action
error_action payload =
    if ltb (length payload) 4
    then finish (err (parse_failed (codes "NLMSG_ERROR payload too short")))
    else let raw_errno = from_ne_bytes (take 4 payload) in
      if not (raw_errno == 0)
      then finish (err (kernel_error (abs_i32 raw_errno)))
      else finish (ok true)

-- The test of `NLM_F_DUMP_INTR` (bit 4) and the match on the type: 1 is `NLMSG_NOOP`, 3
-- `NLMSG_DONE`, 4 `NLMSG_OVERRUN`, 2 `NLMSG_ERROR`.
unfoldable pub action : ℕ → ℕ → Bytes → List Bytes → Action
unfolding error_action
action ty flags payload out =
    if flags / 2 ^ 4 % 2 == 1
    then finish (err dump_intr)
    else if ty == 1
    then go_on out
    else if ty == 3
    then finish (ok true)
    else if ty == 4
    then finish (err recv_buf_overflow)
    else if ty == 2
    then error_action payload
    else go_on (out ++ payload ∷ [])

abbrev pub length_below : ℕ → NetlinkError
length_below nlmsg_len =
    parse_failed (codes "nlmsg_len " ++ (decimal nlmsg_len ++ codes " < NLMSG_HDRLEN"))

-- The `while` loop, on fuel. `rest` is `&buf[pos..]`, empty once `pos` is past the end.
unfoldable pub parse_loop : ℕ → Bytes → List Bytes → Result Bool × List Bytes
parse_loop zero rest out = (ok false, out)
parse_loop (suc fuel) rest out =
    if ltb (length rest) nlmsg_hdrlen
    then (ok false, out)
    else let hdr = take nlmsg_hdrlen rest in
      let nlmsg_len = from_ne_bytes (slice 0 4 hdr) in
      let nlmsg_type = from_ne_bytes (slice 4 6 hdr) in
      let nlmsg_flags = from_ne_bytes (slice 6 8 hdr) in
      let later =
        elim (action nlmsg_type nlmsg_flags (slice nlmsg_hdrlen nlmsg_len rest) out)
          as (λ a. Result Bool × List Bytes) [
            | finish r ↦ (r, out)
            | go_on out' ↦ parse_loop fuel (drop (align4 nlmsg_len) rest) out'
          ] in
      if ltb nlmsg_len nlmsg_hdrlen
      then (err (length_below nlmsg_len), out)
      else if ltb (length rest) nlmsg_len
      then (ok false, out)
      else later

-- `parse_datagram(datagram, len, &mut out)`: the result and the output after it. Each round takes a
-- header at least, so the buffer's length is enough fuel.
unfoldable pub parse_datagram : Bytes → ℕ → List Bytes → Result Bool × List Bytes
unfolding parse_loop
parse_datagram datagram len out =
    let buf = take (min len (length datagram)) datagram in parse_loop (length buf) buf out
