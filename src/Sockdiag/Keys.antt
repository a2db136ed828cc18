-- ===== src/Sockdiag/Keys.antt =====
-- The key of a socket count in crates/nlx-netlink/src/collectors/sockdiag.rs, and its order.
use Prim.Native.Nat.{compare}
use netlink_exporter.Base.{
  ℕ, ◌+◌, ◌-◌, ◌≡◌, refl, sym, ap, ◌∙◌, Bool, true, ◌==◌, leb, if◌then◌else◌, arith,
}
use netlink_exporter.Base.Order.{Ord, Ordering, then_cmp}
use netlink_exporter.Base.Text.{Text, codes}

pub data Protocol : Type 0 where
  tcp udp : Protocol

abbrev pub protocol_str : Protocol → Text
protocol_str tcp = codes "tcp"
protocol_str udp = codes "udp"

pub data SocketState : Type 0 where
  established syn_sent syn_recv fin_wait1 fin_wait2 time_wait close close_wait last_ack listen
        closing new_syn_recv unconnected :
      SocketState
  other : ℕ → SocketState

-- `SocketState::from_kernel`
unfoldable pub from_kernel : ℕ → Bool → SocketState
from_kernel state is_udp =
    if state == 1
    then established
    else if state == 2
    then syn_sent
    else if state == 3
    then syn_recv
    else if state == 4
    then fin_wait1
    else if state == 5
    then fin_wait2
    else if state == 6
    then time_wait
    else if state == 7
    then (if is_udp then unconnected else close)
    else if state == 8
    then close_wait
    else if state == 9
    then last_ack
    else if state == 10
    then listen
    else if state == 11
    then closing
    else if state == 12
    then new_syn_recv
    else other state

abbrev pub state_str : SocketState → Text
state_str established = codes "established"
state_str syn_sent = codes "syn_sent"
state_str syn_recv = codes "syn_recv"
state_str fin_wait1 = codes "fin_wait1"
state_str fin_wait2 = codes "fin_wait2"
state_str time_wait = codes "time_wait"
state_str close = codes "close"
state_str close_wait = codes "close_wait"
state_str last_ack = codes "last_ack"
state_str listen = codes "listen"
state_str closing = codes "closing"
state_str new_syn_recv = codes "new_syn_recv"
state_str unconnected = codes "unconnected"
state_str (other n) = codes "other"

pub record SockKey : Type 0 where
  pub protocol : Protocol
  pub state : SocketState

-- The derived orders: the place among the constructors, then the field.
abbrev protocol_rank : Protocol → ℕ
protocol_rank tcp = 0
protocol_rank udp = 1

abbrev state_rank : SocketState → ℕ
state_rank established = 0
state_rank syn_sent = 1
state_rank syn_recv = 2
state_rank fin_wait1 = 3
state_rank fin_wait2 = 4
state_rank time_wait = 5
state_rank close = 6
state_rank close_wait = 7
state_rank last_ack = 8
state_rank listen = 9
state_rank closing = 10
state_rank new_syn_recv = 11
state_rank unconnected = 12
state_rank (other n) = 13 + n

abbrev protocol_at : ℕ → Protocol
protocol_at r = if r == 0 then tcp else udp

abbrev state_at : ℕ → SocketState
state_at r =
    if leb 13 r
    then other (r - 13)
    else if r == 12
    then unconnected
    else if r == 11
    then new_syn_recv
    else if r == 10
    then closing
    else if r == 9
    then listen
    else if r == 8
    then last_ack
    else if r == 7
    then close_wait
    else if r == 6
    then close
    else if r == 5
    then time_wait
    else if r == 4
    then fin_wait2
    else if r == 3
    then fin_wait1
    else if r == 2
    then syn_recv
    else if r == 1
    then syn_sent
    else established

protocol_at-rank : (p : Protocol) → protocol_at (protocol_rank p) ≡ p
protocol_at-rank tcp = refl
protocol_at-rank udp = refl

state_at-rank : (s : SocketState) → state_at (state_rank s) ≡ s
state_at-rank established = refl
state_at-rank syn_sent = refl
state_at-rank syn_recv = refl
state_at-rank fin_wait1 = refl
state_at-rank fin_wait2 = refl
state_at-rank time_wait = refl
state_at-rank close = refl
state_at-rank close_wait = refl
state_at-rank last_ack = refl
state_at-rank listen = refl
state_at-rank closing = refl
state_at-rank new_syn_recv = refl
state_at-rank unconnected = refl
state_at-rank (other n) =
    let e : leb 13 (13 + n) ≡ true = ground arith in
    let f : 13 + n - 13 ≡ n = omega arith in rw e (ap other f)

abbrev pub protocol_cmp : Protocol → Protocol → Ordering
protocol_cmp p q = compare (protocol_rank p) (protocol_rank q)

abbrev pub state_cmp : SocketState → SocketState → Ordering
state_cmp p q = compare (state_rank p) (state_rank q)

abbrev pub key_cmp : SockKey → SockKey → Ordering
key_cmp a b = then_cmp (protocol_cmp a.protocol b.protocol) (state_cmp a.state b.state)

pub protocol_cmp_eq : (p q : Protocol) → protocol_cmp p q ≡ Ordering.eq → p ≡ q
protocol_cmp_eq p q e =
    let r : protocol_rank p ≡ protocol_rank q = ground (arith, e) in
    sym (protocol_at-rank p) ∙ ap protocol_at r ∙ protocol_at-rank q

state_cmp_eq : (p q : SocketState) → state_cmp p q ≡ Ordering.eq → p ≡ q
state_cmp_eq p q e =
    let r : state_rank p ≡ state_rank q = ground (arith, e) in
    sym (state_at-rank p) ∙ ap state_at r ∙ state_at-rank q

pub key_cmp_eq : (a b : SockKey) → key_cmp a b ≡ Ordering.eq → a ≡ b
key_cmp_eq a b e =
    let p : a.protocol ≡ b.protocol = protocol_cmp_eq a.protocol b.protocol (ground (arith, e)) in
    let s : a.state ≡ b.state = state_cmp_eq a.state b.state (ground (arith, e)) in
    λ i. record { protocol = p i; state = s i }

pub protocol_cmp_refl : (a : Protocol) → protocol_cmp a a ≡ Ordering.eq
protocol_cmp_refl a = ground arith

pub protocol_cmp_gt :
    (a b : Protocol) → protocol_cmp a b ≡ Ordering.gt → protocol_cmp b a ≡ Ordering.lt
protocol_cmp_gt a b e = ground (arith, e)

pub protocol_cmp_lt :
    (a b : Protocol) → protocol_cmp a b ≡ Ordering.lt → protocol_cmp b a ≡ Ordering.gt
protocol_cmp_lt a b e = ground (arith, e)

pub protocol_cmp_trans :
    (a b c : Protocol)
    → protocol_cmp a b ≡ Ordering.lt
    → protocol_cmp b c ≡ Ordering.lt
    → protocol_cmp a c ≡ Ordering.lt
protocol_cmp_trans a b c e f = ground (arith, e, f)

pub key_cmp_refl : (a : SockKey) → key_cmp a a ≡ Ordering.eq
key_cmp_refl a = ground arith

pub key_cmp_gt : (a b : SockKey) → key_cmp a b ≡ Ordering.gt → key_cmp b a ≡ Ordering.lt
key_cmp_gt a b e = ground (arith, e)

pub key_cmp_lt : (a b : SockKey) → key_cmp a b ≡ Ordering.lt → key_cmp b a ≡ Ordering.gt
key_cmp_lt a b e = ground (arith, e)

pub key_cmp_trans :
    (a b c : SockKey)
    → key_cmp a b ≡ Ordering.lt
    → key_cmp b c ≡ Ordering.lt
    → key_cmp a c ≡ Ordering.lt
key_cmp_trans a b c e f = ground (arith, e, f)

instance abbrev pub protocol_ord : Ord Protocol
protocol_ord = record {
  cmp = protocol_cmp;
  cmp_eq = protocol_cmp_eq;
  cmp_refl = protocol_cmp_refl;
  cmp_gt = protocol_cmp_gt;
  cmp_lt = protocol_cmp_lt;
  cmp_trans = protocol_cmp_trans;
}

instance abbrev pub key_ord : Ord SockKey
key_ord = record {
  cmp = key_cmp;
  cmp_eq = key_cmp_eq;
  cmp_refl = key_cmp_refl;
  cmp_gt = key_cmp_gt;
  cmp_lt = key_cmp_lt;
  cmp_trans = key_cmp_trans;
}
