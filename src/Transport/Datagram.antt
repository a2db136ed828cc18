-- ===== src/Transport/Datagram.antt =====
-- `parse_datagram` on datagrams as the kernel lays them out, against a fold of `action` over the messages.
pub mod Reading
use netlink_exporter.Base.{
  ℕ, zero, suc, ◌+◌, ◌-◌, ◌^◌, ◌≤◌, ◌<◌, Bool, false, List, [], ◌∷◌, ◌++◌, ◌≡◌, refl, ap, ◌∙◌,
  arith, append_assoc, length, take, drop, replicate, All, min, length-append, length-replicate,
  take-append, drop-append, ltb-false, lt→ltb,
}
use netlink_exporter.Transport.{
  Result, ok, finish, go_on, action, frame_bytes, parse_loop, parse_datagram, nlmsg_hdrlen,
}
use netlink_exporter.Wire.{Bytes, align4, from_ne_bytes, slice}

pub record Message : Type 0 where
  pub ty : ℕ
  pub flags : ℕ
  pub seq : ℕ
  pub payload : Bytes

pub record IsMessage (m : Message) : Type 0 where
  pub ty_fits : m.ty < 2 ^ 16
  pub flags_fits : m.flags < 2 ^ 16
  pub len_fits : 16 + length m.payload < 2 ^ 32

abbrev padding : Message → Bytes
padding m = replicate (align4 (16 + length m.payload) - (16 + length m.payload)) 0

-- A frame and the padding up to the next one.
abbrev pub encode : Message → Bytes
encode m = frame_bytes (16 + length m.payload) m.ty m.flags m.seq (m.payload ++ padding m)

abbrev pub encode_all : List Message → Bytes
encode_all [] = []
encode_all (m ∷ ms) = encode m ++ encode_all ms

-- The messages taken one after the other, up to the first that ends the loop.
abbrev pub run : List Message → List Bytes → Result Bool × List Bytes
run [] out = (ok false, out)
run (m ∷ ms) out = elim (action m.ty m.flags m.payload out) [
  | finish r ↦ (r, out)
  | go_on out' ↦ run ms out'
]

abbrev field : ℕ → ℕ → Bytes → ℕ
field from to rest = from_ne_bytes (slice from to (take nlmsg_hdrlen rest))

-- One round of the loop where the length field passes the tests.
parse_loop_round :
    (fuel : ℕ) (rest : Bytes) (out : List Bytes)
    → 16 ≤ length rest
    → 16 ≤ field 0 4 rest
    → field 0 4 rest ≤ length rest
    → parse_loop (suc fuel) rest out
      ≡ (elim (action (field 4 6 rest) (field 6 8 rest) (slice 16 (field 0 4 rest) rest) out)
          as (λ a. Result Bool × List Bytes) [
            | finish r ↦ (r, out)
            | go_on out' ↦ parse_loop fuel (drop (align4 (field 0 4 rest)) rest) out'
          ])
unfolding parse_loop
parse_loop_round fuel rest out h low fits = rw (
  ltb-false (length rest) 16 h,
  ltb-false (field 0 4 rest) 16 low,
  ltb-false (length rest) (field 0 4 rest) fits,
)

parse_loop-encode :
    (fuel : ℕ) (m : Message) (more : Bytes) (out : List Bytes)
    → IsMessage m
    → parse_loop (suc fuel) (encode m ++ more) out
      ≡ (elim (action m.ty m.flags m.payload out) as (λ a. Result Bool × List Bytes) [
        | finish r ↦ (r, out)
        | go_on out' ↦ parse_loop fuel more out'
      ])
parse_loop-encode fuel m more out f =
    let rest : Bytes = encode m ++ more in
    let n : ℕ = 16 + length m.payload in
    let pad : ℕ = align4 n - n in
    let size : length rest ≡ n + pad + length more = omega (
      arith,
      length-append (m.payload ++ padding m) more,
      length-append m.payload (padding m),
      length-replicate {A = ℕ} pad 0,
    ) in
    let n_eq : field 0 4 rest ≡ n = omega (arith, f.len_fits) in
    let ty_eq : field 4 6 rest ≡ m.ty = omega (arith, f.ty_fits) in
    let flags_eq : field 6 8 rest ≡ m.flags = omega (arith, f.flags_fits) in
    let len_eq : n - 16 ≡ length m.payload = omega arith in
    let payload_eq : slice 16 (field 0 4 rest) rest ≡ m.payload =
      ap (λ (k : ℕ). slice 16 k rest) n_eq
      ∙ ap (λ (k : ℕ). take k ((m.payload ++ padding m) ++ more)) len_eq
      ∙ ap (λ (t : Bytes). take (length m.payload) t) (append_assoc m.payload (padding m) more)
      ∙ take-append m.payload (padding m ++ more) in
    let stride : align4 n
        ≡ suc (
            suc (
              suc (
                suc (
                  suc (
                    suc (
                      suc (
                        suc (
                          suc (
                            suc (
                              suc (
                                suc (
                                  suc (
                                    suc (suc (suc (length (m.payload ++ padding m))))))))))))))))) =
      omega (arith, length-append m.payload (padding m), length-replicate {A = ℕ} pad 0) in
    let more_eq : drop (align4 (field 0 4 rest)) rest ≡ more =
      ap (λ (k : ℕ). drop (align4 k) rest) n_eq
      ∙ ap (λ (k : ℕ). drop k rest) stride
      ∙ drop-append (m.payload ++ padding m) more in
    parse_loop_round fuel rest out (omega (arith, size)) (omega (arith, n_eq))
      (omega (arith, size, n_eq))
    ∙ (λ i.
        elim (action (ty_eq i) (flags_eq i) (payload_eq i) out) as (λ a. Result Bool × List Bytes) [
          | finish r ↦ (r, out)
          | go_on out' ↦ parse_loop fuel (more_eq i) out'
        ])

parse_loop-encode_all :
    (ms : List Message) (fuel : ℕ) (tail : Bytes) (out : List Bytes)
    → All IsMessage ms
    → length ms ≤ fuel
    → length tail < 16
    → parse_loop fuel (encode_all ms ++ tail) out ≡ run ms out
parse_loop-encode_all [] zero tail out h hf ht = unfold parse_loop in refl
parse_loop-encode_all [] (suc fuel) tail out h hf ht =
    unfold parse_loop in rw (lt→ltb (length tail) 16 ht)
parse_loop-encode_all (m ∷ ms) zero tail out h hf ht = absurd (omega arith)
parse_loop-encode_all (m ∷ ms) (suc fuel) tail out (hm, h) hf ht =
    ap (λ (t : Bytes). parse_loop (suc fuel) t out) (append_assoc (encode m) (encode_all ms) tail)
    ∙ parse_loop-encode fuel m (encode_all ms ++ tail) out hm
    ∙ (λ i. elim (action m.ty m.flags m.payload out) as (λ a. Result Bool × List Bytes) [
      | finish r ↦ (r, out)
      | go_on out' ↦ parse_loop-encode_all ms fuel tail out' h (omega arith) ht i
    ])

length-encode_all : (ms : List Message) → length ms ≤ length (encode_all ms)
length-encode_all [] = omega arith
length-encode_all (m ∷ ms) =
    omega (arith, length-append (m.payload ++ padding m) (encode_all ms), length-encode_all ms)

-- On a datagram of `len` bytes that holds padded messages and then less than a header, the loop does
-- what the messages ask one after the other, up to the first that ends it. Bytes of the receive
-- buffer past `len` have no effect, and the fuel is always enough.
pub parse_datagram-encode_all :
    (ms : List Message) (tail stale : Bytes) (out : List Bytes)
    → All IsMessage ms
    → length tail < 16
    → parse_datagram ((encode_all ms ++ tail) ++ stale) (length (encode_all ms ++ tail)) out
      ≡ run ms out
unfolding parse_datagram
parse_datagram-encode_all ms tail stale out h ht =
    let whole : Bytes = encode_all ms ++ tail in
    let len : min (length whole) (length (whole ++ stale)) ≡ length whole =
      omega (arith, length-append whole stale) in
    let cut : take (min (length whole) (length (whole ++ stale))) (whole ++ stale) ≡ whole =
      ap (λ (k : ℕ). take k (whole ++ stale)) len ∙ take-append whole stale in
    ap (λ (buf : Bytes). parse_loop (length buf) buf out) cut
    ∙ parse_loop-encode_all ms (length whole) tail out h
        (omega (arith, length-encode_all ms, length-append (encode_all ms) tail)) ht
