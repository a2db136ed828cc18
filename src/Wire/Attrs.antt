-- ===== src/Wire/Attrs.antt =====
-- What one step of the attribute iterator takes, and that the loop over it ends.
use netlink_exporter.Base.{
  ℕ, zero, suc, ◌+◌, ◌-◌, ◌%◌, ◌^◌, min, ◌≤◌, ◌<◌, List, [], ◌∷◌, ◌++◌, none, some, ◌≡◌, refl, sym,
  ap, ◌∙◌, arith, leb, leb→le, append-nil, get_or, Bool-cases, Option-cases, inl, inr, length, take,
  drop, length-take, length-drop, take-append-drop, take-slice-drop, length-append, drop-drop,
  All-drop,
}
use netlink_exporter.Wire.{
  Bytes, IsBytes, align4, Nla, advance, next, collect, parse_attrs, from_ne_bytes, slice,
}

-- One attribute cut from the front of a buffer: header, payload, at most three bytes of padding. The
-- header holds the length of header and payload, and the type with its flags.
pub record Cuts (buf : Bytes) (a : Nla) (rest : Bytes) : Type 0 where
  pub header : Bytes
  pub pad : Bytes
  pub splits : buf ≡ header ++ (a.payload ++ (pad ++ rest))
  pub header_len : length header ≡ 4
  pub len_field : from_ne_bytes (take 2 header) ≡ 4 + length a.payload
  pub ty_field : from_ne_bytes (drop 2 header) % 2 ^ 13 ≡ a.ty
  pub pad_len : length pad ≤ 3
  pub ty_bound : a.ty < 2 ^ 13
  pub bytes_left : IsBytes rest

-- The rest after `n` bytes, and what of it the stride skips.
module _ (n : ℕ) (buf : Bytes) (fits : n ≤ length buf) (small : n < 2 ^ 16) where
  advance-cut : (pad : Bytes) × (drop n buf ≡ pad ++ advance n buf) × (length pad ≤ 3)
  advance-cut =
      let whole : n + (align4 n - n) ≡ align4 n = omega arith in
      elim (Bool-cases (leb (length buf) (align4 n))) [
        | inl over ↦ (
          drop n buf,
          rw over (sym (append-nil (drop n buf))),
          omega (arith, length-drop n buf, leb→le (length buf) (align4 n) over),
        )
        | inr under ↦ (
          take (align4 n - n) (drop n buf),
          rw under (
              sym (take-append-drop _ (drop n buf))
              ∙ ap (λ (t : Bytes). take (align4 n - n) (drop n buf) ++ t)
                  (drop-drop (align4 n - n) n buf ∙ ap (λ (k : ℕ). drop k buf) whole)),
          omega (arith, length-take (align4 n - n) (drop n buf)),
        )
      ]

-- The four bytes of a header are there.
pub length_field-lt :
    (buf : Bytes) → IsBytes buf → from_ne_bytes (get_or buf 0 0 ∷ get_or buf 1 0 ∷ []) < 2 ^ 16
length_field-lt [] h = omega arith
length_field-lt (b ∷ []) h = omega arith
length_field-lt (b ∷ c ∷ r) h = omega arith

-- What `next` has tested and returned when it yields an attribute.
pub next-eq-some :
    (buf : Bytes) (a : Nla) (rest : Bytes)
    → next buf ≡ some (a, rest)
    → let n : ℕ = from_ne_bytes (get_or buf 0 0 ∷ get_or buf 1 0 ∷ []) in
      (4 ≤ n)
      × (n ≤ length buf)
      × (a.ty < 2 ^ 13)
      × (a.ty ≡ from_ne_bytes (get_or buf 2 0 ∷ get_or buf 3 0 ∷ []) % 2 ^ 13)
      × (a.payload ≡ slice 4 n buf)
      × (rest ≡ advance n buf)
unfolding next
next-eq-some buf a rest e = ground arith

-- The two fields of a header that is there.
header_len_field :
    (buf : Bytes)
    → 4 ≤ length buf
    → from_ne_bytes (take 2 (take 4 buf)) ≡ from_ne_bytes (get_or buf 0 0 ∷ get_or buf 1 0 ∷ [])
header_len_field (b0 ∷ b1 ∷ b2 ∷ b3 ∷ buf) h = refl
header_len_field (b0 ∷ b1 ∷ b2 ∷ []) h = absurd (omega (arith, h))
header_len_field (b0 ∷ b1 ∷ []) h = absurd (omega (arith, h))
header_len_field (b0 ∷ []) h = absurd (omega (arith, h))
header_len_field [] h = absurd (omega (arith, h))

header_ty_field :
    (buf : Bytes)
    → 4 ≤ length buf
    → from_ne_bytes (drop 2 (take 4 buf)) % 2 ^ 13
      ≡ from_ne_bytes (get_or buf 2 0 ∷ get_or buf 3 0 ∷ []) % 2 ^ 13
header_ty_field (b0 ∷ b1 ∷ b2 ∷ b3 ∷ buf) h = refl
header_ty_field (b0 ∷ b1 ∷ b2 ∷ []) h = absurd (omega (arith, h))
header_ty_field (b0 ∷ b1 ∷ []) h = absurd (omega (arith, h))
header_ty_field (b0 ∷ []) h = absurd (omega (arith, h))
header_ty_field [] h = absurd (omega (arith, h))

length-slice :
    (from to : ℕ) (buf : Bytes) → length (slice from to buf) ≡ min (to - from) (length buf - from)
length-slice from to buf =
    omega (arith, length-take (to - from) (drop from buf), length-drop from buf)

advance-IsBytes : (n : ℕ) (buf : Bytes) → IsBytes buf → IsBytes (advance n buf)
advance-IsBytes n buf h = elim (Bool-cases (leb (length buf) (align4 n))) [
  | inl over ↦ rw over tt
  | inr under ↦ rw under (All-drop _ (align4 n) buf h)
]

-- Every attribute that `next` yields from a buffer of bytes is cut from its front: a header of four
-- bytes, the payload and at most three bytes of padding, and what is left behind them. The length
-- field of the header is exactly the size of header and payload, and its type field without the three
-- top bits is the type.
pub next-Cuts :
    (buf : Bytes) {a : Nla} {rest : Bytes}
    → IsBytes buf
    → next buf ≡ some (a, rest)
    → Cuts buf a rest
next-Cuts buf {a} {rest} h e =
    let n : ℕ = from_ne_bytes (get_or buf 0 0 ∷ get_or buf 1 0 ∷ []) in
    let (low, fits, ty_bound, ty, payload, left) = next-eq-some buf a rest e in
    let (pad, cut, short) = advance-cut n buf fits (length_field-lt buf h) in
    record {
      header = take 4 buf;
      pad = pad;
      splits =
          rw (payload, left)
            (take-slice-drop 4 n buf low
              ∙ ap (λ (t : Bytes). take 4 buf ++ (slice 4 n buf ++ t)) cut);
      header_len = omega (arith, length-take 4 buf);
      len_field =
          header_len_field buf (omega (arith, low, fits))
          ∙ omega (arith, low, fits, ap (λ (t : Bytes). length t) payload, length-slice 4 n buf);
      ty_field = header_ty_field buf (omega (arith, low, fits)) ∙ sym ty;
      pad_len = short;
      ty_bound = ty_bound;
      bytes_left = rw left (advance-IsBytes n buf h);
    }

-- The attribute and the rest are shorter than the buffer by a header at least.
next_shrinks :
    (buf : Bytes) {a : Nla} {rest : Bytes}
    → IsBytes buf
    → next buf ≡ some (a, rest)
    → 4 + length a.payload + length rest ≤ length buf
next_shrinks buf {a} {rest} h e =
    let c = next-Cuts buf h e in
    omega (
      arith,
      ap (λ (t : Bytes). length t) c.splits,
      c.header_len,
      length-append c.header (a.payload ++ (c.pad ++ rest)),
      length-append a.payload (c.pad ++ rest),
      length-append c.pad rest,
    )

pub collect-some :
    (n : ℕ) (buf : Bytes) {a : Nla} {rest : Bytes}
    → next buf ≡ some (a, rest)
    → collect (suc n) buf ≡ a ∷ collect n rest
unfolding collect
collect-some n buf e = rw (e, collect)

pub collect-none : (n : ℕ) (buf : Bytes) → next buf ≡ none → collect n buf ≡ []
unfolding collect
collect-none zero buf e = refl
collect-none (suc n) buf e = rw (e, collect)

-- Fuel beyond the buffer's length changes nothing.
pub collect_fuel :
    (m n : ℕ) (buf : Bytes)
    → IsBytes buf
    → length buf ≤ m
    → length buf ≤ n
    → collect m buf ≡ collect n buf
collect_fuel zero n [] h hm hn = collect-none 0 [] end ∙ sym (collect-none n [] end)
  where
    end : next [] ≡ none
    end = unfold next in refl
collect_fuel zero n (x ∷ r) h hm hn = absurd (omega arith)
collect_fuel (suc m) zero [] h hm hn =
    collect-none (suc m) [] (unfold next in refl) ∙ unfold collect in refl
collect_fuel (suc m) zero (x ∷ r) h hm hn = absurd (omega arith)
collect_fuel (suc m) (suc n) buf h hm hn = elim (Option-cases (next buf)) [
  | inl end ↦ collect-none (suc m) buf end ∙ sym (collect-none (suc n) buf end)
  | inr ((a, rest), e) ↦
      let less = next_shrinks buf h e in
      collect-some m buf e
      ∙ ap (◌∷◌ a)
          (collect_fuel m n rest (next-Cuts buf h e).bytes_left (omega arith) (omega arith))
      ∙ sym (collect-some n buf e)
]

-- The run of the iterator is its first step and the run on what that step leaves: the loop ends on
-- every buffer of bytes, and its fuel never shows.
pub parse_attrs-next :
    (buf : Bytes)
    → IsBytes buf
    → parse_attrs buf ≡ (elim (next buf) [ none ↦ [] | some (a, rest) ↦ a ∷ parse_attrs rest ])
unfolding parse_attrs
parse_attrs-next buf h = elim (Option-cases (next buf)) [
  | inl end ↦ rw end (collect-none (length buf) buf end)
  | inr ((a, rest), e) ↦
      let less = next_shrinks buf h e in
      rw e (
        collect_fuel (length buf) (suc (length buf)) buf h (omega arith) (omega arith)
        ∙ collect-some (length buf) buf e
        ∙ ap (◌∷◌ a) (
            collect_fuel (length buf) (length rest) rest (next-Cuts buf h e).bytes_left
              (omega arith) (omega arith)))
]

abbrev pub wire_size : List Nla → ℕ
wire_size [] = 0
wire_size (a ∷ rest) = 4 + length a.payload + wire_size rest

collect-wire_size : (n : ℕ) (buf : Bytes) → IsBytes buf → wire_size (collect n buf) ≤ length buf
collect-wire_size zero buf h = unfold collect in omega arith
collect-wire_size (suc n) buf h = elim (Option-cases (next buf)) [
  | inl end ↦ rw (collect-none (suc n) buf end) (omega arith)
  | inr ((a, rest), e) ↦
      let less = next_shrinks buf h e in
      rw (collect-some n buf e)
        (omega (arith, collect-wire_size n rest (next-Cuts buf h e).bytes_left))
]

-- Headers and payloads of all that a buffer of bytes yields fit in it together: nothing is read twice
-- or past the end.
pub parse_attrs-wire_size : (buf : Bytes) → IsBytes buf → wire_size (parse_attrs buf) ≤ length buf
unfolding parse_attrs
parse_attrs-wire_size buf h = collect-wire_size (length buf) buf h
