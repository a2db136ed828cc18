-- ===== src/Wire/RoundTrip.antt =====
-- Attributes written by `push_nla` are read back by `parse_attrs`.
use mathlib.Core.List.{foldl}
use netlink_exporter.Base.{
  ℕ, suc, ◌+◌, ◌-◌, ◌/◌, ◌%◌, ◌^◌, ◌≤◌, ◌<◌, List, [], ◌∷◌, ◌++◌, some, ◌≡◌, refl, sym, ap, ◌∙◌,
  arith, append-nil, append_assoc, map, length, take, drop, replicate, All, length-append,
  length-replicate, take-append, drop-append, All-append, All-replicate, get_or, leb, leb→le,
  Bool-cases, inl, inr,
}
use netlink_exporter.Wire.{
  Bytes, IsBytes, align4, Nla, next, parse_attrs, mask_type, from_ne_bytes, slice, advance,
}
use netlink_exporter.Wire.Attrs.{parse_attrs-next}
use netlink_exporter.Wire.Build.{encode_nla, push_nla}

abbrev padding : ℕ → ℕ
padding n = align4 (4 + n) - (4 + n)

-- `next` where the length field passes both tests.
next_accepts :
    (buf : Bytes) (n : ℕ)
    → from_ne_bytes (get_or buf 0 0 ∷ get_or buf 1 0 ∷ []) ≡ n
    → 4 ≤ n
    → n ≤ length buf
    → next buf
      ≡ some (
        record {
          ty = mask_type (from_ne_bytes (get_or buf 2 0 ∷ get_or buf 3 0 ∷ []));
          payload = slice 4 n buf;
        },
        advance n buf,
      )
unfolding next
next_accepts buf n e low fits = ground arith

length-zero {ℓ} : {A : Type ℓ} (xs : List A) → length xs ≤ 0 → xs ≡ []
length-zero [] h = refl
length-zero (x ∷ xs) h = absurd (omega arith)

-- Past a padded attribute of `4 + k` bytes stands what follows it.
advance-append :
    (b0 b1 b2 b3 k : ℕ) (filled rest : Bytes)
    → align4 (4 + k) ≡ 4 + length filled
    → advance (4 + k) (b0 ∷ b1 ∷ b2 ∷ b3 ∷ (filled ++ rest)) ≡ rest
advance-append b0 b1 b2 b3 k filled rest e =
    let buf : Bytes = b0 ∷ b1 ∷ b2 ∷ b3 ∷ (filled ++ rest) in
    let stride : align4 (4 + k) ≡ suc (suc (suc (suc (length filled)))) = omega arith in
    elim (Bool-cases (leb (length buf) (align4 (4 + k)))) [
      | inl over ↦ rw over (
          sym (
            length-zero rest (
              omega (arith, leb→le (length buf) (align4 (4 + k)) over, length-append filled rest))))
      | inr under ↦ rw under (ap (λ (n : ℕ). drop n buf) stride ∙ drop-append filled rest)
    ]

-- The iterator takes exactly one written attribute, whatever follows it. The three top bits of the
-- written type are dropped.
next-encode_nla :
    (ty : ℕ) (payload rest : Bytes)
    → ty < 2 ^ 16
    → 4 + length payload < 2 ^ 16
    → next (encode_nla ty payload ++ rest)
      ≡ some (record { ty = mask_type ty; payload = payload }, rest)
next-encode_nla ty payload rest ht hp =
    let pad : Bytes = replicate (padding (length payload)) 0 in
    let n : ℕ = 4 + length payload in
    let buf : Bytes = encode_nla ty payload ++ rest in
    let ty_eq : from_ne_bytes (ty % 256 ∷ ty / 256 % 256 ∷ []) ≡ ty = omega arith in
    let cut : 4 + length payload - 4 ≡ length payload = omega arith in
    let payload_eq : slice 4 n buf ≡ payload =
      ap (λ (k : ℕ). take k ((payload ++ pad) ++ rest)) cut
      ∙ ap (λ (t : Bytes). take (length payload) t) (append_assoc payload pad rest)
      ∙ take-append payload (pad ++ rest) in
    let rest_eq : advance n buf ≡ rest =
      advance-append _ _ _ _ (length payload) (payload ++ pad) rest (
        omega (
          arith,
          length-append payload pad,
          length-replicate {A = ℕ} (padding (length payload)) 0,
        )) in
    let sizes : length buf ≡ 4 + (length payload + padding (length payload) + length rest) = omega (
      arith,
      length-append (payload ++ pad) rest,
      length-append payload pad,
      length-replicate {A = ℕ} (padding (length payload)) 0,
    ) in
    next_accepts buf n (omega arith) (omega arith) (omega arith)
    ∙ (λ i. some (record { ty = mask_type (ty_eq i); payload = payload_eq i }, rest_eq i))

encode_nla-IsBytes : (ty : ℕ) (payload : Bytes) → IsBytes payload → IsBytes (encode_nla ty payload)
encode_nla-IsBytes ty payload h = (
  omega arith,
  (
    omega arith,
    (
      omega arith,
      (
        omega arith,
        All-append _ payload _ h (All-replicate _ (padding (length payload)) 0 (omega arith)),
      ),
    ),
  ),
)

-- The buffer that `push_nla` builds from a list of attributes, one call for each.
abbrev pub push_all : Bytes → List Nla → Bytes
push_all = foldl (λ buf a. push_nla buf a.ty a.payload)

-- A type of sixteen bits, a length field that fits its sixteen bits, and bytes.
pub record Fits (a : Nla) : Type 0 where
  pub ty_fits : a.ty < 2 ^ 16
  pub len_fits : 4 + length a.payload < 2 ^ 16
  pub are_bytes : IsBytes a.payload

abbrev pub masked : Nla → Nla
masked a = record { ty = mask_type a.ty; payload = a.payload }

abbrev encode_all : List Nla → Bytes
encode_all [] = []
encode_all (a ∷ rest) = encode_nla a.ty a.payload ++ encode_all rest

push_all-encode_all : (l : List Nla) (buf : Bytes) → push_all buf l ≡ buf ++ encode_all l
unfolding push_nla
push_all-encode_all [] buf = sym (append-nil buf)
push_all-encode_all (a ∷ l) buf =
    push_all-encode_all l (push_nla buf a.ty a.payload)
    ∙ append_assoc buf (encode_nla a.ty a.payload) (encode_all l)

encode_all-IsBytes : (l : List Nla) → All Fits l → IsBytes (encode_all l)
encode_all-IsBytes [] h = tt
encode_all-IsBytes (a ∷ l) (f, h) =
    All-append _ (encode_nla a.ty a.payload) _ (encode_nla-IsBytes a.ty a.payload f.are_bytes)
      (encode_all-IsBytes l h)

parse_attrs-encode_all : (l : List Nla) → All Fits l → parse_attrs (encode_all l) ≡ map masked l
parse_attrs-encode_all [] h = unfold parse_attrs in refl
parse_attrs-encode_all (a ∷ l) (f, h) =
    parse_attrs-next _ (encode_all-IsBytes (a ∷ l) (f, h))
    ∙ rw (next-encode_nla a.ty a.payload (encode_all l) f.ty_fits f.len_fits)
        (ap (◌∷◌ (masked a)) (parse_attrs-encode_all l h))

-- `parse_attrs` reads back the attributes that `push_nla` wrote one after the other, in order, each
-- with its payload unchanged and the flag bits of its type dropped, when every type fits sixteen
-- bits, every payload leaves the length field within sixteen bits, and payloads hold bytes.
pub parse_attrs-push_nla : (l : List Nla) → All Fits l → parse_attrs (push_all [] l) ≡ map masked l
parse_attrs-push_nla l h = rw (push_all-encode_all l []) (parse_attrs-encode_all l h)
