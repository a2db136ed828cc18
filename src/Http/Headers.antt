-- ===== src/Http/Headers.antt =====
-- The header loop of `handle_conn` of crates/nlx-http/src/server.rs.
use netlink_exporter.Base.{
  ℕ, ◌+◌, ◌≤◌, ◌<◌, ◌≡◌, ◌≢◌, refl, sym, ap, ◌∙◌, inl, inr, true, false, List, [], ◌∷◌, ◌++◌,
  append_assoc, append-nil, Bool-cases, map, leb, length, length-append, All, arith,
}
use netlink_exporter.Http.{
  Read, chunk, read_error, HeaderLoop, headers, discarded, reading, has_sentinel, read_headers,
  request_header_cap,
}
use netlink_exporter.Wire.{Bytes}

-- The bytes of a sequence of reads.
abbrev pub bytes_of : List Bytes → Bytes
bytes_of [] = []
bytes_of (c ∷ cs) = c ++ bytes_of cs

leb-false : (a b : ℕ) → b < a → leb a b ≡ false
leb-false a b h = ground arith

-- No proper beginning of the request ends its headers.
abbrev IsOpen : Bytes → Type 0
IsOpen r = (p q : Bytes) → r ≡ p ++ q → q ≢ [] → has_sentinel p ≡ false

read_headers-found :
    (b : ℕ) (c buf : Bytes) (script : List Read)
    → has_sentinel (buf ++ b ∷ c) ≡ true
    → read_headers (chunk (b ∷ c) ∷ script) buf ≡ headers (buf ++ b ∷ c)
unfolding read_headers
read_headers-found b c buf script e = rw (e, read_headers) refl

read_headers-more :
    (b : ℕ) (c buf : Bytes) (script : List Read)
    → has_sentinel (buf ++ b ∷ c) ≡ false
    → leb request_header_cap (length (buf ++ b ∷ c)) ≡ false
    → read_headers (chunk (b ∷ c) ∷ script) buf ≡ read_headers script (buf ++ b ∷ c)
unfolding read_headers
read_headers-more b c buf script e f = rw (e, f, read_headers) refl

read_headers-over :
    (b : ℕ) (c buf : Bytes) (script : List Read)
    → has_sentinel (buf ++ b ∷ c) ≡ false
    → leb request_header_cap (length (buf ++ b ∷ c)) ≡ true
    → read_headers (chunk (b ∷ c) ∷ script) buf ≡ discarded
unfolding read_headers
read_headers-over b c buf script e f = rw (e, f, read_headers) refl

bytes_of-ne : (d : Bytes) (cs : List Bytes) → d ≢ [] → bytes_of (d ∷ cs) ≢ []
bytes_of-ne [] cs ne e = ne refl
bytes_of-ne (x ∷ d) cs ne e = cc

below_total :
    (p q r : Bytes)
    → r ≡ p ++ q
    → q ≢ []
    → length r ≤ request_header_cap
    → length p < request_header_cap
below_total p [] r e ne cap = absurd (ne refl)
below_total p (x ∷ q) r e ne cap = omega (arith, ap length e, length-append p (x ∷ q))

read_headers-onto :
    (c : Bytes) (cs : List Bytes) (buf r : Bytes) (rest : List Read)
    → All (λ c. c ≢ []) (c ∷ cs)
    → r ≡ buf ++ bytes_of (c ∷ cs)
    → IsOpen r
    → has_sentinel r ≡ true
    → length r ≤ request_header_cap
    → read_headers (map chunk (c ∷ cs) ++ rest) buf ≡ headers r
read_headers-onto [] cs buf r rest (ne, all) whole hopen found cap = absurd (ne refl)
read_headers-onto (b ∷ c) [] buf r rest (ne, all) whole hopen found cap =
    let last : r ≡ buf ++ b ∷ c = whole ∙ ap (λ (t : Bytes). buf ++ b ∷ t) (append-nil c) in
    read_headers-found b c buf rest (ap has_sentinel (sym last) ∙ found) ∙ ap headers (sym last)
read_headers-onto (b ∷ c) (d ∷ cs) buf r rest (ne, (ne_d, all)) whole hopen found cap =
    let split : r ≡ (buf ++ b ∷ c) ++ bytes_of (d ∷ cs) =
      whole ∙ sym (append_assoc buf (b ∷ c) (bytes_of (d ∷ cs))) in
    let more = bytes_of-ne d cs ne_d in
    read_headers-more b c buf (map chunk (d ∷ cs) ++ rest)
      (hopen (buf ++ b ∷ c) (bytes_of (d ∷ cs)) split more)
      (leb-false request_header_cap (length (buf ++ b ∷ c))
        (below_total (buf ++ b ∷ c) (bytes_of (d ∷ cs)) r split more cap))
    ∙ read_headers-onto d cs (buf ++ b ∷ c) r rest (ne_d, all) split hopen found cap

-- A beginning of `s ++ x ∷ []` that is not the whole of it is one of `s`.
beginning : (s p q : Bytes) (x : ℕ) → s ++ x ∷ [] ≡ p ++ q → q ≢ [] → (t : Bytes) × (s ≡ p ++ t)
beginning s [] q x e ne = (s, refl)
beginning [] (y ∷ []) [] x e ne = absurd (ne refl)
beginning [] (y ∷ []) (z ∷ q) x e ne = cc
beginning [] (y ∷ w ∷ p) q x e ne = cc
beginning (a ∷ s) (y ∷ p) q x e ne = let (t, f) = beginning s p q x (cc e) ne in (t, cc (e, f))

sentinel-append : (p t : Bytes) → has_sentinel p ≡ true → has_sentinel (p ++ t) ≡ true
sentinel-append [] t h = cc
sentinel-append (a ∷ []) t h = cc
sentinel-append (a ∷ b ∷ []) t h = cc
sentinel-append (a ∷ b ∷ c ∷ []) t h = cc
sentinel-append (a ∷ b ∷ c ∷ d ∷ p) t h = ground (arith, sentinel-append (b ∷ c ∷ d ∷ p) t)

IsOpen-request : (s : Bytes) (x : ℕ) → has_sentinel s ≡ false → IsOpen (s ++ x ∷ [])
IsOpen-request s x h p q e ne =
    let (t, f) = beginning s p q x e ne in
    elim (Bool-cases (has_sentinel p)) [
      | inl found ↦ cc (h, f, sentinel-append p t found)
      | inr missing ↦ missing
    ]

-- However a request of at most 8192 bytes, whose headers end with its last byte and not before, is
-- cut into non-empty reads, the loop ends with the whole request, and leaves what comes after unread.
pub read_headers-segments :
    (c : Bytes) (cs : List Bytes) (rest : List Read) (s : Bytes) (x : ℕ)
    → All (λ c. c ≢ []) (c ∷ cs)
    → bytes_of (c ∷ cs) ≡ s ++ x ∷ []
    → has_sentinel s ≡ false
    → has_sentinel (s ++ x ∷ []) ≡ true
    → length (s ++ x ∷ []) ≤ request_header_cap
    → read_headers (map chunk (c ∷ cs) ++ rest) [] ≡ headers (s ++ x ∷ [])
read_headers-segments c cs rest s x all whole before =
    read_headers-onto c cs [] (s ++ x ∷ []) rest all (sym whole) (IsOpen-request s x before)

-- How much a read gives: at most 512 bytes, the size of its buffer.
abbrev pub IsChunk : Read → Type 0
IsChunk (chunk bytes) = length bytes ≤ 512
IsChunk read_error = Unit

abbrev pub IsBounded : HeaderLoop → Type 0
IsBounded (headers buf) = (length buf < request_header_cap + 512) × (has_sentinel buf ≡ true)
IsBounded discarded = Unit
IsBounded reading = Unit

-- With reads of at most 512 bytes, and from a buffer of fewer than 8192 bytes, a buffer that the loop
-- ends with has fewer than 8192 + 512 bytes, and the end of the headers is in it.
pub read_headers-IsBounded :
    (script : List Read) (buf : Bytes)
    → All IsChunk script
    → length buf < request_header_cap
    → IsBounded (read_headers script buf)
unfolding read_headers
read_headers-IsBounded [] buf h b = tt
read_headers-IsBounded (read_error ∷ script) buf h b = tt
read_headers-IsBounded (chunk [] ∷ script) buf h b = tt
read_headers-IsBounded (chunk (x ∷ c) ∷ script) buf h b =
    let size = length-append buf (x ∷ c) in
    elim (Bool-cases (has_sentinel (buf ++ x ∷ c))) [
      | inl found ↦ rw (read_headers-found x c buf script found) ((omega (arith, size, h.0)), found)
      | inr more ↦ elim (Bool-cases (leb request_header_cap (length (buf ++ x ∷ c)))) [
        | inl over ↦ rw (read_headers-over x c buf script more over) tt
        | inr under ↦
            rw (read_headers-more x c buf script more under)
              (read_headers-IsBounded script (buf ++ x ∷ c) h.1 (ground (arith, under)))
      ]
    ]

-- From a buffer below the cap, the loop has ended once the reads and the bytes before are 8192
-- together, whatever the reads gave: it does not wait for a peer for ever.
read_headers-ends :
    (script : List Read) (buf : Bytes)
    → length buf < request_header_cap
    → request_header_cap ≤ length buf + length script
    → read_headers script buf ≢ reading
unfolding read_headers
read_headers-ends [] buf b h = absurd (omega arith)
read_headers-ends (read_error ∷ script) buf b h = λ e. cc
read_headers-ends (chunk [] ∷ script) buf b h = λ e. cc
read_headers-ends (chunk (x ∷ c) ∷ script) buf b h =
    let size = length-append buf (x ∷ c) in
    elim (Bool-cases (has_sentinel (buf ++ x ∷ c))) [
      | inl found ↦ rw (read_headers-found x c buf script found) (λ e. cc)
      | inr more ↦ elim (Bool-cases (leb request_header_cap (length (buf ++ x ∷ c)))) [
        | inl over ↦ rw (read_headers-over x c buf script more over) (λ e. cc)
        | inr under ↦
            rw (read_headers-more x c buf script more under) (
              read_headers-ends script (buf ++ x ∷ c) (ground (arith, under)) (omega (arith, size)))
      ]
    ]
