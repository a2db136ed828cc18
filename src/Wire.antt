-- ===== src/Wire.antt =====
-- crates/nlx-netlink/src/wire.rs: the attribute iterator and the typed readers.
-- A byte slice is a list of numbers. Native-endian is little-endian, as on x86-64 and aarch64.
pub mod Build
pub mod Attrs
pub mod RoundTrip
pub mod Scalars
pub mod Names
use mathlib.Core.Option
use netlink_exporter.Base.{
  ℕ, zero, suc, ◌+◌, ◌-◌, ◌*◌, ◌/◌, ◌%◌, ◌^◌, ◌<◌, Bool, ◌||◌, List, [], ◌∷◌, Option, none, some,
  ltb, leb, if◌then◌else◌, length, get_or, take, drop, All,
}

abbrev pub Bytes : Type 0
Bytes = List ℕ

abbrev pub IsBytes : Bytes → Type 0
IsBytes = All (λ b. b < 256)

-- `(len.wrapping_add(3)) & !3` on a 64-bit `usize`: the mask clears the two low bits.
abbrev pub align4 : ℕ → ℕ
align4 len = (len + 3) % 2 ^ 64 / 4 * 4

abbrev pub nla_hdrlen : ℕ
nla_hdrlen = 4

-- `raw & NLA_TYPE_MASK`, with the mask `0x1FFF` of thirteen low bits.
abbrev pub mask_type : ℕ → ℕ
mask_type raw = raw % 2 ^ 13

pub record Nla : Type 0 where
  pub ty : ℕ
  pub payload : Bytes

-- `from_ne_bytes` and `from_be_bytes`
abbrev pub from_ne_bytes : Bytes → ℕ
from_ne_bytes [] = 0
from_ne_bytes (b ∷ bs) = b + 256 * from_ne_bytes bs

abbrev pub from_be_onto : ℕ → Bytes → ℕ
from_be_onto acc [] = acc
from_be_onto acc (b ∷ bs) = from_be_onto (acc * 256 + b) bs

abbrev pub from_be_bytes : Bytes → ℕ
from_be_bytes = from_be_onto 0

-- `&buf[from..to]`
abbrev pub slice : ℕ → ℕ → Bytes → Bytes
slice from to buf = take (to - from) (drop from buf)

-- What is left of the buffer after an attribute of `nla_len` bytes.
abbrev pub advance : ℕ → Bytes → Bytes
advance nla_len buf =
    let stride = align4 nla_len in if leb (length buf) stride then [] else drop stride buf

-- `NlaIter::next`: the attribute and the iterator's new buffer.
unfoldable pub next : Bytes → Option (Nla × Bytes)
next buf =
    if ltb (length buf) nla_hdrlen
    then none
    else let nla_len = from_ne_bytes (get_or buf 0 0 ∷ get_or buf 1 0 ∷ []) in
      if ltb nla_len nla_hdrlen || ltb (length buf) nla_len
      then none
      else let raw_type = from_ne_bytes (get_or buf 2 0 ∷ get_or buf 3 0 ∷ []) in
        some (
          record { ty = mask_type raw_type; payload = slice nla_hdrlen nla_len buf },
          advance nla_len buf,
        )

-- The loop over the iterator, on fuel.
unfoldable pub collect : ℕ → Bytes → List Nla
collect zero buf = []
collect (suc fuel) buf = elim (next buf) [ none ↦ [] | some (a, rest) ↦ a ∷ collect fuel rest ]

-- All that the iterator yields. Each attribute takes a header at least, so `length buf` is enough.
unfoldable pub parse_attrs : Bytes → List Nla
unfolding collect
parse_attrs buf = collect (length buf) buf

abbrev pub nested_attrs : Bytes → List Nla
nested_attrs payload = parse_attrs payload

-- `payload.get(..n)`
abbrev pub get_prefix : ℕ → Bytes → Option Bytes
get_prefix n payload = if leb n (length payload) then some (take n payload) else none

unfoldable pub read_u8 : Bytes → Option ℕ
read_u8 [] = none
read_u8 (b ∷ bs) = some b

unfoldable pub read_u16 : Bytes → Option ℕ
read_u16 payload = Option.map from_ne_bytes (get_prefix 2 payload)

unfoldable pub read_u32 : Bytes → Option ℕ
read_u32 payload = Option.map from_ne_bytes (get_prefix 4 payload)

unfoldable pub read_u64 : Bytes → Option ℕ
read_u64 payload = Option.map from_ne_bytes (get_prefix 8 payload)

unfoldable pub read_u16_be : Bytes → Option ℕ
read_u16_be payload = Option.map from_be_bytes (get_prefix 2 payload)

unfoldable pub read_u32_be : Bytes → Option ℕ
read_u32_be payload = Option.map from_be_bytes (get_prefix 4 payload)

unfoldable pub read_u64_be : Bytes → Option ℕ
read_u64_be payload = Option.map from_be_bytes (get_prefix 8 payload)
