-- ===== src/Ipvs/Keys.antt =====
-- The key of a service in the request for its destinations, crates/nlx-netlink/src/collectors/ipvs.rs,
-- against the service as it was received.
use mathlib.Core.List.{foldl}
use mathlib.Core.Option
use mathlib.Core.Path.{subst}
use netlink_exporter.Base.{
  ℕ, ◌+◌, ◌^◌, ◌<◌, ◌≡◌, ◌≢◌, refl, sym, ap, ◌∙◌, ◌⊎◌, inl, inr, true, false, List, [], ◌∷◌, Option,
  none, some, ◌==◌, length, is_empty, take, take-append, append-nil, arith,
}
use netlink_exporter.Base.Digits.{lower_hex}
use netlink_exporter.Base.Digits.ReadBack.{
  from_str_radix-decimal, from_str_radix-lower_hex, starts_0x-decimal, trim_0x-lower_hex,
}
use netlink_exporter.Base.Text.{Text, decimal}
use netlink_exporter.Ipvs.{
  Addresses, ServiceState, IpvsService, has_colon, svc_af, proto_str, addr_to_str, finish_service,
  no_service, service_attr, parse_service,
}
use netlink_exporter.Ipvs.Requests.{proto_number, push_parsed, service_key, build_dest_request}
use netlink_exporter.Wire.{Bytes, IsBytes, Nla, parse_attrs}
use netlink_exporter.Wire.Build.{push_nla, to_ne_bytes, to_be_bytes}
use netlink_exporter.Wire.RoundTrip.{push_all}

-- The forms of addresses read back, and only those of version 6 have colons.
pub record IsAddresses (addresses : Addresses) : Type 0 where
  pub v4_reads :
      (b : Bytes) → IsBytes b → length b ≡ 4 → addresses.parse_v4 (addresses.show_v4 b) ≡ some b
  pub v4_filled : (b : Bytes) → IsBytes b → length b ≡ 4 → is_empty (addresses.show_v4 b) ≡ false
  pub v4_plain : (b : Bytes) → IsBytes b → length b ≡ 4 → has_colon (addresses.show_v4 b) ≡ false
  pub v6_reads :
      (b : Bytes) → IsBytes b → length b ≡ 16 → addresses.parse_v6 (addresses.show_v6 b) ≡ some b
  pub v6_no_v4 :
      (b : Bytes) → IsBytes b → length b ≡ 16 → addresses.parse_v4 (addresses.show_v6 b) ≡ none
  pub v6_colon : (b : Bytes) → IsBytes b → length b ≡ 16 → has_colon (addresses.show_v6 b) ≡ true

-- An address of either family.
abbrev pub IsAddress : ℕ → Bytes → Type 0
IsAddress af b = IsBytes b × (((af ≡ 2) × (length b ≡ 4)) ⊎ ((af ≡ 10) × (length b ≡ 16)))

-- A protocol that the kernel balances.
abbrev pub IsProto : ℕ → Type 0
IsProto proto = (proto ≡ 6) ⊎ ((proto ≡ 17) ⊎ (proto ≡ 132))

proto_number-proto_str : (proto : ℕ) → IsProto proto → proto_number (proto_str proto) ≡ proto
proto_number-proto_str proto (inl e) = ap (λ (p : ℕ). proto_number (proto_str p)) e ∙ sym e
proto_number-proto_str proto (inr (inl e)) = ap (λ (p : ℕ). proto_number (proto_str p)) e ∙ sym e
proto_number-proto_str proto (inr (inr e)) = ap (λ (p : ℕ). proto_number (proto_str p)) e ∙ sym e

-- The attributes of a key, as the kernel sends them.
abbrev pub address_key : ℕ → ℕ → Bytes → ℕ → List Nla
address_key af proto b port =
    record { ty = 1; payload = to_ne_bytes 2 af }
    ∷ record { ty = 2; payload = to_ne_bytes 2 proto }
    ∷ record { ty = 3; payload = b }
    ∷ record { ty = 4; payload = to_be_bytes 2 port }
    ∷ []

abbrev pub fwmark_key : ℕ → ℕ → List Nla
fwmark_key af fwmark =
    record { ty = 1; payload = to_ne_bytes 2 af }
    ∷ record { ty = 5; payload = to_ne_bytes 4 fwmark }
    ∷ []

is_empty-has_colon : (t : Text) → has_colon t ≡ true → is_empty t ≡ false
is_empty-has_colon [] h = absurd (ground (arith, h))
is_empty-has_colon (c ∷ cs) h = refl

take_all : (n : ℕ) (b : Bytes) → length b ≡ n → take n b ≡ b
take_all n b len =
    ap (λ (m : ℕ). take m b) (sym len)
    ∙ (ap (take (length b)) (sym (append-nil b)) ∙ take-append b [])

-- What the loop over the attributes of a service has read.
abbrev pub service_state : (Bytes → Text) → Bytes → ServiceState
service_state lossy attrs_buf = foldl (service_attr lossy) no_service (parse_attrs attrs_buf)

module _ (addresses : Addresses) where
  -- What the text of an address gives in a request.
  record Shows (af : ℕ) (b : Bytes) (vip : Text) : Type 0 where
    family : svc_af vip ≡ af
    filled : is_empty vip ≡ false
    pushed :
        (inner : Bytes)
        → push_parsed inner (addresses.parse_v4 vip) (addresses.parse_v6 vip) ≡ push_nla inner 3 b

  service_key-address :
      (svc : IpvsService) (af port : ℕ) (b : Bytes)
      → Shows af b svc.vip
      → svc.port ≡ decimal port
      → port < 2 ^ 16
      → service_key addresses svc ≡ push_all [] (address_key af (proto_number svc.proto) b port)
  unfolding service_key
  service_key-address svc af port b shown e fits =
      rw
        (
          e,
          starts_0x-decimal port,
          from_str_radix-decimal (2 ^ 16) port fits,
          shown.family,
          shown.filled,
          shown.pushed _,
        )
        refl

  service_key-fwmark :
      (svc : IpvsService) (fwmark : ℕ)
      → svc.vip ≡ []
      → svc.port ≡ b'0' ∷ b'x' ∷ lower_hex fwmark
      → fwmark < 2 ^ 32
      → service_key addresses svc ≡ push_all [] (fwmark_key 2 fwmark)
  unfolding service_key
  service_key-fwmark svc fwmark e e' fits =
      rw (e, e', trim_0x-lower_hex fwmark, from_str_radix-lower_hex (2 ^ 32) fwmark fits) refl

  show_v4-Shows :
      IsAddresses addresses
      → (af : ℕ) (b : Bytes) → IsBytes b
      → af ≡ 2
      → length b ≡ 4
      → Shows af b (addresses.show_v4 b)
  show_v4-Shows forms af b bytes e len = record {
    family = rw (forms.v4_plain b bytes len) (sym e);
    filled = forms.v4_filled b bytes len;
    pushed = λ inner. rw (forms.v4_reads b bytes len) refl;
  }

  show_v6-Shows :
      IsAddresses addresses
      → (af : ℕ) (b : Bytes) → IsBytes b
      → af ≡ 10
      → length b ≡ 16
      → Shows af b (addresses.show_v6 b)
  show_v6-Shows forms af b bytes e len = record {
    family = rw (forms.v6_colon b bytes len) (sym e);
    filled = is_empty-has_colon (addresses.show_v6 b) (forms.v6_colon b bytes len);
    pushed = λ inner. rw (forms.v6_no_v4 b bytes len, forms.v6_reads b bytes len) refl;
  }

  addr_to_str-Shows :
      IsAddresses addresses
      → (af : ℕ) (b : Bytes) → IsAddress af b
      → Shows af b (addr_to_str addresses af b)
  unfolding addr_to_str
  addr_to_str-Shows forms af b (bytes, inl (e, len)) =
      let text : addr_to_str addresses af b ≡ addresses.show_v4 b =
        rw (e, len, take_all 4 b len) refl in
      subst (Shows af b) (sym text) (show_v4-Shows forms af b bytes e len)
  addr_to_str-Shows forms af b (bytes, inr (e, len)) =
      let text : addr_to_str addresses af b ≡ addresses.show_v6 b =
        rw (e, len, take_all 16 b len) refl in
      subst (Shows af b) (sym text) (show_v6-Shows forms af b bytes e len)

  finish_service-address_key :
      (v : ServiceState) (b : Bytes)
      → IsAddresses addresses
      → v.fwmark ≡ 0
      → v.addr_bytes ≡ some b
      → IsAddress v.af b
      → IsProto v.proto
      → v.port < 2 ^ 16
      → service_key addresses (finish_service addresses v)
        ≡ push_all [] (address_key v.af v.proto b v.port)
  finish_service-address_key v b forms unmarked has_addr address proto fits =
      let svc = finish_service addresses v in
      let vip : svc.vip ≡ addr_to_str addresses v.af b = rw (unmarked, has_addr) refl in
      let port : svc.port ≡ decimal v.port = rw unmarked refl in
      let shown = subst (Shows v.af b) (sym vip) (addr_to_str-Shows forms v.af b address) in
      service_key-address svc v.af v.port b shown port fits
      ∙ ap (λ (p : ℕ). push_all [] (address_key v.af p b v.port))
          (proto_number-proto_str v.proto proto)

  finish_service-fwmark_key :
      (v : ServiceState)
      → v.fwmark ≢ 0
      → v.fwmark < 2 ^ 32
      → service_key addresses (finish_service addresses v) ≡ push_all [] (fwmark_key 2 v.fwmark)
  finish_service-fwmark_key v marked fits =
      let svc = finish_service addresses v in
      let mark : (v.fwmark == 0) ≡ false = ground (arith, marked) in
      let vip : svc.vip ≡ [] = rw mark refl in
      let port : svc.port ≡ b'0' ∷ b'x' ∷ lower_hex v.fwmark = rw mark refl in
      service_key-fwmark svc v.fwmark vip port fits

  module _ (lossy : Bytes → Text) (attrs_buf : Bytes) where
    abbrev pub request_for : Option Bytes
    request_for =
        Option.map (build_dest_request addresses) (parse_service addresses lossy attrs_buf)

    -- The request for the destinations of a service, made from the texts of its address, protocol and
    -- port, holds the family, protocol, address and port that were received, when it has no firewall
    -- mark, a known protocol, a port of sixteen bits and an address of its family, and when the forms
    -- of addresses read back.
    pub request_for-address_key :
        (b : Bytes)
        → IsAddresses addresses
        → (service_state lossy attrs_buf).fwmark ≡ 0
        → (service_state lossy attrs_buf).addr_bytes ≡ some b
        → IsAddress (service_state lossy attrs_buf).af b
        → IsProto (service_state lossy attrs_buf).proto
        → (service_state lossy attrs_buf).port < 2 ^ 16
        → request_for
          ≡ some (
              push_nla (8 ∷ 1 ∷ 0 ∷ 0 ∷ []) (2 ^ 15 + 1) (
                push_all [] (
                  address_key
                    (service_state lossy attrs_buf).af
                    (service_state lossy attrs_buf).proto
                    b
                    (service_state lossy attrs_buf).port)))
    unfolding build_dest_request parse_service
    request_for-address_key b forms unmarked has_addr address proto fits =
        ap (λ (key : Bytes). some (push_nla (8 ∷ 1 ∷ 0 ∷ 0 ∷ []) (2 ^ 15 + 1) key))
          (finish_service-address_key (service_state lossy attrs_buf) b forms unmarked has_addr
            address proto fits)

    -- The request for the destinations of a service with a firewall mark of 32 bits holds the mark and
    -- the family of IPv4, whatever family was received.
    pub request_for-fwmark_key :
        (service_state lossy attrs_buf).fwmark ≢ 0
        → (service_state lossy attrs_buf).fwmark < 2 ^ 32
        → request_for
          ≡ some (
              push_nla
                (8 ∷ 1 ∷ 0 ∷ 0 ∷ [])
                (2 ^ 15 + 1)
                (push_all [] (fwmark_key 2 (service_state lossy attrs_buf).fwmark)))
    unfolding build_dest_request parse_service
    request_for-fwmark_key marked fits =
        ap (λ (key : Bytes). some (push_nla (8 ∷ 1 ∷ 0 ∷ 0 ∷ []) (2 ^ 15 + 1) key))
          (finish_service-fwmark_key (service_state lossy attrs_buf) marked fits)
