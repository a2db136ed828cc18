-- ===== src/Wireguard/Secrets.antt =====
-- What of a device's frame its private and preshared keys can change: nothing. The parsers are those
-- of crates/nlx-netlink/src/collectors/wireguard.rs.
use mathlib.Core.List.{foldl}
use netlink_exporter.Base.{
  ℕ, List, [], ◌∷◌, ◌++◌, none, some, ◌≡◌, refl, sym, ap, ◌∙◌, ◌⊎◌, inl, inr, ◌==◌, if◌then◌else◌,
  map, true, Bool-cases, is_empty, arith,
}
use netlink_exporter.Base.Text.{Text}
use netlink_exporter.Wire.{Bytes, Nla, parse_attrs, nested_attrs}
use netlink_exporter.Wireguard.{
  PeerState, WireguardDevice, WireguardPeer, no_peer, peer_attr, finish_peer, parse_peer,
  parse_peers, no_device, device_attr, parse_device,
}

-- The attributes of a type other than `ty`.
abbrev pub without : ℕ → List Nla → List Nla
without ty [] = []
without ty (a ∷ attrs) = let rest = without ty attrs in if a.ty == ty then rest else a ∷ rest

-- What is left of a peer without its preshared key.
abbrev pub public_peer : Nla → List Nla
public_peer container = without 2 (parse_attrs container.payload)

-- What is left of an attribute of a device: the public parts of its peers, or the attribute.
abbrev pub public_attr : Nla → Nla ⊎ List (List Nla)
public_attr a = if a.ty == 8 then inr (map public_peer (nested_attrs a.payload)) else inl a

-- What is left of a device without its private key and its peers' preshared keys.
abbrev pub public_device : Bytes → List (Nla ⊎ List (List Nla))
public_device attrs_buf = map public_attr (without 3 (parse_attrs attrs_buf))

peer_attr-secret : (p : PeerState) (a : Nla) → (a.ty == 2) ≡ true → peer_attr p a ≡ p
unfolding peer_attr
peer_attr-secret p a e = ground (arith, e)

peer_attr-without :
    (attrs : List Nla) (p : PeerState)
    → foldl peer_attr p attrs ≡ foldl peer_attr p (without 2 attrs)
peer_attr-without [] p = refl
peer_attr-without (a ∷ attrs) p = elim (Bool-cases (a.ty == 2)) [
  | inl secret ↦ rw secret (
      ap (λ (q : PeerState). foldl peer_attr q attrs) (peer_attr-secret p a secret)
      ∙ peer_attr-without attrs p)
  | inr public ↦ rw public (peer_attr-without attrs (peer_attr p a))
]

module _ {F64 : Type 0} (of_u64 : ℕ → F64) (lossy : Bytes → Text) where
  -- The parsers on the public parts.
  abbrev peers_of : List (List Nla) → List (WireguardPeer F64)
  peers_of [] = []
  peers_of (attrs ∷ rest) = elim (finish_peer of_u64 (foldl peer_attr no_peer attrs)) [
    | none ↦ peers_of rest
    | some peer ↦ peer ∷ peers_of rest
  ]

  abbrev public_step : WireguardDevice F64 → Nla ⊎ List (List Nla) → WireguardDevice F64
  public_step d (inl a) = device_attr of_u64 lossy d a
  public_step d (inr peers) = record d { peers = d.peers ++ peers_of peers }

  parse_peers-public :
      (containers : List Nla)
      → parse_peers of_u64 containers ≡ peers_of (map public_peer containers)
  unfolding parse_peers parse_peer
  parse_peers-public [] = refl
  parse_peers-public (c ∷ containers) =
      ap
        (λ (p : PeerState). elim (finish_peer of_u64 p) as (λ o. List (WireguardPeer F64)) [
          | none ↦ parse_peers of_u64 containers
          | some peer ↦ peer ∷ parse_peers of_u64 containers
        ])
        (peer_attr-without (parse_attrs c.payload) no_peer)
      ∙ ap
          (λ (l : List (WireguardPeer F64)).
            elim (finish_peer of_u64 (foldl peer_attr no_peer (public_peer c)))
              as (λ o. List (WireguardPeer F64)) [ none ↦ l | some peer ↦ peer ∷ l ])
          (parse_peers-public containers)

  device_attr-secret :
      (d : WireguardDevice F64) (a : Nla) → (a.ty == 3) ≡ true → device_attr of_u64 lossy d a ≡ d
  unfolding device_attr
  device_attr-secret d a e = ground (arith, e)

  device_attr-peers :
      (d : WireguardDevice F64) (a : Nla)
      → (a.ty == 8) ≡ true
      → device_attr of_u64 lossy d a
        ≡ record d { peers = d.peers ++ parse_peers of_u64 (nested_attrs a.payload) }
  unfolding device_attr
  device_attr-peers d a e = ground (arith, e)

  device_attr-public :
      (d : WireguardDevice F64) (a : Nla)
      → device_attr of_u64 lossy d a ≡ public_step d (public_attr a)
  device_attr-public d a = elim (Bool-cases (a.ty == 8)) [
    | inl e ↦ rw e (
        device_attr-peers d a e
        ∙ ap (λ (l : List (WireguardPeer F64)). record d { peers = d.peers ++ l })
            (parse_peers-public (nested_attrs a.payload)))
    | inr e ↦ rw e refl
  ]

  foldl-public :
      (attrs : List Nla) (d : WireguardDevice F64)
      → foldl (device_attr of_u64 lossy) d attrs
        ≡ foldl public_step d (map public_attr (without 3 attrs))
  foldl-public [] d = refl
  foldl-public (a ∷ attrs) d = elim (Bool-cases (a.ty == 3)) [
    | inl secret ↦ rw secret (
        ap (λ (e : WireguardDevice F64). foldl (device_attr of_u64 lossy) e attrs)
          (device_attr-secret d a secret)
        ∙ foldl-public attrs d)
    | inr public ↦ rw public (
        ap (λ (e : WireguardDevice F64). foldl (device_attr of_u64 lossy) e attrs)
          (device_attr-public d a)
        ∙ foldl-public attrs (public_step d (public_attr a)))
  ]

  -- Two frames that differ only in private keys and preshared keys, which may be there or not and of
  -- any length, give the same device: no secret of a frame reaches what the exporter keeps of it.
  pub parse_device-public_device :
      (frame other : Bytes)
      → public_device frame ≡ public_device other
      → parse_device of_u64 lossy frame ≡ parse_device of_u64 lossy other
  unfolding parse_device
  parse_device-public_device frame other e =
      ap (λ (d : WireguardDevice F64). if is_empty d.if_name then none else some d)
        (foldl-public (parse_attrs frame) (no_device of_u64)
          ∙ ap (foldl public_step (no_device of_u64)) e
          ∙ sym (foldl-public (parse_attrs other) (no_device of_u64)))
