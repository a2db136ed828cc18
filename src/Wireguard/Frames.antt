-- ===== src/Wireguard/Frames.antt =====
-- How `merge_device_frames` of crates/nlx-netlink/src/collectors/wireguard.rs puts a device together.
use netlink_exporter.Base.{
  ℕ, List, [], ◌∷◌, ◌++◌, Option, none, some, ◌≡◌, refl, sym, ◌∙◌, ◌==◌, if◌then◌else◌, map,
  append_assoc, append-nil, arith, Bool-cases, Option-cases, inl, inr,
}
use netlink_exporter.Base.Text.{Text}
use netlink_exporter.Wire.{Bytes}
use netlink_exporter.Wireguard.{
  WireguardDevice, WireguardPeer, extend, frame_device, merge_onto, merge_device_frames,
}

abbrev pub first_nonzero : List ℕ → ℕ
first_nonzero [] = 0
first_nonzero (n ∷ rest) = if n == 0 then first_nonzero rest else n

first_nonzero-if :
    (m n : ℕ) (rest : List ℕ)
    → first_nonzero ((if m == 0 then n else m) ∷ rest) ≡ first_nonzero (m ∷ n ∷ rest)
first_nonzero-if m n rest = elim (Bool-cases (m == 0)) [
  | inl e ↦ rw e refl
  | inr e ↦ rw (e, e) refl
]

module _ {F64 : Type 0} where
  -- The peers of all devices, in order.
  abbrev pub all_peers : List (WireguardDevice F64) → List (WireguardPeer F64)
  all_peers [] = []
  all_peers (d ∷ devices) = d.peers ++ all_peers devices

  -- One device from the devices of its frames: the first name, the first port and mark that are not
  -- zero, and all peers.
  abbrev pub united : List (WireguardDevice F64) → Option (WireguardDevice F64)
  united [] = none
  united (d ∷ devices) = some (record {
    if_name = d.if_name;
    listen_port = first_nonzero (d.listen_port ∷ map (λ e. e.listen_port) devices);
    fwmark = first_nonzero (d.fwmark ∷ map (λ e. e.fwmark) devices);
    peers = all_peers (d ∷ devices);
  })

module _ {F64 : Type 0} (of_u64 : ℕ → F64) (lossy : Bytes → Text) where
  -- The devices in the frames, those that hold one.
  abbrev pub devices : List Bytes → List (WireguardDevice F64)
  devices [] = []
  devices (frame ∷ frames) = elim (frame_device of_u64 lossy frame) [
    | none ↦ devices frames
    | some d ↦ d ∷ devices frames
  ]

  united-extend :
      (d p : WireguardDevice F64) (rest : List (WireguardDevice F64))
      → united (extend of_u64 lossy d p ∷ rest) ≡ united (d ∷ p ∷ rest)
  united-extend d p rest = λ i. some (record {
    if_name = d.if_name;
    listen_port = first_nonzero-if d.listen_port p.listen_port (map (λ e. e.listen_port) rest) i;
    fwmark = first_nonzero-if d.fwmark p.fwmark (map (λ e. e.fwmark) rest) i;
    peers = append_assoc d.peers p.peers (all_peers rest) i;
  })

  united-one : (d : WireguardDevice F64) → some d ≡ united (d ∷ [])
  united-one d = λ i. some (record {
    if_name = d.if_name;
    listen_port = same d.listen_port i;
    fwmark = same d.fwmark i;
    peers = sym (append-nil d.peers) i;
  })
    where
      same : (n : ℕ) → n ≡ first_nonzero (n ∷ [])
      same n = ground arith

  merge_onto-united :
      (d : WireguardDevice F64) (frames : List Bytes)
      → merge_onto of_u64 lossy (some d) frames ≡ united (d ∷ devices frames)
  unfolding merge_onto
  merge_onto-united d [] = united-one d
  merge_onto-united d (frame ∷ frames) = elim (Option-cases (frame_device of_u64 lossy frame)) [
    | inl e ↦ rw e (merge_onto-united d frames)
    | inr (p, e) ↦
        rw e
          (merge_onto-united (extend of_u64 lossy d p) frames ∙ united-extend d p (devices frames))
  ]

  -- However the kernel splits a device over frames, merging them gives the device with the name of
  -- the first, the first port and mark that are not zero, and the peers of all frames in order;
  -- frames without a device do not count, and there is none exactly if no frame holds one.
  pub merge_device_frames-united :
      (frames : List Bytes) → merge_device_frames of_u64 lossy frames ≡ united (devices frames)
  unfolding merge_device_frames merge_onto
  merge_device_frames-united [] = refl
  merge_device_frames-united (frame ∷ frames) =
      elim (Option-cases (frame_device of_u64 lossy frame)) [
        | inl e ↦ rw (e, devices) (merge_device_frames-united frames)
        | inr (p, e) ↦ rw (e, devices) (merge_onto-united p frames)
      ]
