-- ===== src/Tests/Wireguard.antt =====
-- Inputs for the theorems about crates/nlx-netlink/src/collectors/wireguard.rs.
use netlink_exporter.Base.{ℕ, List, [], ◌∷◌, ◌++◌, ◌≡◌, refl, replicate}
use netlink_exporter.Base.Text.{Text, codes}
use netlink_exporter.Wire.{Bytes, parse_attrs, collect, next}
use netlink_exporter.Wire.Build.{push_nla, to_ne_bytes}
use netlink_exporter.Wireguard.{merge_device_frames, parse_device}
use netlink_exporter.Wireguard.Frames.{devices, united, merge_device_frames-united}
use netlink_exporter.Wireguard.Secrets.{public_device, parse_device-public_device}

abbrev ascii : Bytes → Text
ascii bytes = bytes

-- A peer with the given preshared key.
abbrev peer : Bytes → Bytes
peer preshared = push_nla (push_nla [] 1 (replicate 32 7)) 2 preshared

-- A device with a private key and one peer.
abbrev device : Bytes → Bytes → Bytes
device private preshared =
    push_nla (push_nla (push_nla [] 2 (codes "wg0" ++ 0 ∷ [])) 3 private) 8
      (push_nla [] 1 (peer preshared))

same_public :
    public_device (device (replicate 4 1) (replicate 4 2))
    ≡ public_device (device (replicate 8 9) (replicate 8 5))
unfolding parse_attrs collect next push_nla
same_public = refl

parse_device-public_device_example :
    parse_device {F64 = ℕ} (λ n. n) ascii (device (replicate 4 1) (replicate 4 2))
    ≡ parse_device (λ n. n) ascii (device (replicate 8 9) (replicate 8 5))
parse_device-public_device_example =
    parse_device-public_device (λ n. n) ascii (device (replicate 4 1) (replicate 4 2))
      (device (replicate 8 9) (replicate 8 5)) same_public

-- Two frames of one device, with a frame that is too short between them.
abbrev frames : List Bytes
frames =
    ((0 ∷ 1 ∷ 0 ∷ 0 ∷ []) ++ device [] (replicate 4 2))
    ∷ (0 ∷ 1 ∷ [])
    ∷ ((0 ∷ 1 ∷ 0 ∷ 0 ∷ []) ++ push_nla (device [] []) 6 (to_ne_bytes 2 51820))
    ∷ []

merge_device_frames-united_example :
    merge_device_frames {F64 = ℕ} (λ n. n) ascii frames ≡ united (devices (λ n. n) ascii frames)
merge_device_frames-united_example = merge_device_frames-united (λ n. n) ascii frames
