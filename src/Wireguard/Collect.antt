-- ===== src/Wireguard/Collect.antt =====
-- The dumps and `collect` of crates/nlx-netlink/src/collectors/wireguard.rs. `encode` is a text's
-- bytes in UTF-8.
use netlink_exporter.Base.{ℕ, List, [], ◌∷◌, ◌++◌, Option, none, some, replicate}
use netlink_exporter.Base.Text.{Text, codes}
use netlink_exporter.Scrape.{Outcome, collected, failed, io}
use netlink_exporter.Transport.{Result, ok, err, error_text}
use netlink_exporter.Transport.Dump.{Ends, returns, waiting, Kernel, Socket}
use netlink_exporter.Transport.Genl.{resolve_genl_family}
use netlink_exporter.Transport.Retries.{Session, dump_with_retries}
use netlink_exporter.Wire.{Bytes}
use netlink_exporter.Wireguard.{
  WireguardDevice, wireguard_names, build_wg_payload, merge_device_frames,
}
use netlink_exporter.Wireguard.Samples.{Casts, devices_samples}

module _ (os_error : ℕ → Text) (lossy : Bytes → Text) (encode : Text → Bytes) where
  -- `list_wireguard_interfaces`, with a socket of its own: `opened` is what opening it gives. The
  -- session is the one of the other socket, before and after.
  unfoldable pub list_wireguard_interfaces :
      Result Socket → Session → Ends (Session × Result (List Text))
  list_wireguard_interfaces (err e) s = returns (s, err e)
  list_wireguard_interfaces (ok route) s =
      elim (dump_with_retries os_error 18 (replicate 16 0) (record s { sock = route })) [
        | waiting ↦ waiting
        | returns (s', err e) ↦ returns (record s' { sock = s.sock }, err e)
        | returns (s', ok frames) ↦
            returns (record s' { sock = s.sock }, ok (wireguard_names lossy frames))
      ]

  abbrev pub wg_dump_iface : ℕ → Text → Session → Ends (Session × Result (List Bytes))
  wg_dump_iface family_id ifname s =
      dump_with_retries os_error family_id (build_wg_payload (encode ifname)) s

  module _ {F64 : Type 0} (c : Casts F64) where
    abbrev Devices : Type 0
    Devices = Result (List (WireguardDevice F64))

    abbrev add_device : Option (WireguardDevice F64) → List (WireguardDevice F64) → Devices
    add_device none devices = ok devices
    add_device (some dev) devices = ok (devices ++ dev ∷ [])

    -- The loop over the interfaces; `result` is what it has collected.
    unfoldable pub dump_ifaces :
        ℕ → List Text → Session → List (WireguardDevice F64) → Ends (Session × Devices)
    dump_ifaces family_id [] s result = returns (s, ok result)
    dump_ifaces family_id (ifname ∷ ifaces) s result = elim (wg_dump_iface family_id ifname s) [
      | waiting ↦ waiting
      | returns (s', err e) ↦ returns (s', err e)
      | returns (s', ok frames) ↦ elim (merge_device_frames c.of_u64 lossy frames) [
        | none ↦ dump_ifaces family_id ifaces s' result
        | some dev ↦ dump_ifaces family_id ifaces s' (result ++ dev ∷ [])
      ]
    ]

    unfoldable pub collect_devices : Result Socket → ℕ → Session → Ends (Session × Devices)
    unfolding dump_ifaces list_wireguard_interfaces
    collect_devices route family_id s = elim (list_wireguard_interfaces route s) [
      | waiting ↦ waiting
      | returns (s', err e) ↦ returns (s', err e)
      | returns (s', ok ifaces) ↦ dump_ifaces family_id ifaces s' []
    ]

    -- `collect`: `opened` and `route` are what opening the two sockets gives, `k` answers the request
    -- for the family, `now_secs` is the time.
    unfoldable pub collect :
        ℕ → ℕ → Result Socket → Result Socket → Kernel → ℕ → List Kernel → Ends (Outcome F64)
    unfolding collect_devices
    collect max_peers now_secs (err e) route k counter kernels =
        returns (failed (io (error_text e)))
    collect max_peers now_secs (ok sock) route k counter kernels =
        elim (resolve_genl_family os_error k counter (encode (codes "wireguard"))) [
          | waiting ↦ waiting
          | returns (err e, counter') ↦ returns (failed (io (error_text e)))
          | returns (ok none, counter') ↦ returns (collected [])
          | returns (ok (some family_id), counter') ↦
              elim (collect_devices route family_id
                (record { sock = sock; counter = counter'; kernels = kernels })) [
                  | waiting ↦ waiting
                  | returns (s, err e) ↦ returns (failed (io (error_text e)))
                  | returns (s, ok devices) ↦
                      returns (collected (devices_samples c now_secs max_peers devices))
                ]
        ]
