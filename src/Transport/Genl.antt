-- ===== src/Transport/Genl.antt =====
-- `NetlinkSocket::resolve_genl_family` of crates/nlx-netlink/src/transport.rs.
pub mod Resolve
use netlink_exporter.Base.{
  ℕ, suc, ◌+◌, ◌-◌, ◌%◌, ◌^◌, List, [], ◌∷◌, ◌++◌, Option, none, some, ltb, ◌==◌, if◌then◌else◌,
  length, drop, replicate,
}
use netlink_exporter.Base.Text.{Text, codes}
use netlink_exporter.Transport.{Result, ok, err, kernel_error, parse_failed}
use netlink_exporter.Transport.Dump.{Ends, returns, waiting, Kernel}
use netlink_exporter.Transport.Single.{request_single}
use netlink_exporter.Wire.{Bytes, Nla, align4, nla_hdrlen, parse_attrs, read_u16}
use netlink_exporter.Wire.Build.{to_ne_bytes}

abbrev pub genl_id_ctrl : ℕ
genl_id_ctrl = 0x10

-- The `CTRL_CMD_GETFAMILY` (3) request for a name, with the attribute `CTRL_ATTR_FAMILY_NAME` (2).
unfoldable pub family_request : Bytes → Bytes
family_request name =
    let nla_total = nla_hdrlen + (length name + 1) in
    (3 ∷ 2 ∷ 0 ∷ 0 ∷ [])
    ++ (to_ne_bytes 2 (nla_total % 2 ^ 16)
        ++ (to_ne_bytes 2 2 ++ (name ++ (0 ∷ replicate (align4 nla_total - nla_total) 0))))

abbrev id_too_short : Result (Option ℕ)
id_too_short = err (parse_failed (codes "CTRL_ATTR_FAMILY_ID too short"))

-- The loop over the reply's attributes, up to the first `CTRL_ATTR_FAMILY_ID` (1).
unfoldable pub find_family_id : List Nla → Result (Option ℕ)
find_family_id [] = err (parse_failed (codes "CTRL_ATTR_FAMILY_ID not found in reply"))
find_family_id (a ∷ rest) =
    if a.ty == 1
    then (elim (read_u16 a.payload) as (λ r. Result (Option ℕ)) [
      | some id ↦ ok (some id)
      | none ↦ id_too_short
    ])
    else find_family_id rest

-- The `match` on the reply. `ENOENT` is 2.
unfoldable pub family_reply : Result (Option Bytes) → Result (Option ℕ)
unfolding find_family_id
family_reply (ok (some payload)) =
    if ltb (length payload) 4
    then err (parse_failed (codes "CTRL reply too short for genlmsghdr"))
    else find_family_id (parse_attrs (drop 4 payload))
family_reply (ok none) = err (parse_failed (codes "CTRL_CMD_GETFAMILY returned empty reply"))
family_reply (err (kernel_error errno)) = if errno == 2 then ok none else err (kernel_error errno)
family_reply (err e) = err e

module _ (os_error : ℕ → Text) where
  unfoldable pub resolve_genl_family : Kernel → ℕ → Bytes → Ends (Result (Option ℕ) × ℕ)
  resolve_genl_family k counter name =
      elim (request_single os_error k counter genl_id_ctrl 0 (family_request name)) [
        | waiting ↦ waiting
        | returns (r, counter') ↦ returns (family_reply r, counter')
      ]
