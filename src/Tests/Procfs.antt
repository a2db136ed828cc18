-- ===== src/Tests/Procfs.antt =====
-- Inputs for the theorems about crates/nlx-procfs/src/lib.rs.
use netlink_exporter.Base.{◌≡◌, refl, true, false}
use netlink_exporter.Base.Text.{Text, codes}
use netlink_exporter.Procfs.{allowed_prefixes, contains_dots, path_allowed}
use netlink_exporter.Procfs.Allowed.{IsBelow, path_allowed-IsBelow}

abbrev mtu : Text
mtu = codes "/sys/class/net/eth0/mtu"

mtu_allowed : path_allowed mtu ≡ true
unfolding path_allowed
mtu_allowed = refl

path_allowed-IsBelow_example : (contains_dots mtu ≡ false) × IsBelow mtu allowed_prefixes
path_allowed-IsBelow_example = path_allowed-IsBelow mtu mtu_allowed
