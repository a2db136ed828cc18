-- ===== src/Sockdiag/Restarts.antt =====
-- The attempts of `dump_one_family` of crates/nlx-netlink/src/collectors/sockdiag.rs.
use netlink_exporter.Base.Text.{Text}
