-- ===== src/Tests/Config.antt =====
-- Inputs for the theorems about crates/nlx-config/src/config.rs.
use netlink_exporter.Base.{ℕ, ◌≡◌, false}
use netlink_exporter.Base.Text.{codes}
use netlink_exporter.Config.{default_flags, collector_enabled, from_config, xfrm_collector}
use netlink_exporter.Config.Enabled.{collectors, flagged, from_config-flagged}

from_config-flagged_example :
    (from_config {C = ℕ} default_flags 1000 3 ≡ flagged default_flags (collectors 1000 3))
    × (collector_enabled default_flags (codes "xfrm-ipsec") ≡ false)
from_config-flagged_example = from_config-flagged default_flags 1000 3 xfrm_collector
