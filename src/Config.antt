-- ===== src/Config.antt =====
-- crates/nlx-config/src/config.rs and `CollectorRegistry::from_config` of
-- crates/netlink_exporter/src/scrape.rs: which collectors are constructed.
pub mod Names
pub mod Enabled
use netlink_exporter.Base.{ℕ, Bool, true, false, List, [], ◌∷◌, ◌++◌, if◌then◌else◌}
use netlink_exporter.Base.Order.{text_eq}
use netlink_exporter.Base.Text.{Text, codes}

pub record CollectorFlags : Type 0 where
  pub rtnetlink : Bool
  pub rtnetlink_extended : Bool
  pub traffic_control : Bool
  pub conntrack : Bool
  pub conntrack_expect : Bool
  pub nftables : Bool
  pub sock_diag : Bool
  pub ethtool : Bool
  pub ipvs : Bool
  pub wireguard : Bool
  pub devlink : Bool
  pub drop_monitor : Bool
  pub xfrm : Bool
  pub softnet : Bool
  pub netstat : Bool
  pub softirq : Bool
  pub irq : Bool
  pub sockstat : Bool
  pub nic_bql : Bool
  pub nic_pcie : Bool
  pub nic_temp : Bool

-- `CollectorFlags::default`
abbrev pub default_flags : CollectorFlags
default_flags = record {
  rtnetlink = true;
  rtnetlink_extended = true;
  traffic_control = true;
  conntrack = true;
  conntrack_expect = true;
  nftables = true;
  sock_diag = true;
  ethtool = true;
  ipvs = true;
  wireguard = true;
  devlink = true;
  drop_monitor = true;
  xfrm = true;
  softnet = false;
  netstat = false;
  softirq = false;
  irq = false;
  sockstat = false;
  nic_bql = false;
  nic_pcie = false;
  nic_temp = false;
}

-- The arms of the `match` in `collector_enabled`, in order.
abbrev pub arms : CollectorFlags → List (Text × Bool)
arms f =
    (codes "rtnetlink", f.rtnetlink)
    ∷ (codes "rtnetlink_extended", f.rtnetlink_extended)
    ∷ (codes "traffic_control", f.traffic_control)
    ∷ (codes "conntrack", f.conntrack)
    ∷ (codes "conntrack_expect", f.conntrack_expect)
    ∷ (codes "nftables", f.nftables)
    ∷ (codes "sock_diag", f.sock_diag)
    ∷ (codes "ethtool", f.ethtool)
    ∷ (codes "ipvs", f.ipvs)
    ∷ (codes "wireguard", f.wireguard)
    ∷ (codes "devlink", f.devlink)
    ∷ (codes "drop_monitor", f.drop_monitor)
    ∷ (codes "xfrm", f.xfrm)
    ∷ (codes "softnet", f.softnet)
    ∷ (codes "netstat", f.netstat)
    ∷ (codes "softirq", f.softirq)
    ∷ (codes "irq", f.irq)
    ∷ (codes "sockstat", f.sockstat)
    ∷ (codes "nic_bql", f.nic_bql)
    ∷ (codes "nic_pcie", f.nic_pcie)
    ∷ (codes "nic_temp", f.nic_temp)
    ∷ []

-- The first arm with the name decides; `_ => false`.
abbrev pub match_arm : Text → List (Text × Bool) → Bool
match_arm name [] = false
match_arm name ((n, enabled) ∷ rest) = if text_eq name n then enabled else match_arm name rest

unfoldable pub collector_enabled : CollectorFlags → Text → Bool
collector_enabled flags name = match_arm name (arms flags)

-- The collectors, by their types: that of wireguard keeps the number of peers, and that of
-- drop_monitor the counters that it shares with the listener.
pub data Collector (C : Type 0) : Type 0 where
  rt_collector rt_extended_collector tc_collector conntrack_collector conntrack_expect_collector
        nftables_collector sock_diag_collector ethtool_collector ipvs_collector devlink_collector
        xfrm_collector softnet_collector netstat_collector softirq_collector irq_collector
        sockstat_collector nic_bql_collector nic_pcie_collector nic_temp_collector :
      Collector C
  wireguard_collector : ℕ → Collector C
  drop_monitor_collector : C → Collector C

module _ {C : Type 0} where
  -- `push_if_enabled!` of a name and a constructor, and the `if` for `drop_monitor`.
  abbrev pub push_if_enabled :
      CollectorFlags → List (Collector C) → Text → Collector C → List (Collector C)
  push_if_enabled flags collectors name ctor =
      if collector_enabled flags name then collectors ++ ctor ∷ [] else collectors

  -- The pushes one after the other.
  unfoldable pub push_all :
      CollectorFlags → List (Collector C) → List (Text × Collector C) → List (Collector C)
  push_all flags collectors [] = collectors
  push_all flags collectors ((name, ctor) ∷ rest) =
      push_all flags (push_if_enabled flags collectors name ctor) rest

  -- What `from_config` pushes, in order; `max_peers` is `config.wireguard_max_peers`.
  abbrev pub pushes : ℕ → C → List (Text × Collector C)
  pushes max_peers counters =
      (codes "rtnetlink", rt_collector)
      ∷ (codes "rtnetlink_extended", rt_extended_collector)
      ∷ (codes "traffic_control", tc_collector)
      ∷ (codes "conntrack", conntrack_collector)
      ∷ (codes "conntrack_expect", conntrack_expect_collector)
      ∷ (codes "nftables", nftables_collector)
      ∷ (codes "sock_diag", sock_diag_collector)
      ∷ (codes "ethtool", ethtool_collector)
      ∷ (codes "ipvs", ipvs_collector)
      ∷ (codes "wireguard", wireguard_collector max_peers)
      ∷ (codes "devlink", devlink_collector)
      ∷ (codes "drop_monitor", drop_monitor_collector counters)
      ∷ (codes "xfrm", xfrm_collector)
      ∷ (codes "softnet", softnet_collector)
      ∷ (codes "netstat", netstat_collector)
      ∷ (codes "softirq", softirq_collector)
      ∷ (codes "irq", irq_collector)
      ∷ (codes "sockstat", sockstat_collector)
      ∷ (codes "nic_bql", nic_bql_collector)
      ∷ (codes "nic_pcie", nic_pcie_collector)
      ∷ (codes "nic_temp", nic_temp_collector)
      ∷ []

  unfoldable pub from_config : CollectorFlags → ℕ → C → List (Collector C)
  unfolding push_all
  from_config flags max_peers counters = push_all flags [] (pushes max_peers counters)
