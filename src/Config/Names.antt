-- ===== src/Config/Names.antt =====
-- `Collector::name` of each collector.
use netlink_exporter.Base.Text.{Text, codes}
use netlink_exporter.Config.{
  Collector, rt_collector, rt_extended_collector, tc_collector, conntrack_collector,
  conntrack_expect_collector, nftables_collector, sock_diag_collector, ethtool_collector,
  ipvs_collector, wireguard_collector, devlink_collector, drop_monitor_collector, xfrm_collector,
  softnet_collector, netstat_collector, softirq_collector, irq_collector, sockstat_collector,
  nic_bql_collector, nic_pcie_collector, nic_temp_collector,
}

abbrev pub rt_name : Text
rt_name = codes "rtnetlink"

abbrev pub rt_extended_name : Text
rt_extended_name = codes "rtnetlink_extended"

abbrev pub tc_name : Text
tc_name = codes "traffic_control"

abbrev pub conntrack_name : Text
conntrack_name = codes "conntrack"

abbrev pub conntrack_expect_name : Text
conntrack_expect_name = codes "conntrack_expect"

abbrev pub nftables_name : Text
nftables_name = codes "nftables"

abbrev pub sock_diag_name : Text
sock_diag_name = codes "sock_diag"

abbrev pub ethtool_name : Text
ethtool_name = codes "ethtool"

abbrev pub ipvs_name : Text
ipvs_name = codes "ipvs"

abbrev pub wireguard_name : Text
wireguard_name = codes "wireguard"

abbrev pub devlink_name : Text
devlink_name = codes "devlink"

abbrev pub drop_monitor_name : Text
drop_monitor_name = codes "drop_monitor"

abbrev pub xfrm_name : Text
xfrm_name = codes "xfrm-ipsec"

abbrev pub softnet_name : Text
softnet_name = codes "softnet"

abbrev pub netstat_name : Text
netstat_name = codes "netstat"

abbrev pub softirq_name : Text
softirq_name = codes "softirq"

abbrev pub irq_name : Text
irq_name = codes "irq"

abbrev pub sockstat_name : Text
sockstat_name = codes "sockstat"

abbrev pub nic_bql_name : Text
nic_bql_name = codes "nic_bql"

abbrev pub nic_pcie_name : Text
nic_pcie_name = codes "nic_pcie"

abbrev pub nic_temp_name : Text
nic_temp_name = codes "nic_temp"

module _ {C : Type 0} where
  -- The call through `dyn Collector`.
  abbrev pub name : Collector C → Text
  name rt_collector = rt_name
  name rt_extended_collector = rt_extended_name
  name tc_collector = tc_name
  name conntrack_collector = conntrack_name
  name conntrack_expect_collector = conntrack_expect_name
  name nftables_collector = nftables_name
  name sock_diag_collector = sock_diag_name
  name ethtool_collector = ethtool_name
  name ipvs_collector = ipvs_name
  name (wireguard_collector max_peers) = wireguard_name
  name devlink_collector = devlink_name
  name (drop_monitor_collector counters) = drop_monitor_name
  name xfrm_collector = xfrm_name
  name softnet_collector = softnet_name
  name netstat_collector = netstat_name
  name softirq_collector = softirq_name
  name irq_collector = irq_name
  name sockstat_collector = sockstat_name
  name nic_bql_collector = nic_bql_name
  name nic_pcie_collector = nic_pcie_name
  name nic_temp_collector = nic_temp_name
