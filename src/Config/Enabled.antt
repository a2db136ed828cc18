-- ===== src/Config/Enabled.antt =====
-- The agreement of `from_config` of crates/netlink_exporter/src/scrape.rs with the flags of
-- crates/nlx-config/src/config.rs, and with the names of the collectors.
use netlink_exporter.Base.{
  ℕ, ◌≡◌, refl, sym, ap, ◌∙◌, Bool, true, false, List, [], ◌∷◌, ◌++◌, map, All, if◌then◌else◌,
  append-nil, append_assoc,
}
use netlink_exporter.Base.Order.{text_eq}
use netlink_exporter.Base.Text.{Text, codes}
use netlink_exporter.Config.Names.{name}
use netlink_exporter.Config.{
  CollectorFlags, Collector, collector_enabled, pushes, push_if_enabled, push_all, from_config,
  rt_collector, rt_extended_collector, tc_collector, conntrack_collector,
  conntrack_expect_collector, nftables_collector, sock_diag_collector, ethtool_collector,
  ipvs_collector, wireguard_collector, devlink_collector, drop_monitor_collector, xfrm_collector,
  softnet_collector, netstat_collector, softirq_collector, irq_collector, sockstat_collector,
  nic_bql_collector, nic_pcie_collector, nic_temp_collector,
}

module _ {C : Type 0} where
  -- The flag that is meant for a collector.
  abbrev pub flag_of : CollectorFlags → Collector C → Bool
  flag_of flags rt_collector = flags.rtnetlink
  flag_of flags rt_extended_collector = flags.rtnetlink_extended
  flag_of flags tc_collector = flags.traffic_control
  flag_of flags conntrack_collector = flags.conntrack
  flag_of flags conntrack_expect_collector = flags.conntrack_expect
  flag_of flags nftables_collector = flags.nftables
  flag_of flags sock_diag_collector = flags.sock_diag
  flag_of flags ethtool_collector = flags.ethtool
  flag_of flags ipvs_collector = flags.ipvs
  flag_of flags (wireguard_collector max_peers) = flags.wireguard
  flag_of flags devlink_collector = flags.devlink
  flag_of flags (drop_monitor_collector counters) = flags.drop_monitor
  flag_of flags xfrm_collector = flags.xfrm
  flag_of flags softnet_collector = flags.softnet
  flag_of flags netstat_collector = flags.netstat
  flag_of flags softirq_collector = flags.softirq
  flag_of flags irq_collector = flags.irq
  flag_of flags sockstat_collector = flags.sockstat
  flag_of flags nic_bql_collector = flags.nic_bql
  flag_of flags nic_pcie_collector = flags.nic_pcie
  flag_of flags nic_temp_collector = flags.nic_temp

  abbrev pub collectors : ℕ → C → List (Collector C)
  collectors max_peers counters =
      rt_collector
      ∷ rt_extended_collector
      ∷ tc_collector
      ∷ conntrack_collector
      ∷ conntrack_expect_collector
      ∷ nftables_collector
      ∷ sock_diag_collector
      ∷ ethtool_collector
      ∷ ipvs_collector
      ∷ wireguard_collector max_peers
      ∷ devlink_collector
      ∷ drop_monitor_collector counters
      ∷ xfrm_collector
      ∷ softnet_collector
      ∷ netstat_collector
      ∷ softirq_collector
      ∷ irq_collector
      ∷ sockstat_collector
      ∷ nic_bql_collector
      ∷ nic_pcie_collector
      ∷ nic_temp_collector
      ∷ []

  -- The collectors whose flag is set.
  abbrev pub flagged : CollectorFlags → List (Collector C) → List (Collector C)
  flagged flags [] = []
  flagged flags (c ∷ cs) = let rest = flagged flags cs in if flag_of flags c then c ∷ rest else rest

  if-append :
      (b : Bool) (done rest : List (Collector C)) (c : Collector C)
      → (if b then done ++ c ∷ [] else done) ++ rest ≡ done ++ (if b then c ∷ rest else rest)
  if-append true done rest c = append_assoc done (c ∷ []) rest
  if-append false done rest c = refl

  -- A push asks for a name that enables the collector's own flag.
  abbrev IsMeant : CollectorFlags → Text × Collector C → Type 0
  IsMeant flags (n, c) = collector_enabled flags n ≡ flag_of flags c

  push_all-flagged :
      (flags : CollectorFlags) (l : List (Text × Collector C)) (done : List (Collector C))
      → All (IsMeant flags) l
      → push_all flags done l ≡ done ++ flagged flags (map (λ p. p.1) l)
  unfolding push_all
  push_all-flagged flags [] done h = sym (append-nil done)
  push_all-flagged flags ((n, c) ∷ l) done (e, h) =
      push_all-flagged flags l (push_if_enabled flags done n c) h
      ∙ if-append (collector_enabled flags n) done (flagged flags (map (λ p. p.1) l)) c
      ∙ ap
          (λ (b : Bool).
            done
            ++ (if b
                then c ∷ flagged flags (map (λ p. p.1) l)
                else flagged flags (map (λ p. p.1) l)))
          e

  pushes-IsMeant :
      (flags : CollectorFlags) (max_peers : ℕ) (counters : C)
      → All (IsMeant flags) (pushes max_peers counters)
  unfolding collector_enabled
  pushes-IsMeant flags max_peers counters = (
    refl,
    (
      refl,
      (
        refl,
        (
          refl,
          (
            refl,
            (
              refl,
              (
                refl,
                (
                  refl,
                  (
                    refl,
                    (
                      refl,
                      (
                        refl,
                        (
                          refl,
                          (
                            refl,
                            (refl, (refl, (refl, (refl, (refl, (refl, (refl, (refl, tt)))))))),
                          ),
                        ),
                      ),
                    ),
                  ),
                ),
              ),
            ),
          ),
        ),
      ),
    ),
  )

  -- The name by which a collector reports is enabled exactly when its own flag is set, but for
  -- `xfrm-ipsec`, which is never enabled.
  collector_enabled-name :
      (flags : CollectorFlags) (c : Collector C)
      → collector_enabled flags (name c)
        ≡ (if text_eq (name c) (codes "xfrm-ipsec") then false else flag_of flags c)
  unfolding collector_enabled
  collector_enabled-name flags rt_collector = refl
  collector_enabled-name flags rt_extended_collector = refl
  collector_enabled-name flags tc_collector = refl
  collector_enabled-name flags conntrack_collector = refl
  collector_enabled-name flags conntrack_expect_collector = refl
  collector_enabled-name flags nftables_collector = refl
  collector_enabled-name flags sock_diag_collector = refl
  collector_enabled-name flags ethtool_collector = refl
  collector_enabled-name flags ipvs_collector = refl
  collector_enabled-name flags (wireguard_collector max_peers) = refl
  collector_enabled-name flags devlink_collector = refl
  collector_enabled-name flags (drop_monitor_collector counters) = refl
  collector_enabled-name flags xfrm_collector = refl
  collector_enabled-name flags softnet_collector = refl
  collector_enabled-name flags netstat_collector = refl
  collector_enabled-name flags softirq_collector = refl
  collector_enabled-name flags irq_collector = refl
  collector_enabled-name flags sockstat_collector = refl
  collector_enabled-name flags nic_bql_collector = refl
  collector_enabled-name flags nic_pcie_collector = refl
  collector_enabled-name flags nic_temp_collector = refl

  -- The collectors that are constructed are those whose own flag is set, each once, in the order of
  -- the source, that of wireguard with the number of peers and that of drop_monitor with the counters
  -- given. The name by which a collector reports is enabled in the configuration exactly when that
  -- flag is set, but for `xfrm-ipsec`: the configuration does not know it and takes it as disabled.
  pub from_config-flagged :
      (flags : CollectorFlags) (max_peers : ℕ) (counters : C) (c : Collector C)
      → (from_config flags max_peers counters ≡ flagged flags (collectors max_peers counters))
        × (collector_enabled flags (name c)
            ≡ (if text_eq (name c) (codes "xfrm-ipsec") then false else flag_of flags c))
  unfolding from_config
  from_config-flagged flags max_peers counters c = (
    push_all-flagged flags (pushes max_peers counters) [] (pushes-IsMeant flags max_peers counters),
    collector_enabled-name flags c,
  )
