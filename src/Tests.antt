-- ===== src/Tests.antt =====
-- Concrete inputs for the theorems about the sources under crates/: each theorem applied once.
mod Config
mod Wire
mod Transport
mod Restart
mod Registry
mod Sockdiag
mod DropMonitor
mod Scrape
mod Http
mod Procfs
mod Tc
mod Wireguard
mod Nftables
mod Ipvs
mod Rt
mod RtExtended
mod Conntrack
