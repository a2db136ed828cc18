-- ===== src/Lib.antt =====
-- A model of netlink_exporter, a Prometheus exporter of Linux network counters read over netlink.
--
-- The parts and how they meet. The HTTP server answers GET /metrics: it runs the scrape service, which
-- runs every available collector under a timeout, adds its own telemetry and hands all samples to the
-- registry, which encodes them; the server then sends the encoded text. Collectors speak netlink
-- through the transport, which sends a request over io_uring, receives datagrams and cuts them into
-- messages; the payloads of messages are attributes, which the wire module reads.
--
-- Which file models what (all sources are under crates/):
--   Wire, Wire/*         nlx-netlink/src/wire.rs, and `push_nla` of
--                        nlx-netlink/src/collectors/drop_monitor.rs: `parse_attrs`, `NlaIter::next`,
--                        the typed readers.
--   Transport            nlx-netlink/src/transport.rs: `NetlinkError`, `build_request`,
--                        `parse_datagram`. Transport/Ring: `uring_send`, `uring_recv`. Transport/Dump:
--                        `blocking_dump`, `dump`. Transport/Single: `blocking_request_single`,
--                        `request_single`. Transport/Genl: `resolve_genl_family`.
--                        Transport/Retries: the attempts of a dump that the kernel interrupts, as in
--                        nlx-netlink/src/collectors/tc.rs and sockdiag.rs.
--   Metric               nlx-domain/src/metric.rs: `MetricSample` and its constructors.
--   Registry, Registry/* nlx-metrics/src/registry.rs: `encode_samples`, `series_key`, the escapes,
--                        `duplicate_series`, `update_samples`.
--   Sockdiag, Sockdiag/* nlx-netlink/src/collectors/sockdiag.rs: `parse_frame`, `dump_one_family`,
--                        `collect_sockdiag`.
--   DropMonitor/*        nlx-netlink/src/collectors/drop_monitor.rs: `parse_summary_alert`,
--                        `recv_loop`, `start_monitoring`, `fetch_stats`, `collect`.
--   Tc, Tc/*             nlx-netlink/src/collectors/tc.rs: `parse_tca_stats2`, `parse_qdisc_frame`,
--                        `build_ifindex_map`, the totals and samples, `collect`.
--   Wireguard,           nlx-netlink/src/collectors/wireguard.rs: `wireguard_ifname`, `parse_peer`,
--   Wireguard/*          `parse_device`, `merge_device_frames`, `push_device_metrics`, `collect`.
--   Ipvs, Ipvs/*         nlx-netlink/src/collectors/ipvs.rs: `parse_service`, `parse_destination`,
--                        `build_dest_request`, the dumps and samples, `collect`.
--   Nftables, Nftables/* nlx-netlink/src/collectors/nftables.rs: the parsers of tables, chains, sets,
--                        rules, objects and flowtables, `build_metrics`, `collect`.
--   Rt, Rt/*             nlx-netlink/src/collectors/rt.rs: `parse_link_frame`, `count_addresses`,
--                        `count_routes`, `count_neighbours`, `collect`.
--   RtExtended,          nlx-netlink/src/collectors/rt_extended.rs: the extended statistics, the counts
--   RtExtended/*         of forwarding entries, rules and next hops, `collect`.
--   Conntrack,           nlx-netlink/src/collectors/conntrack.rs: `accumulate_cpu_stat`,
--   Conntrack/*          `parse_flow_frame`, the dumps and samples, `collect`. Conntrack/Expect:
--                        conntrack_expect.rs beside it.
--   Config, Config/*     nlx-config/src/config.rs: the collector flags; netlink_exporter/src/scrape.rs:
--                        `CollectorRegistry::from_config`. Config/Names: `Collector::name` of each
--                        collector, in nlx-netlink/src/collectors/ and nlx-procfs/src/.
--   Scrape, Scrape/*     netlink_exporter/src/scrape.rs: `ScrapeService::new` and `scrape`; the errors
--                        of nlx-ports/src/error.rs.
--   Http, Http/*         nlx-http/src/server.rs: `serve`, `handle_conn`, `parse_path`, the handlers.
--   Exporter             netlink_exporter/src/main.rs: the start-up and the ports that it wires.
--   Procfs               nlx-procfs/src/lib.rs: `path_allowed`, `safe_read`.
--   Base, Base/*         shared names: tests on numbers, lists measured by native numbers, texts as
--                        lists of code points, orders, ordered maps as lists of entries, numbers
--                        read from texts, counts by key, and bounds on the number of keys.
--   Tests, Tests/*       concrete inputs.
--
-- How it is modelled. A byte slice is a list of numbers; numbers are natural, with the wrap-around of
-- machine integers written out. Native byte order is little-endian. What the kernel, a peer or the
-- executor does is a script: a list of completions, buffers, reads or accepts, taken in the order in
-- which the code asks; a call that has used up its script waits. State (the socket, the sequence
-- counter, the error counters, the encoded text) is passed on explicitly. The `f64` operations, the
-- text forms of IP addresses, the texts of operating system errors and the check of UTF-8 are
-- parameters.
--
-- Bounds and fuel. `parse_attrs`, `parse_datagram` and `drain` run on fuel: the length of the buffer,
-- enough since each round takes a header at least. `decimal` and `lower_hex` have the number itself
-- as fuel, since a number has no more digits than its size. `comment_from` runs on the length of the
-- user data, of which each record takes two bytes at least. A dump is attempted as often as the code counts. The
-- other loops recurse on their lists. `release` arithmetic on `u64` wraps; where the code saturates,
-- so does the model.
--
-- Not modelled. System calls that open, bind and configure sockets; threads and the runtime; the
-- capability drop; logging; configuration files and the command line; the listener's set-up in
-- drop_monitor.rs; the availability probes; the operations of the collector ports that repeat the
-- dumps of `collect`; and, so far, the collectors of devlink.rs, xfrm.rs and ethtool.rs, and the
-- parsers of procfs files.
pub mod Base
pub mod Wire
pub mod Tc
pub mod Wireguard
pub mod Nftables
pub mod Rt
pub mod RtExtended
pub mod Conntrack
pub mod Transport
pub mod Metric
pub mod Registry
pub mod Sockdiag
pub mod DropMonitor
pub mod Config
pub mod Scrape
pub mod Http
pub mod Procfs
pub mod Tests
pub mod Exporter
pub mod Ipvs
