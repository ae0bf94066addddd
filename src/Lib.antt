-- ===== src/Lib.antt =====
-- A model of ace-tun (crate `ace_tun`, src/): a transparent redirect over a virtual network adapter.
-- The engine (src/lib.rs) creates an adapter, points the routes at it and runs a userland stack over
-- it. Every flow that the stack accepts is attributed to a process, decided (src/netstack.rs,
-- `decide`) by fixed checks and then by the rules (src/rule.rs), and is relayed through an upstream
-- proxy (src/proxy.rs), relayed directly, or dropped. DNS answers that pass by fill a cache
-- (src/dns.rs) from which flows get their domain.
--
-- The files:
--   Base, Text, Addr   shared names, lemmas on lists, numbers and bits; `str` and `u32::from_str` over
--                      lists of code points; `std::net` addresses and their parsers.
--   Rule               `Rule`, its builder methods. Rule/Pattern: lists of ports and addresses.
--                      Rule/Glob: `.exe` suffixes and globs. Rule/Compile: `RuleSet::new`.
--                      Rule/Evaluate: `RuleSet::evaluate`.
--   Dns                `DnsCache`. Dns/Parse: `parse_name` and `parse_dns_answers`.
--   Config, Error, Platform, State   the records and enums of the files of these names.
--                      Platform/Backend: `Backend::create`. Platform/Linux/Adapter: `TunAdapter` of
--                      src/platform/linux/adapter.rs over what the system answers.
--                      Platform/Linux/Netcfg: the requests of netcfg.rs there. Platform/Linux/Device:
--                      `open_device`, and the adapter over it and these requests.
--                      Platform/Linux/Netlink: the reply loops of src/platform/linux. Platform/Process,
--                      Platform/Linux/Process, Platform/Macos/Process, Platform/Windows/Process: the
--                      process of a flow, of process.rs in src/platform/linux, macos and windows.
--                      Platform/Linux/Process/Diag: the round trip with sock_diag.
--                      Platform/Macos/Netcfg, Platform/Macos/Adapter, Platform/Windows/Netcfg and
--                      Platform/Windows/Adapter: the files of these names in src/platform/macos and
--                      src/platform/windows. Platform/Macos/Device: `open_device`.
--                      Platform/Macos/Dial and Platform/Windows/Dial: dial.rs in those directories.
--   Device, Dial       src/device.rs, with a child for each system; src/dial.rs, with the pinning of
--                      src/platform/linux/dial.rs.
--   Proxy              Proxy/Stream: a stream of bytes. Proxy/Socks5 and Proxy/Http: the two clients.
--                      Proxy/Connect: `connect_via_proxy`.
--   Netstack           Netstack/Decide: `decide`. Netstack/Flow: attribution, `report` and
--                      `handle_tcp`. Netstack/Flow/Udp: `handle_udp`. Netstack/Flow/Accept: `run`.
--   Engine             `start`, `stop`, `watchdog` and `Drop`. Engine/Build: `TunRedirectBuilder`.
--                      Engine/Calls: calls of `start` and `stop` and their tasks, interleaved.
-- A file under one of these holds the proofs about it and is named for what it proves; the files
-- named Tests hold runs of the code's own tests and the theorems applied to concrete input.
--
-- How code becomes definitions. A function that can panic returns an `Option`, with `none` for the
-- panic (in Proxy a result of its own, with errors beside it). Shared state is a record that is passed
-- along; what a handler does to the outside is a trace of events, and what it learns from there is a
-- record of answers (`Host`, `StartHost`). `select!` over two sides of a flow is a list of events in
-- the order in which they are taken. Numbers are natural numbers; counters wrap at 2^64, lengths and
-- ids at the width the code gives them. Time is an argument.
--
-- The crates `regex` and `base64`, the display of addresses and the parser of socket addresses are
-- parameters. The loop of `parse_name` runs on fuel, 11 times the length of the message and one more:
-- at most ten jumps are followed, and between two jumps the position moves forward.
--
-- The walk over a table of sockets takes a round for each of its bytes, since every record moves it
-- forward; the loops that wait for a reply take one datagram a round.
--
-- Engine takes `start` and `stop` one after the other and says what they do to the shared state. In
-- Engine/Calls every access to the running flag, to the mutex and to a task's outcome is a step, and a
-- schedule is a list of steps of any number of runs; `Drop`, which nothing can interleave with, is in
-- Engine only. The functions of Windows and WinTun are a record over an abstract network
-- configuration (`System`); netlink requests are the fields that the code sets. Whether a route is
-- added in spite of a lost answer, and whether a deletion is carried out, are parameters of the
-- adapters: the code only logs a deletion that fails.
--
-- Not modelled: the encoding of netlink messages and of system structures, which crates and the
-- operating system define; timeouts other than the idle timeout of a UDP flow and those of a dial and
-- of a connection to a proxy; logging; the example and the build script.
pub mod Addr
pub mod Base
pub mod Config
pub mod Device
pub mod Dial
pub mod Dns
pub mod Engine
pub mod Error
pub mod Netstack
pub mod Platform
pub mod Proxy
pub mod Rule
pub mod State
pub mod Text
