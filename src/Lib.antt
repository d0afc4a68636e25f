-- ===== src/Lib.antt =====
-- ProxiMight sends the connections of applications through proxies by rules. This library models the
-- core's decisions and what they promise: which rule a connection meets, what becomes of the
-- mappings that keep a redirected flow redirected, and when the kill switch blocks.
--
-- The parts and the code they model:
-- Prelude: what the others share. Prelude/Bytes is C strings and character classes,
--   Prelude/Decimal `strtol` and `%u`, Prelude/Arrays the loops by which src/core/pmx_chain.c closes
--   a gap in an array and moves an element.
-- Status: the codes of include/proximight/pmx_error.h and their texts.
-- Chain: src/core/pmx_chain.c, the hops of a chain and their edits (add_hop, remove_hop, move_hop).
-- Rule: src/core/pmx_rule.c. Rule/Glob is pmx_glob_match, Rule/Patterns the lists of globs and
--   pmx_host_pattern_needs_names, Rule/Ports the port specifications with their validation, and
--   rule_matches of Rule puts them together.
-- NatTable: src/core/pmx_nat.c, the table from a local port to the destination the application asked
--   for; create, add, find, mark_closed, remove and expire are the pmx_nat_ functions.
-- Lockdown: src/core/pmx_lockdown.c, the kill switch. Its firewall is a parameter, since the source
--   reaches it by function pointers and the platform's firewalls are drivers; Lockdown/Stub has the
--   contract of include/proximight/pmx_lockdown.h as laws and the stub of the source.
-- Proxy: src/core/pmx_proxy.c without its handshakes.
-- Handshake: what is said to a proxy server on a connected socket. Handshake/Socks and Handshake/Ipv4
--   are src/core/pmx_socks.c, Handshake/Http and Handshake/Base64 src/core/pmx_http_connect.c,
--   Handshake/Socket the blocking reads and writes of src/core/pmx_net.c, over a socket that holds
--   what the network will do, and Handshake/Run the handshakes of src/core/pmx_proxy.c, from
--   pmx_proxy_handshake down.
-- Vpn: src/core/pmx_vpn.c. Vpn/Text has the helpers on lines and tokens, Vpn/WireGuard and Vpn/OpenVpn
--   the parsers, line by line as the source's loops go, and Vpn/Load pmx_vpn_load_file,
--   pmx_vpn_client_detect, pmx_vpn_bringup_command and pmx_vpn_validate, where what the file system
--   holds is an argument.
-- Relay: src/core/pmx_relay.c, the destinations that wait for a connection from their port and the
--   table of connections; Relay/Through opens the way through a chain with one handshake per hop, and
--   Relay/Splice moves the bytes afterwards.
-- VpnRun: src/core/pmx_vpn_run.c, the table of tunnels that were brought up with the vendor's client;
--   VpnRun/Evidence reads what the client says of a tunnel and VpnRun/Query is
--   pmx_vpn_query_status. Commands, children and sockets are arguments.
-- Checker: src/core/pmx_checker.c, the queues of checks and results, with the worker thread in steps;
--   Checker/Check is pmx_check_proxy, one handshake and the question for the public address.
-- Profile: src/core/pmx_profile.c, the lists of proxies, rules, chains and tunnels. Profile/Edits has
--   the pmx_profile_ functions that add, find, remove and move, Profile/Validate the labels of targets
--   and pmx_profile_validate, Profile/Seed pmx_profile_seed_defaults.
--   Profile/Sealed is the file around the JSON text, in pmx_profile_save and pmx_profile_load, over
--   any crypto provider.
-- Engine: src/core/pmx_engine.c. Engine/Resolve is pmx_resolve_with_profile, which asks the rules for
--   a match and the profile for the proxies; Engine/Inbox is engine_on_flow and inbox_pop, in steps as
--   long as the mutex is held; Engine/Ring is record_event, pmx_engine_recent_events and
--   pmx_engine_clear_events; Engine/Pump is the loop of pmx_engine_pump over the flows of the
--   inbox, with the counters of its status; Engine/Watch is rebuild_allowlist, pmx_engine_start,
--   pmx_engine_stop and the part of pmx_engine_pump that feeds the kill switch. The backend's answer
--   to a start, the clock and the results of the checker, which runs on its own thread, are inputs.
--
-- Bounds and fuel. Numbers are natural numbers; a `long` read by `strtol` is cut to 32 bits. The
-- counters of int and the clock of 64 bits are taken not to wrap; ids do wrap at 64 bits. Loops over
-- text run on fuel: the glob matcher on one step for each place of the text and of the pattern at
-- which it can stand, the list and port loops on the length of the text, since each round takes a
-- byte. The loops over a socket go by what the network gives, the one of http_handshake by its eight
-- attempts; a deadline that passes is an arrival that fails. `sscanf` and `strtol` read a `long` of 32
-- bits.
--
-- Not modelled: enumerators out of range in a rule's action or target, pointers that are NULL where a
-- struct is expected, allocations that fail, log output, and the mutexes, under which each operation
-- of the NAT table is one step. Connecting, threads, processes and files are the operating system's, and
-- the graphical interface only calls the core.
pub mod Prelude
pub mod Status
pub mod Chain
pub mod Rule
pub mod NatTable
pub mod Lockdown
pub mod Proxy
pub mod Handshake
pub mod Relay
pub mod Vpn
pub mod VpnRun
pub mod Profile
pub mod Checker
pub mod Engine
