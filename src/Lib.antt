-- ===== src/Lib.antt =====
-- A model of gowan, the load-balancing proxy in gowan/src, and proofs about it.
--
-- The program accepts connections (SOCKS5, transparent, or tunnel mode), picks one of several WAN
-- backends for each, dials through it, and copies bytes. `dispatch` asks `pick_backend` for a
-- backend; that asks the policy rules, then the sticky mapping of the client, then the weighted
-- round robin `get_load_balancer`. A dial that fails marks the backend as tried and picks again.
-- Health checks feed the threshold machine `health_state`, whose verdict is the flag `up` that the
-- round robin reads. A sampler folds interface counters into usage totals.
--
-- The files:
--   Common     lists, Go strings as lists of bytes, int64 and uint64 arithmetic, maps, strconv.Atoi
--   Net        net.ParseIP, net.ParseCIDR, net.SplitHostPort and IPNet.Contains, after their
--              documentation
--   Balancer   gowan/src/main.go: load_balancer, lb_list, lb_index, get_load_balancer,
--              advance_lb_index, conn_started, conn_finished
--   Policy     gowan/src/selection.go: set_policies, parse_port_range, ip_in, domain_match, matches
--   Selection  gowan/src/selection.go: policy_backend, configure_sticky, sticky_lookup,
--              sticky_remember, pick_backend
--   Dispatch   gowan/src/dispatch.go: dispatch; gowan/src/main.go: handle_tunnel_connection
--   Health     gowan/src/health.go: health_state, new_health_state, observe
--   Checkers   gowan/src/health.go: check_config, health_checker, checkers, start_health_checks,
--              stop_health_checks, checker_for, note_dial_failure, the observe of health_checker
--   Reload     gowan/src/reload.go: reload_backends, reload_policies, apply_backends;
--              gowan/src/config.go: backend_json, load_backends_file, merged_check_config;
--              gowan/src/state.go: backend_ip
--   Flows      gowan/src/udp.go: udp_flow, udp_table
--   Sniff      gowan/src/sniff.go: parse_tls_sni; Sniff/Http: parse_http_host
--   Socks      gowan/src/socks.go, gowan/src/auth.go, gowan/src/constants.go: client_greeting,
--              servers_choice, handle_socks_auth, client_conection_request,
--              handle_socks_connection; Socks/Conn: a connection as net.Conn gives it
--   Server     gowan/src/main.go: handle_connection; gowan/src/dispatch.go: server_response
--   Transparent gowan/src/transparent.go: orig_dst_from_bytes, get_original_dst, sniff_dest,
--              handle_transparent_connection
--   Relay      gowan/src/udp_linux.go: parse_origdst, sa_string, sa_ip, udp_handle_packet,
--              create_udp_flow, and with gowan/src/udp.go a round of the reaper
--   Startup    gowan/src/main.go: get_iface_from_ip, parse_load_balancers, main up to its
--              listeners
--   Status     gowan/src/state.go: snapshot_backends, write_state_file; gowan/src/api.go:
--              status_handler
--   Usage      gowan/src/usage.go: dev_usage, apply_sample, usage_get, backend_devices, sample_usage,
--              read_proc_net_dev (Counters)
--   Tests      runs on concrete inputs
-- The files below each of these hold its proofs.
--
-- How state is modelled. Backends are shared by pointer, so they lie in a store, a function from
-- addresses, and `lb_list` holds addresses. A function that takes the mutex for its whole body is
-- one step from state to state; `pick_backend`, which takes locks in turn, is one step as well, so
-- nothing is said of what other goroutines do inside it, nor of blocking: the locks `mutex` and
-- `sticky_mu` are taken in both orders in gowan/src/selection.go, which this model does not show.
-- Between two attempts of a dialling the environment may change every variable. The `observe` of a
-- checker is two steps behind a test, one for each lock, and others may act in between. An index out of
-- range is a panic, a value of `Run`. `int` is an integer with the wrap of int64 where the code
-- counts, uint64 is a natural number modulo 2 ^ 64; lengths and `lb_index` are natural numbers.
-- Times are integers that the clock gives, the sum of a time and a duration is exact, and the keys
-- of days are for years of four digits.
--
-- A connection of a client is what is left to read, in the segments in which it arrives, what each
-- later write comes to, what was written, and whether it is closed; a Read gives bytes of one segment
-- at most. A method on it is an action, from a connection to a result or an error and a connection.
-- A refused start of the program, log.Fatal, is none. The table of UDP flows is one step per
-- datagram, with the sockets of a flow beside it; what a socket is bound and connected to is kept,
-- what travels through it is not. A disk is a map from paths to contents, and a write of a file shows
-- any contents while it lasts.
--
-- Loops. The rounds of `pick_loop` are the length of `lb_list`, as in the code. `dial_loop` runs on
-- fuel, one round more than there are backends: an index that failed is excluded from then on. The
-- fuel of `extensions` is one round more than there are bytes: a round reads at least four.
--
-- Not modelled: the system calls that open, bind and dial sockets, the copying of bytes between
-- connections and the pump of UDP replies, listeners and signals, the decoding of JSON and of flags,
-- logging, the on-change hook, and the shell and JavaScript around the program; they are I/O, and
-- where the code depends on what they give, that is an argument. The garbage collector closes a
-- connection that nothing refers to, which the model leaves open. strings.ToLower,
-- strings.EqualFold and strings.TrimSpace treat ASCII alone.
pub mod Common
pub mod Net
pub mod Balancer
pub mod Policy
pub mod Selection
pub mod Dispatch
pub mod Health
pub mod Checkers
pub mod Reload
pub mod Flows
pub mod Sniff
pub mod Socks
pub mod Server
pub mod Transparent
pub mod Relay
pub mod Startup
pub mod Status
pub mod Usage
pub mod Tests
