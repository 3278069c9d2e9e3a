-- ===== src/Lib.antt =====
-- A verification library for the ZetProxy Turbo proxy, tunnel and relay.
--
-- The program has two servers, a dashboard that shows their counters, a relay, the relay's client
-- and a daemon that starts them. The SOCKS5 server (internal/proxy/socks5.go) reads a request,
-- dials the target and copies both ways. The tunnel server (internal/tunnel/tunnel.go) does so
-- for the protocol that the first bytes of a connection show: SOCKS5, HTTP CONNECT, a plain HTTP
-- request, or a raw one; and it forwards UDP packets by sessions. The relay (cmd/relay/main.go)
-- has no target of its own: a phone registers (internal/tunnel/relay.go), the relay tells it by a
-- line of text about a SOCKS5 client, and the phone opens a data connection that announces the
-- client's id, which the relay pipes with that client. The daemon (cmd/zetproxyd/main.go) makes
-- the servers and the dashboard (internal/dashboard/dashboard.go) and may start the relay's
-- client or ssh (internal/tunnel/sshtun.go).
--
-- Base: tests, lists and machine words; Text and Addr: what is used of the Go packages strings,
--   fmt and net, where Addr.join_host_port and Addr.split_host_port are JoinHostPort and
--   SplitHostPort.
-- Session: one connection as a handler sees it, as a state monad with early return and panic.
--   `try` and `check` are the early returns, `defer` is a deferred call.
-- Socks: requests as RFC 1928 has them, independent of the servers; Socks.Parse a parser of any
--   stream. Proxy.Streams, Tunnel.Streams and Relay.Streams hold the three SOCKS5 handlers
--   against it, and Tunnel.Others the other protocols' handlers against what they ask for, as
--   Tunnel.Asked reads it.
-- Proxy: internal/proxy/socks5.go. `accept` is a round of the loop of Start, made of
--   `take_token`, `count_active` and `count_total`, between which Proxy.Accept lets handlers go
--   on; `handle` is handle: its `body` is `request` and then `reach`, with the deferred `finish`
--   and `recover` behind them, `finish` made of `return_token` and `uncount` and the close
--   between them.
-- Tunnel: the TCP side of internal/tunnel/tunnel.go. `handle_tcp` in Tunnel.Handle is handleTCP,
--   `detect` its switch, Tunnel.Http the search for a host in an HTTP request.
-- Udp: its UDP side. `read_packet` is the first part of a round of the loop of startUDP, up to
--   the lookup of the session, and `forward` the second; `sweep` is a tick of the sweeper,
--   `reader_data` and `reader_error` what handleUDPSession does after a read. Udp.Kept is the
--   invariant of what the sessions send upstream, Udp.Idle what the sweeper does to each of them.
-- Relay: cmd/relay/main.go. Each handler is cut where it blocks or takes a lock, and `step` of
--   Relay.Machine does what one handler does between two such points; `run` takes any sequence of
--   such steps of any number of connections; Relay.Patience follows one client among them.
--   `register` makes the entry of a phone, and `answer` writes its id later, as the code gives up
--   the lock between. Relay.Command reads the first line, Relay.Request the request of a SOCKS5
--   client.
-- Phone: the texts of internal/tunnel/relay.go; Phone.Data its functions: `start_relay_tunnel` is
--   StartRelayTunnel, `exchange` what handleRelayTarget and handleRelayData share. Phone.Served
--   is a SOCKS5 client, the relay and the phone together, Phone.Plain a plain client;
--   Phone.Data.Carried the bytes of a client, up to the relay's close of the data connection.
-- Copy: the two copies that run beside each other in Relay of internal/pool/pool.go and in pipe
--   of cmd/relay/main.go. A schedule says which one does its next round, how much its read
--   returns and whether its write fails; Copy.Cut is the case in which one side's writes may.
-- Pool: internal/pool/pool.go. `new` is New, `put` is Put, `put_in` PutSmall and PutLarge, `get`
--   the three Gets.
-- Config: ParseTunnelConfig of internal/tunnel/sshtun.go; Ssh: StartSSHTunnel, trySSHRemote and
--   StopTunnel of the same file.
-- Speed: GetStats of both servers. Dashboard: internal/dashboard/dashboard.go, where `collect` is
--   a tick of collectMetrics and `serve` a request; Dashboard.Addresses its helpers.
-- Daemon: the part of cmd/zetproxyd/main.go that reads the environment and makes the servers;
--   Hosts its helpers getPreferredIP and getAllIPs with what they use.
-- Lifecycle: the goroutines of main with Start and Stop of the servers. `step` does what one of
--   them does next, Lifecycle.Ends and Lifecycle.Fails take any sequence of such steps.
-- Dict: maps with string keys. Examples: runs at concrete inputs.
--
-- Parameters. `World` has what the network decides: which writes to the client succeed, what a
-- dial gives, how many bytes the first read of a connection brings; `Target` what a relay with a
-- target copies. The content that a pooled buffer held before is an argument, `stale`. Whether
-- the relay's write to a phone succeeds, which buffer a sync.Pool picks, when a time is over and
-- when a connection fails are chosen by the sequence of events and calls. `Net` is what a
-- connection of the phone meets, `Process` what becomes of ssh, `Floats` what is computed in
-- floating point. The environment, the interfaces and the outgoing address of the machine are
-- arguments.
--
-- Bounds. Counters are bit patterns of 32 and 64 bits that wrap round. `show_nat` has fuel for
-- one digit more than the number itself, which is more than its digits; a group of an IPv6
-- address has four hexadecimal digits at most, the fuel of `show_hex`. The loops are by recursion
-- on the text or the list.
--
-- Simplified. What the relay's handlers write is written in one step with the locked section next
-- to it, but for the answer to a registration, a step of its own. A failed write records no
-- bytes, though a part may have been sent. A read that gets too little is the end of the stream
-- or the deadline; times are in seconds. TrimSpace is modelled for ASCII white space. A limit of
-- connections is not negative. A buffer of the pool is its capacity. A round of the tunnel
-- server's accept loop is one step of Udp.Accounts, and so is the deferred function of its
-- handler. A packet counts as sent upstream when it is handed to the connection's write, whose
-- error the code ignores. A failed write of a copy ends that copy; a peer that neither sends nor
-- closes is a schedule that stops.
--
-- Not modelled: what is printed, the page of the dashboard and its encoding as JSON, figures of
-- the Go runtime, the HTTP server and socket options, none of which decides what a connection is
-- told.
pub mod Base
pub mod Text
pub mod Addr
pub mod Session
pub mod Proxy
pub mod Socks
pub mod Dict
pub mod Tunnel
pub mod Udp
pub mod Relay
pub mod Phone
pub mod Pool
pub mod Config
pub mod Hosts
pub mod Daemon
pub mod Speed
pub mod Dashboard
pub mod Copy
pub mod Ssh
pub mod Lifecycle
pub mod Examples
