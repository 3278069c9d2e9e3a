-- ===== src/Tunnel.antt =====
-- The TCP side of the tunnel server of internal/tunnel/tunnel.go: its state, the accept loop, the
-- handler that detects the protocol from the first bytes, and the four protocols' handlers.
--
-- Counters are int64 and int32 by their bit patterns. `sem` is the number of tokens in `connSem`.
pub mod Http
pub mod Handle
pub mod Detect
pub mod Request
pub mod Served
pub mod Pipelined
pub mod Parsed
pub mod Streams
pub mod Asked
pub mod Others
pub mod Cleanup
use zetproxy_turbo.Session
use zetproxy_turbo.Base.{
  ℕ, ◌+◌, ◌*◌, ◌/◌, ◌%◌, Bool, true, false, ◌&&◌, ◌||◌, none, some, [], ◌∷◌, ◌++◌, ltb, leb, ◌==◌,
  if◌then◌else◌, length, get_or, take, drop, add_int64, inc_int32,
}
use zetproxy_turbo.Text.{Bytes, codes, equal, contains_byte, show_nat}
use zetproxy_turbo.Addr.{to4, ip_string}
use zetproxy_turbo.Session.{
  Target, World, Session, M, ◌>>=◌, ◌>>◌, pure, return, check, try, defer, on_server, set_deadline,
  read_full, dial, close_target, write, write_ignore, write_target, relay, code,
}

-- The counters of `Stats`.
pub record Stats : Type 0 where
  pub bytes_in : ℕ
  pub bytes_out : ℕ
  pub conns_total : ℕ
  pub conns_rejected : ℕ
  pub conns_failed : ℕ
  pub tcp_accepts : ℕ
  pub udp_packets : ℕ
  pub conns_active : ℕ  -- int32

pub record Server : Type 0 where
  pub stats : Stats
  pub max_conns : ℕ
  pub sem : ℕ

unfoldable pub new : Server
new = record {
  stats = record {
    bytes_in = 0;
    bytes_out = 0;
    conns_total = 0;
    conns_rejected = 0;
    conns_failed = 0;
    tcp_accepts = 0;
    udp_packets = 0;
    conns_active = 0;
  };
  max_conns = 4096;
  sem = 0;
}

-- `SetMaxConns` for a `max` that is not negative; the new channel is empty.
unfoldable pub set_max_conns : Server → ℕ → Server
set_max_conns s max = record s { max_conns = max; sem = 0 }

unfoldable pub count_failed : Server → Server
count_failed s =
    let st = s.stats in
    record s { stats = record st { conns_failed = add_int64 st.conns_failed 1 } }

unfoldable pub count_bytes : ℕ × ℕ → Server → Server
count_bytes n s =
    let st = s.stats in
    record s {
      stats = record st {
        bytes_in = add_int64 st.bytes_in n.0;
        bytes_out = add_int64 st.bytes_out n.1;
      };
    }

-- One round of the loop of `startTCP` for an accepted connection: whether `handleTCP` is started.
unfoldable pub accept : Server → Server × Bool
accept s =
    let st = s.stats in
    if ltb s.sem s.max_conns
    then (
      record s {
        sem = s.sem + 1;
        stats = record st {
          conns_active = inc_int32 st.conns_active;
          conns_total = add_int64 st.conns_total 1;
          tcp_accepts = add_int64 st.tcp_accepts 1;
        };
      },
      true,
    )
    else (record s { stats = record st { conns_rejected = add_int64 st.conns_rejected 1 } }, false)

pub data Protocol : Type 0 where
  socks5 http_connect http_proxy raw unknown : Protocol

-- The `switch` of `handleTCP`. `initial` is `peek`; `stale` is what the pooled buffer held before the
-- read, so that `peek[:4]`, a slice within the capacity, shows stale bytes behind a shorter `peek`.
-- `&&` binds tighter than `||`: only the first of the four words has the test of the length.
unfoldable pub detect : Bytes → Bytes → Protocol
detect initial stale =
    let peek4 = take 4 (initial ++ drop (length initial) stale) in
    if leb 1 (length initial) && get_or initial 0 0 == 5
    then socks5
    else if leb 7 (length initial) && equal (take 7 initial) (codes "CONNECT")
    then http_connect
    else if leb 4 (length initial) && equal peek4 (codes "GET ")
        || equal peek4 (codes "POST")
        || equal peek4 (codes "PUT ")
        || equal peek4 (codes "HEAD")
    then http_proxy
    else if leb 2 (length initial) && get_or initial 0 0 == 0 && get_or initial 1 0 == 0
    then raw
    else unknown

abbrev pub refusal : ℕ → Bytes
refusal code = 5 ∷ code ∷ 0 ∷ 1 ∷ 0 ∷ 0 ∷ 0 ∷ 0 ∷ 0 ∷ 0 ∷ []

abbrev nothing : M Server (Unit {0})
nothing = pure tt

-- `relayWithStats`
unfoldable pub relay_with_stats : Target → M Server (Unit {0})
relay_with_stats t = do n ← relay t; on_server (count_bytes n)

-- The `switch` on the address type.
unfoldable pub read_host : ℕ → M Server Bytes
read_host atyp =
    if atyp == 1
    then (do b ← try (read_full 4) nothing; pure (ip_string b))
    else if atyp == 3
    then (do n ← try (read_full 1) nothing; b ← try (read_full (get_or n 0 0)) nothing; pure b)
    else if atyp == 4
    then (do b ← try (read_full 16) nothing; pure (ip_string b))
    else return

-- `binary.BigEndian.Uint16`
abbrev pub uint16_of : Bytes → ℕ
uint16_of b = get_or b 0 0 * 256 + get_or b 1 0

-- `fmt.Sprintf("%s:%d", host, port)`
unfoldable pub target_addr : Bytes → ℕ → Bytes
target_addr host port = host ++ (b':' ∷ show_nat port)

-- `append(append(resp, localAddr.IP.To4()...), byte(port>>8), byte(port&0xff))` with the port that
-- was asked for.
unfoldable pub success : Target → ℕ → Bytes
success t port =
    let ip : Bytes = elim (to4 t.local_ip) [ some v4 ↦ v4 | none ↦ [] ] in
    (5 ∷ 0 ∷ 0 ∷ 1 ∷ []) ++ (ip ++ ((port / 256 % 256) ∷ (port % 256) ∷ []))

-- `handleSOCKS5` up to the dial: the host and the port. `initial` is what the first read gave; its
-- bytes behind the methods are not looked at.
unfoldable pub socks5_request : World → Bytes → M Server (Bytes × ℕ)
socks5_request w initial = do
  check (leb 3 (length initial)) nothing
  check (leb (2 + get_or initial 1 0) (length initial)) nothing
  ok ← write w (5 ∷ 0 ∷ [])
  check ok nothing
  req ← try (read_full 4) nothing
  check (get_or req 0 0 == 5 && get_or req 1 0 == 1) (write_ignore w (refusal 7))
  host ← read_host (get_or req 3 0)
  port ← try (read_full 2) nothing
  pure (host, uint16_of port)

unfoldable pub socks5_serve : World → ℕ → Target → M Server (Unit {0})
socks5_serve w port t = do
  ok ← write w (success t port)
  check ok nothing
  set_deadline none
  relay_with_stats t

unfoldable pub socks5_unreachable : World → M Server (Unit {0})
socks5_unreachable w = do write_ignore w (refusal 4); on_server count_failed

unfoldable pub socks5_reach : World → Bytes × ℕ → M Server (Unit {0})
socks5_reach w hp = do
  t ← try (dial w (target_addr hp.0 hp.1)) (socks5_unreachable w)
  defer close_target (socks5_serve w hp.1 t)

unfoldable pub handle_socks5 : World → Bytes → M Server (Unit {0})
handle_socks5 w initial = socks5_request w initial >>= socks5_reach w

-- `if !strings.Contains(host, ":") { host = host + suffix }`
unfoldable pub with_port : Bytes → Bytes → Bytes
with_port suffix host = if contains_byte host b':' then host else host ++ suffix

-- A dial whose failure is answered by nothing.
unfoldable pub reach_quietly : World → Bytes → (Target → M Server (Unit {0})) → M Server (Unit {0})
reach_quietly w addr serve = do t ← try (dial w addr) nothing; defer close_target (serve t)

abbrev pub established : Bytes
established = codes "HTTP/1.1 200 Connection Established" ++ (13 ∷ 10 ∷ 13 ∷ 10 ∷ [])

unfoldable pub connect_serve : World → Target → M Server (Unit {0})
connect_serve w t = do
  ok ← write w established
  check ok nothing
  set_deadline none
  relay_with_stats t

unfoldable pub http_serve : Bytes → Target → M Server (Unit {0})
http_serve initial t = do
  ok ← write_target t initial
  check ok nothing
  set_deadline none
  relay_with_stats t

unfoldable pub raw_serve : Target → M Server (Unit {0})
raw_serve t = do set_deadline none; relay_with_stats t
