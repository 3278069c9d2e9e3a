-- ===== src/Tunnel/Handle.antt =====
-- `handleTCP` of internal/tunnel/tunnel.go and the handlers of the three protocols other than SOCKS5.
use zetproxy_turbo.Session
use zetproxy_turbo.Tunnel
use zetproxy_turbo.Base.{ℕ, ◌-◌, false, some, [], ltb, if◌then◌else◌, length, take, dec_int32}
use zetproxy_turbo.Text.{Bytes, codes, equal}
use zetproxy_turbo.Session.{
  World, Session, Exit, value, returned, panicked, M, ◌>>=◌, ◌>>◌, pure, return, check, try, defer,
  on_server, set_deadline, read,
}
use zetproxy_turbo.Tunnel.{
  Server, count_failed, count_bytes, Protocol, socks5, http_connect, http_proxy, raw, unknown,
  detect, relay_with_stats, read_host, target_addr, success, socks5_request, socks5_serve,
  socks5_unreachable, socks5_reach, handle_socks5, with_port, reach_quietly, connect_serve,
  http_serve, raw_serve,
}
use zetproxy_turbo.Tunnel.Http.{extract_connect_host, extract_http_host}

unfoldable pub handle_http_connect : World → Bytes → M Server (Unit {0})
handle_http_connect w initial =
    let host = extract_connect_host initial in
    if equal host []
    then return
    else reach_quietly w (with_port (codes ":443") host) (connect_serve w)

unfoldable pub handle_http_proxy : World → Bytes → M Server (Unit {0})
handle_http_proxy w initial =
    let host = extract_http_host initial in
    if equal host []
    then return
    else reach_quietly w (with_port (codes ":80") host) (http_serve initial)

-- The address is what `copy(buf, initial)` puts into 256 bytes.
unfoldable pub handle_raw : World → Bytes → M Server (Unit {0})
handle_raw w initial = reach_quietly w (take 256 initial) raw_serve

unfoldable pub dispatch : World → Bytes → Protocol → M Server (Unit {0})
dispatch w initial socks5 = handle_socks5 w initial
dispatch w initial http_connect = handle_http_connect w initial
dispatch w initial http_proxy = handle_http_proxy w initial
dispatch w initial raw = handle_raw w initial
dispatch w initial unknown = on_server count_failed

abbrev pub small_buf_size : ℕ
small_buf_size = 4096

-- `client.Read(buf)`, where an error and no byte both end the handler.
unfoldable pub first_bytes : World → M Server Bytes
first_bytes w = do
  initial ← try (read w small_buf_size) (pure tt)
  check (ltb 0 (length initial)) (pure tt)
  pure initial

-- `stale` is the content of the buffer that `GetSmall` returned.
unfoldable pub body : World → Bytes → M Server (Unit {0})
body w stale = do
  set_deadline (some 120)
  initial ← first_bytes w
  dispatch w initial (detect initial stale)

-- The deferred `<-s.connSem`, `client.Close()` and `AddInt32(&s.stats.ConnsActive, -1)`.
unfoldable pub release : Server → Server
release s =
    let st = s.stats in
    record s { sem = s.sem - 1; stats = record st { conns_active = dec_int32 st.conns_active } }

unfoldable pub finish : Session Server → Session Server
finish s = record s { server = release s.server; connected = false }

-- The deferred `recover`, which runs last.
unfoldable pub recover : Exit (Unit {0}) × Session Server → Session Server
recover (value _, s) = s
recover (returned, s) = s
recover (panicked, s) = record s { server = count_failed s.server }

unfoldable pub handle_tcp : World → Bytes → Session Server → Session Server
handle_tcp w stale s = recover (defer finish (body w stale) s)

-- What a run of `handle_tcp` computes with.
unfoldable pub code : Unit {0}
unfolding Session.code handle_tcp body first_bytes dispatch handle_raw handle_http_proxy
    handle_http_connect Tunnel.handle_socks5 recover finish release Tunnel.detect Tunnel.raw_serve
    Tunnel.http_serve Tunnel.connect_serve Tunnel.reach_quietly Tunnel.with_port Tunnel.socks5_reach
    Tunnel.socks5_unreachable Tunnel.socks5_serve Tunnel.socks5_request Tunnel.success
    Tunnel.target_addr Tunnel.read_host Tunnel.relay_with_stats Tunnel.count_bytes
    Tunnel.count_failed
code = tt
