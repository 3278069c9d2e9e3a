-- ===== src/Examples/Tunnels.antt =====
-- Runs of the tunnel server of internal/tunnel/tunnel.go on TCP connections.
use zetproxy_turbo.Tunnel.Handle
use zetproxy_turbo.Base.{◌≡◌, refl, false, [], ◌∷◌, ◌++◌, arith}
use zetproxy_turbo.Text.{Bytes, codes, equal, contains_byte, show_nat}
use zetproxy_turbo.Socks.{greeting, request_bytes}
use zetproxy_turbo.Session.{Session, accepted}
use zetproxy_turbo.Tunnel.{Server, new, set_max_conns, accept, detect}
use zetproxy_turbo.Tunnel.Http.{
  split_lines, lower, is_host_line, find_host, extract_http_host, with_ends, extract_http_host_lem,
}
use zetproxy_turbo.Tunnel.Handle.{handle_tcp}
use zetproxy_turbo.Tunnel.Detect.{by_first_bytes, detect_lem}
use zetproxy_turbo.Tunnel.Cleanup.{handle_tcp_cleanup}
use zetproxy_turbo.Examples.{world, methods, host, payload}

abbrev one_taken : Server
one_taken = (accept (set_max_conns new 2)).0

abbrev client : Session Server
client = accepted one_taken (greeting methods ++ request_bytes 1 host 80 payload)

-- What a buffer held before.
abbrev stale : Bytes
stale = codes "POST / HTTP/1.1"

get_test :
    (handle_tcp (world 100) stale (accepted one_taken (codes "GET /\r\nhost: a.b\r\n\r\n"))).dialed
    ≡ codes "a.b:80" ∷ []
unfolding Handle.code accept set_max_conns new equal show_nat extract_http_host find_host
    split_lines is_host_line lower contains_byte
get_test = refl

handle_tcp_cleanup_example :
    let t = handle_tcp (world 4) stale client in
    (t.connected ≡ false)
    × (t.targets ≡ 0)
    × (t.server.sem ≡ 0)
    × (t.server.stats.conns_active ≡ 0)
    × (t.server.stats.conns_total ≡ 1)
    × (t.server.stats.conns_rejected ≡ 0)
    × (t.server.stats.tcp_accepts ≡ 1)
unfolding accept set_max_conns new
handle_tcp_cleanup_example = handle_tcp_cleanup (world 4) stale client

detect_lem_example : detect (codes "POST") [] ≡ by_first_bytes (codes "POST")
detect_lem_example = detect_lem (codes "POST") [] (omega arith)

extract_http_host_lem_example :
    extract_http_host (with_ends (codes "GET / HTTP/1.1" ∷ []) (codes "HoSt: a.b" ++ 13 ∷ 10 ∷ []))
    ≡ codes "a.b"
unfolding lower is_host_line equal
extract_http_host_lem_example =
    extract_http_host_lem (codes "GET / HTTP/1.1" ∷ []) (codes "HoSt: ") (codes "a.b") []
      (ground arith, refl, tt) refl refl (ground arith) (ground arith)
