-- ===== src/Examples/Streams.antt =====
-- Streams that are no complete CONNECT request, in each of the three SOCKS5 servers, and the parser of
-- Socks/Parse.antt on them; and a CONNECT and a GET request to the tunnel server.
use zetproxy_turbo.Tunnel
use zetproxy_turbo.Relay
use zetproxy_turbo.Tunnel.Handle
use zetproxy_turbo.Proxy
use zetproxy_turbo.Base.{ℕ, ◌≡◌, refl, none, some, [], ◌∷◌, ◌++◌, arith}
use zetproxy_turbo.Text.{Bytes, codes, equal, contains_byte}
use zetproxy_turbo.Socks.{greeting, request_bytes}
use zetproxy_turbo.Socks.Parse.{not_connect, no_type, ask, parse}
use zetproxy_turbo.Session.{World, returned, accepted}
use zetproxy_turbo.Proxy.Streams.{handle-parse}
use zetproxy_turbo.Relay.Streams.{request-parse}
use zetproxy_turbo.Tunnel.Streams.{handle_tcp-parse}
use zetproxy_turbo.Tunnel.Others.{counts, left, handle_tcp_others}
use zetproxy_turbo.Tunnel.Http.{split_lines, lower, is_host_line, find_host, extract_http_host}
use zetproxy_turbo.Tunnel.Asked.{second_word, port_added}
use zetproxy_turbo.Examples.{target, world, methods, host, payload}
use zetproxy_turbo.Tunnel.{http_connect}

-- The client asks for command 2, BIND.
abbrev bind_stream : Bytes
bind_stream = greeting methods ++ request_bytes 2 host 80 []

-- The address type is 2.
abbrev odd_stream : Bytes
odd_stream = greeting methods ++ 5 ∷ 1 ∷ 0 ∷ 2 ∷ 9 ∷ []

-- A greeting with two methods, and behind it a request of SOCKS version 4.
abbrev old_request : Bytes
old_request = 4 ∷ 1 ∷ 0 ∷ 80 ∷ 10 ∷ 0 ∷ 0 ∷ 1 ∷ 0 ∷ []

parse_test :
    (parse (greeting methods ++ request_bytes 1 host 80 payload) ≡ some (ask host 80 payload))
    × (parse bind_stream ≡ some (not_connect (3 ∷ codes "a.b" ++ 0 ∷ 80 ∷ [])))
    × (parse odd_stream ≡ some (no_type (9 ∷ [])))
    × (parse (5 ∷ 3 ∷ 0 ∷ 1 ∷ []) ≡ none)
parse_test = (refl, refl, refl, refl)

handle-parse_example :
    let f = Proxy.handle (world 4) (accepted Proxy.new bind_stream) in
    (f.sent ≡ (5 ∷ 0 ∷ []) ++ Proxy.refusal 7)
    × (f.dialed ≡ [])
    × (f.server.stats.conns_failed ≡ 1)
    × (f.server.conn_log ≡ [])
unfolding Proxy.new
handle-parse_example = handle-parse (world 4) Proxy.new bind_stream (omega arith) (λ n. refl)

request-parse_example : Relay.Request.request {S = ℕ} (world 4) (accepted 0 odd_stream) ≡ (
  returned,
  record (accepted 0 []) {
    rest = 9 ∷ [];
    sent = (5 ∷ 0 ∷ []) ++ Proxy.refusal 8;
    writes = 2;
    deadline = some 15;
  },
)
request-parse_example = request-parse (world 4) (λ n. refl) odd_stream (accepted 0 [])

handle_tcp-parse_example :
    let f =
      Handle.handle_tcp (world 4) [] (accepted Tunnel.new (greeting methods ++ old_request)) in
    (f.sent ≡ (5 ∷ 0 ∷ []) ++ Tunnel.refusal 7)
    × (f.dialed ≡ [])
    × (f.server ≡ Handle.release Tunnel.new)
unfolding Tunnel.new
handle_tcp-parse_example =
    handle_tcp-parse (world 4) [] (2 ∷ methods) old_request Tunnel.new (omega arith) refl
      (λ n. refl)

-- A plain HTTP request, in one read.
abbrev get_request : Bytes
get_request = codes "GET /\r\nhost: a.b\r\n\r\n"

abbrev connect_request : Bytes
connect_request = codes "CONNECT a.b:8443 HTTP/1.1\r\n\r\n"

-- Every dial succeeds.
abbrev open_world : World
open_world = record (world 29) { dial = λ addr. some target }

others_test :
    let f = Handle.handle_tcp (world 20) [] (accepted Tunnel.new get_request) in
    (f.dialed ≡ codes "a.b:80" ∷ []) × (f.forwarded ≡ get_request) × (f.server.stats.bytes_in ≡ 7)
unfolding Handle.code Tunnel.new extract_http_host find_host split_lines is_host_line lower
    contains_byte equal
others_test = (refl, refl, refl)

handle_tcp_others_example :
    let f = Handle.handle_tcp open_world [] (accepted Tunnel.new (connect_request ++ [])) in
    (f.dialed ≡ codes "a.b:8443" ∷ [])
    × (f.sent ≡ codes "HTTP/1.1 200 Connection Established\r\n\r\n")
    × (f.forwarded ≡ [])
    × (f.server ≡ left (counts http_connect (some target) Tunnel.new))
unfolding Tunnel.detect second_word port_added equal
handle_tcp_others_example =
    handle_tcp_others open_world [] connect_request [] Tunnel.new (omega arith) (omega arith) refl
      (λ n. refl) (ground arith)
