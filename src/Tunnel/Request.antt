-- ===== src/Tunnel/Request.antt =====
-- A well-formed SOCKS5 request to the tunnel server. The greeting comes in the first read, the rest
-- behind it: bytes that the first read brings after the methods are never looked at.
use zetproxy_turbo.Base.{
  ℕ, suc, ◌+◌, ◌*◌, ◌/◌, ◌%◌, ◌≤◌, ◌<◌, ◌≡◌, refl, true, [], ◌∷◌, ◌++◌, arith, leb, leb-of_le,
  length, length-append,
}
use zetproxy_turbo.Text.{Bytes}
use zetproxy_turbo.Session.{World, Session, value, check, or_return, try, write, write_ignore}
use zetproxy_turbo.Session.Reads.{read_full-append}
use zetproxy_turbo.Socks.{
  greeting, Address, ip4, domain, ip6, IsAddress, address_type, address_bytes, host_text,
  port_bytes, request_bytes,
}
use zetproxy_turbo.Tunnel.{Server, read_host, socks5_request}

read_host_lem :
    (a : Address) (r : Bytes) (s : Session Server)
    → IsAddress a
    → s.rest ≡ address_bytes a ++ r
    → read_host (address_type a) s ≡ (value (host_text a), record s { rest = r })
unfolding read_host try or_return
read_host_lem (ip4 b) r s h e = rw (read_full-append 4 b r s h e)
read_host_lem (ip6 b) r s h e = rw (read_full-append 16 b r s h e)
read_host_lem (domain d) r s h e = rw (
  read_full-append 1 (length d ∷ []) (d ++ r) s refl e,
  read_full-append (length d) d r (record s { rest = d ++ r }) refl refl,
)

-- The session once the request has been read.
abbrev pub asked : Bytes → Session Server → Session Server
asked payload s = record s { rest = payload; sent = s.sent ++ (5 ∷ 0 ∷ []); writes = suc s.writes }

module _ (w : World) (methods : Bytes) (a : Address) (port : ℕ) (payload : Bytes)
    (s : Session Server) (some_method : 1 ≤ length methods) (valid : IsAddress a)
    (small : port < 65536) (granted : w.write_ok s.writes ≡ true)
    (stream : s.rest ≡ request_bytes 1 a port payload) where
  pub request_lem :
      (lost : Bytes)
      → socks5_request w (greeting methods ++ lost) s ≡ (value (host_text a, port), asked payload s)
  unfolding socks5_request try or_return check write write_ignore
  request_lem lost =
      let head = 5 ∷ 1 ∷ 0 ∷ address_type a ∷ [] in
      let body = address_bytes a ++ (port_bytes port ++ payload) in
      let answered = record s { sent = s.sent ++ (5 ∷ 0 ∷ []); writes = suc s.writes } in
      let port_read : port / 256 * 256 + port % 256 ≡ port = omega arith in
      let three : leb 3 (length (greeting methods ++ lost)) ≡ true =
        leb-of_le 3 _ (omega (arith, length-append methods lost)) in
      let whole : leb (2 + length methods) (length (greeting methods ++ lost)) ≡ true =
        leb-of_le _ _ (omega (arith, length-append methods lost)) in
      rw
        (
          three,
          whole,
          granted,
          read_full-append 4 head body answered refl stream,
          read_host_lem a (port_bytes port ++ payload) (record answered { rest = body }) valid refl,
          read_full-append 2 (port_bytes port) payload
              (record answered { rest = port_bytes port ++ payload }) refl refl,
        )
        (rw port_read)
