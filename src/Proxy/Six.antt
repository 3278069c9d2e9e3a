-- ===== src/Proxy/Six.antt =====
-- A client of the SOCKS5 server that asks for an IPv6 address.
use zetproxy_turbo.Base.{ℕ, ◌<◌, ◌≡◌, inr, true, none, [], ◌∷◌, ◌++◌, arith, length, add_int64}
use zetproxy_turbo.Text.{Bytes, show_nat}
use zetproxy_turbo.Text.Decimal.{show_nat-AllDigits}
use zetproxy_turbo.Text.Trim.{digits_no_byte}
use zetproxy_turbo.Addr.{to4, split_host_port}
use zetproxy_turbo.Addr.Colons.{split_host_port_ip6}
use zetproxy_turbo.Socks.{greeting, ip6, request_bytes}
use zetproxy_turbo.Session.{World, accepted}
use zetproxy_turbo.Proxy.{Server, refusal, target_addr, handle}
use zetproxy_turbo.Proxy.Served.{handle_unreachable}

module _ (w : World) (methods ip : Bytes) (port : ℕ) (payload : Bytes) (srv : Server)
    (few : length methods < 256) (long : length ip ≡ 16) (small : port < 65536)
    (writes : (n : ℕ) → w.write_ok n ≡ true)
    (splits : (addr : Bytes) → split_host_port addr ≡ none → w.dial addr ≡ none) where
  -- A dial fails on an address that is no pair of host and port, as `net.Dial` documents it. Then a
  -- client whose writes succeed and that asks in a well-formed request for an IPv6 address, no
  -- IPv4-mapped one, is never served, whatever its target: it gets the reply "host unreachable", nothing
  -- is relayed, and one failure is counted.
  pub handle_ip6 :
      to4 ip ≡ none
      → let f =
          handle w (accepted srv (greeting methods ++ request_bytes 1 (ip6 ip) port payload)) in
        (f.sent ≡ (5 ∷ 0 ∷ []) ++ refusal 4)
        × (f.relays ≡ 0)
        × (f.server.stats.conns_failed ≡ add_int64 srv.stats.conns_failed 1)
  unfolding target_addr
  handle_ip6 no4 =
      let digits =
        digits_no_byte (show_nat port) b':' (show_nat-AllDigits port) (inr (omega arith)) in
      let missed = splits _ (split_host_port_ip6 ip (show_nat port) long no4 digits) in
      let (s, r, i, o, f, l) =
        handle_unreachable w methods (ip6 ip) port payload srv few long small writes missed in
      (s, r, f)
