-- ===== src/Tunnel/Served.antt =====
-- The whole handler of a tunnel connection on a SOCKS5 client.
use Prim.Native.Nat.{min}
use zetproxy_turbo.Base.{
  ℕ, suc, ◌≤◌, ◌<◌, ◌≡◌, refl, subst, true, none, some, [], ◌∷◌, ◌++◌, append-nil, arith, length,
  take-append, drop-append, add_int64,
}
use zetproxy_turbo.Text.{Bytes}
use zetproxy_turbo.Session.{
  Target, World, Session, value, check, or_return, try, defer, on_server, set_deadline, read, dial,
  close_target, write, relay, accepted,
}
use zetproxy_turbo.Socks.{greeting, Address, IsAddress, host_text, request_bytes}
use zetproxy_turbo.Tunnel.{
  Server, count_bytes, socks5, detect, relay_with_stats, target_addr, success, socks5_request,
  socks5_serve, socks5_reach, handle_socks5,
}
use zetproxy_turbo.Tunnel.Request.{asked, request_lem}
use zetproxy_turbo.Tunnel.Handle.{dispatch, first_bytes, body, release, finish, recover, handle_tcp}

-- The session once a relay to `addr` is over and its target is closed.
abbrev pub served : Bytes → ℕ → Target → Session Server → Session Server
served addr port t s = record s {
  server = count_bytes (t.upload, t.download) s.server;
  rest = [];
  sent = s.sent ++ success t port;
  writes = suc s.writes;
  deadline = none;
  dialed = s.dialed ++ (addr ∷ []);
  relays = suc s.relays;
}

pub reach_lem :
    (w : World) (host : Bytes) (port : ℕ) (t : Target) (s : Session Server)
    → w.dial (target_addr host port) ≡ some t
    → w.write_ok s.writes ≡ true
    → socks5_reach w (host, port) s ≡ (value tt, served (target_addr host port) port t s)
unfolding socks5_reach try or_return dial defer socks5_serve write check set_deadline
    relay_with_stats relay on_server close_target
reach_lem w host port t s reached ok = rw (reached, dial) (rw (ok, write) (ground arith))

pub first_bytes_lem :
    (w : World) (xs r : Bytes) (s : Session Server)
    → 1 ≤ length xs
    → length xs ≤ 4096
    → w.first_read ≡ length xs
    → s.rest ≡ xs ++ r
    → first_bytes w s ≡ (value xs, record s { rest = r })
unfolding first_bytes read try or_return check
first_bytes_lem w [] r s one few f e = absurd (omega arith)
first_bytes_lem w (x ∷ xs) r s one few f e =
    let k : min 4096 w.first_read ≡ length (x ∷ xs) = omega arith in
    rw (e, read) (rw k (rw (e, take-append (x ∷ xs) r, drop-append (x ∷ xs) r) (ground arith)))

pub detect_five : (s stale : Bytes) → detect (5 ∷ s) stale ≡ socks5
unfolding detect
detect_five s stale = ground arith

module _ (w : World) (stale methods : Bytes) (a : Address) (port : ℕ) (payload : Bytes)
    (srv : Server) (some_method : 1 ≤ length methods) (few : length methods < 256)
    (valid : IsAddress a) (small : port < 65536) (writes : (n : ℕ) → w.write_ok n ≡ true) where
  stream : Session Server
  stream = accepted srv (greeting methods ++ request_bytes 1 a port payload)

  -- The session behind the first read.
  opened : Session Server
  unfolding stream
  opened = record stream { rest = request_bytes 1 a port payload; deadline = some 120 }

  alone_lem :
      socks5_request w (greeting methods) opened ≡ (value (host_text a, port), asked payload opened)
  unfolding opened
  alone_lem =
      subst (λ b. socks5_request w b opened ≡ (value (host_text a, port), asked payload opened))
        (append-nil (greeting methods))
        (request_lem w methods a port payload opened some_method valid small (writes 0) refl [])

  body_lem :
      (t : Target)
      → w.first_read ≡ length (greeting methods)
      → w.dial (target_addr (host_text a) port) ≡ some t
      → body w stale stream
        ≡ (value tt, served (target_addr (host_text a) port) port t (asked payload opened))
  unfolding body set_deadline dispatch handle_socks5 stream opened
  body_lem t alone reached =
      let timed = record stream { deadline = some 120 } in
      rw
        (
          first_bytes_lem w (greeting methods) (request_bytes 1 a port payload) timed (omega arith)
              (omega arith) alone refl,
          detect_five (length methods ∷ methods) stale,
        )
        (rw alone_lem (reach_lem w (host_text a) port t (asked payload opened) reached (writes 1)))

  -- A client whose greeting arrives alone in the first read, whose CONNECT request follows, whose
  -- writes succeed and whose target is reached gets the greeting and the success reply and nothing
  -- else; exactly the host and port that it named are dialled, one relay runs, with no deadline, the
  -- bytes of the relay are added to the counters, and no failure is counted.
  pub handle_tcp_socks5 :
      (t : Target)
      → w.first_read ≡ length (greeting methods)
      → w.dial (target_addr (host_text a) port) ≡ some t
      → let f =
          handle_tcp w stale (accepted srv (greeting methods ++ request_bytes 1 a port payload)) in
        (f.sent ≡ (5 ∷ 0 ∷ []) ++ success t port)
        × (f.dialed ≡ target_addr (host_text a) port ∷ [])
        × (f.relays ≡ 1)
        × (f.deadline ≡ none)
        × (f.server.stats.bytes_in ≡ add_int64 srv.stats.bytes_in t.upload)
        × (f.server.stats.bytes_out ≡ add_int64 srv.stats.bytes_out t.download)
        × (f.server.stats.conns_failed ≡ srv.stats.conns_failed)
  unfolding handle_tcp recover defer finish release count_bytes stream opened
  handle_tcp_socks5 t alone reached =
      rw (body_lem t alone reached, handle_tcp) (refl, refl, refl, refl, refl, refl, refl)
