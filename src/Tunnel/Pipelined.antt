-- ===== src/Tunnel/Pipelined.antt =====
-- A SOCKS5 client of the tunnel whose greeting and request arrive together.
use zetproxy_turbo.Base.{
  ℕ, suc, ◌+◌, ◌≤◌, ◌≡◌, refl, sym, true, some, [], ◌∷◌, ◌++◌, append-nil, arith, leb, leb-of_le,
  length, length-append,
}
use zetproxy_turbo.Text.{Bytes}
use zetproxy_turbo.Session.{
  World, Session, returned, check, or_return, try, defer, set_deadline, write, accepted,
}
use zetproxy_turbo.Session.Reads.{read_full_short}
use zetproxy_turbo.Socks.{greeting}
use zetproxy_turbo.Tunnel.{Server, socks5_request, handle_socks5}
use zetproxy_turbo.Tunnel.Handle.{dispatch, body, release, finish, recover, handle_tcp}
use zetproxy_turbo.Tunnel.Served.{first_bytes_lem, detect_five}

request_short :
    (w : World) (methods lost : Bytes) (s : Session Server)
    → 1 ≤ length methods
    → w.write_ok s.writes ≡ true
    → s.rest ≡ []
    → socks5_request w (greeting methods ++ lost) s
      ≡ (returned, record s { sent = s.sent ++ (5 ∷ 0 ∷ []); writes = suc s.writes })
unfolding socks5_request try or_return check write
request_short w methods lost s one ok e =
    let answered = record s { sent = s.sent ++ (5 ∷ 0 ∷ []); writes = suc s.writes } in
    let three : leb 3 (length (greeting methods ++ lost)) ≡ true =
      leb-of_le 3 _ (omega (arith, length-append methods lost)) in
    let whole : leb (2 + length methods) (length (greeting methods ++ lost)) ≡ true =
      leb-of_le _ _ (omega (arith, length-append methods lost)) in
    rw (three, whole, ok, read_full_short 4 answered (rw e (omega arith))) (ground arith)

-- When one read brings the greeting and all that the client sends after it, the rest is lost: the
-- client gets the greeting's answer only, nothing is dialled or relayed, and no failure is counted.
pub pipelined_lost :
    (w : World) (stale methods lost : Bytes) (srv : Server)
    → 1 ≤ length methods
    → length (greeting methods ++ lost) ≤ 4096
    → w.first_read ≡ length (greeting methods ++ lost)
    → ((n : ℕ) → w.write_ok n ≡ true)
    → let f = handle_tcp w stale (accepted srv (greeting methods ++ lost)) in
      (f.sent ≡ 5 ∷ 0 ∷ [])
      × (f.dialed ≡ [])
      × (f.relays ≡ 0)
      × (f.server.stats.conns_failed ≡ srv.stats.conns_failed)
unfolding handle_tcp recover defer finish release
pipelined_lost w stale methods lost srv one few all ok =
    let whole = greeting methods ++ lost in
    let timed = record (accepted srv whole) { deadline = some 120 } in
    let e : body w stale (accepted srv whole)
        ≡ (returned, record timed { rest = []; sent = 5 ∷ 0 ∷ []; writes = 1 }) =
      unfold body set_deadline dispatch handle_socks5 in
      rw
        (
          first_bytes_lem w whole [] timed (omega arith) few all (sym (append-nil whole)),
          detect_five (length methods ∷ (methods ++ lost)) stale,
        )
        (rw (request_short w methods lost (record timed { rest = [] }) one (ok 0) refl)) in
    rw (e, handle_tcp) (refl, refl, refl, refl)
