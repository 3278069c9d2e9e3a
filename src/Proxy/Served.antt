-- ===== src/Proxy/Served.antt =====
-- The whole handler on a well-formed request.
use zetproxy_turbo.Base.{
  ℕ, ◌+◌, ◌/◌, ◌%◌, ◌<◌, ◌≡◌, refl, ◌∙◌, true, none, some, [], ◌∷◌, ◌++◌, arith, length, drop,
  length-append, drop-append, add_int64,
}
use zetproxy_turbo.Text.{Bytes, codes}
use zetproxy_turbo.Addr.Dotted.{four_bytes, length-four_bytes}
use zetproxy_turbo.Session.{Target, World, Session, defer, accepted}
use zetproxy_turbo.Socks.{greeting, Address, IsAddress, host_text, request_bytes}
use zetproxy_turbo.Proxy.{
  Server, add_conn_log, count_failed, count_bytes, refusal, uint16_of, target_addr, success,
  log_entry, reach, body, release, finish, recover, handle,
}
use zetproxy_turbo.Proxy.Request.{asked, request_lem, reach_lem, refuse_lem}

module _ (w : World) (methods : Bytes) (a : Address) (port : ℕ) (payload : Bytes) (srv : Server)
    (few : length methods < 256) (valid : IsAddress a) (small : port < 65536)
    (writes : (n : ℕ) → w.write_ok n ≡ true) where
  abbrev stream : Session Server
  stream = accepted srv (greeting methods ++ request_bytes 1 a port payload)

  body_lem : body w stream ≡ reach w (target_addr (host_text a) port) (asked payload stream)
  unfolding body
  body_lem = rw (request_lem w methods a port payload stream few valid small (writes 0) refl)

  -- A client whose CONNECT request is well formed, whose writes succeed and whose target is reached
  -- gets the greeting and the success reply and nothing else; exactly the host and port that it named
  -- are dialled, one relay runs, with no deadline, the bytes of the relay are added to the counters,
  -- no failure is counted, and the connection is logged with the bytes of both directions.
  pub handle_connected :
      (t : Target)
      → w.dial (target_addr (host_text a) port) ≡ some t
      → let f = handle w (accepted srv (greeting methods ++ request_bytes 1 a port payload)) in
        let addr = target_addr (host_text a) port in
        (f.sent ≡ (5 ∷ 0 ∷ []) ++ success t)
        × (f.dialed ≡ addr ∷ [])
        × (f.relays ≡ 1)
        × (f.deadline ≡ none)
        × (f.server.stats.bytes_in ≡ add_int64 srv.stats.bytes_in t.upload)
        × (f.server.stats.bytes_out ≡ add_int64 srv.stats.bytes_out t.download)
        × (f.server.stats.conns_failed ≡ srv.stats.conns_failed)
        × (f.server.conn_log
            ≡ (add_conn_log
                (log_entry w addr (codes "connected") (t.upload + t.download))
                srv).conn_log)
  unfolding handle recover defer finish release count_bytes add_conn_log
  handle_connected t reached =
      let e =
        body_lem
        ∙ reach_lem w (target_addr (host_text a) port) t (asked payload stream) reached
            (writes 1) in
      rw (e, handle) (refl, refl, refl, refl, refl, refl, refl, refl)

  -- When the target is not reached the client gets the greeting and the reply "host unreachable", one
  -- failure is counted and logged, nothing is relayed, and the byte counters stay.
  pub handle_unreachable :
      w.dial (target_addr (host_text a) port) ≡ none
      → let f = handle w (accepted srv (greeting methods ++ request_bytes 1 a port payload)) in
        let addr = target_addr (host_text a) port in
        (f.sent ≡ (5 ∷ 0 ∷ []) ++ refusal 4)
        × (f.relays ≡ 0)
        × (f.server.stats.bytes_in ≡ srv.stats.bytes_in)
        × (f.server.stats.bytes_out ≡ srv.stats.bytes_out)
        × (f.server.stats.conns_failed ≡ add_int64 srv.stats.conns_failed 1)
        × (f.server.conn_log ≡ (add_conn_log (log_entry w addr (codes "failed") 0) srv).conn_log)
  unfolding handle recover defer finish release count_failed add_conn_log
  handle_unreachable missed =
      let e =
        body_lem
        ∙ refuse_lem w (target_addr (host_text a) port) (asked payload stream) missed (writes 1) in
      rw (e, handle) (refl, refl, refl, refl, refl, refl)

-- The success reply has the 10 bytes of an IPv4 reply whatever address the local end has, and its
-- last two bytes are the port of the local end.
pub success_reply :
    (t : Target)
    → t.local_port < 65536
    → (length (success t) ≡ 10) × (uint16_of (drop 8 (success t)) ≡ t.local_port)
unfolding success
success_reply t p =
    let port = (t.local_port / 256 % 256) ∷ (t.local_port % 256) ∷ [] in
    let four = length-four_bytes t.local_ip in
    let tail : drop 4 (four_bytes t.local_ip ++ port) ≡ port =
      rw four at (drop-append (four_bytes t.local_ip) port) in
    (omega (arith, length-append (four_bytes t.local_ip) port), rw tail (omega arith))
