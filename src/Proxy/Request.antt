-- ===== src/Proxy/Request.antt =====
-- A well-formed request is read, and its target dialled and relayed.
use zetproxy_turbo.Base.{
  ℕ, suc, ◌+◌, ◌≤◌, ◌<◌, ◌≡◌, refl, true, none, some, [], ◌∷◌, ◌++◌, arith, leb-of_le, length,
}
use zetproxy_turbo.Text.{Bytes, codes}
use zetproxy_turbo.Session.{
  Target, World, Session, value, returned, check, or_return, try, defer, on_server, set_deadline,
  dial, close_target, write, write_ignore, relay,
}
use zetproxy_turbo.Session.Reads.{read_full-append}
use zetproxy_turbo.Socks.{
  greeting, Address, ip4, domain, ip6, IsAddress, address_type, address_bytes, host_text,
  port_bytes, request_bytes,
}
use zetproxy_turbo.Proxy.{
  Server, add_conn_log, count_failed, count_bytes, refusal, read_buf, read_host, uint16_of,
  target_addr, success, log_entry, skip_methods, request, serve, unreachable, reach,
}

pub read_buf-append :
    (n : ℕ) (xs r : Bytes) (s : Session Server)
    → length xs ≡ n
    → n ≤ 257
    → s.rest ≡ xs ++ r
    → read_buf n s ≡ (value (some xs), record s { rest = r })
unfolding read_buf
read_buf-append n xs r s e h k = rw (leb-of_le n 257 h) (read_full-append n xs r s e k)

skip_methods_lem :
    (xs r : Bytes) (s : Session Server)
    → length xs < 256
    → s.rest ≡ xs ++ r
    → skip_methods (length xs) s ≡ (value tt, record s { rest = r })
unfolding skip_methods try or_return
skip_methods_lem [] r s h e = ground arith
skip_methods_lem (x ∷ xs) r s h e =
    ground (arith, read_buf-append (suc (length xs)) (x ∷ xs) r s refl (omega arith) e)

read_host_lem :
    (a : Address) (r : Bytes) (s : Session Server)
    → IsAddress a
    → s.rest ≡ address_bytes a ++ r
    → read_host (address_type a) s ≡ (value (host_text a), record s { rest = r })
unfolding read_host try or_return
read_host_lem (ip4 b) r s h e = rw (read_buf-append 4 b r s h (omega arith) e)
read_host_lem (ip6 b) r s h e = rw (read_buf-append 16 b r s h (omega arith) e)
read_host_lem (domain d) r s h e = rw (
  read_buf-append 1 (length d ∷ []) (d ++ r) s refl (omega arith) e,
  read_buf-append (length d) d r (record s { rest = d ++ r }) refl (omega arith) refl,
)

pub uint16_of-port_bytes : (port : ℕ) → port < 65536 → uint16_of (port_bytes port) ≡ port
uint16_of-port_bytes port h = omega arith

-- The session once a request has been read.
abbrev pub asked : Bytes → Session Server → Session Server
asked payload s = record s {
  rest = payload;
  sent = s.sent ++ (5 ∷ 0 ∷ []);
  writes = suc s.writes;
  deadline = some 60;
}

module _ (w : World) (methods : Bytes) (a : Address) (port : ℕ) (payload : Bytes)
    (s : Session Server) (few : length methods < 256) (valid : IsAddress a) (small : port < 65536)
    (granted : w.write_ok s.writes ≡ true)
    (stream : s.rest ≡ greeting methods ++ request_bytes 1 a port payload) where
  pub request_lem : request w s ≡ (value (target_addr (host_text a) port), asked payload s)
  unfolding request try or_return set_deadline check write
  request_lem =
      let greeted = record s { deadline = some 60 } in
      let head = 5 ∷ 1 ∷ 0 ∷ address_type a ∷ [] in
      let body = address_bytes a ++ (port_bytes port ++ payload) in
      let answered = record s {
        sent = s.sent ++ (5 ∷ 0 ∷ []);
        writes = suc s.writes;
        deadline = some 60;
      } in
      rw
        (
          read_buf-append 2 (5 ∷ length methods ∷ []) (methods ++ (head ++ body)) greeted refl
              (omega arith) stream,
          skip_methods_lem methods (head ++ body)
              (record greeted { rest = methods ++ (head ++ body) }) few refl,
          granted,
          read_buf-append 4 head body (record answered { rest = head ++ body }) refl (omega arith)
              refl,
          read_host_lem a (port_bytes port ++ payload) (record answered { rest = body }) valid refl,
          read_buf-append 2 (port_bytes port) payload
              (record answered { rest = port_bytes port ++ payload }) refl (omega arith) refl,
        )
        (rw (uint16_of-port_bytes port small))

-- The session once a relay to `addr` is over and its target is closed.
abbrev pub served : World → Bytes → Target → Session Server → Session Server
served w addr t s = record s {
  server =
      add_conn_log (log_entry w addr (codes "connected") (t.upload + t.download))
        (count_bytes (t.upload, t.download) s.server);
  rest = [];
  sent = s.sent ++ success t;
  writes = suc s.writes;
  deadline = none;
  dialed = s.dialed ++ (addr ∷ []);
  relays = suc s.relays;
}

pub reach_lem :
    (w : World) (addr : Bytes) (t : Target) (s : Session Server)
    → w.dial addr ≡ some t
    → w.write_ok s.writes ≡ true
    → reach w addr s ≡ (value tt, served w addr t s)
unfolding reach try or_return dial defer serve write check set_deadline relay on_server close_target
reach_lem w addr t s reached ok = rw (reached, dial) (rw (ok, write) (ground arith))

-- The session once the refusal of an unreachable `addr` is sent.
abbrev pub refused : World → Bytes → Session Server → Session Server
refused w addr s = record s {
  server = add_conn_log (log_entry w addr (codes "failed") 0) (count_failed s.server);
  sent = s.sent ++ refusal 4;
  writes = suc s.writes;
  dialed = s.dialed ++ (addr ∷ []);
}

pub refuse_lem :
    (w : World) (addr : Bytes) (s : Session Server)
    → w.dial addr ≡ none
    → w.write_ok s.writes ≡ true
    → reach w addr s ≡ (returned, refused w addr s)
unfolding reach try or_return dial unreachable write_ignore write on_server
refuse_lem w addr s missed ok = rw (missed, dial) (rw (ok, write))
