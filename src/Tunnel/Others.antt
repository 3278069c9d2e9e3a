-- ===== src/Tunnel/Others.antt =====
-- What the tunnel server does for a client of one of the other protocols, by what its first read
-- brings.
use zetproxy_turbo.Base.{
  ℕ, ◌-◌, ◌≤◌, ◌≡◌, refl, sym, ◌≢◌, inl, inr, Bool, true, Option, none, some, List, [], ◌∷◌, ◌++◌,
  if◌then◌else◌, Bool-cases, Option-cases, length, take, add_int64, dec_int32,
}
use zetproxy_turbo.Text.{Bytes, codes, equal}
use zetproxy_turbo.Session.{
  Target, World, Session, M, return, check, or_return, try, defer, on_server, set_deadline, dial,
  close_target, write, write_target, relay, accepted,
}
use zetproxy_turbo.Tunnel.{
  Server, count_failed, count_bytes, Protocol, socks5, http_connect, http_proxy, raw, unknown,
  detect, relay_with_stats, with_port, reach_quietly, connect_serve, http_serve, raw_serve,
}
use zetproxy_turbo.Tunnel.Http.{extract_connect_host, extract_http_host}
use zetproxy_turbo.Tunnel.Asked.{
  second_word, port_added, header_value, with_port_lem, extract_connect_host-second_word,
  extract_http_host-header_value,
}
use zetproxy_turbo.Tunnel.Handle.{
  handle_http_connect, handle_http_proxy, handle_raw, dispatch, body, release, finish, recover,
  handle_tcp,
}
use zetproxy_turbo.Tunnel.Served.{first_bytes_lem}

-- The address that is dialled, if there is one: a host with a port.
abbrev pub named : Bytes → Bytes → Option Bytes
named port [] = none
named port (c ∷ host) = some (port_added port (c ∷ host))

abbrev pub address : Protocol → Bytes → Option Bytes
address http_connect b = named (codes "443") (second_word b)
address http_proxy b = named (codes "80") (header_value true b)
address raw b = some (take 256 b)
address socks5 b = none
address unknown b = none

abbrev pub reached : World → Option Bytes → Option Target
reached w none = none
reached w (some addr) = w.dial addr

abbrev pub dials : Option Bytes → List Bytes
dials none = []
dials (some addr) = addr ∷ []

-- What the client is sent before the relay.
abbrev pub told : Protocol → Option Target → Bytes
told http_connect (some t) = codes "HTTP/1.1 200 Connection Established\r\n\r\n"
told p o = []

-- What the target is sent before the relay.
abbrev pub passed : Protocol → Bytes → Option Target → Bytes
passed http_proxy b (some t) = if t.write_ok then b else []
passed p b o = []

-- Whether the relay runs.
abbrev pub runs : Protocol → Target → Bool
runs http_proxy t = t.write_ok
runs p t = true

-- The server's counters behind it; `t.upload` and `t.download` are the bytes of the relay.
abbrev pub counts : Protocol → Option Target → Server → Server
counts unknown o s =
    let st = s.stats in
    record s { stats = record st { conns_failed = add_int64 st.conns_failed 1 } }
counts p none s = s
counts p (some t) s =
    let st = s.stats in
    if runs p t
    then record s {
      stats = record st {
        bytes_in = add_int64 st.bytes_in t.upload;
        bytes_out = add_int64 st.bytes_out t.download;
      };
    }
    else s

-- Its token is given back, and it is counted as active no longer.
abbrev pub left : Server → Server
left s =
    let st = s.stats in
    record s { sem = s.sem - 1; stats = record st { conns_active = dec_int32 st.conns_active } }

module _ (w : World) (b r : Bytes) (srv : Server) (writes : (n : ℕ) → w.write_ok n ≡ true) where
  abbrev opened : Session Server
  opened = record (accepted srv r) { deadline = some 120 }

  -- The end of a handler that came to this.
  abbrev ended : M Server (Unit {0}) → Session Server
  ended m = recover (defer finish m opened)

  -- What the handler shows that dials `a`, if anything.
  abbrev pub Shows : Protocol → Option Bytes → Session Server → Type 0
  Shows p a f =
      let o = reached w a in
      (f.dialed ≡ dials a)
      × (f.sent ≡ told p o)
      × (f.forwarded ≡ passed p b o)
      × (f.server ≡ left (counts p o srv))

  connect_lem :
      (addr : Bytes)
      → Shows http_connect (some addr) (ended (reach_quietly w addr (connect_serve w)))
  unfolding recover defer finish release count_bytes count_failed reach_quietly connect_serve
      relay_with_stats relay on_server set_deadline close_target try or_return check dial write
  connect_lem addr = elim (Option-cases (w.dial addr)) [
    | inl e ↦ rw (e, dial) (refl, refl, refl, refl)
    | inr (t, e) ↦ rw (e, dial) (rw (writes 0, write) (refl, refl, refl, refl))
  ]

  proxy_lem :
      (addr : Bytes) → Shows http_proxy (some addr) (ended (reach_quietly w addr (http_serve b)))
  unfolding recover defer finish release count_bytes count_failed reach_quietly http_serve
      relay_with_stats relay on_server set_deadline close_target try or_return check dial
      write_target
  proxy_lem addr = elim (Option-cases (w.dial addr)) [
    | inl e ↦ rw (e, dial) (refl, refl, refl, refl)
    | inr (t, e) ↦
        rw (e, dial)
          (elim (Bool-cases t.write_ok) [
            | inl k ↦ rw (k, write_target) (refl, refl, refl, refl)
            | inr k ↦ rw (k, write_target) (refl, refl, refl, refl)
          ])
  ]

  raw_lem : (addr : Bytes) → Shows raw (some addr) (ended (reach_quietly w addr raw_serve))
  unfolding recover defer finish release count_bytes count_failed reach_quietly raw_serve
      relay_with_stats relay on_server set_deadline close_target try or_return dial
  raw_lem addr = elim (Option-cases (w.dial addr)) [
    | inl e ↦ rw (e, dial) (refl, refl, refl, refl)
    | inr (t, e) ↦ rw (e, dial) (refl, refl, refl, refl)
  ]

  -- A handler that needs a host.
  named_lem :
      (p : Protocol) (port host : Bytes) (m : Bytes → M Server (Unit {0}))
      → ((addr : Bytes) → Shows p (some addr) (ended (m addr)))
      → Shows p none (ended return)
      → Shows p
          (named port host)
          (ended (if equal host [] then return else m (with_port (b':' ∷ port) host)))
  unfolding equal
  named_lem p port [] m h k = k
  named_lem p port (c ∷ host) m h k =
      rw (with_port_lem port (c ∷ host)) (h (port_added port (c ∷ host)))

  dispatch_lem : (p : Protocol) → p ≢ socks5 → Shows p (address p b) (ended (dispatch w b p))
  unfolding dispatch recover defer finish release count_failed handle_raw handle_http_connect
      handle_http_proxy on_server
  dispatch_lem socks5 h = absurd (h refl)
  dispatch_lem unknown h = (refl, refl, refl, refl)
  dispatch_lem raw h = raw_lem (take 256 b)
  dispatch_lem http_connect h = rw (sym (extract_connect_host-second_word b)) (
      named_lem http_connect (codes "443") (extract_connect_host b)
        (λ addr. reach_quietly w addr (connect_serve w)) connect_lem (refl, refl, refl, refl))
  dispatch_lem http_proxy h = rw (sym (extract_http_host-header_value b)) (
      named_lem http_proxy (codes "80") (extract_http_host b)
        (λ addr. reach_quietly w addr (http_serve b)) proxy_lem (refl, refl, refl, refl))

-- For every first read, of a client whose writes succeed, that is detected as anything but SOCKS5: an
-- unknown protocol is counted as a failure and nothing more is done. Else exactly the address that is
-- asked for is dialled, the second word of a CONNECT line with ":443" behind it if it has no colon,
-- the value of the first host header with ":80" behind it if it has none, or the 256 first bytes, and
-- nothing without a host. When the target is reached a CONNECT client is sent "HTTP/1.1 200 Connection
-- Established" and an empty line and other clients nothing, the target of an HTTP request gets the
-- first read, and the bytes of the relay are added to the counters, unless that write fails; a dial
-- that fails is told to nobody and not counted. The token is given back, and one connection less is
-- active.
pub handle_tcp_others :
    (w : World) (stale b r : Bytes) (srv : Server)
    → 1 ≤ length b
    → length b ≤ 4096
    → w.first_read ≡ length b
    → ((n : ℕ) → w.write_ok n ≡ true)
    → detect b stale ≢ socks5
    → let f = handle_tcp w stale (accepted srv (b ++ r)) in
      let p = detect b stale in
      let o = reached w (address p b) in
      (f.dialed ≡ dials (address p b))
      × (f.sent ≡ told p o)
      × (f.forwarded ≡ passed p b o)
      × (f.server ≡ left (counts p o srv))
unfolding handle_tcp body set_deadline defer
handle_tcp_others w stale b r srv one few alone writes n =
    let timed = record (accepted srv (b ++ r)) { deadline = some 120 } in
    rw (first_bytes_lem w b r timed one few alone refl)
      (dispatch_lem w b r srv writes (detect b stale) n)
