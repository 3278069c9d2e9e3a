-- ===== src/Proxy.antt =====
-- The SOCKS5 server of internal/proxy/socks5.go: its state, the handler of a connection, the
-- connection log and the accept loop.
--
-- Counters are int64 and int32 by their bit patterns. `sem` is the number of tokens in `connSem`,
-- a channel of `max_conns` places.
pub mod Log
pub mod Accept
pub mod Cleanup
pub mod Request
pub mod Served
pub mod Delivered
pub mod Six
pub mod Parsed
pub mod Streams
use zetproxy_turbo.Base.{
  ℕ, suc, ◌+◌, ◌-◌, ◌*◌, ◌/◌, ◌%◌, Bool, true, false, not, Option, none, some, List, [], ◌∷◌, ◌++◌,
  ltb, leb, ◌==◌, if◌then◌else◌, length, drop, get_or, add_int64, inc_int32, dec_int32,
}
use zetproxy_turbo.Text.{Bytes, codes, show_nat}
use zetproxy_turbo.Addr.{ip_string, to4}
use zetproxy_turbo.Session
use zetproxy_turbo.Session.{
  World, Target, Session, Exit, value, returned, panicked, M, ◌>>=◌, ◌>>◌, pure, return, panic,
  check, try, defer, on_server, set_deadline, read_full, dial, close_target, write, write_ignore,
  relay,
}

-- The counters of `SOCKS5Stats`.
pub record Stats : Type 0 where
  pub bytes_in : ℕ
  pub bytes_out : ℕ
  pub conns_total : ℕ
  pub conns_failed : ℕ
  pub conns_rejected : ℕ
  pub conns_active : ℕ  -- int32

pub record ConnLog : Type 0 where
  pub timestamp : ℕ
  pub addr : Bytes
  pub target : Bytes
  pub status : Bytes
  pub bytes : ℕ

pub record Server : Type 0 where
  pub stats : Stats
  pub max_conns : ℕ
  pub sem : ℕ
  pub conn_log : List ConnLog
  pub max_log_size : ℕ

unfoldable pub new : Server
new = record {
  stats = record {
    bytes_in = 0;
    bytes_out = 0;
    conns_total = 0;
    conns_failed = 0;
    conns_rejected = 0;
    conns_active = 0;
  };
  max_conns = 2048;
  sem = 0;
  conn_log = [];
  max_log_size = 1000;
}

-- `SetMaxConns` for a `max` that is not negative; the new channel is empty.
unfoldable pub set_max_conns : Server → ℕ → Server
set_max_conns s max = record s { max_conns = max; sem = 0 }

-- `addConnLog`: only the last `maxLogSize` entries are kept.
unfoldable pub add_conn_log : ConnLog → Server → Server
add_conn_log entry s =
    let log = s.conn_log ++ (entry ∷ []) in
    record s {
      conn_log =
          if ltb s.max_log_size (length log) then drop (length log - s.max_log_size) log else log;
    }

-- `atomic.AddInt64(&s.stats.ConnsFailed, 1)`
unfoldable pub count_failed : Server → Server
count_failed s =
    let st = s.stats in
    record s { stats = record st { conns_failed = add_int64 st.conns_failed 1 } }

unfoldable pub count_bytes : ℕ × ℕ → Server → Server
count_bytes n s =
    let st = s.stats in
    record s {
      stats = record st {
        bytes_in = add_int64 st.bytes_in n.0;
        bytes_out = add_int64 st.bytes_out n.1;
      };
    }

abbrev pub refusal : ℕ → Bytes
refusal code = 5 ∷ code ∷ 0 ∷ 1 ∷ 0 ∷ 0 ∷ 0 ∷ 0 ∷ 0 ∷ 0 ∷ []

abbrev pub buf_size : ℕ
buf_size = 257

-- `io.ReadFull(conn, buf[:n])`; a slice past the buffer panics.
unfoldable pub read_buf : ℕ → M Server (Option Bytes)
read_buf n = if leb n buf_size then read_full n else panic

abbrev fail : M Server (Unit {0})
fail = on_server count_failed

abbrev nothing : M Server (Unit {0})
nothing = pure tt

-- The `switch` on the address type.
unfoldable pub read_host : ℕ → M Server Bytes
read_host atyp =
    if atyp == 1
    then (do b ← try (read_buf 4) nothing; pure (ip_string b))
    else if atyp == 3
    then (do n ← try (read_buf 1) nothing; b ← try (read_buf (get_or n 0 0)) nothing; pure b)
    else if atyp == 4
    then (do b ← try (read_buf 16) nothing; pure (ip_string b))
    else return

-- `binary.BigEndian.Uint16`
abbrev pub uint16_of : Bytes → ℕ
uint16_of b = get_or b 0 0 * 256 + get_or b 1 0

-- `fmt.Sprintf("%s:%d", host, port)`
unfoldable pub target_addr : Bytes → ℕ → Bytes
target_addr host port = host ++ (b':' ∷ show_nat port)

-- The first 4 bytes are `copy(resp[4:8], localAddr.IP.To4())` over zeros.
unfoldable pub success : Target → Bytes
success t =
    let ip : Bytes = elim (to4 t.local_ip) [ some v4 ↦ v4 | none ↦ 0 ∷ 0 ∷ 0 ∷ 0 ∷ [] ] in
    (5 ∷ 0 ∷ 0 ∷ 1 ∷ []) ++ (ip ++ ((t.local_port / 256 % 256) ∷ (t.local_port % 256) ∷ []))

abbrev pub log_entry : World → Bytes → Bytes → ℕ → ConnLog
log_entry w target status bytes = record {
  timestamp = w.now;
  addr = w.remote_addr;
  target = target;
  status = status;
  bytes = bytes;
}

-- `if nMethods > 0`: the methods are read and not looked at.
unfoldable pub skip_methods : ℕ → M Server (Unit {0})
skip_methods n = if ltb 0 n then (do try (read_buf n) fail; pure tt) else pure tt

-- The handshake and the request: the address to dial.
unfoldable pub request : World → M Server Bytes
request w = do
  set_deadline (some 60)
  hdr ← try (read_buf 2) fail
  let n_methods = get_or hdr 1 0
  skip_methods n_methods
  ok ← write w (5 ∷ 0 ∷ [])
  check ok nothing
  req ← try (read_buf 4) fail
  check (get_or req 1 0 == 1) (do write_ignore w (refusal 7); fail)
  host ← read_host (get_or req 3 0)
  port ← try (read_buf 2) nothing
  pure (target_addr host (uint16_of port))

-- What is done with a target that was reached; `target.Close()` is deferred round it.
unfoldable pub serve : World → Bytes → Target → M Server (Unit {0})
serve w addr t = do
  ok ← write w (success t)
  check ok nothing
  set_deadline none
  n ← relay t
  on_server (count_bytes n)
  on_server (add_conn_log (log_entry w addr (codes "connected") (n.0 + n.1)))

-- The branch of a failed dial.
unfoldable pub unreachable : World → Bytes → M Server (Unit {0})
unreachable w addr = do
  write_ignore w (refusal 4)
  fail
  on_server (add_conn_log (log_entry w addr (codes "failed") 0))

-- From the dial on.
unfoldable pub reach : World → Bytes → M Server (Unit {0})
reach w addr = do t ← try (dial w addr) (unreachable w addr); defer close_target (serve w addr t)

unfoldable pub body : World → M Server (Unit {0})
body w = request w >>= reach w

-- The deferred `<-s.connSem`, `conn.Close()` and `AddInt32(&s.stats.ConnsActive, -1)`.
unfoldable pub return_token : Server → Server
return_token s = record s { sem = s.sem - 1 }

unfoldable pub uncount : Server → Server
uncount s =
    let st = s.stats in record s { stats = record st { conns_active = dec_int32 st.conns_active } }

-- Both, with the close of the connection between them.
unfoldable pub release : Server → Server
unfolding return_token uncount
release s = uncount (return_token s)

unfoldable pub finish : Session Server → Session Server
finish s = record s { server = release s.server; connected = false }

-- The deferred `recover`, which runs last.
unfoldable pub recover : Exit (Unit {0}) × Session Server → Session Server
recover (value _, s) = s
recover (returned, s) = s
recover (panicked, s) = record s { server = count_failed s.server }

unfoldable pub handle : World → Session Server → Session Server
handle w s = recover (defer finish (body w) s)

-- The `select` of `Start` for an accepted connection: a token, or the connection is rejected.
unfoldable pub take_token : Server → Server × Bool
take_token s =
    let st = s.stats in
    if ltb s.sem s.max_conns
    then (record s { sem = s.sem + 1 }, true)
    else (record s { stats = record st { conns_rejected = add_int64 st.conns_rejected 1 } }, false)

unfoldable pub count_active : Server → Server
count_active s =
    let st = s.stats in record s { stats = record st { conns_active = inc_int32 st.conns_active } }

unfoldable pub count_total : Server → Server
count_total s =
    let st = s.stats in record s { stats = record st { conns_total = add_int64 st.conns_total 1 } }

-- A whole round of the loop for an accepted connection: whether `handle` is started for it.
unfoldable pub accept : Server → Server × Bool
unfolding take_token count_active count_total
accept s =
    let (t, granted) = take_token s in
    if granted then (count_total (count_active t), true) else (t, false)

-- What a run of `handle` computes with.
unfoldable pub code : Unit {0}
unfolding Session.code handle body reach unreachable request serve skip_methods read_host read_buf
    recover finish release success count_failed count_bytes add_conn_log target_addr to4 ip_string
code = tt
