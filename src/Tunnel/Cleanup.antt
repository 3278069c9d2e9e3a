-- ===== src/Tunnel/Cleanup.antt =====
-- What the handler of a tunnel connection leaves behind, on every way out of it.
use zetproxy_turbo.Base.{
  ℕ, suc, ◌-◌, ◌≡◌, inl, inr, false, [], ◌∷◌, ◌++◌, arith, Option-cases, dec_int32,
}
use zetproxy_turbo.Text.{Bytes}
use zetproxy_turbo.Session.{
  Target, World, Session, M, ◌>>=◌, or_return, try, defer, on_server, dial, close_target,
}
use zetproxy_turbo.Session.Rules.{
  IsFrame, Keeps, bind, pure-Keeps, return-Keeps, panic-Keeps, check-Keeps, try-Keeps,
  set_deadline-Keeps, read_full-Keeps, read-Keeps, write-Keeps, write_ignore-Keeps,
  write_target-Keeps, relay-Keeps, on_server-Keeps, if-Keeps,
}
use zetproxy_turbo.Tunnel.{
  Server, count_failed, count_bytes, Protocol, socks5, http_connect, http_proxy, raw, unknown,
  relay_with_stats, read_host, target_addr, socks5_request, socks5_serve, socks5_unreachable,
  socks5_reach, handle_socks5, reach_quietly, connect_serve, http_serve, raw_serve,
}
use zetproxy_turbo.Tunnel.Handle.{
  handle_http_connect, handle_http_proxy, handle_raw, dispatch, first_bytes, body, release, finish,
  recover, handle_tcp,
}

-- The parts that only `accept` and the deferred release change.
pub record Frame (s t : Session Server) : Type 0 where
  pub same_targets : t.targets ≡ s.targets
  pub same_sem : t.server.sem ≡ s.server.sem
  pub same_max : t.server.max_conns ≡ s.server.max_conns
  pub same_active : t.server.stats.conns_active ≡ s.server.stats.conns_active
  pub same_total : t.server.stats.conns_total ≡ s.server.stats.conns_total
  pub same_rejected : t.server.stats.conns_rejected ≡ s.server.stats.conns_rejected
  pub same_accepts : t.server.stats.tcp_accepts ≡ s.server.stats.tcp_accepts
  pub same_packets : t.server.stats.udp_packets ≡ s.server.stats.udp_packets

Frame-IsFrame : IsFrame Frame
Frame-IsFrame = record { client = λ s t e f. ground arith; trans = λ s t u h k. ground arith }

abbrev Kept : {A : Type 0} → M Server A → Type 0
Kept m = Keeps Frame Frame-IsFrame m

ruleset statements = (
  bind, pure-Keeps, return-Keeps, panic-Keeps, check-Keeps, try-Keeps, set_deadline-Keeps,
  read_full-Keeps, read-Keeps, write-Keeps, write_ignore-Keeps, write_target-Keeps, relay-Keeps,
  if-Keeps,
)

fail-Keeps : Kept (on_server count_failed)
unfolding count_failed
fail-Keeps = on_server-Keeps Frame Frame-IsFrame count_failed (λ s. ground arith)

bytes-Keeps : (n : ℕ × ℕ) → Kept (on_server (count_bytes n))
unfolding count_bytes
bytes-Keeps n = on_server-Keeps Frame Frame-IsFrame (count_bytes n) (λ s. ground arith)

relay_with_stats-Keeps : (t : Target) → Kept (relay_with_stats t)
unfolding relay_with_stats
relay_with_stats-Keeps t = search (statements, bytes-Keeps) depth 20

read_host-Keeps : (n : ℕ) → Kept (read_host n)
unfolding read_host
read_host-Keeps n = search statements depth 40

socks5_request-Keeps : (w : World) (b : Bytes) → Kept (socks5_request w b)
unfolding socks5_request
socks5_request-Keeps w b = search (statements, read_host-Keeps) depth 60

socks5_serve-Keeps : (w : World) (port : ℕ) (t : Target) → Kept (socks5_serve w port t)
unfolding socks5_serve
socks5_serve-Keeps w port t = search (statements, relay_with_stats-Keeps) depth 40

socks5_unreachable-Keeps : (w : World) → Kept (socks5_unreachable w)
unfolding socks5_unreachable
socks5_unreachable-Keeps w = search (statements, fail-Keeps) depth 20

connect_serve-Keeps : (w : World) (t : Target) → Kept (connect_serve w t)
unfolding connect_serve
connect_serve-Keeps w t = search (statements, relay_with_stats-Keeps) depth 40

http_serve-Keeps : (b : Bytes) (t : Target) → Kept (http_serve b t)
unfolding http_serve
http_serve-Keeps b t = search (statements, relay_with_stats-Keeps) depth 40

raw_serve-Keeps : (t : Target) → Kept (raw_serve t)
unfolding raw_serve
raw_serve-Keeps t = search (statements, relay_with_stats-Keeps) depth 40

-- A dial, with a handler for its failure and the target closed behind its use, keeps what both keep.
dialled-Keeps :
    (w : World) (addr : Bytes) {failed : M Server (Unit {0})} {serve : Target → M Server (Unit {0})}
    → Kept failed
    → ((t : Target) → Kept (serve t))
    → Kept (try (dial w addr) failed >>= λ t. defer close_target (serve t))
unfolding try or_return dial defer close_target
dialled-Keeps w addr {failed} {serve} h k = record {
  apply = λ s. elim (Option-cases (w.dial addr)) [
    | inl e ↦ ground (arith, h.apply (record s { dialed = s.dialed ++ (addr ∷ []) }))
    | inr (t, e) ↦ ground (
      arith,
      (k t).apply (record s { dialed = s.dialed ++ (addr ∷ []); targets = suc s.targets }),
    )
  ];
}

reach_quietly-Keeps :
    (w : World) (addr : Bytes) {serve : Target → M Server (Unit {0})}
    → ((t : Target) → Kept (serve t))
    → Kept (reach_quietly w addr serve)
unfolding reach_quietly
reach_quietly-Keeps w addr k = dialled-Keeps w addr (pure-Keeps Frame Frame-IsFrame) k

socks5_reach-Keeps : (w : World) (hp : Bytes × ℕ) → Kept (socks5_reach w hp)
unfolding socks5_reach
socks5_reach-Keeps w hp =
    dialled-Keeps w (target_addr hp.0 hp.1) (socks5_unreachable-Keeps w)
      (λ t. socks5_serve-Keeps w hp.1 t)

dispatch-Keeps : (w : World) (b : Bytes) (p : Protocol) → Kept (dispatch w b p)
unfolding dispatch handle_socks5 handle_http_connect handle_http_proxy handle_raw
dispatch-Keeps w b socks5 =
    bind Frame Frame-IsFrame (socks5_request-Keeps w b) (λ hp. socks5_reach-Keeps w hp)
dispatch-Keeps w b http_connect =
    search (statements, reach_quietly-Keeps, connect_serve-Keeps) depth 20
dispatch-Keeps w b http_proxy = search (statements, reach_quietly-Keeps, http_serve-Keeps) depth 20
dispatch-Keeps w b raw = search (reach_quietly-Keeps, raw_serve-Keeps)
dispatch-Keeps w b unknown = fail-Keeps

first_bytes-Keeps : (w : World) → Kept (first_bytes w)
unfolding first_bytes
first_bytes-Keeps w = search statements depth 30

body-Keeps : (w : World) (stale : Bytes) → Kept (body w stale)
unfolding body
body-Keeps w stale = search (statements, first_bytes-Keeps, dispatch-Keeps) depth 20

pub body-Frame : (w : World) (stale : Bytes) (s : Session Server) → Frame s (body w stale s).1
body-Frame w stale = (body-Keeps w stale).apply

-- Whatever protocol the client speaks, whatever it sends and whatever the network does, when the
-- handler of a connection is over its token is back in the semaphore, its client is disconnected, the
-- active count is one lower, every target that it opened is closed, and the counts of accepted and
-- rejected connections are as they were.
pub handle_tcp_cleanup :
    (w : World) (stale : Bytes) (s : Session Server)
    → let t = handle_tcp w stale s in
      (t.connected ≡ false)
      × (t.targets ≡ s.targets)
      × (t.server.sem ≡ s.server.sem - 1)
      × (t.server.stats.conns_active ≡ dec_int32 s.server.stats.conns_active)
      × (t.server.stats.conns_total ≡ s.server.stats.conns_total)
      × (t.server.stats.conns_rejected ≡ s.server.stats.conns_rejected)
      × (t.server.stats.tcp_accepts ≡ s.server.stats.tcp_accepts)
unfolding handle_tcp recover defer finish release count_failed
handle_tcp_cleanup w stale s = ground (arith, body-Frame w stale s)
