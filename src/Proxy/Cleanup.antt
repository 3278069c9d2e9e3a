-- ===== src/Proxy/Cleanup.antt =====
-- What a handler leaves behind, on every way out of it.
use zetproxy_turbo.Base.{
  ℕ, suc, ◌-◌, ◌≡◌, inl, inr, false, [], ◌∷◌, ◌++◌, arith, leb, Option-cases, dec_int32,
}
use zetproxy_turbo.Text.{Bytes}
use zetproxy_turbo.Session.{
  Target, World, Session, or_return, try, defer, on_server, dial, close_target,
}
use zetproxy_turbo.Session.Rules.{
  IsFrame, Keeps, bind, pure-Keeps, return-Keeps, panic-Keeps, check-Keeps, try-Keeps,
  set_deadline-Keeps, read_full-Keeps, write-Keeps, write_ignore-Keeps, relay-Keeps,
  on_server-Keeps, if-Keeps,
}
use zetproxy_turbo.Proxy.{
  ConnLog, Server, add_conn_log, count_failed, count_bytes, buf_size, read_buf, read_host,
  skip_methods, request, serve, unreachable, reach, body, release, finish, recover, handle,
}

-- The parts of the server that only `accept` and the deferred release change.
pub record Frame (s t : Session Server) : Type 0 where
  pub same_targets : t.targets ≡ s.targets
  pub same_sem : t.server.sem ≡ s.server.sem
  pub same_max : t.server.max_conns ≡ s.server.max_conns
  pub same_active : t.server.stats.conns_active ≡ s.server.stats.conns_active
  pub same_total : t.server.stats.conns_total ≡ s.server.stats.conns_total
  pub same_rejected : t.server.stats.conns_rejected ≡ s.server.stats.conns_rejected

Frame-IsFrame : IsFrame Frame
Frame-IsFrame = record { client = λ s t e f. ground arith; trans = λ s t u h k. ground arith }

ruleset statements = (
  bind, pure-Keeps, return-Keeps, panic-Keeps, check-Keeps, try-Keeps, set_deadline-Keeps,
  read_full-Keeps, write-Keeps, write_ignore-Keeps, relay-Keeps, if-Keeps,
)

fail-Keeps : Keeps Frame Frame-IsFrame (on_server count_failed)
unfolding count_failed
fail-Keeps = on_server-Keeps Frame Frame-IsFrame count_failed (λ s. ground arith)

read_buf-Keeps : (n : ℕ) → Keeps Frame Frame-IsFrame (read_buf n)
unfolding read_buf
read_buf-Keeps n =
    if-Keeps Frame Frame-IsFrame (leb n buf_size) (read_full-Keeps Frame Frame-IsFrame n)
      (panic-Keeps Frame Frame-IsFrame)

read_host-Keeps : (n : ℕ) → Keeps Frame Frame-IsFrame (read_host n)
unfolding read_host
read_host-Keeps n = search (statements, read_buf-Keeps) depth 30

skip_methods-Keeps : (n : ℕ) → Keeps Frame Frame-IsFrame (skip_methods n)
unfolding skip_methods
skip_methods-Keeps n = search (statements, read_buf-Keeps, fail-Keeps) depth 60

request-Keeps : (w : World) → Keeps Frame Frame-IsFrame (request w)
unfolding request
request-Keeps w =
    search (statements, read_buf-Keeps, skip_methods-Keeps, read_host-Keeps, fail-Keeps) depth 60

log-Keeps : (e : ConnLog) → Keeps Frame Frame-IsFrame (on_server (add_conn_log e))
unfolding add_conn_log
log-Keeps e = on_server-Keeps Frame Frame-IsFrame (add_conn_log e) (λ s. ground arith)

bytes-Keeps : (n : ℕ × ℕ) → Keeps Frame Frame-IsFrame (on_server (count_bytes n))
unfolding count_bytes
bytes-Keeps n = on_server-Keeps Frame Frame-IsFrame (count_bytes n) (λ s. ground arith)

serve-Keeps : (w : World) (addr : Bytes) (t : Target) → Keeps Frame Frame-IsFrame (serve w addr t)
unfolding serve
serve-Keeps w addr t = search (statements, log-Keeps, bytes-Keeps) depth 40

unreachable-Keeps : (w : World) (addr : Bytes) → Keeps Frame Frame-IsFrame (unreachable w addr)
unfolding unreachable
unreachable-Keeps w addr = search (statements, log-Keeps, fail-Keeps) depth 40

-- A target that was reached is closed again.
reach-Frame : (w : World) (addr : Bytes) (s : Session Server) → Frame s (reach w addr s).1
unfolding reach try or_return dial defer close_target
reach-Frame w addr s = elim (Option-cases (w.dial addr)) [
  | inl e ↦
      ground
        (arith, (unreachable-Keeps w addr).apply (record s { dialed = s.dialed ++ (addr ∷ []) }))
  | inr (t, e) ↦ ground (
    arith,
    (serve-Keeps w addr t).apply
        (record s { dialed = s.dialed ++ (addr ∷ []); targets = suc s.targets }),
  )
]

pub body-Frame : (w : World) (s : Session Server) → Frame s (body w s).1
unfolding body
body-Frame w s =
    (bind Frame Frame-IsFrame (request-Keeps w) (λ a. record { apply = reach-Frame w a })).apply s

-- Whatever the client sends and the network does, when the handler of a connection is over its
-- token is back in the semaphore, its client is disconnected, the active count is one lower, every
-- target that it opened is closed, and the totals of accepted and rejected connections are as they were.
pub handle_cleanup :
    (w : World) (s : Session Server)
    → let t = handle w s in
      (t.connected ≡ false)
      × (t.targets ≡ s.targets)
      × (t.server.sem ≡ s.server.sem - 1)
      × (t.server.stats.conns_active ≡ dec_int32 s.server.stats.conns_active)
      × (t.server.stats.conns_total ≡ s.server.stats.conns_total)
      × (t.server.stats.conns_rejected ≡ s.server.stats.conns_rejected)
unfolding handle recover defer finish release count_failed
handle_cleanup w s = ground (arith, body-Frame w s)
