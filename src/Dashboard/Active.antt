-- ===== src/Dashboard/Active.antt =====
-- The active connections that the dashboard shows, against the handlers that run.
use zetproxy_turbo.Tunnel
use zetproxy_turbo.Proxy
use zetproxy_turbo.Proxy.Accept
use zetproxy_turbo.Udp.Accounts
use zetproxy_turbo.Base.{ℕ, ◌+◌, ◌%◌, ◌^◌, ◌<◌, ◌≡◌, refl, arith}
use zetproxy_turbo.Text.{codes, equal}
use zetproxy_turbo.Speed.{Floats}
use zetproxy_turbo.Dashboard.{Dashboard, Host, StatsReply, stats, beside, handle_stats, serve}
use zetproxy_turbo.Udp.{Udp, at_start}
use zetproxy_turbo.Udp.Accounts.{readers, Reach, Accounts, Reach-Accounts}
use zetproxy_turbo.Proxy.Accept.{Loop, holds, done, Reach-Inv}

-- In every interleaving of each server, where a round of the tunnel server's accept loop and the deferred
-- function of its handler are one step each: the active count that `/api/stats` answers with is, modulo
-- 2 ^ 32 and with `k` the UDP sessions that were swept so far, `k` less than the TCP handlers of the
-- tunnel server, its session readers and the connections of the SOCKS5 server; and the count of the
-- SOCKS5 server in the same answer is the number of its connections. These are its handlers that run,
-- those that have returned their token and not yet decremented the count, and the one that its loop has
-- counted and not yet given to a handler; when the loop waits for a connection and no handler is
-- between the two statements, they are the tokens in its semaphore.
pub active_lem :
    (fl : Floats) (host : Host) (now max max' : ℕ) {k n running ending : ℕ} {l : Accept.Loop}
    {u : Udp} {s : Proxy.Server} (d : Dashboard (fl.F))
    → Accounts.Reach (at_start (Tunnel.set_max_conns Tunnel.new max)) k u
    → max' < 2 ^ 31
    → Accept.Reach (Proxy.set_max_conns Proxy.new max') n l running ending s
    → (r : StatsReply (fl.F)) × ((serve fl host now (codes "/api/stats") (beside u.server s d)).0
        ≡ stats r)
      × ((r.conns_active + k) % 2 ^ 32
          ≡ (u.server.sem + readers u.objects + (running + ending + Accept.done l)) % 2 ^ 32)
      × (r.socks_conns ≡ (running + ending + Accept.done l) % 2 ^ 32)
      × (running + Accept.holds l ≡ s.sem)
      × (s.sem < 2 ^ 31)
unfolding serve equal handle_stats
active_lem fl host now max max' {k} {n} {running} {ending} {l} {u} {s} d r small q =
    let a = Reach-Accounts max r in
    let (tokens, within, active, counted) = Reach-Inv max' small q in
    let reply = handle_stats fl host now (beside u.server s d) in
    (reply.0, refl, omega arith, active, omega arith, omega arith)
