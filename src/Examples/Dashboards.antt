-- ===== src/Examples/Dashboards.antt =====
-- The dashboard of internal/dashboard/dashboard.go beside two servers.
use zetproxy_turbo.Hosts
use zetproxy_turbo.Tunnel
use zetproxy_turbo.Proxy
use zetproxy_turbo.Proxy.Accept
use zetproxy_turbo.Udp.Accounts
use zetproxy_turbo.Base.{ℕ, ◌+◌, ◌%◌, ◌^◌, ◌<◌, ◌≡◌, refl, none, List, [], ◌∷◌, map, arith}
use zetproxy_turbo.Text.{codes}
use zetproxy_turbo.Speed.{Floats, Meter}
use zetproxy_turbo.Dashboard.{
  MetricPoint, Host, StatsReply, stats, points, logs, new, beside, serve,
}
use zetproxy_turbo.Udp.{Udp, at_start}
use zetproxy_turbo.Udp.Accounts.{here, accepts, Accounts}
use zetproxy_turbo.Dashboard.Points.{Event, tick, asked, counters, run, metrics_lem}
use zetproxy_turbo.Dashboard.Active.{active_lem}
use zetproxy_turbo.Dashboard.Logs.{connections_lem}
use zetproxy_turbo.Proxy.Log.{add_all}
use zetproxy_turbo.Daemon.{local_ip}
use zetproxy_turbo.Proxy.Accept.{grants, counts, starts}

-- Whole numbers for float64.
abbrev numbers : Floats
numbers = record { F = ℕ; plus = λ a b. a + b; speed = λ d t. d }

abbrev meter : Meter ℕ
meter = record { last_in = 0; last_out = 0; last_time = 0; throughput_in = 0; throughput_out = 0 }

abbrev host : Host
host = record { env = λ key. []; interfaces = none; outgoing = none; tunnel_url = [] }

abbrev tunnel : Tunnel.Server
tunnel = (Tunnel.accept (Tunnel.set_max_conns Tunnel.new 2)).0

abbrev socks : Proxy.Server
socks = (Proxy.accept (Proxy.set_max_conns Proxy.new 1)).0

-- Two ticks and a request between them.
abbrev events : List Event
events =
    tick 1000000000 tunnel socks
    ∷ asked 1500000000 (codes "/api/stats") tunnel socks
    ∷ tick 2000000000 tunnel (Proxy.release socks)
    ∷ []

metrics_lem_example :
    let d = run numbers host (new tunnel meter socks meter 0) events in
    (l : List (MetricPoint ℕ)) × ((serve numbers host 2100000000 (codes "/api/metrics") d).0
      ≡ points l)
    × (map (counters numbers host) l ≡ (1, 0, 0, 2) ∷ (2, 0, 0, 1) ∷ [])
unfolding Tunnel.accept Tunnel.set_max_conns Tunnel.new Proxy.accept Proxy.set_max_conns Proxy.new
    Proxy.release
metrics_lem_example = metrics_lem numbers host tunnel socks meter meter 0 2100000000 events

active_lem_example :
    let u : Udp = at_start tunnel in
    let d = new tunnel meter socks meter 0 in
    (r : StatsReply ℕ) × ((serve numbers host 5 (codes "/api/stats") (beside tunnel socks d)).0
      ≡ stats r)
    × ((r.conns_active + 0) % 2 ^ 32 ≡ 2)
    × (r.socks_conns ≡ 1)
    × (1 ≡ socks.sem)
    × (socks.sem < 2 ^ 31)
unfolding Tunnel.accept Tunnel.set_max_conns Tunnel.new Proxy.accept Proxy.set_max_conns Proxy.new
active_lem_example =
    active_lem numbers host 5 2 1 (new tunnel meter socks meter 0) (Accounts.accepts Accounts.here)
      (omega arith) (Accept.starts (Accept.counts (Accept.grants Accept.here refl) refl) refl)

abbrev entry : Proxy.ConnLog
entry = record {
  timestamp = 3;
  addr = codes "10.0.0.2:5000";
  target = codes "a.b:80";
  bytes = 16;
  status = codes "connected";
}

connections_lem_example :
    let e =
      beside tunnel (add_all (entry ∷ entry ∷ []) Proxy.new) (new tunnel meter socks meter 0) in
    ((serve numbers host 5 (codes "/api/connections") e).0 ≡ logs (entry ∷ entry ∷ []))
    × ((r : StatsReply ℕ) × ((serve numbers host 5 (codes "/api/stats") e).0 ≡ stats r)
        × (r.local_ip ≡ local_ip host.env (Hosts.all_ips none) none)
        × (r.all_ips ≡ Hosts.all_ips none))
unfolding Proxy.add_conn_log
connections_lem_example =
    connections_lem numbers host 5 tunnel (entry ∷ entry ∷ []) (new tunnel meter socks meter 0)
