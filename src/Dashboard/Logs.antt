-- ===== src/Dashboard/Logs.antt =====
-- The connection log that the dashboard answers with.
use zetproxy_turbo.Hosts
use zetproxy_turbo.Tunnel
use zetproxy_turbo.Proxy
use zetproxy_turbo.Base.{ℕ, ◌≡◌, refl, ap, List, keep_last}
use zetproxy_turbo.Text.{codes, equal}
use zetproxy_turbo.Speed.{Floats}
use zetproxy_turbo.Dashboard.{
  Dashboard, Host, StatsReply, stats, logs, beside, get_conn_logs, handle_stats, serve,
}
use zetproxy_turbo.Hosts.{all_ips}
use zetproxy_turbo.Daemon.{local_ip}
use zetproxy_turbo.Dashboard.Advertised.{advertised_same}
use zetproxy_turbo.Proxy.Log.{add_all, add_all-new}

-- After any entries in the SOCKS5 server's log `/api/connections` answers with the last 1000 of them, in
-- order; and `/api/stats` shows the address that the daemon advertises and the addresses that the
-- daemon lists.
pub connections_lem :
    (fl : Floats) (host : Host) (now : ℕ) (tun : Tunnel.Server) (es : List Proxy.ConnLog)
    (d : Dashboard (fl.F))
    → let e = beside tun (add_all es Proxy.new) d in
      ((serve fl host now (codes "/api/connections") e).0 ≡ logs (keep_last 1000 es))
      × ((r : StatsReply (fl.F)) × ((serve fl host now (codes "/api/stats") e).0 ≡ stats r)
          × (r.local_ip ≡ local_ip host.env (Hosts.all_ips host.interfaces) host.outgoing)
          × (r.all_ips ≡ Hosts.all_ips host.interfaces))
unfolding serve equal get_conn_logs handle_stats
connections_lem fl host now tun es d =
    let e = beside tun (add_all es Proxy.new) d in
    let (same_ips, same_ip) = advertised_same host.env host.interfaces host.outgoing in
    (ap logs (add_all-new es), ((handle_stats fl host now e).0, refl, same_ip, same_ips))
