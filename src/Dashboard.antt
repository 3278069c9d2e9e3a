-- ===== src/Dashboard.antt =====
-- The dashboard of internal/dashboard/dashboard.go: the points that it collects once a second, and the
-- answers of its handlers. The page and the encoding as JSON are left out: an answer is its data.
use zetproxy_turbo.Tunnel
use zetproxy_turbo.Proxy
use zetproxy_turbo.Dashboard.Addresses
pub mod Addresses
pub mod Advertised
pub mod Points
pub mod Active
pub mod Logs
use zetproxy_turbo.Base.{
  ℕ, ◌+◌, ◌-◌, ◌/◌, ◌%◌, ◌^◌, Option, List, [], ◌∷◌, ◌++◌, ltb, if◌then◌else◌, length, drop,
  add_int64,
}
use zetproxy_turbo.Text.{Bytes, codes, equal}
use zetproxy_turbo.Speed.{Floats, Meter, tunnel_get_stats, socks_get_stats}
use zetproxy_turbo.Dashboard.Addresses.{get_env, preferred_ip}
use zetproxy_turbo.Hosts.{Interface, Outgoing}

pub record MetricPoint (F : Type 0) : Type 0 where
  pub timestamp : ℕ  -- seconds
  pub bytes_in : ℕ
  pub bytes_out : ℕ
  pub throughput : F
  pub conns : ℕ  -- int32

-- `tun` and `socks` point at the servers, which change beside the dashboard.
pub record Dashboard (F : Type 0) : Type 0 where
  pub tun : Tunnel.Server
  pub tun_meter : Meter F
  pub socks : Proxy.Server
  pub socks_meter : Meter F
  pub metrics : List (MetricPoint F)
  pub max_metrics : ℕ
  pub start : ℕ  -- nanoseconds

-- `a + b` on two int32
abbrev pub add_int32 : ℕ → ℕ → ℕ
add_int32 a b = (a + b) % 2 ^ 32

abbrev pub second : ℕ
second = 1000000000

-- What the operating system says, and the URL of the tunnel.
pub record Host : Type 0 where
  pub env : Bytes → Bytes
  pub interfaces : Option (List Interface)  -- `none` is an error of `net.Interfaces()`
  pub outgoing : Outgoing
  pub tunnel_url : Bytes

-- `/api/stats` without the figures of the Go runtime.
pub record StatsReply (F : Type 0) : Type 0 where
  pub bytes_in : ℕ
  pub bytes_out : ℕ
  pub conns_active : ℕ  -- int32
  pub conns_total : ℕ
  pub conns_rejected : ℕ
  pub conns_failed : ℕ
  pub throughput_in : F
  pub throughput_out : F
  pub socks_bytes_in : ℕ
  pub socks_bytes_out : ℕ
  pub socks_conns : ℕ
  pub socks_total : ℕ
  pub socks_failed : ℕ
  pub socks_rejected : ℕ
  pub tcp_accepts : ℕ
  pub udp_packets : ℕ
  pub uptime : ℕ  -- nanoseconds
  pub local_ip : Bytes
  pub all_ips : List Bytes
  pub tunnel_url : Bytes
  pub start_time : ℕ  -- seconds

pub record ConfigReply : Type 0 where
  pub socks5_port : Bytes
  pub tcp_port : Bytes
  pub udp_port : Bytes
  pub dashboard_port : Bytes
  pub override_ip : Bytes
  pub max_conns : ℕ
  pub version : Bytes

pub data Reply (F : Type 0) : Type 0 where
  page : Reply F
  stats : StatsReply F → Reply F
  points : List (MetricPoint F) → Reply F
  logs : List Proxy.ConnLog → Reply F
  health : ℕ → ℕ → Reply F  -- uptime in nanoseconds and time in seconds
  config : ConfigReply → Reply F

module _ {F : Type 0} where
  -- `NewServer`: the meters are the servers'.
  unfoldable pub new : Tunnel.Server → Meter F → Proxy.Server → Meter F → ℕ → Dashboard F
  new tun tun_meter socks socks_meter now = record {
    tun = tun;
    tun_meter = tun_meter;
    socks = socks;
    socks_meter = socks_meter;
    metrics = [];
    max_metrics = 360;
    start = now;
  }

  -- The servers as they are by now.
  abbrev pub beside : Tunnel.Server → Proxy.Server → Dashboard F → Dashboard F
  beside tun socks d = record d { tun = tun; socks = socks }

-- `GetConnLogs`
unfoldable pub get_conn_logs : Proxy.Server → List Proxy.ConnLog
get_conn_logs s = s.conn_log

module _ {F : Type 0} where
  abbrev pub handle_metrics : Dashboard F → Reply F
  handle_metrics d = points d.metrics

  abbrev pub handle_connections : Dashboard F → Reply F
  handle_connections d = logs (get_conn_logs d.socks)

  abbrev pub handle_health : ℕ → Dashboard F → Reply F
  handle_health now d = health (now - d.start) (now / second)

unfoldable pub handle_config : (Bytes → Bytes) → ConfigReply
handle_config env = record {
  socks5_port = get_env env (codes "ZETPROXY_SOCKS5") (codes ":1088");
  tcp_port = get_env env (codes "ZETPROXY_TCP") (codes ":8888");
  udp_port = get_env env (codes "ZETPROXY_UDP") (codes ":8889");
  dashboard_port = get_env env (codes "ZETPROXY_DASHBOARD") (codes ":9092");
  override_ip = env (codes "ZETPROXY_IP");
  max_conns = 4096;
  version = codes "2.0.0-turbo";
}

module _ (fl : Floats) where
  open fl use {F, plus}

  -- One tick of `collectMetrics`.
  unfoldable pub collect : ℕ → Dashboard F → Dashboard F
  unfolding tunnel_get_stats socks_get_stats
  collect now d =
      let ((t, tin, tout), tm) = tunnel_get_stats fl now d.tun d.tun_meter in
      let ((s, sin, sout), sm) = socks_get_stats fl now d.socks d.socks_meter in
      let all : List (MetricPoint F) =
        d.metrics
        ++ (record {
          timestamp = now / second;
          bytes_in = add_int64 t.bytes_in s.bytes_in;
          bytes_out = add_int64 t.bytes_out s.bytes_out;
          throughput = plus tin sin;
          conns = add_int32 t.conns_active s.conns_active;
        })
          ∷ [] in
      record d {
        tun_meter = tm;
        socks_meter = sm;
        metrics =
            if ltb d.max_metrics (length all) then drop (length all - d.max_metrics) all else all;
      }

  -- `handleStats` measures too.
  unfoldable pub handle_stats : Host → ℕ → Dashboard F → StatsReply F × Dashboard F
  unfolding tunnel_get_stats socks_get_stats
  handle_stats host now d =
      let ((t, tin, tout), tm) = tunnel_get_stats fl now d.tun d.tun_meter in
      let ((s, sin, sout), sm) = socks_get_stats fl now d.socks d.socks_meter in
      (
        record {
          bytes_in = add_int64 t.bytes_in s.bytes_in;
          bytes_out = add_int64 t.bytes_out s.bytes_out;
          conns_active = add_int32 t.conns_active s.conns_active;
          conns_total = add_int64 t.conns_total s.conns_total;
          conns_rejected = add_int64 t.conns_rejected s.conns_rejected;
          conns_failed = add_int64 t.conns_failed s.conns_failed;
          throughput_in = plus tin sin;
          throughput_out = plus tout sout;
          socks_bytes_in = s.bytes_in;
          socks_bytes_out = s.bytes_out;
          socks_conns = s.conns_active;
          socks_total = s.conns_total;
          socks_failed = s.conns_failed;
          socks_rejected = s.conns_rejected;
          tcp_accepts = t.tcp_accepts;
          udp_packets = t.udp_packets;
          uptime = now - d.start;
          local_ip = preferred_ip host.env (Addresses.all_ips host.interfaces) host.outgoing;
          all_ips = Addresses.all_ips host.interfaces;
          tunnel_url = host.tunnel_url;
          start_time = d.start / second;
        },
        record d { tun_meter = tm; socks_meter = sm },
      )

  -- The handler that the mux of `Start` picks for a path; "/" is for every path that is not named.
  unfoldable pub serve : Host → ℕ → Bytes → Dashboard F → Reply F × Dashboard F
  serve host now path d =
      if equal path (codes "/api/stats")
      then (let (r, e) = handle_stats host now d in (stats r, e))
      else if equal path (codes "/api/metrics")
      then (handle_metrics d, d)
      else if equal path (codes "/api/connections")
      then (handle_connections d, d)
      else if equal path (codes "/api/health")
      then (handle_health now d, d)
      else if equal path (codes "/api/config")
      then (config (handle_config host.env), d)
      else (page, d)
