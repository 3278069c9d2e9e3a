-- ===== src/Examples/Daemons.antt =====
-- Starts of cmd/zetproxyd/main.go with a limit of connections in the environment.
use zetproxy_turbo.Tunnel
use zetproxy_turbo.Proxy
use zetproxy_turbo.Base.{◌^◌, ◌≤◌, ◌<◌, ◌≡◌, refl, ◌⊎◌, none, some, [], arith, if◌then◌else◌}
use zetproxy_turbo.Text.{Bytes, codes, equal, show_nat}
use zetproxy_turbo.Daemon.{Servers, start_servers}
use zetproxy_turbo.Daemon.Limits.{arrivals, limits}

-- One connection in all.
abbrev env : Bytes → Bytes
env key = if equal key (codes "ZETPROXY_MAX_CONNS") then codes "1" else []

limits_example :
    ((1 < 2 ^ 31)
      × ((s : Servers) × (start_servers env ≡ some s)
          × ((arrivals Tunnel.accept 3 s.tun).1 ≡ 1)
          × ((arrivals Proxy.accept 3 s.socks).1 ≡ 0)))
    ⊎ ((2 ^ 31 ≤ 1) × (start_servers env ≡ none))
unfolding show_nat equal
limits_example = limits env 1 3 refl (omega arith) (omega arith)
