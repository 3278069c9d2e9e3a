-- ===== src/Daemon/Limits.antt =====
-- The limit of connections, from the environment to the servers.
use zetproxy_turbo.Tunnel
use zetproxy_turbo.Proxy
use Prim.Native.Nat.{min}
use zetproxy_turbo.Base.{
  ℕ, zero, suc, ◌+◌, ◌/◌, ◌%◌, ◌^◌, ◌≤◌, ◌<◌, ◌≡◌, refl, ◌⊎◌, inl, inr, Bool, none, some, arith,
  ltb, if◌then◌else◌, Bool-cases,
}
use zetproxy_turbo.Text.{Bytes, codes, show_nat}
use zetproxy_turbo.Daemon.{Servers, make_servers, start_servers}
use zetproxy_turbo.Daemon.Setting.{get_env_int-show_nat}

-- Arrivals with no handler that ends: the server, and how many handlers were started.
abbrev pub arrivals : {S : Type 0} → (S → S × Bool) → ℕ → S → S × ℕ
arrivals accept zero s = (s, 0)
arrivals accept (suc k) s =
    let (t, n) = arrivals accept k s in
    let (u, started) = accept t in (u, n + (if started then 1 else 0))

proxy_arrivals :
    (k : ℕ) (s : Proxy.Server)
    → s.sem ≡ 0
    → let (t, n) = arrivals Proxy.accept k s in
      (n ≡ min k s.max_conns) × (t.sem ≡ n) × (t.max_conns ≡ s.max_conns)
unfolding Proxy.accept
proxy_arrivals zero s h = omega arith
proxy_arrivals (suc k) s h = ground (arith, proxy_arrivals k s h)

tunnel_arrivals :
    (k : ℕ) (s : Tunnel.Server)
    → s.sem ≡ 0
    → let (t, n) = arrivals Tunnel.accept k s in
      (n ≡ min k s.max_conns) × (t.sem ≡ n) × (t.max_conns ≡ s.max_conns)
unfolding Tunnel.accept
tunnel_arrivals zero s h = omega arith
tunnel_arrivals (suc k) s h = ground (arith, tunnel_arrivals k s h)

-- Let ZETPROXY_MAX_CONNS be a number `n` from 1 to 2 ^ 63 - 1, in decimal. If its last 32 bits are those
-- of a number `m` that is not negative as an int32, the program makes its servers, and of `k`
-- connections that come in while none ends the tunnel server starts handlers for the first `m` and
-- the SOCKS5 server, besides, for the first `m / 2`: together up to `m + m / 2`, more than `m` from `m` 2
-- on; and with `n` 1 the SOCKS5 server starts none. Else the program panics.
pub limits :
    (env : Bytes → Bytes) (n k : ℕ)
    → env (codes "ZETPROXY_MAX_CONNS") ≡ show_nat n
    → 0 < n
    → n < 2 ^ 63
    → let m = n % 2 ^ 32 in
      ((m < 2 ^ 31)
        × ((s : Servers) × (start_servers env ≡ some s)
            × ((arrivals Tunnel.accept k s.tun).1 ≡ min k m)
            × ((arrivals Proxy.accept k s.socks).1 ≡ min k (m / 2))))
      ⊎ ((2 ^ 31 ≤ m) × (start_servers env ≡ none))
unfolding start_servers make_servers Tunnel.set_max_conns Proxy.set_max_conns Tunnel.new Proxy.new
limits env n k e p h =
    let m = n % 2 ^ 32 in
    let tun = Tunnel.set_max_conns Tunnel.new m in
    let socks = Proxy.set_max_conns Proxy.new (m / 2) in
    rw (get_env_int-show_nat env (codes "ZETPROXY_MAX_CONNS") n 4096 e p h)
      (elim (Bool-cases (ltb m (2 ^ 31))) [
        | inl fits ↦ inl (
          ground arith,
          (
            record { tun = tun; socks = socks },
            rw fits refl,
            (tunnel_arrivals k tun refl).0,
            (proxy_arrivals k socks refl).0,
          ),
        )
        | inr negative ↦ inr (ground arith, rw negative refl)
      ])
