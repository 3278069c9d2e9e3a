-- ===== src/Daemon.antt =====
-- The start of cmd/zetproxyd/main.go: the settings in the environment, the limits of the two servers,
-- and what the ZETPROXY_TUNNEL setting starts.
pub mod Limits
use zetproxy_turbo.Tunnel
use zetproxy_turbo.Proxy
pub mod Setting
use zetproxy_turbo.Base.{
  ℕ, ◌/◌, ◌%◌, ◌^◌, ◌&&◌, ◌||◌, Option, none, some, List, [], ◌∷◌, ltb, leb, ◌==◌, if◌then◌else◌,
  length, drop,
}
use zetproxy_turbo.Text.{Bytes, codes, equal}
use zetproxy_turbo.Text.Decimal.{value_from}
use zetproxy_turbo.Hosts.{get_env, Outgoing, preferred_ip}
use zetproxy_turbo.Config.{parse_tunnel_config}

-- The white space that `Sscanf` skips in front of a number. A line end stops the scan with an error.
unfoldable pub skip_space : Bytes → Option Bytes
skip_space [] = some []
skip_space (c ∷ s) =
    let rest = skip_space s in
    if c == 10
    then none
    else if c == 32 || c == 9 || c == 11 || c == 12 || c == 13
    then rest
    else some (c ∷ s)

unfoldable pub leading_digits : Bytes → Bytes
leading_digits [] = []
leading_digits (c ∷ s) =
    let rest = leading_digits s in if leb 48 c && leb c 57 then c ∷ rest else []

-- A positive number as `ParseInt` reads it: at least one digit, and at most 2 ^ 63 - 1.
unfoldable pub positive : Bytes → Option ℕ
positive digits =
    if length digits == 0
    then none
    else if ltb (value_from 0 digits) (2 ^ 63)
    then some (value_from 0 digits)
    else none

-- The part of `fmt.Sscanf(v, "%d", &n)` that matters to its caller: the number, if there is no error
-- and it is not negative. What stands behind the digits is not looked at.
unfoldable pub scan_int : Bytes → Option ℕ
scan_int v = elim (skip_space v) [
  | none ↦ none
  | some [] ↦ none
  | some (c ∷ s) ↦
      if c == b'-' then none else positive (leading_digits (if c == b'+' then s else c ∷ s))
]

unfoldable pub get_env_int : (Bytes → Bytes) → Bytes → ℕ → ℕ
get_env_int env key fallback =
    let v = env key in
    if equal v []
    then fallback
    else elim (scan_int v) [ none ↦ fallback | some n ↦ if ltb 0 n then n else fallback ]

-- `int32(n)`, by its bit pattern
abbrev pub to_int32 : ℕ → ℕ
to_int32 n = n % 2 ^ 32

-- The two servers that `main` makes; `none` is the panic of `make` at a negative size.
pub record Servers : Type 0 where
  pub tun : Tunnel.Server
  pub socks : Proxy.Server

unfoldable pub make_servers : ℕ → Option Servers
make_servers max_conns =
    if ltb max_conns (2 ^ 31)
    then some (record {
      tun = Tunnel.set_max_conns Tunnel.new max_conns;
      socks = Proxy.set_max_conns Proxy.new (max_conns / 2);
    })
    else none

unfoldable pub start_servers : (Bytes → Bytes) → Option Servers
start_servers env = make_servers (to_int32 (get_env_int env (codes "ZETPROXY_MAX_CONNS") 4096))

-- `socksAddr[1:]`, or the default port.
unfoldable pub socks_port : Bytes → Bytes
socks_port socks_addr = let port = drop 1 socks_addr in if equal port [] then codes "1088" else port

-- What the goroutine of the `switch` on the mode calls.
pub data Start : Type 0 where
  no_tunnel : Start
  relay_tunnel : Bytes → Bytes → Start  -- `StartRelayTunnel` with the local port and the relay
  not_supported : Start
  ssh_tunnel : Bytes → Bytes → Start  -- `StartSSHTunnel` with the local port and the host

unfoldable pub start_tunnel : (Bytes → Bytes) → Start
start_tunnel env =
    let setting = env (codes "ZETPROXY_TUNNEL") in
    let port = socks_port (get_env env (codes "ZETPROXY_SOCKS5") (codes ":1088")) in
    if equal setting []
    then no_tunnel
    else (let (mode, remote) = parse_tunnel_config setting in
        if equal mode (codes "relay")
        then relay_tunnel port remote
        else if equal mode (codes "serveo")
        then not_supported
        else ssh_tunnel port remote)

-- The address that the program advertises.
unfoldable pub local_ip : (Bytes → Bytes) → List Bytes → Outgoing → Bytes
local_ip env ips out =
    let override_ip = env (codes "ZETPROXY_IP") in
    if equal override_ip [] then preferred_ip ips out else override_ip
