-- ===== src/Dashboard/Addresses.antt =====
-- The dashboard's own copies of the helpers on addresses, at the end of internal/dashboard/dashboard.go.
use zetproxy_turbo.Base.{
  Bool, true, false, not, ◌&&◌, ◌||◌, Option, none, some, List, [], ◌∷◌, ◌++◌, ltb, leb, ◌==◌,
  if◌then◌else◌, length, get_or,
}
use zetproxy_turbo.Text.{Bytes, codes, equal}
use zetproxy_turbo.Dict.{insert}
use zetproxy_turbo.Addr.{to4, ip_string}
use zetproxy_turbo.Hosts.{
  InterfaceAddr, ip_net, other_addr, Interface, Found, is_seen, nothing_found, parse_ip4, Outgoing,
}

-- `getEnv`
unfoldable pub get_env : (Bytes → Bytes) → Bytes → Bytes → Bytes
get_env env key fallback = if equal (env key) [] then fallback else env key

unfoldable pub is_private_ip : Option Bytes → Bool
is_private_ip none = false
is_private_ip (some ip) =
    let a = get_or ip 0 0 in
    let b = get_or ip 1 0 in
    if a == 192 && b == 168
    then true
    else if a == 172 && leb 16 b && leb b 31
    then true
    else if a == 10
    then true
    else false

unfoldable pub is_tailscale_ip : Option Bytes → Bool
is_tailscale_ip none = false
is_tailscale_ip (some ip) =
    let a = get_or ip 0 0 in
    let b = get_or ip 1 0 in if ltb (length ip) 4 then false else a == 100 && leb 64 b && leb b 127

-- The loop over the addresses of one interface, on `seen` and `ips`.
unfoldable pub list_addrs : List InterfaceAddr → Found → Found
list_addrs [] f = f
list_addrs (other_addr ∷ addrs) f = list_addrs addrs f
list_addrs (ip_net ip ∷ addrs) f = list_addrs addrs (elim (to4 ip) [
  | none ↦ f
  | some ip4 ↦
      if is_seen (ip_string ip4) f.seen
      then f
      else record { seen = insert (ip_string ip4) true f.seen; ips = f.ips ++ ip_string ip4 ∷ [] }
])

-- The loop over the interfaces.
unfoldable pub list_interfaces : List Interface → Found → Found
list_interfaces [] f = f
list_interfaces (i ∷ ifaces) f = list_interfaces ifaces (
    if not i.up || i.loopback
    then f
    else elim i.addrs [ none ↦ f | some addrs ↦ list_addrs addrs f ])

-- `getAllIPs`; `none` is an error of `net.Interfaces()`.
unfoldable pub all_ips : Option (List Interface) → List Bytes
all_ips none = []
all_ips (some ifaces) = (list_interfaces ifaces nothing_found).ips

-- The loop of `getPreferredIP`.
unfoldable pub first_private : List Bytes → Option Bytes
first_private [] = none
first_private (ip ∷ ips) =
    let rest = first_private ips in
    elim (parse_ip4 ip) [
      | none ↦ rest
      | some parsed ↦
          if is_tailscale_ip (some parsed)
          then rest
          else if is_private_ip (some parsed)
          then some ip
          else rest
    ]

unfoldable pub outgoing_ip : Outgoing → Bytes
outgoing_ip (some (some ip)) = if is_tailscale_ip (to4 ip) then codes "0.0.0.0" else ip_string ip
outgoing_ip _ = codes "0.0.0.0"

-- `getPreferredIP`, which looks at the environment first.
unfoldable pub preferred_ip : (Bytes → Bytes) → List Bytes → Outgoing → Bytes
preferred_ip env ips out =
    let set = env (codes "ZETPROXY_IP") in
    if equal set []
    then elim (first_private ips) [
      | some ip ↦ ip
      | none ↦ elim ips [ [] ↦ outgoing_ip out | ip ∷ _ ↦ ip ]
    ]
    else set
