-- ===== src/Hosts.antt =====
-- The addresses of the machine: the helpers at the end of cmd/zetproxyd/main.go.
--
-- What the operating system says is a parameter: the interfaces, the environment, and the local
-- address of a UDP socket to 8.8.8.8:53. A nil `net.IP` is `none`.
pub mod Parse
pub mod Listing
pub mod Preferred
use zetproxy_turbo.Base.{
  ℕ, ◌+◌, ◌-◌, ◌*◌, Bool, true, false, not, ◌&&◌, ◌||◌, Option, none, some, List, [], ◌∷◌, ◌++◌,
  ltb, leb, ◌==◌, if◌then◌else◌, length, get_or,
}
use zetproxy_turbo.Text.{Bytes, codes, equal}
use zetproxy_turbo.Addr.{to4, ip_string}
use zetproxy_turbo.Dict.{lookup, insert}

-- What `iface.Addrs()` lists: an `*net.IPNet` with its IP, or an address of another type.
pub data InterfaceAddr : Type 0 where
  ip_net : Bytes → InterfaceAddr
  other_addr : InterfaceAddr

pub record Interface : Type 0 where
  pub up : Bool  -- `net.FlagUp`
  pub loopback : Bool  -- `net.FlagLoopback`
  pub addrs : Option (List InterfaceAddr)  -- `none` is an error of `iface.Addrs()`

-- `getEnv`; `env` is `os.Getenv`, which gives "" for a variable that is not set.
unfoldable pub get_env : (Bytes → Bytes) → Bytes → Bytes → Bytes
get_env env key fallback = let v = env key in if equal v [] then fallback else v

unfoldable pub is_private_ip : Option Bytes → Bool
is_private_ip none = false
is_private_ip (some ip) =
    if get_or ip 0 0 == 192 && get_or ip 1 0 == 168
    then true
    else if get_or ip 0 0 == 172 && leb 16 (get_or ip 1 0) && leb (get_or ip 1 0) 31
    then true
    else if get_or ip 0 0 == 10
    then true
    else false

unfoldable pub is_tailscale_ip : Option Bytes → Bool
is_tailscale_ip none = false
is_tailscale_ip (some ip) =
    if ltb (length ip) 4
    then false
    else get_or ip 0 0 == 100 && leb 64 (get_or ip 1 0) && leb (get_or ip 1 0) 127

-- The variables of the loops of `getAllIPs`.
pub record Found : Type 0 where
  pub seen : List (Bytes × Bool)
  pub ips : List Bytes

-- The lookup of a key that is missing gives false.
abbrev pub is_seen : Bytes → List (Bytes × Bool) → Bool
is_seen text seen = elim (lookup text seen) [ none ↦ false | some b ↦ b ]

-- The body of the inner loop.
unfoldable pub add_addr : InterfaceAddr → Found → Found
add_addr other_addr f = f
add_addr (ip_net ip) f = elim (to4 ip) [
  | none ↦ f
  | some ip4 ↦
      let text = ip_string ip4 in
      if is_seen text f.seen
      then f
      else record { seen = insert text true f.seen; ips = f.ips ++ text ∷ [] }
]

unfoldable pub add_addrs : List InterfaceAddr → Found → Found
add_addrs [] f = f
add_addrs (a ∷ addrs) f = add_addrs addrs (add_addr a f)

-- The body of the outer loop, with its three `continue`s.
unfoldable pub add_interface : Interface → Found → Found
add_interface i f =
    if not i.up
    then f
    else if i.loopback
    then f
    else elim i.addrs [ none ↦ f | some addrs ↦ add_addrs addrs f ]

unfoldable pub add_interfaces : List Interface → Found → Found
add_interfaces [] f = f
add_interfaces (i ∷ ifaces) f = add_interfaces ifaces (add_interface i f)

abbrev pub nothing_found : Found
nothing_found = record { seen = []; ips = [] }

-- `getAllIPs`; `none` is an error of `net.Interfaces()`.
unfoldable pub all_ips : Option (List Interface) → List Bytes
all_ips none = []
all_ips (some ifaces) = (add_interfaces ifaces nothing_found).ips

-- The fields of a dotted address: the value and the number of digits of the field that is being read,
-- and the fields before it.
unfoldable pub parse_fields : ℕ → ℕ → List ℕ → Bytes → Option Bytes
parse_fields val digits fields [] =
    if digits == 0 then none else if length fields == 3 then some (fields ++ val ∷ []) else none
parse_fields val digits fields (c ∷ s) =
    let digit = parse_fields (val * 10 + (c - 48)) (digits + 1) fields s in
    let dot = parse_fields 0 0 (fields ++ val ∷ []) s in
    if leb 48 c && leb c 57
    then (if digits == 1 && val == 0
        then none
        else if ltb 255 (val * 10 + (c - 48))
        then none
        else digit)
    else if c == b'.'
    then (if digits == 0 || length fields == 3 then none else dot)
    else none

-- `net.ParseIP(s).To4()` for a text with no colon.
unfoldable pub parse_ip4 : Bytes → Option Bytes
parse_ip4 s = parse_fields 0 0 [] s

-- The first address that the loop of `getPreferredIP` returns.
unfoldable pub first_private : List Bytes → Option Bytes
first_private [] = none
first_private (ip ∷ ips) =
    let rest = first_private ips in
    elim (parse_ip4 ip) [
      | none ↦ rest
      | some parsed ↦
          if is_tailscale_ip (some parsed)
          then rest
          else if is_private_ip (some parsed)
          then some ip
          else rest
    ]

-- `net.DialTimeout("udp", "8.8.8.8:53", …)`: `none` is an error, else the IP of the local address.
abbrev pub Outgoing : Type 0
Outgoing = Option (Option Bytes)

-- The part of `getPreferredIP` for a machine that lists no address.
unfoldable pub outgoing_ip : Outgoing → Bytes
outgoing_ip none = codes "0.0.0.0"
outgoing_ip (some none) = codes "0.0.0.0"
outgoing_ip (some (some ip)) = if is_tailscale_ip (to4 ip) then codes "0.0.0.0" else ip_string ip

-- `getPreferredIP` on the result of `getAllIPs`.
unfoldable pub preferred_ip : List Bytes → Outgoing → Bytes
preferred_ip ips out = elim (first_private ips) [
  | some ip ↦ ip
  | none ↦ elim ips [ [] ↦ outgoing_ip out | ip ∷ _ ↦ ip ]
]
