-- ===== src/Hosts/Preferred.antt =====
-- Which address the program advertises.
use mathlib.Core.Option
use zetproxy_turbo.Base.{
  ◌/◌, ◌≡◌, refl, Bool, true, false, ◌&&◌, ◌||◌, Option, none, some, List, [], ◌∷◌, map, arith,
  ◌==◌, if◌then◌else◌,
}
use zetproxy_turbo.Text.{Bytes}
use zetproxy_turbo.Addr.{ip_string}
use zetproxy_turbo.Hosts.{
  is_private_ip, is_tailscale_ip, first_private, Outgoing, outgoing_ip, preferred_ip,
}
use zetproxy_turbo.Hosts.Parse.{IsFour, parse_ip4-ip_string}

abbrev pub AreFour : List Bytes → Type 0
AreFour [] = Unit
AreFour (ip ∷ ips) = IsFour ip × AreFour ips

-- The private ranges: 10.0.0.0/8, 172.16.0.0/12 and 192.168.0.0/16.
abbrev pub in_private_range : Bytes → Bool
in_private_range (a ∷ b ∷ _) = a == 10 || a == 172 && b / 16 == 1 || a == 192 && b == 168
in_private_range _ = false

abbrev pub find : (Bytes → Bool) → List Bytes → Option Bytes
find test [] = none
find test (x ∷ xs) = let rest = find test xs in if test x then some x else rest

private_lem : (ip : Bytes) → IsFour ip → is_private_ip (some ip) ≡ in_private_range ip
unfolding is_private_ip
private_lem (a ∷ b ∷ c ∷ d ∷ []) h = ground arith
private_lem [] h = absurd h
private_lem (a ∷ []) h = absurd h
private_lem (a ∷ b ∷ []) h = absurd h
private_lem (a ∷ b ∷ c ∷ []) h = absurd h
private_lem (a ∷ b ∷ c ∷ d ∷ e ∷ r) h = absurd h

-- No private address is in Tailscale's 100.64.0.0/10.
private-not-tailscale :
    (ip : Bytes) → is_private_ip (some ip) ≡ true → is_tailscale_ip (some ip) ≡ false
unfolding is_private_ip is_tailscale_ip
private-not-tailscale ip h = ground arith

first_private_lem :
    (ips : List Bytes)
    → AreFour ips
    → first_private (map ip_string ips) ≡ Option.map ip_string (find in_private_range ips)
unfolding first_private
first_private_lem [] h = refl
first_private_lem (ip ∷ ips) (p, q) = ground (
  arith,
  parse_ip4-ip_string ip p,
  private_lem ip p,
  private-not-tailscale ip,
  first_private_lem ips q,
)

-- The advertised address of a machine whose listed addresses are `ips`, in the order of the listing:
-- the first one in a private range; if none is, the first one of all, be it Tailscale's or public; and
-- with no address at all what the route to 8.8.8.8 shows. The test for Tailscale skips no address
-- that would have been taken.
pub preferred_ip_lem :
    (ips : List Bytes) (out : Outgoing)
    → AreFour ips
    → preferred_ip (map ip_string ips) out ≡ (elim (find in_private_range ips) [
      | some ip ↦ ip_string ip
      | none ↦ elim ips [ [] ↦ outgoing_ip out | ip ∷ _ ↦ ip_string ip ]
    ])
unfolding preferred_ip first_private
preferred_ip_lem [] out h = refl
preferred_ip_lem (ip ∷ ips) out h = ground (arith, first_private_lem (ip ∷ ips) h)
