-- ===== src/Dashboard/Advertised.antt =====
-- The dashboard's copies against those of the daemon.
use zetproxy_turbo.Hosts
use zetproxy_turbo.Dashboard.Addresses
use zetproxy_turbo.Base.{
  ◌≡◌, refl, ap, ◌∙◌, inl, inr, Option, none, some, List, [], ◌∷◌, arith, Option-cases,
}
use zetproxy_turbo.Text.{Bytes}
use zetproxy_turbo.Addr.{to4}
use zetproxy_turbo.Hosts.{
  InterfaceAddr, ip_net, other_addr, Interface, is_private_ip, is_tailscale_ip, Found, add_addr,
  add_addrs, add_interface, add_interfaces, nothing_found, all_ips, parse_ip4, first_private,
  Outgoing, outgoing_ip, preferred_ip,
}
use zetproxy_turbo.Daemon.{local_ip}

private_same : (ip : Option Bytes) → Addresses.is_private_ip ip ≡ Hosts.is_private_ip ip
unfolding Addresses.is_private_ip Hosts.is_private_ip
private_same none = refl
private_same (some ip) = ground arith

tailscale_same : (ip : Option Bytes) → Addresses.is_tailscale_ip ip ≡ Hosts.is_tailscale_ip ip
unfolding Addresses.is_tailscale_ip Hosts.is_tailscale_ip
tailscale_same none = refl
tailscale_same (some ip) = refl

addrs_same :
    (addrs : List InterfaceAddr) (f : Found)
    → Addresses.list_addrs addrs f ≡ Hosts.add_addrs addrs f
unfolding Addresses.list_addrs Hosts.add_addrs Hosts.add_addr
addrs_same [] f = refl
addrs_same (other_addr ∷ addrs) f = addrs_same addrs f
addrs_same (ip_net ip ∷ addrs) f = addrs_same addrs _

interfaces_same :
    (ifaces : List Interface) (f : Found)
    → Addresses.list_interfaces ifaces f ≡ Hosts.add_interfaces ifaces f
unfolding Addresses.list_interfaces Hosts.add_interfaces Hosts.add_interface
interfaces_same [] f = refl
interfaces_same (i ∷ ifaces) f = elim (Option-cases i.addrs) [
  | inl e ↦ interfaces_same ifaces _ ∙ ap (Hosts.add_interfaces ifaces) (ground arith)
  | inr (addrs, e) ↦
      interfaces_same ifaces _
      ∙ ap (Hosts.add_interfaces ifaces) (ground (arith, addrs_same addrs f))
]

all_ips_same : (found : Option (List Interface)) → Addresses.all_ips found ≡ Hosts.all_ips found
unfolding Addresses.all_ips Hosts.all_ips
all_ips_same none = refl
all_ips_same (some ifaces) = ap (λ (f : Found). f.ips) (interfaces_same ifaces nothing_found)

first_same : (ips : List Bytes) → Addresses.first_private ips ≡ Hosts.first_private ips
unfolding Addresses.first_private Hosts.first_private
first_same [] = refl
first_same (ip ∷ ips) = elim (Option-cases (parse_ip4 ip)) [
  | inl e ↦ ground (arith, first_same ips)
  | inr (v, e) ↦ ground (arith, first_same ips, private_same (some v), tailscale_same (some v))
]

outgoing_same : (out : Outgoing) → Addresses.outgoing_ip out ≡ Hosts.outgoing_ip out
unfolding Addresses.outgoing_ip Hosts.outgoing_ip
outgoing_same none = refl
outgoing_same (some none) = refl
outgoing_same (some (some ip)) = rw (tailscale_same (to4 ip))

-- The dashboard shows the address that the daemon advertises, and lists the addresses that the daemon
-- lists, for every environment, set of interfaces and outgoing address: the two copies of the
-- helpers agree.
pub advertised_same :
    (env : Bytes → Bytes) (found : Option (List Interface)) (out : Outgoing)
    → (Addresses.all_ips found ≡ Hosts.all_ips found)
      × (Addresses.preferred_ip env (Addresses.all_ips found) out
          ≡ local_ip env (Hosts.all_ips found) out)
unfolding Addresses.preferred_ip local_ip Hosts.preferred_ip
advertised_same env found out =
    let e = all_ips_same found in
    let ips = Hosts.all_ips found in (e, rw e (ground (arith, first_same ips, outgoing_same out)))
