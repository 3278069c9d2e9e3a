-- ===== src/Examples/Hostnames.antt =====
-- The addresses of a machine with two interfaces.
use zetproxy_turbo.Base.{◌≡◌, true, false, some, List, [], ◌∷◌}
use zetproxy_turbo.Text.{Bytes, codes, equal, show_nat}
use zetproxy_turbo.Addr.{ip_string}
use zetproxy_turbo.Hosts.{ip_net, other_addr, Interface, all_ips}
use zetproxy_turbo.Hosts.Listing.{AreDistinct, all_ips_lem}

abbrev tailscale : Bytes
tailscale = 100 ∷ 64 ∷ 0 ∷ 7 ∷ []

abbrev private : Bytes
private = 192 ∷ 168 ∷ 1 ∷ 5 ∷ []

abbrev wlan : Interface
wlan = record {
  up = true;
  loopback = false;
  addrs = some (ip_net tailscale ∷ other_addr ∷ ip_net private ∷ ip_net tailscale ∷ []);
}

abbrev loopback_interface : Interface
loopback_interface = record {
  up = true;
  loopback = true;
  addrs = some (ip_net (127 ∷ 0 ∷ 0 ∷ 1 ∷ []) ∷ []);
}

abbrev interfaces : List Interface
interfaces = loopback_interface ∷ wlan ∷ []

all_ips_lem_example :
    (all_ips (some interfaces) ≡ codes "100.64.0.7" ∷ codes "192.168.1.5" ∷ [])
    × AreDistinct (all_ips (some interfaces))
unfolding ip_string show_nat equal
all_ips_lem_example = all_ips_lem interfaces
