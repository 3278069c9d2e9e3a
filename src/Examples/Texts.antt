-- ===== src/Examples/Texts.antt =====
-- Texts of addresses.
use zetproxy_turbo.Base.{◌≡◌, refl, none, some, ◌∷◌, ◌++◌}
use zetproxy_turbo.Text.{codes, equal, contains_byte}
use zetproxy_turbo.Addr.{to4, ip_string, join_host_port, split_host_port}
use zetproxy_turbo.Addr.HostPort.{split_host_port-join_host_port}
use zetproxy_turbo.Addr.Colons.{split_host_port_ip6}
use zetproxy_turbo.Examples.{v6}

split_host_port-join_host_port_example :
    split_host_port (join_host_port (codes "::1") (codes "80")) ≡ some (codes "::1", codes "80")
unfolding contains_byte
split_host_port-join_host_port_example =
    split_host_port-join_host_port (codes "::1") (codes "80") (refl, refl) (refl, refl) refl

split_host_port_ip6_example : split_host_port (ip_string v6 ++ (b':' ∷ codes "80")) ≡ none
unfolding to4 contains_byte equal
split_host_port_ip6_example = split_host_port_ip6 v6 (codes "80") refl refl refl
