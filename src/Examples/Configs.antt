-- ===== src/Examples/Configs.antt =====
-- Runs of `ParseTunnelConfig` of internal/tunnel/sshtun.go.
use zetproxy_turbo.Base.{◌≡◌, refl, [], ◌++◌, arith}
use zetproxy_turbo.Text.{
  Bytes, codes, equal, has_prefix, contains_byte, is_space, trim_left, trim_right, trim_space,
}
use zetproxy_turbo.Config.{parse_tunnel_config}
use zetproxy_turbo.Config.Modes.{IsHost, parse_tunnel_config_lem}

relay_test : parse_tunnel_config (codes " relay:a.b:7800\n") ≡ (codes "relay", codes "a.b:7800")
unfolding parse_tunnel_config trim_space trim_left trim_right is_space equal has_prefix
relay_test = refl

vps-IsHost : IsHost (codes "me@vps")
unfolding is_space trim_right contains_byte
vps-IsHost = record {
  inked = refl;
  tight = refl;
  no_colon = refl;
  no_word = ((λ e. ground arith), (λ e. ground arith), (λ e. ground arith));
}

parse_tunnel_config_lem_example :
    let parsed : Bytes → Bytes × Bytes =
      λ v. parse_tunnel_config (codes " " ++ (v ++ codes "\n")) in
    let default = codes "serveo.net" in
    (parsed [] ≡ ([], []))
    × (parsed (codes "serveo") ≡ (codes "serveo", []))
    × (parsed (codes "serveo.net") ≡ (codes "serveo", []))
    × (parsed (codes "ssh") ≡ (codes "ssh", default))
    × (parsed (codes "1") ≡ (codes "ssh", default))
    × (parsed (codes "true") ≡ (codes "ssh", default))
    × (parsed (codes "yes") ≡ (codes "ssh", default))
    × (parsed (codes "localrun") ≡ (codes "ssh", codes "nokey@localhost.run"))
    × (parsed (codes "relay:") ≡ (codes "relay", codes "127.0.0.1:7800"))
    × (parsed (codes "relay:" ++ codes "a.b:7800") ≡ (codes "relay", codes "a.b:7800"))
    × (parsed (codes "serveo:" ++ codes "a.b:7800") ≡ (codes "serveo", codes "a.b:7800"))
    × (parsed (codes "ssh:" ++ codes "a.b:7800") ≡ (codes "ssh", codes "a.b:7800"))
    × (parsed (codes "me@vps") ≡ (codes "ssh", codes "me@vps"))
unfolding is_space trim_right contains_byte
parse_tunnel_config_lem_example =
    parse_tunnel_config_lem (codes " ") (codes "\n") (codes "a.b:7800") (codes "me@vps") (refl, tt)
      (refl, tt) ((λ e. ground arith), refl) vps-IsHost
