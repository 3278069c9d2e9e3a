-- ===== src/Config.antt =====
-- The ZETPROXY_TUNNEL setting: `ParseTunnelConfig` of internal/tunnel/sshtun.go.
pub mod Modes
use zetproxy_turbo.Base.{Bool, ◌||◌, [], if◌then◌else◌, drop}
use zetproxy_turbo.Text.{Bytes, codes, equal, has_prefix, contains_byte, trim_space}

abbrev pub contains_either : Bytes → Bool
contains_either s = contains_byte s b'@' || contains_byte s b'.'

-- The mode and the remote end.
unfoldable pub parse_tunnel_config : Bytes → Bytes × Bytes
parse_tunnel_config setting =
    let val = trim_space setting in
    if equal val []
    then ([], [])
    else if equal val (codes "serveo") || equal val (codes "serveo.net")
    then (codes "serveo", [])
    else if equal val (codes "ssh")
        || equal val (codes "1")
        || equal val (codes "true")
        || equal val (codes "yes")
    then (codes "ssh", codes "serveo.net")
    else if equal val (codes "localrun")
    then (codes "ssh", codes "nokey@localhost.run")
    else if has_prefix val (codes "relay:")
    then (let rest = drop 6 val in
        (codes "relay", (if equal rest [] then codes "127.0.0.1:7800" else rest)))
    else if has_prefix val (codes "serveo:")
    then (codes "serveo", drop 7 val)
    else if has_prefix val (codes "ssh:")
    then (let rest = drop 4 val in
        (codes "ssh", (if contains_either rest then rest else codes "serveo.net")))
    else if contains_either val
    then (codes "ssh", val)
    else (codes "ssh", codes "serveo.net")
