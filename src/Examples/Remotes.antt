-- ===== src/Examples/Remotes.antt =====
-- The phone's connections of internal/tunnel/relay.go and the ssh tunnel of internal/tunnel/sshtun.go at
-- concrete inputs.
use zetproxy_turbo.Base.{
  ◌≡◌, refl, true, false, none, some, List, [], ◌∷◌, ◌++◌, arith, if◌then◌else◌,
}
use zetproxy_turbo.Text.{
  Bytes, codes, equal, contains_byte, cut_last_byte, is_space, trim_right, show_nat, show_int64,
}
use zetproxy_turbo.Copy.{
  Round, whole, finish, round, advance, Pair, Side, upward, downward, step, run, pipe,
}
use zetproxy_turbo.Copy.Cut.{IsPrefix}
use zetproxy_turbo.Phone.{relay_host, relay_addr}
use zetproxy_turbo.Phone.Data.{
  Net, handle_relay_target, target_handler, data_handler, connected, start_relay_tunnel,
}
use zetproxy_turbo.Phone.Data.Carried.{socks, plain, messages_bytes, registered_lem, carried}
use zetproxy_turbo.Relay.{phone_id, client_id, newline}
use zetproxy_turbo.Addr.{join_host_port}
use zetproxy_turbo.Ssh.{nil_channel, Globals, Process, start_ssh_tunnel, stop_tunnel}
use zetproxy_turbo.Ssh.Forwarded.{forwarded}
use zetproxy_turbo.Daemon.{ssh_tunnel, start_tunnel}

-- The relay sends "ready" and "GET", of which the first byte comes together with the line; the target
-- answers with "ok".
abbrev net : Net
net = record {
  relay_up = true;
  write_ok = true;
  incoming = codes "ready" ++ (newline ++ codes "GET");
  ahead = 1;
  dial = λ addr. if equal addr (codes "a.b:80") then some (codes "ok") else none;
  size = 4;
  schedule =
      (downward, whole 2)
      ∷ (upward, whole 2)
      ∷ (downward, whole 2)
      ∷ (downward, whole 2)
      ∷ (downward, whole 2)
      ∷ (upward, whole 2)
      ∷ (upward, whole 2)
      ∷ [];
}

-- What the relay's pipe does meanwhile, of which it reads one byte of the answer.
abbrev piping : List (Side × Round)
piping =
    (upward, whole 2)
    ∷ (downward, whole 2)
    ∷ (upward, whole 2)
    ∷ (upward, whole 2)
    ∷ (upward, whole 2)
    ∷ (downward, whole 2)
    ∷ (downward, whole 2)
    ∷ []

carried_example :
    let q = pipe 65536 piping (codes "G") (codes "ET") (codes "o") in
    (p : Pair) × ((handle_relay_target net (codes "r:7800") (codes "c1") (codes "a.b:80")).copies
      ≡ some p)
    × IsPrefix q.up.sent (codes "GET")
    × (p.down.sent ≡ codes "ET")
    × IsPrefix p.up.sent (codes "ok")
    × (q.down.sent ≡ codes "o")
unfolding pipe equal run step advance round finish
carried_example =
    carried 65536 1 piping net (codes "r:7800") (codes "c1") (codes "a.b:80") (codes "G")
      (codes "ET") (codes "ok") refl refl refl refl (omega arith) tt (omega arith) tt

registered_lem_example :
    start_relay_tunnel true true
      (codes "id:"
        ++ (phone_id 1 ++ (newline ++ messages_bytes (socks 4 (codes "a.b") 80 ∷ plain ∷ []))))
      (codes "1088")
      (codes "r")
    ≡ connected (codes "r (relay p1)") (
        target_handler (codes "r:7800") (client_id 4) (codes "a.b:80")
        ∷ data_handler (codes "1088") (codes "r:7800") (phone_id 1)
        ∷ [])
unfolding show_int64 show_nat join_host_port contains_byte relay_host relay_addr cut_last_byte
registered_lem_example =
    registered_lem 1 (socks 4 (codes "a.b") 80 ∷ plain ∷ []) (codes "1088") (codes "r") (refl, tt)

-- ssh that runs on.
abbrev ssh : List Bytes → Process
ssh args = record { piped = true; started = true; exited = none; has_process = true }

abbrev settings : Bytes → Bytes
settings key =
    if equal key (codes "ZETPROXY_TUNNEL")
    then codes "ssh:me@vps:2222"
    else if equal key (codes "ZETPROXY_SOCKS5")
    then codes ":1088"
    else []

abbrev untouched : Globals
untouched = record { url = []; tunnel_stop = nil_channel; tunnel_cmd = false; killed = false }

forwarded_example :
    let args =
      codes "-o"
      ∷ codes "StrictHostKeyChecking=no"
      ∷ codes "-o"
      ∷ codes "UserKnownHostsFile=/dev/null"
      ∷ codes "-o"
      ∷ codes "ServerAliveInterval=15"
      ∷ codes "-o"
      ∷ codes "ServerAliveCountMax=3"
      ∷ codes "-o"
      ∷ codes "ExitOnForwardFailure=yes"
      ∷ codes "-o"
      ∷ codes "ConnectTimeout=10"
      ∷ codes "-R"
      ∷ codes "*:2222:127.0.0.1:1088"
      ∷ codes "-R"
      ∷ codes "2222:127.0.0.1:1088"
      ∷ codes "-N"
      ∷ codes "me@vps"
      ∷ [] in
    let (ok, h, runs) = start_ssh_tunnel ssh (codes "1088") (codes "me@vps:2222") untouched in
    (start_tunnel settings ≡ ssh_tunnel (codes "1088") (codes "me@vps:2222"))
    × (runs ≡ args ∷ [])
    × (ok ≡ true)
    × (h.url ≡ codes "me@vps:2222")
    × ((i : Globals) × (stop_tunnel h ≡ some i) × (i.killed ≡ true))
unfolding contains_byte trim_right is_space equal
forwarded_example =
    forwarded settings ssh (codes "1088") (codes "me@vps") (codes "2222") untouched refl refl
      (λ e. absurd (ground (arith, e))) refl refl ((λ e. absurd (ground (arith, e))), refl)
