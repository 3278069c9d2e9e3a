-- ===== src/Ssh/Forwarded.antt =====
-- From the ZETPROXY_TUNNEL setting to the ssh process.
use zetproxy_turbo.Base.{
  ◌≡◌, refl, sym, ap, ◌∙◌, ◌≢◌, inl, inr, Bool, true, false, ◌&&◌, ◌||◌, none, some, List, [], ◌∷◌,
  ◌++◌, arith, if◌then◌else◌, Bool-cases, Option-cases,
}
use zetproxy_turbo.Text.{
  Bytes, codes, equal, has_prefix, contains_byte, is_space, trim_left, trim_right, trim_space,
}
use zetproxy_turbo.Ssh.{
  open_channel, closed_channel, Globals, Process, is_nil, is_running, ssh_args, try_ssh_remote,
  try_ports, split_remote, start_ssh_tunnel, stop_tunnel,
}
use zetproxy_turbo.Daemon.{socks_port, ssh_tunnel, start_tunnel}
use zetproxy_turbo.Config.{contains_either, parse_tunnel_config}
use zetproxy_turbo.Hosts.{get_env}
use zetproxy_turbo.Phone.Agree.{IsTight}
use zetproxy_turbo.Text.Trim.{append-ne, trim_right-append}
use zetproxy_turbo.Text.Laws.{contains_byte-append, cut_byte-append}

-- ssh runs after three seconds, or it has ended without an error.
abbrev pub works : Process → Bool
works proc =
    proc.piped
    && proc.started
    && (elim proc.exited [ none ↦ proc.has_process | some (ok, output) ↦ ok ])

-- ssh runs after three seconds.
abbrev pub runs_on : Process → Bool
runs_on proc = works proc && (elim proc.exited [ none ↦ true | some _ ↦ false ])

parse_lem :
    (remote : Bytes)
    → contains_either remote ≡ true
    → IsTight remote
    → parse_tunnel_config (codes "ssh:" ++ remote) ≡ (codes "ssh", remote)
unfolding parse_tunnel_config equal has_prefix trim_space trim_left is_space
parse_lem remote has tight =
    let trimmed : trim_right (codes "ssh:" ++ remote) ≡ codes "ssh:" ++ remote =
      trim_right-append (codes "ssh:") remote (tight.0) (tight.1) in
    rw trimmed (rw has refl)

socks_port_lem :
    (env : Bytes → Bytes) (port : Bytes)
    → env (codes "ZETPROXY_SOCKS5") ≡ b':' ∷ port
    → port ≢ []
    → socks_port (get_env env (codes "ZETPROXY_SOCKS5") (codes ":1088")) ≡ port
unfolding socks_port get_env equal
socks_port_lem env [] f n = absurd (n refl)
socks_port_lem env (c ∷ port) f n = rw f refl

setting_lem :
    (env : Bytes → Bytes) (port remote : Bytes)
    → env (codes "ZETPROXY_TUNNEL") ≡ codes "ssh:" ++ remote
    → env (codes "ZETPROXY_SOCKS5") ≡ b':' ∷ port
    → port ≢ []
    → contains_either remote ≡ true
    → IsTight remote
    → start_tunnel env ≡ ssh_tunnel port remote
unfolding start_tunnel equal
setting_lem env port remote e f n has tight =
    rw (e, socks_port_lem env port f n, parse_lem remote has tight) refl

try_lem :
    (proc : Process) (rp : Bytes)
    → (is_nil (try_ssh_remote proc rp) ≡ works proc)
      × (is_running (try_ssh_remote proc rp) ≡ runs_on proc)
unfolding try_ssh_remote
try_lem proc rp = elim (Option-cases proc.exited) [
  | inl e ↦ ground arith
  | inr ((true, output), e) ↦ ground arith
  | inr ((false, output), e) ↦ ground arith
]

port_lem :
    (ssh : List Bytes → Process) (port host rp : Bytes) (g : Globals)
    → let proc = ssh (ssh_args host port rp) in
      let (ok, h, runs) = try_ports ssh host port (rp ∷ []) g in
      (runs ≡ ssh_args host port rp ∷ [])
      × (ok ≡ works proc)
      × (h.url ≡ (if works proc then host ++ b':' ∷ rp else g.url))
      × (h.tunnel_cmd ≡ (runs_on proc || g.tunnel_cmd))
      × (h.tunnel_stop ≡ g.tunnel_stop)
      × (h.killed ≡ g.killed)
unfolding try_ports
port_lem ssh port host rp g =
    let proc = ssh (ssh_args host port rp) in
    let (n, r) = try_lem proc rp in
    let idle : is_nil (try_ssh_remote proc rp) ≡ false → runs_on proc ≡ false = ground arith in
    elim (Bool-cases (is_nil (try_ssh_remote proc rp))) [
      | inl e ↦
          rw e (refl, sym e ∙ n, rw (sym n ∙ e) refl, ap (λ b. b || g.tunnel_cmd) r, refl, refl)
      | inr e ↦ rw e (refl, sym e ∙ n, rw (sym n ∙ e) refl, rw (idle e) refl, refl, refl)
    ]

named_lem :
    (host rp : Bytes) → contains_either host ≡ true → contains_either (host ++ b':' ∷ rp) ≡ true
named_lem host rp h =
    ground (
      arith,
      contains_byte-append host (b':' ∷ rp) b'@',
      contains_byte-append host (b':' ∷ rp) b'.',
    )

tail-IsTight : (host rp : Bytes) → IsTight rp → IsTight (host ++ b':' ∷ rp)
tail-IsTight host rp (n, e) = (
  append-ne host (b':' ∷ rp) (append-ne (b':' ∷ []) rp n),
  trim_right-append host (b':' ∷ rp) (append-ne (b':' ∷ []) rp n)
      (trim_right-append (b':' ∷ []) rp n e),
)

split_lem :
    (port host rp : Bytes)
    → contains_byte host b':' ≡ false
    → rp ≢ []
    → split_remote port (host ++ b':' ∷ rp) ≡ (host, rp ∷ [])
split_lem port host [] colon n = absurd (n refl)
split_lem port host (c ∷ rp) colon n =
    rw (cut_byte-append host (c ∷ rp) b':' colon, split_remote) refl

stop_open :
    (g : Globals)
    → g.tunnel_stop ≡ open_channel
    → stop_tunnel g
      ≡ some (record g { killed = g.killed || g.tunnel_cmd; tunnel_stop = closed_channel })
unfolding stop_tunnel
stop_open g e = rw (e, stop_tunnel) refl

-- Let ZETPROXY_TUNNEL be "ssh:" with a host and a port, where the host has a dot or an at sign and no
-- colon, and ZETPROXY_SOCKS5 a colon and a port. Then the program starts the ssh tunnel with that
-- local port; it runs ssh once, with the six options, without a command, with the forwardings
-- "*:<remote port>:127.0.0.1:<local port>" and "<remote port>:127.0.0.1:<local port>", and with that
-- host. If ssh runs after three seconds, or has ended without an error, the tunnel counts as started and
-- host and port are its URL; else it does not, and the URL stays. A `StopTunnel` after it does not
-- panic, and kills ssh if it ran after three seconds.
pub forwarded :
    (env : Bytes → Bytes) (ssh : List Bytes → Process) (port host rp : Bytes) (g : Globals)
    → env (codes "ZETPROXY_TUNNEL") ≡ codes "ssh:" ++ (host ++ b':' ∷ rp)
    → env (codes "ZETPROXY_SOCKS5") ≡ b':' ∷ port
    → port ≢ []
    → contains_either host ≡ true
    → contains_byte host b':' ≡ false
    → IsTight rp
    → let args =
        codes "-o"
        ∷ codes "StrictHostKeyChecking=no"
        ∷ codes "-o"
        ∷ codes "UserKnownHostsFile=/dev/null"
        ∷ codes "-o"
        ∷ codes "ServerAliveInterval=15"
        ∷ codes "-o"
        ∷ codes "ServerAliveCountMax=3"
        ∷ codes "-o"
        ∷ codes "ExitOnForwardFailure=yes"
        ∷ codes "-o"
        ∷ codes "ConnectTimeout=10"
        ∷ codes "-R"
        ∷ (codes "*:" ++ (rp ++ (codes ":127.0.0.1:" ++ port)))
        ∷ codes "-R"
        ∷ (rp ++ (codes ":127.0.0.1:" ++ port))
        ∷ codes "-N"
        ∷ host
        ∷ [] in
      let (ok, h, runs) = start_ssh_tunnel ssh port (host ++ b':' ∷ rp) g in
      (start_tunnel env ≡ ssh_tunnel port (host ++ b':' ∷ rp))
      × (runs ≡ args ∷ [])
      × (ok ≡ works (ssh args))
      × (h.url ≡ (if works (ssh args) then host ++ b':' ∷ rp else g.url))
      × ((i : Globals) × (stop_tunnel h ≡ some i)
          × (i.killed ≡ (g.killed || g.tunnel_cmd || runs_on (ssh args))))
unfolding start_ssh_tunnel ssh_args
forwarded env ssh port host rp g e f n has colon tight =
    let setting =
      setting_lem env port (host ++ b':' ∷ rp) e f n (named_lem host rp has)
        (tail-IsTight host rp tight) in
    let begun = record g { tunnel_stop = open_channel } in
    let (runs, ok, url, cmd, stop, killed) = port_lem ssh port host rp begun in
    let h = (try_ports ssh host port (rp ∷ []) begun).1 in
    rw (split_lem port host rp colon (tight.0)) (
      setting,
      runs,
      ok,
      url,
      (
        record h { killed = h.killed || h.tunnel_cmd; tunnel_stop = closed_channel },
        stop_open h stop,
        rw (killed, cmd) (ground arith),
      ),
    )
