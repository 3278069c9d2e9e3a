-- ===== src/Ssh.antt =====
-- The ssh tunnel of internal/tunnel/sshtun.go: `StartSSHTunnel`, `trySSHRemote`, `StopTunnel` and the
-- package's variables.
--
-- The ssh program is a parameter: what becomes of it when it is run with given arguments.
pub mod Forwarded
use zetproxy_turbo.Base.{
  Bool, true, false, not, ◌||◌, Option, none, some, List, [], ◌∷◌, ◌++◌, if◌then◌else◌,
}
use zetproxy_turbo.Text.{Bytes, codes, has_prefix, cut_byte, trim_space}

-- `tunnelStop`: nil, a channel, or a channel that is closed.
pub data Stop : Type 0 where
  nil_channel open_channel closed_channel : Stop

-- The variables of the package; `tunnel_cmd` says that `tunnelCmd` is set and has a process.
pub record Globals : Type 0 where
  pub url : Bytes
  pub tunnel_stop : Stop
  pub tunnel_cmd : Bool
  pub killed : Bool  -- that process was killed

-- What becomes of ssh. `exited` is whether it succeeded and what it wrote to stderr, if it ends within
-- three seconds.
pub record Process : Type 0 where
  pub piped : Bool
  pub started : Bool
  pub exited : Option (Bool × Bytes)
  pub has_process : Bool

-- What `trySSHRemote` returns: nil in two cases, and errors.
pub data Attempt : Type 0 where
  exited_well still_running : Attempt
  no_pipe not_started vanished : Attempt
  port_rejected : Bytes → Attempt
  failed : Bytes → Attempt

abbrev pub is_nil : Attempt → Bool
is_nil exited_well = true
is_nil still_running = true
is_nil _ = false

-- `tunnelCmd = cmd` was done.
abbrev pub is_running : Attempt → Bool
is_running still_running = true
is_running _ = false

-- `strings.Contains(s, sub)`
unfoldable pub contains : Bytes → Bytes → Bool
contains [] sub = has_prefix [] sub
contains (c ∷ s) sub = has_prefix (c ∷ s) sub || contains s sub

-- `lines[0]` of `strings.SplitN(output, "\n", 2)`
abbrev first_line : Bytes → Bytes
first_line output = elim (cut_byte output 10) [ none ↦ output | some (line, rest) ↦ line ]

-- `fmt.Sprintf("%s:127.0.0.1:%s", remotePort, localPort)`
abbrev pub forwarding : Bytes → Bytes → Bytes
forwarding remote_port local_port = remote_port ++ (codes ":127.0.0.1:" ++ local_port)

unfoldable pub ssh_args : Bytes → Bytes → Bytes → List Bytes
ssh_args host local_port remote_port =
    codes "-o"
    ∷ codes "StrictHostKeyChecking=no"
    ∷ codes "-o"
    ∷ codes "UserKnownHostsFile=/dev/null"
    ∷ codes "-o"
    ∷ codes "ServerAliveInterval=15"
    ∷ codes "-o"
    ∷ codes "ServerAliveCountMax=3"
    ∷ codes "-o"
    ∷ codes "ExitOnForwardFailure=yes"
    ∷ codes "-o"
    ∷ codes "ConnectTimeout=10"
    ∷ codes "-R"
    ∷ (codes "*:" ++ forwarding remote_port local_port)
    ∷ codes "-R"
    ∷ forwarding remote_port local_port
    ∷ codes "-N"
    ∷ host
    ∷ []

unfoldable pub try_ssh_remote : Process → Bytes → Attempt
try_ssh_remote proc remote_port =
    if not proc.piped then no_pipe else if not proc.started then not_started else elim proc.exited [
      | none ↦ if proc.has_process then still_running else vanished
      | some (true, output) ↦ exited_well
      | some (false, output) ↦
          if contains output (codes "forwarding failed")
          then port_rejected remote_port
          else failed (trim_space (first_line output))
    ]

-- `setTunnelURL`
abbrev pub set_tunnel_url : Bytes → Globals → Globals
set_tunnel_url url g = record g { url = url }

-- The loop over the ports: whether one was taken, and the commands that were run.
unfoldable pub try_ports :
    (List Bytes → Process)
    → Bytes
    → Bytes
    → List Bytes
    → Globals
    → Bool × Globals × List (List Bytes)
try_ports ssh host local_port [] g = (false, g, [])
try_ports ssh host local_port (rp ∷ ports) g =
    let args = ssh_args host local_port rp in
    let attempt = try_ssh_remote (ssh args) rp in
    let (ok, h, runs) = try_ports ssh host local_port ports g in
    if is_nil attempt
    then (
      true,
      record (set_tunnel_url (host ++ (b':' ∷ rp)) g) {
        tunnel_cmd = is_running attempt || g.tunnel_cmd;
      },
      args ∷ [],
    )
    else (ok, h, args ∷ runs)

-- The host and the ports to try.
abbrev pub split_remote : Bytes → Bytes → Bytes × List Bytes
split_remote local_port ssh_host = elim (cut_byte ssh_host b':') [
  | none ↦ (ssh_host, local_port ∷ [])
  | some (host, []) ↦ (host, local_port ∷ [])
  | some (host, c ∷ port) ↦ (host, (c ∷ port) ∷ [])
]

-- The first result is whether the error is nil.
unfoldable pub start_ssh_tunnel :
    (List Bytes → Process) → Bytes → Bytes → Globals → Bool × Globals × List (List Bytes)
start_ssh_tunnel ssh local_port ssh_host g =
    let (host, ports) = split_remote local_port ssh_host in
    try_ports ssh host local_port ports (record g { tunnel_stop = open_channel })

-- `StopTunnel`; `none` is the panic of closing a closed channel.
unfoldable pub stop_tunnel : Globals → Option Globals
stop_tunnel g =
    let h = record g { killed = g.killed || g.tunnel_cmd } in
    elim g.tunnel_stop [
      | nil_channel ↦ some h
      | open_channel ↦ some (record h { tunnel_stop = closed_channel })
      | closed_channel ↦ none
    ]
