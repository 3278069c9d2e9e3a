-- ===== src/Examples/Relays.antt =====
-- Runs of the relay of cmd/relay/main.go: a phone is connection 1, a client 2, a data connection 3.
use zetproxy_turbo.Relay.Machine
use zetproxy_turbo.Base.{ℕ, ◌≡◌, refl, true, false, none, some, List, [], ◌∷◌, ◌++◌, arith}
use zetproxy_turbo.Text.{Bytes, codes, equal, contains_byte, show_nat, show_int64}
use zetproxy_turbo.Dict.{lookup, delete, insert}
use zetproxy_turbo.Addr.{join_host_port}
use zetproxy_turbo.Relay.{
  waiting, piping, delivered, done, init, listen_addr, refusal, client_id, ctrl_msg,
}
use zetproxy_turbo.Relay.Command.{
  socks_line, register_line, connect_line, data_line, ping_line, command,
}
use zetproxy_turbo.Relay.Machine.{Event, line, asks, proceeds, step, run, code}
use zetproxy_turbo.Relay.Invariant.{key_of}
use zetproxy_turbo.Relay.Routing.{routed, piped_is_closed, taken_over}
use zetproxy_turbo.Relay.Patience.{patient}
use zetproxy_turbo.Phone.{relay_addr, relay_target, orders, data_line_bytes}
use zetproxy_turbo.Phone.Agree.{client_agreed}

abbrev c1 : Bytes
c1 = codes "c1"

-- A phone registers, a SOCKS5 client asks for an address and waits for the phone.
abbrev asking : List Event
asking =
    line 1 register_line
    ∷ proceeds 1 true
    ∷ line 2 socks_line
    ∷ asks 2 (codes "a.b:80")
    ∷ proceeds 2 true
    ∷ proceeds 2 true
    ∷ []

-- The phone's data connection comes in, and the client takes it.
abbrev served : List Event
served = asking ++ line 3 (data_line c1) ∷ proceeds 2 true ∷ []

control_test : (run init asking).sent 1 ≡ codes "id:p1\nconn:c1:a.b:80\n"
unfolding Machine.code lookup delete insert equal show_int64 show_nat
control_test = refl

-- The phone's id may be told behind the first message.
early_test :
    let early =
      line 1 register_line
      ∷ line 2 socks_line
      ∷ asks 2 (codes "a.b:80")
      ∷ proceeds 2 true
      ∷ proceeds 2 true
      ∷ proceeds 1 true
      ∷ [] in
    (run init early).sent 1 ≡ codes "conn:c1:a.b:80\nid:p1\n"
unfolding Machine.code lookup delete insert equal show_int64 show_nat
early_test = refl

piping_test : (run init served).tasks 2 ≡ piping c1 3
unfolding Machine.code lookup delete insert equal show_int64 show_nat
piping_test = refl

routed_example :
    let s = run init served in
    ((id : Bytes) × (s.tasks 3 ≡ delivered id) × (key_of (s.tasks 2) ≡ some id))
    × ((e : ℕ) → s.inbox e ≡ some 3 → e ≡ 2)
unfolding Machine.code lookup delete insert equal show_int64 show_nat
routed_example = routed served 2 3 refl

piped_is_closed_example :
    let t = step (run init served) (proceeds 3 true) in
    (t.closed 3 ≡ true) × (t.tasks 2 ≡ piping c1 3)
unfolding Machine.code lookup delete insert equal show_int64 show_nat
piped_is_closed_example = piped_is_closed served 2 3 c1 true refl

-- A plain client waits for the id x.
abbrev plain : List Event
plain = line 2 (connect_line (codes "x")) ∷ proceeds 2 true ∷ []

-- A second plain client names the same id.
taken_over_example :
    let id = codes "x" in
    let t = step (step (run init plain) (line 4 (connect_line id))) (line 3 (data_line id)) in
    let u = step t (line 5 (data_line id)) in
    (u.inbox 4 ≡ some 3)
    × (u.inbox 2 ≡ none)
    × (u.tasks 2 ≡ waiting false id)
    × (lookup id u.wait ≡ none)
    × (u.closed 5 ≡ true)
    × (u.tasks 5 ≡ done)
unfolding Machine.code lookup delete insert equal
taken_over_example =
    taken_over plain 2 4 3 5 false (codes "x") refl refl refl refl refl (ground arith)
      (ground arith) (ground arith) (ground arith)

client_agreed_example :
    let addr = join_host_port (codes "a.b") (show_nat 80) in
    (orders (ctrl_msg (client_id 7) addr ++ codes "conn\n")
      ≡ relay_target (client_id 7) addr ∷ orders (codes "conn\n"))
    × (command (data_line_bytes (client_id 7)) ≡ data_line (client_id 7))
unfolding contains_byte
client_agreed_example = client_agreed 7 80 (codes "a.b") (codes "conn\n") refl

-- Without a setting the relay and the phone use different ports.
default_port_test : (listen_addr [] ≡ codes ":8080") × (relay_addr (codes "r") ≡ codes "r:7800")
unfolding listen_addr relay_addr equal contains_byte
default_port_test = (refl, refl)

-- The data connection's handler returns and another connection comes before the client's next step.
patient_example :
    let t =
      run
        (run init (asking ++ line 3 (data_line c1) ∷ []))
        (proceeds 3 true ∷ line 5 ping_line ∷ []) in
    let u = step t (proceeds 2 true) in
    (u.tasks 2 ≡ piping c1 3) × (u.sent 2 ≡ t.sent 2 ++ refusal 0)
unfolding Machine.code lookup delete insert equal show_int64 show_nat
patient_example =
    patient (asking ++ line 3 (data_line c1) ∷ []) (proceeds 3 true ∷ line 5 ping_line ∷ []) 2 3
      true true c1 refl refl (ground arith)
