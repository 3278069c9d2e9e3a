-- ===== src/Examples/Phones.antt =====
-- Runs of the relay with phones, and of the phone's control loop.
use zetproxy_turbo.Relay.Machine
use zetproxy_turbo.Base.{ℕ, ◌≡◌, refl, ◌≢◌, ◌⊎◌, true, none, some, List, [], ◌∷◌, ◌++◌, arith}
use zetproxy_turbo.Text.{codes, equal, contains_byte, is_space, trim_right, show_nat, show_int64}
use zetproxy_turbo.Dict.{lookup, delete, insert}
use zetproxy_turbo.Addr.{join_host_port}
use zetproxy_turbo.Relay.{
  registered, chosen, piping, done, init, refusal, next, phone_id, client_id, newline, ctrl_msg,
}
use zetproxy_turbo.Relay.Command.{socks_line, register_line}
use zetproxy_turbo.Relay.Machine.{Event, line, asks, proceeds, step, run, code}
use zetproxy_turbo.Relay.Phones.{chosen_phone}
use zetproxy_turbo.Phone.{relay_target, relay_data, complete_lines, orders, is_ready}
use zetproxy_turbo.Phone.Inject.{two_lines, two_orders}
use zetproxy_turbo.Phone.Served.{asking, answering, client_served}
use zetproxy_turbo.Phone.Plain.{naming, plain_served}

abbrev one_phone : List Event
one_phone = line 1 register_line ∷ proceeds 1 true ∷ line 2 socks_line ∷ []

chosen_phone_example :
    let s = run init one_phone in
    let t = step s (asks 2 (codes "a.b:80")) in
    ((s.last_phone ≡ [])
      × (t.tasks 2 ≡ done)
      × (t.closed 2 ≡ true)
      × (t.sent 2 ≡ s.sent 2 ++ refusal 1))
    ⊎ ((p : ℕ) × (s.last_phone ≢ [])
        × (t.tasks 2 ≡ chosen s.last_phone (codes "a.b:80"))
        × (lookup s.last_phone s.ctrl ≡ some p)
        × (s.tasks p ≡ registered s.last_phone))
unfolding Machine.code
chosen_phone_example = chosen_phone one_phone 2 (codes "a.b:80") refl

client_served_example :
    let s = run init one_phone in
    let cid = client_id (next s.conn_cid) in
    let t = asking 2 (codes "a.b:80") s in
    let u = answering 2 3 cid t in
    ((p : ℕ) × (s.tasks p ≡ registered s.last_phone)
      × (t.sent p ≡ s.sent p ++ ctrl_msg cid (codes "a.b:80")))
    × (orders (ctrl_msg cid (codes "a.b:80")) ≡ relay_target cid (codes "a.b:80") ∷ [])
    × (u.tasks 2 ≡ piping cid 3)
    × (u.sent 2 ≡ s.sent 2 ++ refusal 0)
unfolding Machine.code contains_byte equal trim_right is_space
client_served_example =
    client_served one_phone 2 3 (codes "a.b:80") refl refl (ground arith) refl refl
      (ground arith, refl)

two_orders_example :
    orders (
      ctrl_msg
        (codes "c7")
        (join_host_port (two_lines (codes "x") (codes "c8") (codes "a.b")) (show_nat 80))
      ++ [])
    ≡ relay_target (codes "c7") (codes "[x") ∷ relay_target (codes "c8") (codes "a.b]:80") ∷ []
unfolding contains_byte is_space show_nat trim_right orders complete_lines
two_orders_example =
    two_orders (codes "c7") (codes "x") (codes "c8") (codes "a.b") [] 80
      ((refl, (refl, tt)), refl, refl) ((refl, (refl, tt)), refl, refl) refl (ground arith, refl)
      refl

abbrev registration : List Event
registration = line 1 register_line ∷ proceeds 1 true ∷ []

plain_served_example :
    let s = run init registration in
    let id = phone_id 1 in
    let t = naming 2 id s in
    let u = answering 2 3 id t in
    (t.sent 2 ≡ codes "ready\n")
    × (t.sent 1 ≡ codes "id:p1\nconn\n")
    × (orders (codes "conn" ++ newline) ≡ relay_data ∷ [])
    × (u.sent 3 ≡ codes "ready\n")
    × (is_ready (codes "ready" ++ newline) ≡ true)
    × (u.tasks 2 ≡ piping id 3)
    × (u.sent 2 ≡ t.sent 2)
    × (lookup id u.wait ≡ none)
unfolding Machine.code lookup delete insert equal show_int64 show_nat
plain_served_example = plain_served registration 2 3 1 1 refl refl (ground arith) refl
