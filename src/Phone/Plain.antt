-- ===== src/Phone/Plain.antt =====
-- A plain client of the relay, one that names a phone and speaks what the phone's port speaks, from
-- its line to the pipe.
use zetproxy_turbo.Base.{ℕ, ◌≡◌, refl, ◌≢◌, true, false, none, some, List, [], ◌∷◌, ◌++◌, arith}
use zetproxy_turbo.Text.{
  Bytes, codes, equal, has_prefix, contains_byte, is_space, trim_left, trim_right, trim_space,
}
use zetproxy_turbo.Text.Laws.{equal_iff, cut_byte-append}
use zetproxy_turbo.Text.Trim.{IsSolid}
use zetproxy_turbo.Dict.{lookup, insert}
use zetproxy_turbo.Dict.Laws.{lookup-delete_self, lookup-insert_self}
use zetproxy_turbo.Relay.{idle, piping, Relay, init, send, become, phone_id, newline, start_pipe}
use zetproxy_turbo.Relay.Command.{connect_line, data_line, command_of_line, command}
use zetproxy_turbo.Relay.Machine.{Event, line, proceeds, step, run}
use zetproxy_turbo.Relay.Phones.{run-Control}
use zetproxy_turbo.Relay.Moves.{connect_lem, notify_lem, announce_lem, pipe_lem}
use zetproxy_turbo.Phone.{relay_data, order, complete_lines, orders, is_ready}
use zetproxy_turbo.Phone.Agree.{IsId, letter-IsId, trim_ends-solid, command-data_line}
use zetproxy_turbo.Phone.Served.{answering}

-- The line of a plain client.
abbrev pub connect_line_bytes : Bytes → Bytes
connect_line_bytes id = codes "connect:" ++ (id ++ (10 ∷ []))

command-connect_line : (id : Bytes) → IsId id → command (connect_line_bytes id) ≡ connect_line id
unfolding command command_of_line contains_byte equal has_prefix is_space
command-connect_line id (solid, colon, l) =
    let whole = codes "connect:" ++ id in
    let solid_line : IsSolid whole =
      (refl, (refl, (refl, (refl, (refl, (refl, (refl, (refl, solid)))))))) in
    rw (cut_byte-append whole [] 10 l) (rw (trim_ends-solid whole solid_line))

-- The first steps of the client's handler.
abbrev pub naming : ℕ → Bytes → Relay → Relay
naming c id s = step (step s (line c (command (connect_line_bytes id)))) (proceeds c true)

conn_read : orders (codes "conn" ++ newline) ≡ relay_data ∷ []
unfolding orders complete_lines order trim_space trim_left trim_right is_space has_prefix equal
conn_read = refl

ready_read : is_ready (codes "ready" ++ newline) ≡ true
unfolding is_ready trim_space trim_left trim_right is_space equal
ready_read = refl

-- After any events, let the phone `id` have a control connection `p`, and let a plain client `c` send
-- its line for that id. Then the client is told `ready`, and that control connection gets one message,
-- which the phone's loop reads as the order to serve a plain client, if the phone has been told its
-- id before; and when the phone's data connection `d`
-- announces the phone's id as the phone writes it, that connection is told `ready`, which the phone
-- takes for the sign to dial its own port, the client is piped with it, and no entry for the id is
-- left. No other handler moves in between.
pub plain_served :
    (es : List Event) (c d p n : ℕ)
    → let s = run init es in
      let id = phone_id n in
      let t = naming c id s in
      let u = answering c d id t in
      s.tasks c ≡ idle
      → s.tasks d ≡ idle
      → c ≢ d
      → lookup id s.ctrl ≡ some p
      → (t.sent c ≡ s.sent c ++ (codes "ready" ++ newline))
        × (t.sent p ≡ s.sent p ++ (codes "conn" ++ newline))
        × (orders (codes "conn" ++ newline) ≡ relay_data ∷ [])
        × (u.sent d ≡ s.sent d ++ (codes "ready" ++ newline))
        × (is_ready (codes "ready" ++ newline) ≡ true)
        × (u.tasks c ≡ piping id d)
        × (u.sent c ≡ t.sent c)
        × (lookup id u.wait ≡ none)
unfolding send become start_pipe
plain_served es c d p n f g n' h =
    let s = run init es in
    let v = run-Control es in
    let id = phone_id n in
    let reg = v.entries id p h in
    let key = letter-IsId b'p' n (omega arith) (omega arith) in
    let s1 = step s (line c (connect_line id)) in
    let s2 = step s1 (proceeds c true) in
    let s3 = step s2 (line d (data_line id)) in
    let a = connect_lem s c id f (ground (arith, equal_iff id [])) in
    let b = notify_lem s1 c p id true (rw a (ground arith)) (rw a h) in
    let entry = lookup-insert_self id c s.wait in
    let k = announce_lem s2 d c id (rw (b, a) (ground arith)) (rw (b, a) entry) in
    let q =
      pipe_lem s3 c d false true id (rw (k, b, a) (ground arith)) (rw (k, b, a) (ground arith)) in
    let gone = lookup-delete_self id (insert id c s.wait) in
    let line_read = command-connect_line id key in
    let data_read = command-data_line id key in
    rw (line_read, data_read)
      (rw (q, k, b, a)
        (
          ground arith,
          ground arith,
          conn_read,
          ground arith,
          ready_read,
          ground arith,
          ground arith,
          gone,
        ))
