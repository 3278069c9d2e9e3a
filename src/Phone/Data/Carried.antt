-- ===== src/Phone/Data/Carried.antt =====
-- From the relay's client through the phone to the target, and from the relay's messages to the
-- phone's handlers.
use zetproxy_turbo.Base.{
  ℕ, ◌<◌, ◌≡◌, refl, ap, true, some, List, [], ◌∷◌, ◌++◌, map, arith, length, take, drop,
  length-append, length-take, length-drop,
}
use zetproxy_turbo.Text.{
  Bytes, codes, equal, has_prefix, contains_byte, is_space, trim_left, trim_right, trim_space,
  show_nat,
}
use zetproxy_turbo.Copy.{Round, Pair, Side, downward, relay, pipe}
use zetproxy_turbo.Copy.Total.{rounds, AreWhole}
use zetproxy_turbo.Copy.Cut.{IsPrefix, run_cut}
use zetproxy_turbo.Phone.{
  relay_host, relay_addr, parse_id, relay_data, order, complete_lines, orders, is_ready,
}
use zetproxy_turbo.Phone.Data.{
  read_string, Net, exchange, handle_relay_target, Started, target_handler, data_handler, connected,
  start_orders, start_relay_tunnel,
}
use zetproxy_turbo.Phone.Agree.{IsLine, letter-IsId, client_agreed}
use zetproxy_turbo.Relay.{phone_id, client_id, newline, ctrl_msg}
use zetproxy_turbo.Addr.{join_host_port}
use zetproxy_turbo.Text.Laws.{cut_byte-append}
use zetproxy_turbo.Text.Trim.{IsSolid, trim_right-solid}

-- What the relay may tell a phone: a SOCKS5 client with its number, host and port, or a plain client.
pub data Message : Type 0 where
  socks : ℕ → Bytes → ℕ → Message
  plain : Message

abbrev pub message_bytes : Message → Bytes
message_bytes (socks n host port) = ctrl_msg (client_id n) (join_host_port host (show_nat port))
message_bytes plain = codes "conn" ++ newline

abbrev pub messages_bytes : List Message → Bytes
messages_bytes [] = []
messages_bytes (m ∷ ms) = message_bytes m ++ messages_bytes ms

-- No host holds a line end.
abbrev pub AreLines : List Message → Type 0
AreLines [] = Unit
AreLines (socks n host port ∷ ms) = IsLine host × AreLines ms
AreLines (plain ∷ ms) = AreLines ms

-- The handler that should be started.
abbrev pub wanted : Bytes → Bytes → Bytes → Message → Started
wanted local_port relay id (socks n host port) =
    target_handler relay (client_id n) (join_host_port host (show_nat port))
wanted local_port relay id plain = data_handler local_port relay id

orders-plain :
    (rest : Bytes) → orders (codes "conn" ++ (newline ++ rest)) ≡ relay_data ∷ orders rest
unfolding orders order complete_lines trim_space trim_left trim_right is_space has_prefix equal
orders-plain rest = refl

nothing_started : (local_port relay id : Bytes) → start_orders local_port relay id (orders []) ≡ []
unfolding orders complete_lines
nothing_started local_port relay id = refl

-- The id in the relay's answer, when its line end is cut off.
parse_id-phone_id : (n : ℕ) → parse_id (codes "id:" ++ phone_id n) ≡ some (phone_id n)
unfolding parse_id trim_space trim_left is_space has_prefix
parse_id-phone_id n =
    let id = letter-IsId b'p' n (omega arith) (omega arith) in
    let solid_line : IsSolid (codes "id:" ++ phone_id n) = (refl, (refl, (refl, id.0))) in
    rw (trim_right-solid (codes "id:" ++ phone_id n) solid_line) refl

answer-IsLine : (n : ℕ) → IsLine (codes "id:" ++ phone_id n)
unfolding contains_byte
answer-IsLine n = (letter-IsId b'p' n (omega arith) (omega arith)).2

started_lem :
    (local_port relay id : Bytes) (ms : List Message)
    → AreLines ms
    → start_orders local_port relay id (orders (messages_bytes ms))
      ≡ map (wanted local_port relay id) ms
started_lem local_port relay id [] h = nothing_started local_port relay id
started_lem local_port relay id (socks n host port ∷ ms) (l, h) =
    rw ((client_agreed n port host (messages_bytes ms) l).0) (
      ap (◌∷◌ (wanted local_port relay id (socks n host port)))
        (started_lem local_port relay id ms h))
started_lem local_port relay id (plain ∷ ms) h =
    rw (orders-plain (messages_bytes ms))
      (ap (◌∷◌ (data_handler local_port relay id)) (started_lem local_port relay id ms h))

-- The relay's answer to the phone that it registers as number `n`, and then any messages about clients
-- whose hosts hold no line end: the phone takes the id that the relay gave, sets the URL with the relay's
-- host and that id, and its loop starts one handler for each message, in order, and nothing else: for a
-- SOCKS5 client with the client's id and exactly its address, for a plain client with the phone's
-- own id.
pub registered_lem :
    (n : ℕ) (ms : List Message) (local_port addr : Bytes)
    → AreLines ms
    → let id = phone_id n in
      start_relay_tunnel true true
        (codes "id:" ++ (id ++ (newline ++ messages_bytes ms)))
        local_port
        addr
      ≡ connected
          (relay_host (relay_addr addr) ++ (codes " (relay " ++ (id ++ codes ")")))
          (map (wanted local_port (relay_addr addr) id) ms)
unfolding start_relay_tunnel
registered_lem n ms local_port addr h =
    let id = phone_id n in
    let relay = relay_addr addr in
    rw (cut_byte-append (codes "id:" ++ id) (messages_bytes ms) 10 (answer-IsLine n)) (
      rw (parse_id-phone_id n) (
        ap (connected (relay_host relay ++ (codes " (relay " ++ (id ++ codes ")"))))
          (started_lem local_port relay id ms h)))

ready_lem :
    (s : Bytes) → read_string (codes "ready" ++ (newline ++ s)) ≡ (codes "ready" ++ newline, s)
unfolding read_string
ready_lem s = refl

exchange_ready :
    (net : Net) (addr id target answer bytes : Bytes)
    → net.relay_up ≡ true
    → net.write_ok ≡ true
    → net.dial target ≡ some answer
    → net.incoming ≡ codes "ready" ++ (newline ++ bytes)
    → (handle_relay_target net addr id target).copies
      ≡ some (relay net.size net.schedule answer (drop net.ahead bytes))
unfolding handle_relay_target exchange is_ready equal trim_space trim_left trim_right is_space
exchange_ready net addr id target answer bytes up ok dialled incoming =
    rw (up, ok, dialled, incoming, ready_lem bytes) refl

-- Let a client send `buffered ++ a`, let the target have `answer` to send, and let the relay read `k`
-- bytes from the phone's data connection before the return of its handler closes it, so that later
-- writes to it may fail on either end. When the relay has written its "ready" before, no write to
-- the client and none to the target fails, and these copies run long enough: the phone dials the
-- target and relays. What the relay passes on is a prefix of what the client sent, and the target
-- gets exactly that, except for the bytes that came to the phone together with the "ready" line:
-- `net.ahead` of them, or all if there are fewer. What the phone passes on is a prefix of the answer,
-- and the client gets exactly the first `k` bytes of the answer, or all if there are fewer.
pub carried :
    (size k : ℕ) (es : List (Side × Round)) (net : Net) (addr id target buffered a answer : Bytes)
    → let q = pipe size es buffered a (take k answer) in
      net.relay_up ≡ true
      → net.write_ok ≡ true
      → net.dial target ≡ some answer
      → net.incoming ≡ codes "ready" ++ (newline ++ q.up.sent)
      → length answer < length (rounds downward es)
      → AreWhole (rounds downward es)
      → length (buffered ++ a) < length (rounds downward net.schedule)
      → AreWhole (rounds downward net.schedule)
      → (p : Pair) × ((handle_relay_target net addr id target).copies ≡ some p)
        × IsPrefix q.up.sent (buffered ++ a)
        × (p.down.sent ≡ drop net.ahead q.up.sent)
        × IsPrefix p.up.sent answer
        × (q.down.sent ≡ take k answer)
unfolding pipe relay
carried size k es net addr id target buffered a answer up ok dialled incoming h x h' x' =
    let q = pipe size es buffered a (take k answer) in
    let rest = drop net.ahead q.up.sent in
    let shorter : length (take k answer) < length (rounds downward es) =
      omega (arith, length-take k answer) in
    let (back, part) = run_cut size es (buffered ++ a) (take k answer) shorter x in
    let (more, e) = part in
    let fewer : length rest < length (rounds downward net.schedule) = omega (
      arith,
      length-drop net.ahead q.up.sent,
      length-append q.up.sent more,
      ap (λ (s : Bytes). length s) e,
    ) in
    let (down_sent, part') = run_cut net.size net.schedule answer rest fewer x' in
    (
      relay net.size net.schedule answer rest,
      exchange_ready net addr id target answer q.up.sent up ok dialled incoming,
      part,
      down_sent,
      part',
      back,
    )
