-- ===== src/Phone/Data.antt =====
-- The phone's connections: `StartRelayTunnel`, `handleRelayTarget` and `handleRelayData` of
-- internal/tunnel/relay.go.
--
-- What the network decides is a parameter: which dials and writes succeed, what the other ends send,
-- and how many bytes behind a line the buffered reader has taken with it.
pub mod Carried
use zetproxy_turbo.Base.{
  ℕ, Bool, not, Option, none, some, List, [], ◌∷◌, ◌++◌, ◌==◌, if◌then◌else◌, drop,
}
use zetproxy_turbo.Text.{Bytes, codes, cut_byte, trim_space}
use zetproxy_turbo.Copy.{Round, Pair, Side, relay}
use zetproxy_turbo.Phone.{
  relay_host, relay_addr, parse_id, Order, relay_target, relay_data, ignored, orders,
  data_line_bytes, is_ready,
}

-- The two results of `r.ReadString('\n')` without the error: the bytes up to a line end and with it, or
-- all bytes to the end of the stream; and what is still unread.
unfoldable pub read_string : Bytes → Bytes × Bytes
read_string [] = ([], [])
read_string (c ∷ s) =
    let (line, rest) = read_string s in if c == 10 then (c ∷ [], s) else (c ∷ line, rest)

-- What a connection to the relay and the dials behind it meet.
pub record Net : Type 0 where
  pub relay_up : Bool  -- the dial to the relay succeeds
  pub write_ok : Bool  -- the write of the first line succeeds
  pub incoming : Bytes  -- all that the relay sends on the connection
  pub ahead : ℕ  -- bytes behind the first line that `bufio.Reader` has read by then
  pub dial : Bytes → Option Bytes  -- the dial of a target, with all that the target will send
  pub size : ℕ
  pub schedule : List (Side × Round)  -- of the copies of `Relay`

-- What a data connection came to.
pub record Data : Type 0 where
  pub dialed : List Bytes
  pub written : Bytes  -- the line written to the relay
  pub copies : Option Pair  -- up is from the target to the relay

abbrev pub not_relayed : List Bytes → Bytes → Data
not_relayed dialed written = record { dialed = dialed; written = written; copies = none }

-- From the dial to the relay on; every return closes what was opened.
unfoldable pub exchange : Net → Bytes → Bytes → Bytes → Data
exchange net relay_addr id target =
    if not net.relay_up
    then not_relayed (relay_addr ∷ []) []
    else if not net.write_ok
    then not_relayed (relay_addr ∷ []) []
    else (let (resp, rest) = read_string net.incoming in
        if not (is_ready resp)
        then not_relayed (relay_addr ∷ []) (data_line_bytes id)
        else elim (net.dial target) [
          | none ↦ not_relayed (relay_addr ∷ target ∷ []) (data_line_bytes id)
          | some answer ↦ record {
            dialed = relay_addr ∷ target ∷ [];
            written = data_line_bytes id;
            copies = some (relay net.size net.schedule answer (drop net.ahead rest));
          }
        ])

unfoldable pub handle_relay_target : Net → Bytes → Bytes → Bytes → Data
handle_relay_target net relay_addr cid target = exchange net relay_addr cid target

unfoldable pub handle_relay_data : Net → Bytes → Bytes → Bytes → Data
handle_relay_data net local_port relay_addr id =
    exchange net relay_addr id (codes "127.0.0.1:" ++ local_port)

-- `go handleRelayTarget(relayAddr, cid, target)` and `go handleRelayData(localPort, relayAddr, id, ctrl)`
pub data Started : Type 0 where
  target_handler : Bytes → Bytes → Bytes → Started
  data_handler : Bytes → Bytes → Bytes → Started

-- How `StartRelayTunnel` goes: an error, or the URL that it sets, with the handlers that its loop starts
-- until the control connection is lost.
pub data Registration : Type 0 where
  not_connected not_registered no_answer : Registration
  bad_response : Bytes → Registration
  connected : Bytes → List Started → Registration

abbrev start_order : Bytes → Bytes → Bytes → Order → List Started
start_order local_port relay_addr id (relay_target cid target) =
    target_handler relay_addr cid target ∷ []
start_order local_port relay_addr id relay_data = data_handler local_port relay_addr id ∷ []
start_order local_port relay_addr id ignored = []

abbrev pub start_orders : Bytes → Bytes → Bytes → List Order → List Started
start_orders local_port relay_addr id [] = []
start_orders local_port relay_addr id (o ∷ os) =
    start_order local_port relay_addr id o ++ start_orders local_port relay_addr id os

-- `incoming` is all that the relay sends on the control connection, whose reader is the same from the
-- first line on.
unfoldable pub start_relay_tunnel : Bool → Bool → Bytes → Bytes → Bytes → Registration
start_relay_tunnel relay_up write_ok incoming local_port addr =
    let relay = relay_addr addr in
    if not relay_up
    then not_connected
    else if not write_ok
    then not_registered
    else elim (cut_byte incoming 10) [
      | none ↦ no_answer
      | some (resp, rest) ↦ elim (parse_id resp) [
        | none ↦ bad_response (trim_space resp)
        | some id ↦
            connected (relay_host relay ++ (codes " (relay " ++ (id ++ codes ")")))
              (start_orders local_port relay id (orders rest))
      ]
    ]
