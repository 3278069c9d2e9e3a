-- ===== src/Relay/Machine.antt =====
-- The relay as a machine: connections of any number, each in its handler, in any interleaving.
use zetproxy_turbo.Relay
use zetproxy_turbo.Base.{ℕ, Bool, Option, none, some, List, [], ◌∷◌, ◌++◌, if◌then◌else◌}
use zetproxy_turbo.Text.{Bytes, codes}
use zetproxy_turbo.Relay.{
  entered, notify, Task, idle, registered, chosen, queued, waiting, piping, delivered, Relay, init,
  send, become, close, leave, newline, register, answer, unregister, connect, announce, choose,
  enqueue, give_up, signal, start_pipe, time_out,
}
use zetproxy_turbo.Relay.Command.{
  Command, socks_line, register_line, connect_line, data_line, ping_line, other_line, closed_early,
}

-- What happens next, chosen by the clients, the phones and the clock.
pub data Event : Type 0 where
  line : ℕ → Command → Event  -- a new connection has sent its first line
  asks : ℕ → Bytes → Event  -- a SOCKS5 client's request for an address has been read
  proceeds : ℕ → Bool → Event  -- a handler takes its next step; whether its write succeeds
  expires : ℕ → Event  -- the 60 seconds of a `select` are over
  drops : ℕ → Event  -- a control connection that is being read failed

-- The `switch` of `handle`. A SOCKS5 client goes on with `asks`, or leaves.
unfoldable pub start : ℕ → Command → Relay → Relay
start c socks_line s = s
start c register_line s = register c s
start c (connect_line id) s = connect c id s
start c (data_line id) s = announce c id s
start c ping_line s = leave c (codes "pong" ++ newline) s
start c other_line s = leave c (codes "relay" ++ newline) s
start c closed_early s = leave c [] s

-- The data connection, if it is there.
unfoldable pub receive : ℕ → Bool → Bytes → Option ℕ → Relay → Relay
receive c socks id none s = s
receive c socks id (some d) s = start_pipe c socks id d s

unfoldable pub proceed : ℕ → Bool → Task → Relay → Relay
proceed c ok (registered id) s = answer c id s
proceed c ok (chosen phone addr) s = enqueue c phone addr s
proceed c ok (queued phone cid addr) s = signal c phone cid addr ok s
proceed c ok (entered id) s = notify c id s
proceed c ok (waiting socks id) s = receive c socks id (s.inbox c) s
proceed c ok (piping id d) s = close c s
proceed c ok (delivered id) s = close c s
proceed c ok _ s = s

unfoldable pub begin : ℕ → Command → Task → Relay → Relay
begin c cmd idle s = start c cmd s
begin c cmd _ s = s

unfoldable pub ask : ℕ → Bytes → Task → Relay → Relay
ask c addr idle s = choose c addr s
ask c addr _ s = s

unfoldable pub expire : ℕ → Task → Relay → Relay
expire c (waiting socks id) s = time_out c socks id s
expire c _ s = s

unfoldable pub drop_phone : ℕ → Task → Relay → Relay
drop_phone c (registered id) s = if s.answered c then unregister c id s else s
drop_phone c _ s = s

unfoldable pub step : Relay → Event → Relay
step s (line c cmd) = begin c cmd (s.tasks c) s
step s (asks c addr) = ask c addr (s.tasks c) s
step s (proceeds c ok) = proceed c ok (s.tasks c) s
step s (expires c) = expire c (s.tasks c) s
step s (drops c) = drop_phone c (s.tasks c) s

unfoldable pub run : Relay → List Event → Relay
run s [] = s
run s (e ∷ es) = run (step s e) es

-- What a run computes with.
unfoldable pub code : Unit {0}
unfolding run step drop_phone expire ask begin proceed receive start Relay.init Relay.send
    Relay.become Relay.close Relay.leave Relay.register Relay.answer Relay.unregister Relay.connect
    Relay.notify Relay.announce Relay.choose Relay.enqueue Relay.give_up Relay.signal
    Relay.start_pipe Relay.time_out
code = tt
