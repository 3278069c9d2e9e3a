-- ===== src/Relay/Moves.antt =====
-- Single steps of the relay, as equations.
use zetproxy_turbo.Base.{ℕ, ◌≡◌, refl, Bool, false, none, some, [], ◌++◌}
use zetproxy_turbo.Text.{Bytes, codes, equal}
use zetproxy_turbo.Dict.{lookup, delete, insert}
use zetproxy_turbo.Relay.{
  idle, entered, waiting, delivered, done, update, Relay, send, become, close, newline, connect,
  notify, announce, start_pipe,
}
use zetproxy_turbo.Relay.Command.{connect_line, data_line}
use zetproxy_turbo.Relay.Machine.{line, proceeds, start, receive, proceed, begin, step}

module _ (s : Relay) where
  -- A plain client names an id.
  pub connect_lem :
      (c : ℕ) (id : Bytes)
      → s.tasks c ≡ idle
      → equal id [] ≡ false
      → step s (line c (connect_line id))
        ≡ become c
            (entered id)
            (send c (codes "ready" ++ newline) (record s { wait = insert id c s.wait }))
  unfolding step begin start connect
  connect_lem c id f m = rw (f, begin) (rw (m, connect) refl)

  -- The phone of that id is told.
  pub notify_lem :
      (c p : ℕ) (id : Bytes) (ok : Bool)
      → s.tasks c ≡ entered id
      → lookup id s.ctrl ≡ some p
      → step s (proceeds c ok) ≡ become c (waiting false id) (send p (codes "conn" ++ newline) s)
  unfolding step proceed notify
  notify_lem c p id ok f h = rw (f, proceed) (rw (h, notify) refl)

  -- A data connection for an id that has an entry.
  pub announce_lem :
      (d c : ℕ) (id : Bytes)
      → s.tasks d ≡ idle
      → lookup id s.wait ≡ some c
      → let t = send d (codes "ready" ++ newline) s in
        step s (line d (data_line id))
        ≡ become d
            (delivered id)
            (record t { wait = delete id t.wait; inbox = update t.inbox c (some d) })
  unfolding step begin start announce send
  announce_lem d c id f h = rw (f, begin) (rw (h, announce) refl)

  -- And for one that has none.
  pub announce_lost :
      (d : ℕ) (id : Bytes)
      → s.tasks d ≡ idle
      → lookup id s.wait ≡ none
      → step s (line d (data_line id))
        ≡ close d (become d done (send d (codes "ready" ++ newline) s))
  unfolding step begin start announce send
  announce_lost d id f h = rw (f, begin) (rw (h, announce) refl)

  -- A client whose data connection is there is piped with it.
  pub pipe_lem :
      (c d : ℕ) (socks ok : Bool) (id : Bytes)
      → s.tasks c ≡ waiting socks id
      → s.inbox c ≡ some d
      → step s (proceeds c ok) ≡ start_pipe c socks id d s
  unfolding step proceed receive
  pipe_lem c d socks ok id f h = rw (f, proceed) (rw (h, receive) refl)
