-- ===== src/Relay/Routing.antt =====
-- Which data connection meets which client.
use zetproxy_turbo.Base.{ℕ, ◌≡◌, ◌≢◌, Bool, true, false, none, some, List, [], arith}
use zetproxy_turbo.Text.{Bytes, equal}
use zetproxy_turbo.Text.Laws.{equal_iff}
use zetproxy_turbo.Dict.{lookup, insert}
use zetproxy_turbo.Dict.Laws.{lookup-delete_self, lookup-insert_self}
use zetproxy_turbo.Relay.{
  idle, waiting, piping, delivered, done, Relay, init, send, become, close, announce, give_up,
  time_out,
}
use zetproxy_turbo.Relay.Command.{connect_line, data_line}
use zetproxy_turbo.Relay.Machine.{
  Event, line, proceeds, expires, start, proceed, begin, expire, step, run,
}
use zetproxy_turbo.Relay.Invariant.{key_of}
use zetproxy_turbo.Relay.Steps.{run-Inv}
use zetproxy_turbo.Relay.Moves.{connect_lem, announce_lem, announce_lost}

-- After any events: what lies in a client's channel is one data connection that announced the id
-- under which this client waits or waited, and it lies in no other client's channel.
pub routed :
    (es : List Event) (c d : ℕ)
    → let s = run init es in
      s.inbox c ≡ some d
      → ((id : Bytes) × (s.tasks d ≡ delivered id) × (key_of (s.tasks c) ≡ some id))
        × ((e : ℕ) → s.inbox e ≡ some d → e ≡ c)
routed es c d h = let v = run-Inv es in (v.inboxes c d h, λ e k. v.once e c d k h)

-- After any events: a data connection that announces an id for which there is an entry finds the
-- channel of that entry's client empty, so its handler never blocks on the channel, and the entry's
-- client is one that waits or waited for this id.
pub announce_free :
    (es : List Event) (id : Bytes) (c : ℕ)
    → let s = run init es in
      lookup id s.wait ≡ some c → (s.inbox c ≡ none) × (key_of (s.tasks c) ≡ some id)
announce_free es id c h = let (k, e) = (run-Inv es).entries id c h in (e, k)

-- After any events: when a client is being piped with a data connection, the next step of that data
-- connection's own handler, its return, closes the data connection, whatever the client does; the
-- client stays in its pipe.
pub piped_is_closed :
    (es : List Event) (c d : ℕ) (id : Bytes) (ok : Bool)
    → (run init es).tasks c ≡ piping id d
    → let t = step (run init es) (proceeds d ok) in (t.closed d ≡ true) × (t.tasks c ≡ piping id d)
unfolding step proceed close
piped_is_closed es c d id ok h =
    let v = run-Inv es in let (i, a, b) = v.inboxes c d (v.pipes c d id h) in ground arith

-- A plain client that waits in vain leaves its entry behind: a data connection that announces its id
-- later is put into the channel of the closed client.
pub stale_entry :
    (s : Relay) (c d : ℕ) (id : Bytes)
    → s.tasks c ≡ waiting false id
    → s.tasks d ≡ idle
    → lookup id s.wait ≡ some c
    → let t = step (step s (expires c)) (line d (data_line id)) in
      (t.inbox c ≡ some d) × (t.closed c ≡ true) × (t.tasks d ≡ delivered id)
unfolding step expire time_out begin start announce send become close
stale_entry s c d id f g h = ground arith

-- A SOCKS5 client that waits in vain takes its entry with it: a data connection that announces its id
-- later reaches nobody and is closed.
pub socks_entry :
    (s : Relay) (c d : ℕ) (id : Bytes)
    → s.tasks c ≡ waiting true id
    → s.tasks d ≡ idle
    → let t = step (step s (expires c)) (line d (data_line id)) in
      (t.inbox c ≡ s.inbox c) × (t.closed d ≡ true) × (t.tasks d ≡ done)
unfolding step expire time_out begin start give_up announce send become close
socks_entry s c d id f g = ground (arith, lookup-delete_self id s.wait)

-- After any events, let a client wait with its entry in `wait`, under the id of a SOCKS5 client or
-- the phone that a plain client has named. Any other client may name this id: the entry is then the
-- newcomer's, the first data connection for the id goes to the newcomer, and the second one, which
-- the phone opens for the first client, is closed as nobody's; the first client goes on waiting, with
-- nothing in its channel and without an entry.
pub taken_over :
    (es : List Event) (c e d d' : ℕ) (socks : Bool) (id : Bytes)
    → let s = run init es in
      s.tasks c ≡ waiting socks id
      → lookup id s.wait ≡ some c
      → s.tasks e ≡ idle
      → s.tasks d ≡ idle
      → s.tasks d' ≡ idle
      → e ≢ d
      → e ≢ d'
      → d ≢ d'
      → id ≢ []
      → let t = step (step s (line e (connect_line id))) (line d (data_line id)) in
        let u = step t (line d' (data_line id)) in
        (u.inbox e ≡ some d)
        × (u.inbox c ≡ none)
        × (u.tasks c ≡ waiting socks id)
        × (lookup id u.wait ≡ none)
        × (u.closed d' ≡ true)
        × (u.tasks d' ≡ done)
unfolding become send close
taken_over es c e d d' socks id f own g h h' n n' n'' m =
    let s = run init es in
    let free = (announce_free es id c own).0 in
    let r = step s (line e (connect_line id)) in
    let t = step r (line d (data_line id)) in
    let named : equal id [] ≡ false = ground (arith, equal_iff id []) in
    let a = connect_lem s e id g named in
    let entry = lookup-insert_self id e s.wait in
    let b = announce_lem r d e id (rw a (ground arith)) (rw a entry) in
    let gone = lookup-delete_self id (insert id e s.wait) in
    let l = announce_lost t d' id (rw (b, a) (ground arith)) (rw (b, a) gone) in
    rw (l, b, a) (ground arith, ground arith, ground arith, gone, ground arith, ground arith)
