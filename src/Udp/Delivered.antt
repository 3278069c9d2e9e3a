-- ===== src/Udp/Delivered.antt =====
-- Which packets a session of the tunnel server sends upstream, in every interleaving.
use zetproxy_turbo.Base.{ℕ, ◌≡◌, true, some, List, ◌++◌, get_elem?}
use zetproxy_turbo.Text.{Bytes}
use zetproxy_turbo.Dict.{lookup}
use zetproxy_turbo.Tunnel.{Server}
use zetproxy_turbo.Udp.{UdpSession, Udp, at_start, sweep}
use zetproxy_turbo.Udp.Blocks.{from, lookup-Owned}
use zetproxy_turbo.Udp.Accounts.{
  Reach, here, accepts, releases, takes, forwards, sweeps, reads, stops,
}
use zetproxy_turbo.Udp.Kept.{in_flight, Inv, at_start-Inv, read_packet-Inv}
use zetproxy_turbo.Udp.Shrinks.{
  Shrinks-Inv, reader_data-Shrinks, reader_error-Shrinks, same_sessions-Shrinks, sweep_entries-Inv,
}
use zetproxy_turbo.Udp.Sends.{forward-Inv}

pub Reach-Inv : (server : Server) {k : ℕ} {v : Udp} → Reach (at_start server) k v → Inv v
unfolding sweep
Reach-Inv server here = at_start-Inv server
Reach-Inv server (accepts {k} {v} r) =
    Shrinks-Inv v _ (same_sessions-Shrinks v _) (Reach-Inv server r)
Reach-Inv server (releases {k} {v} r p) =
    Shrinks-Inv v _ (same_sessions-Shrinks v _) (Reach-Inv server r)
Reach-Inv server (takes {k} {v} {w} late i r t e) =
    read_packet-Inv late i v w t e (Reach-Inv server r)
Reach-Inv server (forwards {k} {v} now d r) = forward-Inv now d v (Reach-Inv server r)
Reach-Inv server (sweeps {k} {v} now r) =
    let i = Reach-Inv server r in sweep_entries-Inv now v.sessions v i.owned i
Reach-Inv server (reads {k} {v} id b now r p) =
    Shrinks-Inv v _ (reader_data-Shrinks id b now v) (Reach-Inv server r)
Reach-Inv server (stops {k} {v} id r p) =
    let i = Reach-Inv server r in Shrinks-Inv v _ (reader_error-Shrinks id v i.owned) i

-- In every interleaving of packets, sweeps, session readers and TCP connections, a session that the map
-- has for a client is that client's own, open, and read by its reader; and what it has sent upstream is
-- exactly the last packets that came from this client, each whole, in order, none twice and none left
-- out, and none of another client, but for the packet that the loop holds at that moment.
pub delivered :
    (server : Server) (key : Bytes) (id : ℕ) {k : ℕ} {v : Udp}
    → Reach (at_start server) k v
    → lookup key v.sessions ≡ some id
    → (o : UdpSession) × (get_elem? v.objects id ≡ some o)
      × (o.remote ≡ key)
      × (o.connected ≡ true)
      × (o.reading ≡ true)
      × ((earlier : List Bytes) × (from key v.received
            ≡ earlier ++ (o.written ++ in_flight key v.taken)))
delivered server key id {k} {v} r h =
    let i = Reach-Inv server r in
    let (o, e, q) = lookup-Owned key id v.objects v.sessions i.owned h in
    let (c, s, b) = i.current key id o h e in (o, e, q, c, s, b)

-- Also a session that the map no longer has, swept, ended or evicted, has sent upstream an unbroken
-- run of its own client's packets in order, and nothing else.
pub isolated :
    (server : Server) (id : ℕ) (o : UdpSession) {k : ℕ} {v : Udp}
    → Reach (at_start server) k v
    → get_elem? v.objects id ≡ some o
    → (later : List Bytes) × ((earlier : List Bytes) × (from o.remote v.received
          ≡ earlier ++ (o.written ++ later)))
isolated server id o r h = (Reach-Inv server r).blocks id o h
