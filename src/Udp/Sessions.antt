-- ===== src/Udp/Sessions.antt =====
-- The session map of the tunnel server: which client has which session.
use zetproxy_turbo.Base.{
  ℕ, ◌≡◌, refl, ◌∙◌, ◌≢◌, true, false, none, some, [], ◌∷◌, arith, length, get_elem?, add_int64,
  inc_int32, dec_int32,
}
use zetproxy_turbo.Text.{Bytes, equal}
use zetproxy_turbo.Dict.{lookup}
use zetproxy_turbo.Dict.Laws.{lookup-insert, lookup-delete_self, lookup-insert_self}
use zetproxy_turbo.Udp.{
  UdpSession, Udp, count_packet, count_out, count_session, drop_active, ended, open_session, look,
  pass_on, forward_taken, forward, is_idle, sweep_one, remote_of, reader_error,
}
use zetproxy_turbo.Udp.Blocks.{get_elem?-modify, get_elem?-length}

-- A packet from a client that has no session, with an upstream that can be dialled: afterwards the
-- client has a new session of its own, open, read and touched now, with the packet sent upstream,
-- every other client's session is as it was, and the packet, its bytes and the session are counted.
pub receive_opens :
    (key payload : Bytes) (now : ℕ) (u : Udp)
    → lookup key u.sessions ≡ none
    → let v = forward now true (look key payload u) in
      (lookup key v.sessions ≡ some (length u.objects))
      × (get_elem? v.objects (length u.objects)
          ≡ some (record {
            remote = key;
            last_activity = now;
            connected = true;
            reading = true;
            written = payload ∷ [];
          }))
      × ((other : Bytes)
          → equal key other ≡ false
          → lookup other v.sessions ≡ lookup other u.sessions)
      × (v.server.stats.udp_packets ≡ add_int64 u.server.stats.udp_packets 1)
      × (v.server.stats.bytes_out ≡ add_int64 u.server.stats.bytes_out (length payload))
      × (v.server.stats.conns_active ≡ inc_int32 u.server.stats.conns_active)
unfolding look forward forward_taken pass_on open_session count_packet count_session count_out
receive_opens key payload now u h = rw h (
  lookup-insert_self key (length u.objects) u.sessions,
  get_elem?-length u.objects _,
  λ other d. lookup-insert key other (length u.objects) u.sessions ∙ rw d,
  refl,
  refl,
  refl,
)

-- The reader of an old session that fails takes the map's entry for its client whatever session the
-- client has by then: a client with a newer session `id'` has none any more, while the newer session
-- stays open with its reader.
pub reader_error_evicts :
    (id id' : ℕ) (u : Udp) (o : UdpSession)
    → let key = remote_of id u.objects in
      lookup key u.sessions ≡ some id'
      → id ≢ id'
      → get_elem? u.objects id' ≡ some o
      → (lookup key (reader_error id u).sessions ≡ none)
        × (get_elem? (reader_error id u).objects id' ≡ some o)
unfolding reader_error
reader_error_evicts id id' u o h d e = (
  lookup-delete_self (remote_of id u.objects) u.sessions,
  get_elem?-modify id id' ended u.objects ∙ ground arith,
)

-- One session that the sweeper takes is counted down twice, by the sweeper and by its reader, which
-- gets an error from the closed connection.
pub sweep_then_error :
    (now id : ℕ) (key : Bytes) (u : Udp)
    → is_idle now id u.objects ≡ true
    → (reader_error id (sweep_one now (key, id) u)).server.stats.conns_active
      ≡ dec_int32 (dec_int32 u.server.stats.conns_active)
unfolding reader_error sweep_one drop_active
sweep_then_error now id key u h = rw h
