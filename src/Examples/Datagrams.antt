-- ===== src/Examples/Datagrams.antt =====
-- Runs of the tunnel server of internal/tunnel/tunnel.go on packets.
use zetproxy_turbo.Udp.Accounts
use zetproxy_turbo.Base.{
  ℕ, ◌≡◌, refl, true, false, none, some, List, [], ◌∷◌, ◌++◌, arith, get_elem?,
}
use zetproxy_turbo.Text.{Bytes, codes, equal}
use zetproxy_turbo.Dict.{lookup, delete, insert}
use zetproxy_turbo.Tunnel.{new, set_max_conns}
use zetproxy_turbo.Udp.{
  UdpSession, Udp, at_start, modify, count_packet, count_out, count_session, drop_active,
  open_session, look, pass_on, forward_taken, forward, packet, read_packet, is_idle, sweep_one,
  sweep_entries, sweep, remote_of, reader_error,
}
use zetproxy_turbo.Udp.Accounts.{
  swept_entries, Reach, here, takes, forwards, sweeps, Accounts, Reach-Accounts,
}
use zetproxy_turbo.Udp.Sessions.{reader_error_evicts}
use zetproxy_turbo.Udp.Delivered.{delivered}
use zetproxy_turbo.Udp.Idle.{sweep_lem}

abbrev empty : Udp
empty = at_start (set_max_conns new 2)

abbrev anna : Bytes
anna = codes "10.0.0.2:5000"

abbrev bert : Bytes
bert = codes "10.0.0.3:5000"

-- A packet and the whole round of the loop for it.
abbrev round : Bytes → Bytes → ℕ → Udp → Udp
round key payload now u = forward now true (look key payload u)

-- A packet opens a session at second 5.
abbrev opened : Udp
opened = round anna (codes "a1") 5 empty

abbrev opening : Accounts.Reach empty 0 opened
unfolding read_packet
opening = forwards 5 true (takes false (packet anna (codes "a1")) here refl refl)

-- The session is swept at second 200, and the client comes back.
abbrev reopened : Udp
reopened = round anna (codes "a2") 201 (sweep 200 opened)

Reach-Accounts_example : Accounts 1 (sweep 200 opened)
unfolding look forward forward_taken pass_on open_session count_packet count_session count_out sweep
    sweep_entries sweep_one is_idle drop_active modify swept_entries set_max_conns new lookup insert
    delete
Reach-Accounts_example = Reach-Accounts 2 (sweeps 200 opening)

reader_error_evicts_example :
    let v = reader_error 0 reopened in
    (lookup anna v.sessions ≡ none)
    × (get_elem? v.objects 1
        ≡ some (record {
          remote = anna;
          last_activity = 201;
          connected = true;
          reading = true;
          written = codes "a2" ∷ [];
        }))
unfolding look forward forward_taken pass_on open_session count_packet count_session count_out sweep
    sweep_entries sweep_one is_idle drop_active modify lookup delete insert equal set_max_conns new
    remote_of
reader_error_evicts_example =
    reader_error_evicts 0 1 reopened
      (record {
        remote = anna;
        last_activity = 201;
        connected = true;
        reading = true;
        written = codes "a2" ∷ [];
      })
      refl (ground arith) refl

-- Another client's packet comes in between, and a third packet is held by the loop.
abbrev busy : Udp
busy = look anna (codes "a3") (round anna (codes "a2") 7 (round bert (codes "b1") 6 opened))

delivered_example :
    (o : UdpSession) × (get_elem? busy.objects 0 ≡ some o)
    × (o.remote ≡ anna)
    × (o.connected ≡ true)
    × (o.reading ≡ true)
    × ((earlier : List Bytes) × (codes "a1" ∷ codes "a2" ∷ codes "a3" ∷ []
          ≡ earlier ++ (o.written ++ codes "a3" ∷ [])))
unfolding look forward forward_taken pass_on open_session modify lookup delete insert equal
    read_packet
delivered_example =
    delivered (set_max_conns new 2) anna 0
      (takes false (packet anna (codes "a3"))
        (forwards 7 true (
          takes false (packet anna (codes "a2"))
            (forwards 6 true (takes false (packet bert (codes "b1")) opening refl refl)) refl refl))
        refl refl)
      refl

-- A packet whose session is swept between the lookup and the write is counted and reaches nobody.
lost_test :
    let u = forward 200 true (sweep 200 (look anna (codes "a2") opened)) in
    (get_elem? u.objects 0
      ≡ some (record {
        remote = anna;
        last_activity = 200;
        connected = false;
        reading = true;
        written = codes "a1" ∷ [];
      }))
    × (u.server.stats.bytes_out ≡ 4)
    × (u.sessions ≡ [])
unfolding look forward forward_taken pass_on open_session count_packet count_session count_out sweep
    sweep_entries sweep_one is_idle drop_active modify lookup delete insert equal set_max_conns new
lost_test = (refl, refl, refl)

-- At second 187 the first client's session is idle, the second client's is not.
abbrev two : Udp
two = round bert (codes "b1") 8 opened

sweep_lem_example :
    let w = sweep 187 two in
    (lookup anna w.sessions ≡ none)
    × (get_elem? w.objects 0
        ≡ some (record {
          remote = anna;
          last_activity = 5;
          connected = false;
          reading = true;
          written = codes "a1" ∷ [];
        }))
unfolding look forward forward_taken pass_on open_session modify lookup delete insert equal
    read_packet
sweep_lem_example =
    sweep_lem (set_max_conns new 2) 187 anna 0
      (record {
        remote = anna;
        last_activity = 5;
        connected = true;
        reading = true;
        written = codes "a1" ∷ [];
      })
      (forwards 8 true (takes false (packet bert (codes "b1")) opening refl refl)) refl refl
