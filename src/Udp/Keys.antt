-- ===== src/Udp/Keys.antt =====
-- The keys of the session map.
use mathlib.Core.Option
use zetproxy_turbo.Base.{
  ℕ, ◌≡◌, subst, inl, inr, Bool, true, false, Option, none, some, List, [], ◌∷◌, arith, Bool-cases,
  length,
}
use zetproxy_turbo.Text.{Bytes, equal}
use zetproxy_turbo.Dict.{lookup, delete, insert}
use zetproxy_turbo.Dict.Laws.{lookup-delete, lookup-delete_self}
use zetproxy_turbo.Tunnel.{Server}
use zetproxy_turbo.Udp.{
  Taken, Udp, at_start, open_session, look, pass_on, forward_taken, forward, Incoming, timed_out,
  broken, packet, read_packet, is_idle, sweep_one, sweep_entries, sweep, remote_of, reader_data,
  reader_error,
}
use zetproxy_turbo.Udp.Accounts.{
  Reach, here, accepts, releases, takes, forwards, sweeps, reads, stops,
}

-- No key has two entries.
abbrev pub Distinct : List (Bytes × ℕ) → Type 0
Distinct [] = Unit
Distinct ((key, id) ∷ es) = (lookup key es ≡ none) × Distinct es

Distinct-delete : (k : Bytes) (es : List (Bytes × ℕ)) → Distinct es → Distinct (delete k es)
unfolding delete
Distinct-delete k [] h = h
Distinct-delete k ((key, id) ∷ es) (n, h) =
    let rest = Distinct-delete k es h in
    elim (Bool-cases (equal key k)) [
      | inl e ↦ rw e rest
      | inr e ↦ rw e (ground (arith, lookup-delete k key es), rest)
    ]

Distinct-insert :
    (k : Bytes) (id : ℕ) (es : List (Bytes × ℕ)) → Distinct es → Distinct (insert k id es)
unfolding insert
Distinct-insert k id es h = (lookup-delete_self k es, Distinct-delete k es h)

read_packet-Distinct :
    (late : Bool) (i : Incoming) (u w : Udp)
    → read_packet false late i u ≡ some w
    → Distinct u.sessions
    → Distinct w.sessions
unfolding read_packet look
read_packet-Distinct late timed_out u w e v =
    subst (λ (x : Udp). Distinct x.sessions) (Option.some-injective u w e) v
read_packet-Distinct true broken u w e v = absurd (ground arith)
read_packet-Distinct false broken u w e v =
    subst (λ (x : Udp). Distinct x.sessions) (Option.some-injective u w e) v
read_packet-Distinct late (packet key payload) u w e v =
    subst (λ (x : Udp). Distinct x.sessions) (Option.some-injective (look key payload u) w e) v

pass_on-Distinct :
    (key payload : Bytes) (o : Option ℕ) (now : ℕ) (dialled : Bool) (u : Udp)
    → Distinct u.sessions
    → Distinct (pass_on key payload o now dialled u).sessions
unfolding pass_on open_session
pass_on-Distinct key payload none now false u v = v
pass_on-Distinct key payload none now true u v = Distinct-insert key (length u.objects) u.sessions v
pass_on-Distinct key payload (some id) now dialled u v = v

forward_taken-Distinct :
    (o : Option Taken) (now : ℕ) (dialled : Bool) (u : Udp)
    → Distinct u.sessions
    → Distinct (forward_taken o now dialled u).sessions
unfolding forward_taken
forward_taken-Distinct none now dialled u v = v
forward_taken-Distinct (some p) now dialled u v =
    pass_on-Distinct p.key p.payload p.found now dialled (record u { taken = none }) v

sweep_entries-Distinct :
    (now : ℕ) (es : List (Bytes × ℕ)) (u : Udp)
    → Distinct u.sessions
    → Distinct (sweep_entries now es u).sessions
unfolding sweep_entries sweep_one
sweep_entries-Distinct now [] u v = v
sweep_entries-Distinct now ((key, id) ∷ es) u v =
    sweep_entries-Distinct now es (sweep_one now (key, id) u)
      (elim (Bool-cases (is_idle now id u.objects)) [
        | inl e ↦ rw (e, sweep_one) (Distinct-delete key u.sessions v)
        | inr e ↦ rw (e, sweep_one) v
      ])

pub Reach-Distinct :
    (server : Server) {k : ℕ} {v : Udp} → Reach (at_start server) k v → Distinct v.sessions
unfolding sweep forward reader_data reader_error
Reach-Distinct server here = tt
Reach-Distinct server (accepts r) = Reach-Distinct server r
Reach-Distinct server (releases r p) = Reach-Distinct server r
Reach-Distinct server (takes {k} {v} {w} late i r t e) =
    read_packet-Distinct late i v w e (Reach-Distinct server r)
Reach-Distinct server (forwards {k} {v} now d r) =
    forward_taken-Distinct v.taken now d v (Reach-Distinct server r)
Reach-Distinct server (sweeps {k} {v} now r) =
    sweep_entries-Distinct now v.sessions v (Reach-Distinct server r)
Reach-Distinct server (reads id b now r p) = Reach-Distinct server r
Reach-Distinct server (stops {k} {v} id r p) =
    Distinct-delete (remote_of id v.objects) v.sessions (Reach-Distinct server r)
