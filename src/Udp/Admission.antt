-- ===== src/Udp/Admission.antt =====
-- The semaphore of the tunnel server, while UDP sessions come and go beside the TCP connections.
use zetproxy_turbo.Base.{
  ℕ, ◌≤◌, ◌≡◌, refl, ◌∙◌, inl, inr, Bool, true, false, Option, none, some, List, [], ◌∷◌, arith,
  Option-cases,
}
use zetproxy_turbo.Text.{Bytes}
use zetproxy_turbo.Tunnel.{new, set_max_conns, accept}
use zetproxy_turbo.Tunnel.Handle.{release}
use zetproxy_turbo.Udp.{
  Udp, at_start, count_packet, count_out, count_in, count_session, drop_active, open_session, look,
  pass_on, forward_taken, forward, Incoming, timed_out, broken, packet, read_packet, sweep_one,
  sweep_entries, sweep, reader_data, reader_error,
}
use zetproxy_turbo.Udp.Accounts.{
  Reach, here, accepts, releases, takes, forwards, sweeps, reads, stops,
}

-- A step that leaves the semaphore alone.
abbrev SameSem : Udp → Udp → Type 0
SameSem u v = (v.server.sem ≡ u.server.sem) × (v.server.max_conns ≡ u.server.max_conns)

pass_on-SameSem :
    (key payload : Bytes) (o : Option ℕ) (now : ℕ) (dialled : Bool) (u : Udp)
    → SameSem u (pass_on key payload o now dialled u)
unfolding pass_on open_session count_session count_out
pass_on-SameSem key payload none now false u = (refl, refl)
pass_on-SameSem key payload none now true u = (refl, refl)
pass_on-SameSem key payload (some id) now dialled u = (refl, refl)

forward-SameSem : (now : ℕ) (dialled : Bool) (u : Udp) → SameSem u (forward now dialled u)
unfolding forward forward_taken
forward-SameSem now dialled u = elim (Option-cases u.taken) [
  | inl e ↦ rw e (refl, refl)
  | inr (p, e) ↦
      rw e (pass_on-SameSem p.key p.payload p.found now dialled (record u { taken = none }))
]

read_packet-SameSem :
    (late : Bool) (i : Incoming) (u v : Udp) → read_packet false late i u ≡ some v → SameSem u v
unfolding read_packet look count_packet
read_packet-SameSem late timed_out u v e = ground arith
read_packet-SameSem true broken u v e = ground arith
read_packet-SameSem false broken u v e = ground arith
read_packet-SameSem late (packet key payload) u v e = ground arith

sweep_one-SameSem : (now : ℕ) (e : Bytes × ℕ) (u : Udp) → SameSem u (sweep_one now e u)
unfolding sweep_one drop_active
sweep_one-SameSem now (key, id) u = ground arith

sweep_entries-SameSem :
    (now : ℕ) (es : List (Bytes × ℕ)) (u : Udp) → SameSem u (sweep_entries now es u)
unfolding sweep_entries
sweep_entries-SameSem now [] u = (refl, refl)
sweep_entries-SameSem now (e ∷ es) u =
    let (a, b) = sweep_one-SameSem now e u in
    let (c, d) = sweep_entries-SameSem now es (sweep_one now e u) in (c ∙ a, d ∙ b)

-- What holds of the semaphore and the limit.
abbrev pub IsAdmitting : ℕ → Udp → Type 0
IsAdmitting max u = (u.server.max_conns ≡ max) × (u.server.sem ≤ max)

same_sem : (max : ℕ) (u v : Udp) → SameSem u v → IsAdmitting max u → IsAdmitting max v
same_sem max u v (a, b) (h, k) = (b ∙ h, omega arith)

-- In every interleaving of TCP connections that arrive and end, packets, sweeps and session readers,
-- from a server set to `max` connections: the limit stays, and at most `max` TCP handlers hold a token.
pub Reach-IsAdmitting :
    (max : ℕ) {k : ℕ} {v : Udp} → Reach (at_start (set_max_conns new max)) k v → IsAdmitting max v
unfolding set_max_conns new accept release sweep reader_data reader_error count_in drop_active
Reach-IsAdmitting max here = (refl, omega arith)
Reach-IsAdmitting max (accepts {k} {v} r) = let (h, l) = Reach-IsAdmitting max r in ground arith
Reach-IsAdmitting max (releases {k} {v} r p) =
    let (h, l) = Reach-IsAdmitting max r in (h, omega arith)
Reach-IsAdmitting max (takes {k} {v} {w} late i r t e) =
    same_sem max v w (read_packet-SameSem late i v w e) (Reach-IsAdmitting max r)
Reach-IsAdmitting max (forwards {k} {v} now d r) =
    same_sem max v (forward now d v) (forward-SameSem now d v) (Reach-IsAdmitting max r)
Reach-IsAdmitting max (sweeps {k} {v} now r) =
    same_sem max v (sweep_entries now v.sessions v) (sweep_entries-SameSem now v.sessions v)
      (Reach-IsAdmitting max r)
Reach-IsAdmitting max (reads {k} {v} id b now r p) = Reach-IsAdmitting max r
Reach-IsAdmitting max (stops {k} {v} id r p) = Reach-IsAdmitting max r
