-- ===== src/Udp/Accounts.antt =====
-- The active count of the tunnel server against the handlers and readers that run: TCP connections,
-- UDP sessions and sweeps in any interleaving.
use zetproxy_turbo.Base.{
  ℕ, zero, suc, ◌+◌, ◌%◌, ◌<◌, ◌≡◌, refl, ap, inl, inr, Bool, true, false, Option, none, some, List,
  [], ◌∷◌, ◌++◌, arith, if◌then◌else◌, Option-cases,
}
use zetproxy_turbo.Text.{Bytes}
use zetproxy_turbo.Tunnel.{new, set_max_conns, accept}
use zetproxy_turbo.Tunnel.Handle.{release}
use zetproxy_turbo.Udp.{
  UdpSession, Udp, at_start, modify, count_packet, count_out, count_in, count_session, drop_active,
  touched, forwarded, closed, ended, open_session, look, pass_on, forward_taken, forward, Incoming,
  timed_out, broken, packet, read_packet, is_idle, sweep_one, sweep_entries, sweep, reader_data,
  reader_error,
}

-- Readers that have not returned.
abbrev pub readers : List UdpSession → ℕ
readers [] = 0
readers (o ∷ os) = (if o.reading then 1 else 0) + readers os

-- The sessions that one sweep takes out of the map.
unfoldable pub swept_entries : ℕ → List (Bytes × ℕ) → Udp → ℕ
swept_entries now [] u = 0
swept_entries now (e ∷ es) u =
    (if is_idle now e.1 u.objects then 1 else 0) + swept_entries now es (sweep_one now e u)

abbrev pub swept : ℕ → Udp → ℕ
swept now u = swept_entries now u.sessions u

readers-touched :
    (id now : ℕ) (os : List UdpSession) → readers (modify id (touched now) os) ≡ readers os
unfolding modify
readers-touched id now [] = refl
readers-touched zero now (o ∷ os) = refl
readers-touched (suc id) now (o ∷ os) =
    ap (λ n. (if o.reading then 1 else 0) + n) (readers-touched id now os)

readers-forwarded :
    (id now : ℕ) (b : Bytes) (os : List UdpSession)
    → readers (modify id (forwarded now b) os) ≡ readers os
unfolding modify
readers-forwarded id now b [] = refl
readers-forwarded zero now b (o ∷ os) = refl
readers-forwarded (suc id) now b (o ∷ os) =
    ap (λ n. (if o.reading then 1 else 0) + n) (readers-forwarded id now b os)

readers-closed : (id : ℕ) (os : List UdpSession) → readers (modify id closed os) ≡ readers os
unfolding modify
readers-closed id [] = refl
readers-closed zero (o ∷ os) = refl
readers-closed (suc id) (o ∷ os) = ap (λ n. (if o.reading then 1 else 0) + n) (readers-closed id os)

-- Object `id` has a reader that runs.
abbrev pub IsReading : ℕ → List UdpSession → Type 0
IsReading id [] = ⊥
IsReading zero (o ∷ os) = o.reading ≡ true
IsReading (suc id) (o ∷ os) = IsReading id os

readers-ended :
    (id : ℕ) (os : List UdpSession)
    → IsReading id os
    → readers (modify id ended os) + 1 ≡ readers os
unfolding modify
readers-ended id [] h = absurd h
readers-ended zero (o ∷ os) h = ground arith
readers-ended (suc id) (o ∷ os) h = omega (arith, readers-ended id os h)

readers-append : (os ps : List UdpSession) → readers (os ++ ps) ≡ readers os + readers ps
readers-append [] ps = omega arith
readers-append (o ∷ os) ps = omega (arith, readers-append os ps)

-- Steps of the server, with the number of sessions that sweeps have taken so far.
pub data Reach (u : Udp) : ℕ → Udp → Type 0 where
  here : Reach u 0 u
  accepts : {k : ℕ} {v : Udp} → Reach u k v → Reach u k (record v { server = (accept v.server).0 })
  releases :
      {k : ℕ} {v : Udp}
      → Reach u k v
      → 0 < v.server.sem
      → Reach u k (record v { server = release v.server })
  takes :
      {k : ℕ} {v w : Udp} (late : Bool) (i : Incoming)
      → Reach u k v
      → v.taken ≡ none
      → read_packet false late i v ≡ some w
      → Reach u k w
  forwards :
      {k : ℕ} {v : Udp} (now : ℕ) (dialled : Bool) → Reach u k v → Reach u k (forward now dialled v)
  sweeps : {k : ℕ} {v : Udp} (now : ℕ) → Reach u k v → Reach u (k + swept now v) (sweep now v)
  reads :
      {k : ℕ} {v : Udp} (id : ℕ) (b : Bytes) (now : ℕ)
      → Reach u k v
      → IsReading id v.objects
      → Reach u k (reader_data id b now v)
  stops :
      {k : ℕ} {v : Udp} (id : ℕ)
      → Reach u k v
      → IsReading id v.objects
      → Reach u k (reader_error id v)

-- The active count is what runs, less the sessions that sweeps have taken: the reader of a swept
-- session counts it down a second time.
abbrev pub Accounts : ℕ → Udp → Type 0
Accounts k u =
    (u.server.stats.conns_active + k) % 4294967296 ≡ (u.server.sem + readers u.objects) % 4294967296

accept-Accounts :
    (k : ℕ) (v : Udp) → Accounts k v → Accounts k (record v { server = (accept v.server).0 })
unfolding accept
accept-Accounts k v h = ground arith

release-Accounts :
    (k : ℕ) (v : Udp)
    → 0 < v.server.sem
    → Accounts k v
    → Accounts k (record v { server = release v.server })
unfolding release
release-Accounts k v p h = ground arith

open_session-Accounts :
    (key payload : Bytes) (now k : ℕ) (dialled : Bool) (v : Udp)
    → Accounts k v
    → Accounts k (open_session key payload now dialled v)
unfolding open_session count_session count_out
open_session-Accounts key payload now k false v h = h
open_session-Accounts key payload now k true v h = omega (
  arith,
  readers-append v.objects (
      (record {
        remote = key;
        last_activity = now;
        connected = true;
        reading = true;
        written = payload ∷ [];
      })
      ∷ []),
)

read_packet-Accounts :
    (k : ℕ) (late : Bool) (i : Incoming) (v w : Udp)
    → read_packet false late i v ≡ some w
    → Accounts k v
    → Accounts k w
unfolding read_packet look count_packet
read_packet-Accounts k late timed_out v w e h = ground arith
read_packet-Accounts k true broken v w e h = ground arith
read_packet-Accounts k false broken v w e h = ground arith
read_packet-Accounts k late (packet key payload) v w e h = ground arith

pass_on-Accounts :
    (key payload : Bytes) (o : Option ℕ) (now k : ℕ) (dialled : Bool) (v : Udp)
    → Accounts k v
    → Accounts k (pass_on key payload o now dialled v)
unfolding pass_on count_out
pass_on-Accounts key payload none now k dialled v h =
    open_session-Accounts key payload now k dialled v h
pass_on-Accounts key payload (some id) now k dialled v h =
    rw (readers-forwarded id now payload v.objects) h

forward-Accounts :
    (now k : ℕ) (dialled : Bool) (v : Udp) → Accounts k v → Accounts k (forward now dialled v)
unfolding forward forward_taken
forward-Accounts now k dialled v h = elim (Option-cases v.taken) [
  | inl e ↦ rw e h
  | inr (p, e) ↦
      rw e (pass_on-Accounts p.key p.payload p.found now k dialled (record v { taken = none }) h)
]

sweep_one-Accounts :
    (now k : ℕ) (e : Bytes × ℕ) (v : Udp)
    → Accounts k v
    → Accounts (k + (if is_idle now e.1 v.objects then 1 else 0)) (sweep_one now e v)
unfolding sweep_one drop_active
sweep_one-Accounts now k (key, id) v h = ground (arith, readers-closed id v.objects)

sweep_entries-Accounts :
    (now k : ℕ) (es : List (Bytes × ℕ)) (v : Udp)
    → Accounts k v
    → Accounts (k + swept_entries now es v) (sweep_entries now es v)
unfolding sweep_entries swept_entries
sweep_entries-Accounts now k [] v h = omega arith
sweep_entries-Accounts now k (e ∷ es) v h =
    let one : ℕ = if is_idle now e.1 v.objects then 1 else 0 in
    omega (
      arith,
      sweep_entries-Accounts now (k + one) es (sweep_one now e v) (sweep_one-Accounts now k e v h),
    )

reader_error-Accounts :
    (id k : ℕ) (v : Udp) → IsReading id v.objects → Accounts k v → Accounts k (reader_error id v)
unfolding reader_error drop_active
reader_error-Accounts id k v r h = omega (arith, readers-ended id v.objects r)

sweep-Accounts : (now k : ℕ) (v : Udp) → Accounts k v → Accounts (k + swept now v) (sweep now v)
unfolding sweep
sweep-Accounts now k v h = sweep_entries-Accounts now k v.sessions v h

reader_data-Accounts :
    (id : ℕ) (b : Bytes) (now k : ℕ) (v : Udp) → Accounts k v → Accounts k (reader_data id b now v)
unfolding reader_data count_in
reader_data-Accounts id b now k v h = rw (readers-touched id now v.objects) h

-- In every interleaving of TCP connections that arrive and end, packets, sweeps and session readers,
-- from a server with nothing running, where a round of the accept loop is one step and the end of a
-- handler another: the active count plus the number of swept sessions is the
-- number of TCP handlers plus the number of session readers that run, modulo 2 ^ 32. So the count is
-- exact as long as no session is swept, and one too low for each session that was.
pub Reach-Accounts :
    (max : ℕ) {k : ℕ} {v : Udp} → Reach (at_start (set_max_conns new max)) k v → Accounts k v
unfolding set_max_conns new
Reach-Accounts max here = refl
Reach-Accounts max (accepts {k} {v} r) = accept-Accounts k v (Reach-Accounts max r)
Reach-Accounts max (releases {k} {v} r p) = release-Accounts k v p (Reach-Accounts max r)
Reach-Accounts max (takes {k} {v} {w} late i r t e) =
    read_packet-Accounts k late i v w e (Reach-Accounts max r)
Reach-Accounts max (forwards {k} {v} now d r) = forward-Accounts now k d v (Reach-Accounts max r)
Reach-Accounts max (sweeps {k} {v} now r) = sweep-Accounts now k v (Reach-Accounts max r)
Reach-Accounts max (reads {k} {v} id b now r p) =
    reader_data-Accounts id b now k v (Reach-Accounts max r)
Reach-Accounts max (stops {k} {v} id r p) = reader_error-Accounts id k v p (Reach-Accounts max r)
