-- ===== src/Udp/Idle.antt =====
-- What a tick of the sweeper does to each session.
use zetproxy_turbo.Base.{
  ℕ, ◌+◌, ◌≡◌, refl, ◌∙◌, inl, inr, Bool, false, none, some, List, [], ◌∷◌, arith, ltb,
  if◌then◌else◌, Bool-cases, get_elem?,
}
use zetproxy_turbo.Text.{Bytes, equal}
use zetproxy_turbo.Text.Laws.{equal_iff, equal_self}
use zetproxy_turbo.Dict.{lookup}
use zetproxy_turbo.Dict.Laws.{lookup-delete, lookup-delete_self}
use zetproxy_turbo.Tunnel.{Server}
use zetproxy_turbo.Udp.{UdpSession, Udp, at_start, closed, is_idle, sweep_one, sweep_entries, sweep}
use zetproxy_turbo.Udp.Blocks.{get_elem?-modify, Owns, Owned, Stays-Owned}
use zetproxy_turbo.Udp.Accounts.{Reach}
use zetproxy_turbo.Udp.Kept.{remote_lem}
use zetproxy_turbo.Udp.Shrinks.{sweep_one-Stays}
use zetproxy_turbo.Udp.Keys.{Distinct, Reach-Distinct}
use zetproxy_turbo.Udp.Delivered.{Reach-Inv}

-- More than three minutes without a packet.
abbrev pub idle : ℕ → UdpSession → Bool
idle now o = ltb (o.last_activity + 180) now

is_idle_lem :
    (now id : ℕ) (os : List UdpSession) (o : UdpSession)
    → get_elem? os id ≡ some o
    → is_idle now id os ≡ idle now o
unfolding is_idle
is_idle_lem now id os o h = rw (h, is_idle) refl

module _ (now : ℕ) (key : Bytes) (id : ℕ) where
  -- The entry of another client.
  other_one :
      (k : Bytes) (i : ℕ) (u : Udp) (o : UdpSession)
      → equal k key ≡ false
      → Owns u.objects k i
      → get_elem? u.objects id ≡ some o
      → o.remote ≡ key
      → let w = sweep_one now (k, i) u in
        (lookup key w.sessions ≡ lookup key u.sessions) × (get_elem? w.objects id ≡ some o)
  unfolding sweep_one
  other_one k i u o n (x, e, r) h q = elim (Bool-cases (is_idle now i u.objects)) [
    | inl t ↦
        rw (t, sweep_one)
          (
            ground (arith, lookup-delete k key u.sessions),
            ground (arith, get_elem?-modify i id closed u.objects, equal_self key),
          )
    | inr t ↦ rw (t, sweep_one) (refl, h)
  ]

  -- Its own.
  own_one :
      (u : Udp) (o : UdpSession)
      → get_elem? u.objects id ≡ some o
      → let w = sweep_one now (key, id) u in
        (lookup key w.sessions ≡ (if idle now o then none else lookup key u.sessions))
        × (get_elem? w.objects id ≡ some (if idle now o then closed o else o))
  unfolding sweep_one
  own_one u o h =
      rw (is_idle_lem now id u.objects o h, sweep_one)
        (elim (Bool-cases (idle now o)) [
          | inl t ↦ rw t (
            lookup-delete_self key u.sessions,
            ground (arith, get_elem?-modify id id closed u.objects),
          )
          | inr t ↦ rw t (refl, h)
        ])

  untouched :
      (es : List (Bytes × ℕ)) (u : Udp) (o : UdpSession)
      → lookup key es ≡ none
      → Owned u.objects es
      → get_elem? u.objects id ≡ some o
      → o.remote ≡ key
      → let w = sweep_entries now es u in
        (lookup key w.sessions ≡ lookup key u.sessions) × (get_elem? w.objects id ≡ some o)
  unfolding sweep_entries lookup
  untouched [] u o n w h q = (refl, h)
  untouched ((k, i) ∷ es) u o n (a, w) h q =
      let other : equal k key ≡ false = ground arith in
      let (l, g) = other_one k i u o other a h q in
      let kept = Stays-Owned u.objects _ es (sweep_one-Stays now k i u) w in
      let (l', g') = untouched es (sweep_one now (k, i) u) o (ground arith) kept g q in (l' ∙ l, g')

  swept_one :
      (es : List (Bytes × ℕ)) (u : Udp) (o : UdpSession)
      → lookup key es ≡ some id
      → Distinct es
      → Owned u.objects es
      → get_elem? u.objects id ≡ some o
      → o.remote ≡ key
      → let w = sweep_entries now es u in
        (lookup key w.sessions ≡ (if idle now o then none else lookup key u.sessions))
        × (get_elem? w.objects id ≡ some (if idle now o then closed o else o))
  unfolding sweep_entries lookup
  swept_one [] u o n d w h q = absurd (ground arith)
  swept_one ((k, i) ∷ es) u o n (m, d) (a, w) h q =
      let kept = Stays-Owned u.objects _ es (sweep_one-Stays now k i u) w in
      elim (Bool-cases (equal k key)) [
        | inr e ↦
            let (l, g) = other_one k i u o e a h q in
            let (l', g') = swept_one es (sweep_one now (k, i) u) o (ground arith) d kept g q in
            (l' ∙ rw l refl, g')
        | inl e ↦
            let same_key : k ≡ key = ground (arith, equal_iff k key) in
            let same_id : i ≡ id = ground arith in
            let (l, g) = own_one u o h in
            let mine = Stays-Owned u.objects _ es (sweep_one-Stays now key id u) w in
            let (l', g') =
              untouched es (sweep_one now (key, id) u) (if idle now o then closed o else o)
                (rw same_key at m) mine g (ground arith) in
            rw (same_key, same_id) (l' ∙ l, g')
      ]

-- In every interleaving, a tick of the sweeper takes a client's session out of the map and closes its
-- connection if no packet came or went in it for more than three minutes, and else leaves the session in
-- the map and as it was, whatever the other sessions are.
pub sweep_lem :
    (server : Server) (now : ℕ) (key : Bytes) (id : ℕ) (o : UdpSession) {k : ℕ} {v : Udp}
    → Reach (at_start server) k v
    → lookup key v.sessions ≡ some id
    → get_elem? v.objects id ≡ some o
    → let w = sweep now v in
      (lookup key w.sessions ≡ (if ltb (o.last_activity + 180) now then none else some id))
      × (get_elem? w.objects id
          ≡ some (if ltb (o.last_activity + 180) now then record o { connected = false } else o))
unfolding sweep
sweep_lem server now key id o {k} {v} r h g =
    let i = Reach-Inv server r in
    let q = remote_lem v key id o i.owned h g in
    let (l, e) = swept_one now key id v.sessions v o h (Reach-Distinct server r) i.owned g q in
    (l ∙ rw h refl, e)
