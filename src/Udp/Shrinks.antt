-- ===== src/Udp/Shrinks.antt =====
-- The steps of readers and sweeps: no packet is read or written, and sessions leave the map.
use zetproxy_turbo.Base.{
  ℕ, ◌≡◌, refl, sym, subst, ap, ◌∙◌, inl, inr, true, false, Option, none, some, List, [], ◌∷◌,
  arith, Bool-cases, Option-cases, get_elem?,
}
use zetproxy_turbo.Text.{Bytes, equal}
use zetproxy_turbo.Text.Laws.{equal_self}
use zetproxy_turbo.Dict.{lookup, delete}
use zetproxy_turbo.Dict.Laws.{lookup-delete}
use zetproxy_turbo.Tunnel.{Server}
use zetproxy_turbo.Udp.{
  UdpSession, Taken, Udp, modify, touched, closed, ended, is_idle, sweep_one, sweep_entries,
  remote_of, reader_data, reader_error,
}
use zetproxy_turbo.Udp.Blocks.{
  modified, Owns, Owned, Stays, Stays-Owned, modify-Stays, delete-Owned,
}
use zetproxy_turbo.Udp.Kept.{Held, Inv, remote_lem}

-- A step that takes no packet and writes none: sessions may leave the map, and those that leave it
-- may be closed.
pub record Shrinks (u v : Udp) : Type 0 where
  pub received_kept : v.received ≡ u.received
  pub taken_kept : v.taken ≡ u.taken
  pub entries :
      (key : Bytes) (id : ℕ) → lookup key v.sessions ≡ some id → lookup key u.sessions ≡ some id
  pub objects_kept :
      (id : ℕ) (y : UdpSession)
      → get_elem? v.objects id ≡ some y
      → (x : UdpSession) × (get_elem? u.objects id ≡ some x)
        × (y.remote ≡ x.remote)
        × (y.written ≡ x.written)
        × (y.connected ≡ true → x.connected ≡ true)
        × ((key : Bytes)
            → lookup key v.sessions ≡ some id
            → (y.connected ≡ x.connected) × (y.reading ≡ x.reading))
  pub owned_kept : Owned u.objects u.sessions → Owned v.objects v.sessions

Shrinks-Held : (u v : Udp) (o : Option Taken) → Shrinks u v → Held u o → Held v o
Shrinks-Held u v none s h = tt
Shrinks-Held u v (some p) s h = record {
  last = rw s.received_kept h.last;
  unfound = λ g. elim (Option-cases (lookup p.key v.sessions)) [
    | inl e ↦ e
    | inr (id, e) ↦ absurd (ground (arith, h.unfound g, s.entries p.key id e))
  ];
  found = λ id y g e.
      let (x, k, r, w, c, m) = s.objects_kept id y e in
      let (a, b) = h.found id x g k in (r ∙ a, λ q. rw (s.received_kept, w) (b (c q)));
  same = λ i j g e. h.same i j g (s.entries p.key j e);
}

pub Shrinks-Inv : (u v : Udp) → Shrinks u v → Inv u → Inv v
Shrinks-Inv u v s i = record {
  blocks = λ id y h.
      let (x, k, r, w, c, m) = s.objects_kept id y h in
      rw (r, w, s.received_kept) (i.blocks id x k);
  owned = s.owned_kept i.owned;
  current = λ key id y h g.
      let (x, k, r, w, c, m) = s.objects_kept id y g in
      let (a, b, l) = i.current key id x (s.entries key id h) k in
      let (a', b') = m key h in (a' ∙ a, b' ∙ b, rw (w, s.received_kept, s.taken_kept) l);
  held = subst (Held v) (sym s.taken_kept) (Shrinks-Held u v u.taken s i.held);
}

pub reader_data-Shrinks :
    (id : ℕ) (b : Bytes) (now : ℕ) (u : Udp) → Shrinks u (reader_data id b now u)
unfolding reader_data
reader_data-Shrinks id b now u = record {
  received_kept = refl;
  taken_kept = refl;
  entries = λ key j h. h;
  objects_kept = λ j y h.
      let (x, k, e) = modified id j (touched now) u.objects y h in
      (x, k, ground arith, ground arith, λ q. ground arith, λ key q. ground arith);
  owned_kept =
      Stays-Owned u.objects _ u.sessions (modify-Stays id (touched now) u.objects (λ o. refl));
}

-- A session leaves the map, and its connection is closed.
removed-Shrinks :
    (u v : Udp) (key : Bytes) (id : ℕ) (f : UdpSession → UdpSession)
    → ((o : UdpSession)
        → ((f o).remote ≡ o.remote) × ((f o).written ≡ o.written) × ((f o).connected ≡ false))
    → ((o : UdpSession) → get_elem? u.objects id ≡ some o → o.remote ≡ key)
    → Owned u.objects u.sessions
    → v.received ≡ u.received
    → v.taken ≡ u.taken
    → v.sessions ≡ delete key u.sessions
    → v.objects ≡ modify id f u.objects
    → Shrinks u v
removed-Shrinks u v key id f q r w a b s o =
    let entry : (k : Bytes) (j : ℕ)
        → lookup k v.sessions ≡ some j
        → (equal key k ≡ false) × (lookup k u.sessions ≡ some j) =
      λ k j h. ground (arith, lookup-delete key k u.sessions, ap (lookup k) s) in
    record {
      received_kept = a;
      taken_kept = b;
      entries = λ k j h. (entry k j h).1;
      objects_kept = λ j y h.
          let (x, g, e) = modified id j f u.objects y (rw o at h) in
          (
            x,
            g,
            ground (arith, q x),
            ground (arith, q x),
            λ c. ground (arith, q x),
            λ k l.
                let (n, m) = entry k j l in
                let p = remote_lem u k j x w m g in ground (arith, q x, r x, equal_self key),
          );
      owned_kept = λ h.
          rw (o, s)
            (Stays-Owned u.objects _ _ (modify-Stays id f u.objects (λ x. (q x).0))
              (delete-Owned key u.objects u.sessions h));
    }

remote_of_lem :
    (id : ℕ) (os : List UdpSession) (o : UdpSession)
    → get_elem? os id ≡ some o
    → o.remote ≡ remote_of id os
unfolding remote_of
remote_of_lem id os o h = rw (h, remote_of) refl

pub reader_error-Shrinks :
    (id : ℕ) (u : Udp) → Owned u.objects u.sessions → Shrinks u (reader_error id u)
unfolding reader_error
reader_error-Shrinks id u w =
    removed-Shrinks u (reader_error id u) (remote_of id u.objects) id ended
      (λ o. (refl, refl, refl)) (λ o h. remote_of_lem id u.objects o h) w refl refl refl refl

pub same_sessions-Shrinks : (u : Udp) (srv : Server) → Shrinks u (record u { server = srv })
same_sessions-Shrinks u srv = record {
  received_kept = refl;
  taken_kept = refl;
  entries = λ key j h. h;
  objects_kept = λ j y h. (y, h, refl, refl, λ q. q, λ key q. (refl, refl));
  owned_kept = λ h. h;
}

pub sweep_one-Stays :
    (now : ℕ) (key : Bytes) (id : ℕ) (u : Udp) → Stays u.objects (sweep_one now (key, id) u).objects
unfolding sweep_one
sweep_one-Stays now key id u = elim (Bool-cases (is_idle now id u.objects)) [
  | inl i ↦ rw (i, sweep_one) (modify-Stays id closed u.objects (λ o. refl))
  | inr i ↦ rw (i, sweep_one) (λ k j h. h)
]

sweep_one-Shrinks :
    (now : ℕ) (key : Bytes) (id : ℕ) (u : Udp)
    → Owned u.objects u.sessions
    → Owns u.objects key id
    → Shrinks u (sweep_one now (key, id) u)
unfolding sweep_one
sweep_one-Shrinks now key id u w (x, e, r) = elim (Bool-cases (is_idle now id u.objects)) [
  | inl i ↦
      rw (i, sweep_one)
        (removed-Shrinks u _ key id closed (λ o. (refl, refl, refl)) (λ o h. ground arith) w refl
          refl refl refl)
  | inr i ↦ rw (i, sweep_one) (same_sessions-Shrinks u u.server)
]

pub sweep_entries-Inv :
    (now : ℕ) (es : List (Bytes × ℕ)) (u : Udp)
    → Owned u.objects es
    → Inv u
    → Inv (sweep_entries now es u)
unfolding sweep_entries
sweep_entries-Inv now [] u w v = v
sweep_entries-Inv now ((key, id) ∷ es) u (a, w) v =
    let kept = Stays-Owned u.objects _ es (sweep_one-Stays now key id u) w in
    sweep_entries-Inv now es (sweep_one now (key, id) u) kept
      (Shrinks-Inv u _ (sweep_one-Shrinks now key id u v.owned a) v)
