-- ===== src/Udp/Sends.antt =====
-- The round's second part: the packet that the loop holds is sent upstream or lost.
use zetproxy_turbo.Base.{
  ℕ, ◌≡◌, refl, subst, inl, inr, Bool, true, false, Option, none, some, List, [], ◌∷◌, ◌++◌, arith,
  ◌==◌, if◌then◌else◌, Bool-cases, length, get_elem?,
}
use zetproxy_turbo.Text.{Bytes, equal}
use zetproxy_turbo.Text.Laws.{equal_iff}
use zetproxy_turbo.Dict.{lookup, insert}
use zetproxy_turbo.Dict.Laws.{lookup-insert}
use zetproxy_turbo.Tunnel.{Server}
use zetproxy_turbo.Udp.{
  UdpSession, Taken, Udp, modify, forwarded, open_session, pass_on, forward_taken, forward,
}
use zetproxy_turbo.Udp.Blocks.{
  modified, get_elem?-append, get_elem?-length, appended, IsBlock, Stays-Owned, modify-Stays,
  append-Stays, delete-Owned, lookup-Owned,
}
use zetproxy_turbo.Udp.Kept.{in_flight, IsHeld, Held, Inv, IsBlock-next, remote_lem}

-- A packet that the loop holds does not matter to the other clients.
other_lem :
    (p : Taken) (key : Bytes) (w : List Bytes) (u : Udp)
    → u.taken ≡ some p
    → equal p.key key ≡ false
    → IsBlock key w (in_flight key u.taken) u.received
    → IsBlock key w [] u.received
other_lem p key w u t n b = rw (t, n) at b

-- The round's second part, for a client with no session: the packet is lost, or the first of a new one.
open_session-Inv :
    (p : Taken) (now : ℕ) (dialled : Bool) (u : Udp)
    → u.taken ≡ some p
    → p.found ≡ none
    → Inv u
    → Inv (open_session p.key p.payload now dialled (record u { taken = none }))
unfolding open_session insert
open_session-Inv p now false u t n v = record {
  blocks = v.blocks;
  owned = v.owned;
  current = λ key id o h g.
      let (c, r, b) = v.current key id o h g in
      let m : IsHeld u p = subst (Held u) t v.held in
      let other : equal p.key key ≡ false = ground (arith, equal_iff p.key key, m.unfound n) in
      (c, r, other_lem p key o.written u t other b);
  held = tt;
}
open_session-Inv p now true u t n v =
    let o : UdpSession = record {
      remote = p.key;
      last_activity = now;
      connected = true;
      reading = true;
      written = p.payload ∷ [];
    } in
    let m : IsHeld u p = subst (Held u) t v.held in
    record {
      blocks = λ id y h. elim (appended u.objects o id y h) [
        | inl (e, q) ↦ rw q ([], m.last)
        | inr e ↦ v.blocks id y e
      ];
      owned = (
        (o, get_elem?-length u.objects o, refl),
        Stays-Owned u.objects _ _ (append-Stays u.objects o)
            (delete-Owned p.key u.objects u.sessions v.owned),
      );
      current = λ key id y h g. elim (Bool-cases (equal p.key key)) [
        | inl e ↦
            let place : id ≡ length u.objects =
              ground (arith, lookup-insert p.key key (length u.objects) u.sessions) in
            let q : y ≡ o = ground (arith, get_elem?-length u.objects o) in
            let k : p.key ≡ key = ground (arith, equal_iff p.key key) in
            rw (q, ← k) (refl, refl, m.last)
        | inr e ↦
            let old : lookup key u.sessions ≡ some id =
              ground (arith, lookup-insert p.key key (length u.objects) u.sessions) in
            let (x, k, r) = lookup-Owned key id u.objects u.sessions v.owned old in
            let q : y ≡ x = ground (arith, get_elem?-append u.objects o id x k) in
            let (c, s, b) = v.current key id x old k in
            rw q (c, s, other_lem p key x.written u t e b)
      ];
      held = tt;
    }

-- And for one whose session was found.
module _ (p : Taken) (id now : ℕ) (u : Udp) (t : u.taken ≡ some p) (n : p.found ≡ some id)
    (v : Inv u) where
  m : IsHeld u p
  m = subst (Held u) t v.held

  -- The session, if it is still open, with the packet behind what it has sent.
  open_lem :
      (x : UdpSession)
      → get_elem? u.objects id ≡ some x
      → x.connected ≡ true
      → (x.remote ≡ p.key) × IsBlock p.key (x.written ++ p.payload ∷ []) [] u.received
  open_lem x k c =
      let (r, b) = m.found id x n k in
      (r, IsBlock-next p.key p.payload x.written [] u.received (b c))

  send_on-blocks :
      (j : ℕ) (x y : UdpSession)
      → get_elem? u.objects j ≡ some x
      → y ≡ (if id == j then forwarded now p.payload x else x)
      → (l : List Bytes) × IsBlock y.remote y.written l u.received
  send_on-blocks j x y k e = elim (Bool-cases (id == j)) [
    | inr d ↦ let q : y ≡ x = ground arith in rw q (v.blocks j x k)
    | inl d ↦ elim (Bool-cases x.connected) [
      | inl c ↦
          let (r, b) = open_lem x (ground arith) c in
          let a : y.remote ≡ p.key = ground arith in
          let w : y.written ≡ x.written ++ p.payload ∷ [] = ground arith in rw (a, w) ([], b)
      | inr c ↦
          let a : y.remote ≡ x.remote = ground arith in
          let w : y.written ≡ x.written = ground arith in rw (a, w) (v.blocks j x k)
    ]
  ]

  send_on-current :
      (key : Bytes) (j : ℕ) (x y : UdpSession)
      → lookup key u.sessions ≡ some j
      → get_elem? u.objects j ≡ some x
      → y ≡ (if id == j then forwarded now p.payload x else x)
      → (y.connected ≡ true) × (y.reading ≡ true) × IsBlock key y.written [] u.received
  send_on-current key j x y h k e =
      let (c, s, b) = v.current key j x h k in
      let r = remote_lem u key j x v.owned h k in
      elim (Bool-cases (id == j)) [
        | inl d ↦
            let (r', b') = open_lem x (ground arith) c in
            let a : key ≡ p.key = ground arith in
            let w : y.written ≡ x.written ++ p.payload ∷ [] = ground arith in
            (ground arith, ground arith, rw (a, w) b')
        | inr d ↦
            let q : y ≡ x = ground arith in
            let other : equal p.key key ≡ false =
              ground (arith, equal_iff p.key key, m.same id j n) in
            rw q (c, s, other_lem p key x.written u t other b)
      ]

  send_on-Inv :
      (srv : Server)
      → Inv (record u {
        server = srv;
        taken = none;
        objects = modify id (forwarded now p.payload) u.objects;
      })
  send_on-Inv srv = record {
    blocks = λ j y h.
        let (x, k, e) = modified id j (forwarded now p.payload) u.objects y h in
        send_on-blocks j x y k e;
    owned =
        Stays-Owned u.objects _ u.sessions
          (modify-Stays id (forwarded now p.payload) u.objects (λ o. refl)) v.owned;
    current = λ key j y h g.
        let (x, k, e) = modified id j (forwarded now p.payload) u.objects y g in
        send_on-current key j x y h k e;
    held = tt;
  }

pass_on-Inv :
    (p : Taken) (o : Option ℕ) (now : ℕ) (dialled : Bool) (u : Udp)
    → u.taken ≡ some p
    → p.found ≡ o
    → Inv u
    → Inv (pass_on p.key p.payload o now dialled (record u { taken = none }))
unfolding pass_on
pass_on-Inv p none now dialled u t n v = open_session-Inv p now dialled u t n v
pass_on-Inv p (some id) now dialled u t n v = send_on-Inv p id now u t n v _

forward_taken-Inv :
    (o : Option Taken) (now : ℕ) (dialled : Bool) (u : Udp)
    → u.taken ≡ o
    → Inv u
    → Inv (forward_taken o now dialled u)
unfolding forward_taken
forward_taken-Inv none now dialled u t v = v
forward_taken-Inv (some p) now dialled u t v = pass_on-Inv p p.found now dialled u t refl v

pub forward-Inv : (now : ℕ) (dialled : Bool) (u : Udp) → Inv u → Inv (forward now dialled u)
unfolding forward
forward-Inv now dialled u v = forward_taken-Inv u.taken now dialled u refl v
