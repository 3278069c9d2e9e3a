-- ===== src/Udp/Kept.antt =====
-- What holds of the sessions of the tunnel server and of the packet that its loop holds, and the round
-- that reads a packet.
use mathlib.Core.Option
use zetproxy_turbo.Base.{
  ℕ, ◌≡◌, subst, ◌∙◌, Bool, true, false, Option, none, some, List, [], ◌∷◌, ◌++◌, append_assoc,
  arith, if◌then◌else◌, get_elem?,
}
use zetproxy_turbo.Text.{Bytes, equal}
use zetproxy_turbo.Text.Laws.{equal_self}
use zetproxy_turbo.Dict.{lookup}
use zetproxy_turbo.Tunnel.{Server}
use zetproxy_turbo.Udp.{
  UdpSession, Taken, Udp, at_start, look, Incoming, timed_out, broken, packet, read_packet,
}
use zetproxy_turbo.Udp.Blocks.{from, from-append, IsBlock, Owned, lookup-Owned}

-- The packet that the loop holds, if it is the client's.
abbrev pub in_flight : Bytes → Option Taken → List Bytes
in_flight key none = []
in_flight key (some p) = if equal p.key key then p.payload ∷ [] else []

-- What is known of the packet that the loop holds: it is its client's last, and the session that was
-- found for it is the client's, if it is still open, and was up to date.
pub record IsHeld (u : Udp) (p : Taken) : Type 0 where
  pub last : IsBlock p.key [] (p.payload ∷ []) u.received
  pub unfound : p.found ≡ none → lookup p.key u.sessions ≡ none
  pub found :
      (id : ℕ) (o : UdpSession)
      → p.found ≡ some id
      → get_elem? u.objects id ≡ some o
      → (o.remote ≡ p.key)
        × (o.connected ≡ true → IsBlock p.key o.written (p.payload ∷ []) u.received)
  pub same : (i j : ℕ) → p.found ≡ some i → lookup p.key u.sessions ≡ some j → j ≡ i

abbrev pub Held : Udp → Option Taken → Type 0
Held u none = Unit
Held u (some p) = IsHeld u p

pub record Inv (u : Udp) : Type 0 where
  pub blocks :
      (id : ℕ) (o : UdpSession)
      → get_elem? u.objects id ≡ some o
      → (l : List Bytes) × IsBlock o.remote o.written l u.received
  pub owned : Owned u.objects u.sessions
  pub current :
      (key : Bytes) (id : ℕ) (o : UdpSession)
      → lookup key u.sessions ≡ some id
      → get_elem? u.objects id ≡ some o
      → (o.connected ≡ true)
        × (o.reading ≡ true)
        × IsBlock key o.written (in_flight key u.taken) u.received
  pub held : Held u u.taken

IsBlock-more :
    (key k p : Bytes) (w l : List Bytes) (r : List (Bytes × Bytes))
    → IsBlock key w l r
    → IsBlock key w (l ++ (if equal k key then p ∷ [] else [])) (r ++ ((k, p) ∷ []))
IsBlock-more key k p w l r (e, h) = (e, from-append key k p r ∙ rw h (simp append_assoc))

pub IsBlock-next :
    (key p : Bytes) (w l : List Bytes) (r : List (Bytes × Bytes))
    → IsBlock key w (p ∷ l) r
    → IsBlock key (w ++ p ∷ []) l r
IsBlock-next key p w l r (e, h) = (e, h ∙ simp append_assoc)

pub at_start-Inv : (server : Server) → Inv (at_start server)
unfolding lookup
at_start-Inv server = record {
  blocks = λ id o h. absurd (ground arith);
  owned = tt;
  current = λ key id o h g. absurd (ground arith);
  held = tt;
}

pub remote_lem :
    (u : Udp) (key : Bytes) (id : ℕ) (o : UdpSession)
    → Owned u.objects u.sessions
    → lookup key u.sessions ≡ some id
    → get_elem? u.objects id ≡ some o
    → o.remote ≡ key
remote_lem u key id o v h g =
    let (p, e, r) = lookup-Owned key id u.objects u.sessions v h in ground arith

look-Inv : (key payload : Bytes) (u : Udp) → u.taken ≡ none → Inv u → Inv (look key payload u)
unfolding look
look-Inv key payload u t v = record {
  blocks = λ id o h.
      let (l, b) = v.blocks id o h in
      (
        l ++ (if equal key o.remote then payload ∷ [] else []),
        IsBlock-more o.remote key payload o.written l u.received b,
      );
  owned = v.owned;
  current = λ k id o h g.
      let (c, r, b) = v.current k id o h g in
      (c, r, IsBlock-more k key payload o.written [] u.received (rw t at b));
  held = record {
    last = (from key u.received, from-append key key payload u.received ∙ rw (equal_self key));
    unfound = λ g. g;
    found = λ id o g e.
        let (c, r, b) = v.current key id o g e in
        let more = IsBlock-more key key payload o.written [] u.received (rw t at b) in
        (remote_lem u key id o v.owned g e, λ open_. rw (equal_self key) at more);
    same = λ i j g e. ground arith;
  };
}

pub read_packet-Inv :
    (late : Bool) (i : Incoming) (u w : Udp)
    → u.taken ≡ none
    → read_packet false late i u ≡ some w
    → Inv u
    → Inv w
unfolding read_packet
read_packet-Inv late timed_out u w t e v = subst Inv (Option.some-injective u w e) v
read_packet-Inv true broken u w t e v = absurd (ground arith)
read_packet-Inv false broken u w t e v = subst Inv (Option.some-injective u w e) v
read_packet-Inv late (packet key payload) u w t e v =
    subst Inv (Option.some-injective (look key payload u) w e) (look-Inv key payload u t v)
