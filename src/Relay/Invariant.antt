-- ===== src/Relay/Invariant.antt =====
-- What holds of the relay between any two steps.
use zetproxy_turbo.Base.{
  ℕ, ◌≡◌, refl, ◌≢◌, inl, inr, Option, none, some, [], arith, ◌==◌, Bool-cases, Option-cases,
}
use zetproxy_turbo.Text.{Bytes, equal}
use zetproxy_turbo.Text.Laws.{equal_iff}
use zetproxy_turbo.Dict.{lookup, delete, insert}
use zetproxy_turbo.Dict.Laws.{lookup-delete, lookup-insert}
use zetproxy_turbo.Relay.{
  entered, Task, idle, registered, queued, waiting, piping, abandoned, delivered, done, update,
  Relay, init, send, become, close, leave, next, phone_id, register, unregister, connect, announce,
}

-- The id under which a handler waits, or waited.
abbrev pub key_of : Task → Option Bytes
key_of (queued phone cid addr) = some cid
key_of (entered id) = some id
key_of (waiting socks id) = some id
key_of (piping id d) = some id
key_of (abandoned id) = some id
key_of _ = none

pub record Inv (s : Relay) : Type 0 where
  -- an entry of `wait` is its client's own, and the client's channel is empty
  pub entries :
      (id : Bytes) (c : ℕ)
      → lookup id s.wait ≡ some c
      → (key_of (s.tasks c) ≡ some id) × (s.inbox c ≡ none)
  -- what lies in a client's channel is a data connection that was announced for the client's id
  pub inboxes :
      (c d : ℕ)
      → s.inbox c ≡ some d
      → (id : Bytes) × (s.tasks d ≡ delivered id) × (key_of (s.tasks c) ≡ some id)
  -- no data connection lies in two channels
  pub once : (c e d : ℕ) → s.inbox c ≡ some d → s.inbox e ≡ some d → c ≡ e
  pub pipes : (c d : ℕ) (id : Bytes) → s.tasks c ≡ piping id d → s.inbox c ≡ some d

pub init-Inv : Inv init
unfolding init lookup
init-Inv = record {
  entries = λ id c h. ground arith;
  inboxes = λ c d h. absurd (ground arith);
  once = λ c e d h k. absurd (ground arith);
  pipes = λ c d id h. ground arith;
}

-- Only what a handler was sent or whether it is closed changes.
module _ (s t : Relay) (v : Inv s) where
  pub same-Inv : t.wait ≡ s.wait → t.inbox ≡ s.inbox → t.tasks ≡ s.tasks → Inv t
  same-Inv w i k = record {
    entries = λ id c h. rw (k, i) (v.entries id c (rw w at h));
    inboxes = λ c d h. rw k (v.inboxes c d (rw i at h));
    once = λ c e d h g. v.once c e d (rw i at h) (rw i at g);
    pipes = λ c d id h. rw i (v.pipes c d id (rw k at h));
  }

-- A handler takes a step that keeps its id.
pub become-Inv :
    (s : Relay) (c : ℕ) (t : Task)
    → Inv s
    → key_of t ≡ key_of (s.tasks c)
    → ((id : Bytes) → s.tasks c ≢ delivered id)
    → ((id : Bytes) (d : ℕ) → t ≡ piping id d → s.inbox c ≡ some d)
    → Inv (become c t s)
unfolding become
become-Inv s c t v k n p = record {
  entries = λ id e h. ground (arith, v.entries id e h);
  inboxes = λ e d h. let (id, a, b) = v.inboxes e d h in (id, ground (arith, n id), ground arith);
  once = v.once;
  pipes = λ e d id h. ground (arith, v.pipes e d id, p id d);
}

-- The channel of a handler with no id is empty.
inbox_empty : (s : Relay) (c : ℕ) → Inv s → key_of (s.tasks c) ≡ none → s.inbox c ≡ none
inbox_empty s c v k = elim (Option-cases (s.inbox c)) [
  | inl e ↦ e
  | inr (d, e) ↦ absurd (ground (arith, (v.inboxes c d e).2))
]

-- A handler with no id puts its entry into `wait` and has the id from then on.
pub queue-Inv :
    (s : Relay) (c : ℕ) (id : Bytes) (t : Task)
    → Inv s
    → key_of (s.tasks c) ≡ none
    → ((i : Bytes) → s.tasks c ≢ delivered i)
    → key_of t ≡ some id
    → ((i : Bytes) (d : ℕ) → t ≢ piping i d)
    → Inv (become c t (record s { wait = insert id c s.wait }))
unfolding become
queue-Inv s c id t v k n k' p = record {
  entries = λ i e h.
      ground
        (arith, v.entries i e, lookup-insert id i c s.wait, equal_iff id i, inbox_empty s c v k);
  inboxes = λ e d h. let (i, a, b) = v.inboxes e d h in (i, ground (arith, n i), ground arith);
  once = v.once;
  pipes = λ e d i h. ground (arith, v.pipes e d i, p i d);
}

pub delete-Inv : (s : Relay) (id : Bytes) → Inv s → Inv (record s { wait = delete id s.wait })
delete-Inv s id v = record {
  entries = λ i e h. ground (arith, v.entries i e, lookup-delete id i s.wait);
  inboxes = v.inboxes;
  once = v.once;
  pipes = v.pipes;
}

-- A new connection's data goes to the client that waits for its id.
deliver-Inv :
    (s : Relay) (c d : ℕ) (id : Bytes)
    → Inv s
    → s.tasks d ≡ idle
    → lookup id s.wait ≡ some c
    → Inv (
        become d
          (delivered id)
          (record s { wait = delete id s.wait; inbox = update s.inbox c (some d) }))
unfolding become
deliver-Inv s c d id v f w = record {
  entries = λ i e h.
      ground (arith, v.entries i e, v.entries id c w, lookup-delete id i s.wait, equal_iff id i);
  inboxes = λ e x h. elim (Bool-cases (c == e)) [
    | inl same ↦ (id, ground arith, ground (arith, v.entries id c w))
    | inr other ↦ let (i, a, b) = v.inboxes e x (ground arith) in (i, ground arith, ground arith)
  ];
  once = λ e g x h k. elim (Bool-cases (x == d)) [
    | inl same ↦ ground (arith, not_there e, not_there g)
    | inr other ↦ ground (arith, v.once e g x)
  ];
  pipes = λ e x i h. ground (arith, v.pipes e x i, v.entries id c w);
}
  where
    not_there : (e : ℕ) → s.inbox e ≢ some d
    not_there e h = let (i, a, b) = v.inboxes e d h in ground arith

pub leave-Inv : (s : Relay) (c : ℕ) (b : Bytes) → Inv s → s.tasks c ≡ idle → Inv (leave c b s)
unfolding leave send close become
leave-Inv s c b v f =
    same-Inv (become c done s) _
      (become-Inv s c done v (ground arith) (λ id. ground arith) (λ id d. ground arith)) refl refl
      refl

pub register-Inv : (s : Relay) (c : ℕ) → Inv s → s.tasks c ≡ idle → Inv (register c s)
unfolding register send become
register-Inv s c v f =
    same-Inv (become c (registered (phone_id (next s.next_id))) s) _
      (become-Inv s c _ v (ground arith) (λ id. ground arith) (λ id d. ground arith)) refl refl refl

pub unregister-Inv :
    (s : Relay) (c : ℕ) (id : Bytes) → Inv s → s.tasks c ≡ registered id → Inv (unregister c id s)
unfolding unregister close become
unregister-Inv s c id v f =
    same-Inv (become c done s) _
      (become-Inv s c done v (ground arith) (λ i. ground arith) (λ i d. ground arith)) refl refl
      refl

pub connect-Inv : (s : Relay) (c : ℕ) (id : Bytes) → Inv s → s.tasks c ≡ idle → Inv (connect c id s)
unfolding connect send become
connect-Inv s c id v f = elim (Bool-cases (equal id [])) [
  | inl e ↦ rw (e, connect) (leave-Inv s c [] v f)
  | inr e ↦
      let q =
        queue-Inv s c id (entered id) v (ground arith) (λ i. ground arith) refl
          (λ i d. ground arith) in
      rw (e, connect) (same-Inv _ _ q refl refl refl)
]

pub announce-Inv :
    (s : Relay) (d : ℕ) (id : Bytes) → Inv s → s.tasks d ≡ idle → Inv (announce d id s)
unfolding announce send close become
announce-Inv s d id v f = elim (Option-cases (lookup id s.wait)) [
  | inl e ↦
      rw (e, announce)
        (same-Inv (become d done s) _
          (become-Inv s d done v (ground arith) (λ i. ground arith) (λ i x. ground arith)) refl refl
          refl)
  | inr (c, e) ↦ rw (e, announce) (same-Inv _ _ (deliver-Inv s c d id v f e) refl refl refl)
]
