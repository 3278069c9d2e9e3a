-- ===== src/Relay/Quiet.antt =====
-- The steps of the relay that leave its control connections as they are.
use zetproxy_turbo.Base.{
  ℕ, ◌≡◌, refl, ◌≢◌, inl, inr, Bool, true, false, Option, none, some, [], arith, Bool-cases,
  Option-cases,
}
use zetproxy_turbo.Text.{Bytes, equal}
use zetproxy_turbo.Dict.{lookup}
use zetproxy_turbo.Relay.{
  entered, notify, Task, registered, chosen, queued, waiting, piping, abandoned, delivered, done,
  update, Relay, send, become, close, refusal, leave, next, client_id, answer, connect, announce,
  choose, enqueue, give_up, signal, start_pipe, time_out,
}
use zetproxy_turbo.Relay.Machine.{receive, proceed}

-- A step that no phone takes part in.
pub record Quiet (s t : Relay) : Type 0 where
  pub ctrl_kept : t.ctrl ≡ s.ctrl
  pub phone_kept : t.last_phone ≡ s.last_phone
  pub registered_kept : (c : ℕ) (id : Bytes) → s.tasks c ≡ registered id → t.tasks c ≡ registered id

-- The handler of `c` is not in the loop of a control connection, and a step moves it on.
module _ (s : Relay) (c : ℕ) (n : (id : Bytes) → s.tasks c ≢ registered id) where
  moved-Quiet :
      (t : Relay) (k : Task)
      → t.ctrl ≡ s.ctrl
      → t.last_phone ≡ s.last_phone
      → t.tasks ≡ update s.tasks c k
      → Quiet s t
  moved-Quiet t k a b e = record {
    ctrl_kept = a;
    phone_kept = b;
    registered_kept = λ d id f. rw e (ground (arith, n id));
  }

  pub leave-Quiet : (b : Bytes) → Quiet s (leave c b s)
  unfolding leave send become close
  leave-Quiet b = moved-Quiet _ done refl refl refl

  pub connect-Quiet : (id : Bytes) → Quiet s (connect c id s)
  unfolding connect send become
  connect-Quiet id = elim (Bool-cases (equal id [])) [
    | inl e ↦ rw (e, connect) (leave-Quiet [])
    | inr e ↦ rw (e, connect) (moved-Quiet _ (entered id) refl refl refl)
  ]

  notify-Quiet : (id : Bytes) → Quiet s (notify c id s)
  unfolding notify send become
  notify-Quiet id = elim (Option-cases (lookup id s.ctrl)) [
    | inl h ↦ rw (h, notify) (moved-Quiet _ (waiting false id) refl refl refl)
    | inr (sc, h) ↦ rw (h, notify) (moved-Quiet _ (waiting false id) refl refl refl)
  ]

  pub announce-Quiet : (id : Bytes) → Quiet s (announce c id s)
  unfolding announce send become close
  announce-Quiet id = elim (Option-cases (lookup id s.wait)) [
    | inl h ↦ rw (h, announce) (moved-Quiet _ done refl refl refl)
    | inr (e, h) ↦ rw (h, announce) (moved-Quiet _ (delivered id) refl refl refl)
  ]

  pub choose-Quiet : (addr : Bytes) → Quiet s (choose c addr s)
  unfolding choose become
  choose-Quiet addr = elim (Bool-cases (equal s.last_phone [])) [
    | inl e ↦ rw (e, choose) (leave-Quiet (refusal 1))
    | inr e ↦ rw (e, choose) (moved-Quiet _ (chosen s.last_phone addr) refl refl refl)
  ]

  give_up-Quiet : (id b : Bytes) → Quiet s (give_up c id b s)
  unfolding give_up send become close
  give_up-Quiet id b = moved-Quiet _ (abandoned id) refl refl refl

  signal-Quiet : (phone cid addr : Bytes) (ok : Bool) → Quiet s (signal c phone cid addr ok s)
  unfolding signal send become
  signal-Quiet phone cid addr ok = elim (Option-cases (lookup phone s.ctrl)) [
    | inl h ↦ rw (h, signal) (give_up-Quiet cid (refusal 1))
    | inr (sc, h) ↦
        rw (h, signal)
          (elim (Bool-cases ok) [
            | inl e ↦ rw e (moved-Quiet _ (waiting true cid) refl refl refl)
            | inr e ↦ rw e (give_up-Quiet cid (refusal 1))
          ])
  ]

  pub time_out-Quiet : (b : Bool) (id : Bytes) → Quiet s (time_out c b id s)
  unfolding time_out become close
  time_out-Quiet true id = give_up-Quiet id (refusal 3)
  time_out-Quiet false id = moved-Quiet _ (abandoned id) refl refl refl

  receive-Quiet : (b : Bool) (id : Bytes) (o : Option ℕ) → Quiet s (receive c b id o s)
  unfolding receive start_pipe send become
  receive-Quiet b id none = record {
    ctrl_kept = refl;
    phone_kept = refl;
    registered_kept = λ d i f. f;
  }
  receive-Quiet true id (some d) = moved-Quiet _ (piping id d) refl refl refl
  receive-Quiet false id (some d) = moved-Quiet _ (piping id d) refl refl refl

  enqueue-Quiet : (phone addr : Bytes) → Quiet s (enqueue c phone addr s)
  unfolding enqueue become
  enqueue-Quiet phone addr =
      moved-Quiet _ (queued phone (client_id (next s.conn_cid)) addr) refl refl refl

pub still-Quiet :
    (s t : Relay) → t.ctrl ≡ s.ctrl → t.last_phone ≡ s.last_phone → t.tasks ≡ s.tasks → Quiet s t
still-Quiet s t a b e = record { ctrl_kept = a; phone_kept = b; registered_kept = λ c id f. rw e f }

answer-Quiet : (s : Relay) (c : ℕ) (id : Bytes) → Quiet s (answer c id s)
unfolding answer send
answer-Quiet s c id = elim (Bool-cases (s.answered c)) [
  | inl e ↦ rw (e, answer) (still-Quiet s s refl refl refl)
  | inr e ↦ rw (e, answer) (still-Quiet s _ refl refl refl)
]

pub proceed-Quiet :
    (s : Relay) (c : ℕ) (ok : Bool) (t : Task) → s.tasks c ≡ t → Quiet s (proceed c ok t s)
unfolding proceed close
proceed-Quiet s c ok (registered id) f = answer-Quiet s c id
proceed-Quiet s c ok (chosen phone addr) f = enqueue-Quiet s c (λ id. ground arith) phone addr
proceed-Quiet s c ok (queued phone cid addr) f =
    signal-Quiet s c (λ id. ground arith) phone cid addr ok
proceed-Quiet s c ok (entered id) f = notify-Quiet s c (λ i. ground arith) id
proceed-Quiet s c ok (waiting b id) f = receive-Quiet s c (λ i. ground arith) b id (s.inbox c)
proceed-Quiet s c ok (piping id d) f = still-Quiet s _ refl refl refl
proceed-Quiet s c ok (delivered id) f = still-Quiet s _ refl refl refl
proceed-Quiet s c ok _ f = still-Quiet s _ refl refl refl
