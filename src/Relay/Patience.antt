-- ===== src/Relay/Patience.antt =====
-- A client whose data connection is there, while the other handlers take their steps.
use zetproxy_turbo.Base.{
  ℕ, ◌≡◌, refl, ◌∙◌, ◌≢◌, inl, inr, Bool, true, false, Option, none, some, List, [], ◌∷◌, ◌++◌,
  arith, if◌then◌else◌, Bool-cases, Option-cases,
}
use zetproxy_turbo.Text.{Bytes, equal}
use zetproxy_turbo.Dict.{lookup}
use zetproxy_turbo.Relay.{
  Task, idle, registered, chosen, queued, entered, waiting, piping, abandoned, delivered, done,
  update, Relay, init, send, become, close, refusal, leave, next, phone_id, client_id, register,
  answer, unregister, connect, notify, announce, choose, enqueue, give_up, signal, start_pipe,
  time_out,
}
use zetproxy_turbo.Relay.Command.{
  Command, socks_line, register_line, connect_line, data_line, ping_line, other_line, closed_early,
}
use zetproxy_turbo.Relay.Machine.{
  Event, line, asks, proceeds, expires, drops, start, receive, proceed, begin, ask, expire,
  drop_phone, step, run,
}
use zetproxy_turbo.Relay.Invariant.{Inv}
use zetproxy_turbo.Relay.Moves.{pipe_lem}
use zetproxy_turbo.Relay.Steps.{step-Inv, run-Inv}

-- The handler that takes a step in an event.
abbrev pub actor : Event → ℕ
actor (line c cmd) = c
actor (asks c addr) = c
actor (proceeds c ok) = c
actor (expires c) = c
actor (drops c) = c

abbrev pub AreOthers : ℕ → List Event → Type 0
AreOthers c [] = Unit
AreOthers c (e ∷ es) = (actor e ≢ c) × AreOthers c es

-- Handler `c` stands where it stood, with the same in its channel.
pub record Spares (c : ℕ) (s t : Relay) : Type 0 where
  pub task_kept : t.tasks c ≡ s.tasks c
  pub inbox_kept : t.inbox c ≡ s.inbox c

module _ (s : Relay) (a c : ℕ) (n : a ≢ c) where
  moved : (t : Relay) (k : Task) → t.tasks ≡ update s.tasks a k → t.inbox ≡ s.inbox → Spares c s t
  moved t k e i = record { task_kept = rw e (ground arith); inbox_kept = rw i refl }

  still : (t : Relay) → t.tasks ≡ s.tasks → t.inbox ≡ s.inbox → Spares c s t
  still t e i = record { task_kept = rw e refl; inbox_kept = rw i refl }

  leave-Spares : (b : Bytes) → Spares c s (leave a b s)
  unfolding leave send become close
  leave-Spares b = moved _ done refl refl

  connect-Spares : (id : Bytes) → Spares c s (connect a id s)
  unfolding connect send become
  connect-Spares id = elim (Bool-cases (equal id [])) [
    | inl e ↦ rw (e, connect) (leave-Spares [])
    | inr e ↦ rw (e, connect) (moved _ (entered id) refl refl)
  ]

  -- The one step that fills a channel: it is that of an entry, and was empty.
  announce-Spares : (id : Bytes) (d : ℕ) → Inv s → s.inbox c ≡ some d → Spares c s (announce a id s)
  unfolding announce send become close
  announce-Spares id d v h = elim (Option-cases (lookup id s.wait)) [
    | inl e ↦ rw (e, announce) (moved _ done refl refl)
    | inr (x, e) ↦
        rw (e, announce)
          record { task_kept = ground arith; inbox_kept = ground (arith, v.entries id x e) }
  ]

  start-Spares : (cmd : Command) (d : ℕ) → Inv s → s.inbox c ≡ some d → Spares c s (start a cmd s)
  unfolding start register unregister send become
  start-Spares socks_line d v h = still _ refl refl
  start-Spares register_line d v h = moved _ (registered (phone_id (next s.next_id))) refl refl
  start-Spares (connect_line id) d v h = connect-Spares id
  start-Spares (data_line id) d v h = announce-Spares id d v h
  start-Spares ping_line d v h = leave-Spares _
  start-Spares other_line d v h = leave-Spares _
  start-Spares closed_early d v h = leave-Spares []

  begin-Spares :
      (cmd : Command) (t : Task) (d : ℕ) → Inv s → s.inbox c ≡ some d → Spares c s (begin a cmd t s)
  unfolding begin
  begin-Spares cmd idle d v h = start-Spares cmd d v h
  begin-Spares cmd _ d v h = still _ refl refl

  ask-Spares : (addr : Bytes) (t : Task) → Spares c s (ask a addr t s)
  unfolding ask choose become
  ask-Spares addr idle = elim (Bool-cases (equal s.last_phone [])) [
    | inl e ↦ rw (e, choose) (leave-Spares (refusal 1))
    | inr e ↦ rw (e, choose) (moved _ (chosen s.last_phone addr) refl refl)
  ]
  ask-Spares addr _ = still _ refl refl

  give_up-Spares : (id b : Bytes) → Spares c s (give_up a id b s)
  unfolding give_up send become close
  give_up-Spares id b = moved _ (abandoned id) refl refl

  signal-Spares : (phone cid addr : Bytes) (ok : Bool) → Spares c s (signal a phone cid addr ok s)
  unfolding signal send become
  signal-Spares phone cid addr ok = elim (Option-cases (lookup phone s.ctrl)) [
    | inl h ↦ rw (h, signal) (give_up-Spares cid (refusal 1))
    | inr (p, h) ↦
        rw (h, signal)
          (elim (Bool-cases ok) [
            | inl e ↦ rw e (moved _ (waiting true cid) refl refl)
            | inr e ↦ rw e (give_up-Spares cid (refusal 1))
          ])
  ]

  notify-Spares : (id : Bytes) → Spares c s (notify a id s)
  unfolding notify send become
  notify-Spares id = elim (Option-cases (lookup id s.ctrl)) [
    | inl h ↦ rw (h, notify) (moved _ (waiting false id) refl refl)
    | inr (p, h) ↦ rw (h, notify) (moved _ (waiting false id) refl refl)
  ]

  receive-Spares : (b : Bool) (id : Bytes) (o : Option ℕ) → Spares c s (receive a b id o s)
  unfolding receive start_pipe send become
  receive-Spares b id none = still _ refl refl
  receive-Spares true id (some d) = moved _ (piping id d) refl refl
  receive-Spares false id (some d) = moved _ (piping id d) refl refl

  answer-Spares : (id : Bytes) → Spares c s (answer a id s)
  unfolding answer send
  answer-Spares id = elim (Bool-cases (s.answered a)) [
    | inl e ↦ rw (e, answer) (still _ refl refl)
    | inr e ↦ rw (e, answer) (still _ refl refl)
  ]

  proceed-Spares : (ok : Bool) (t : Task) → Spares c s (proceed a ok t s)
  unfolding proceed enqueue become close
  proceed-Spares ok (registered id) = answer-Spares id
  proceed-Spares ok (chosen phone addr) =
      moved _ (queued phone (client_id (next s.conn_cid)) addr) refl refl
  proceed-Spares ok (queued phone cid addr) = signal-Spares phone cid addr ok
  proceed-Spares ok (entered id) = notify-Spares id
  proceed-Spares ok (waiting b id) = receive-Spares b id (s.inbox a)
  proceed-Spares ok (piping id d) = still _ refl refl
  proceed-Spares ok (delivered id) = still _ refl refl
  proceed-Spares ok _ = still _ refl refl

  expire-Spares : (t : Task) → Spares c s (expire a t s)
  unfolding expire time_out become close
  expire-Spares (waiting true id) = give_up-Spares id (refusal 3)
  expire-Spares (waiting false id) = moved _ (abandoned id) refl refl
  expire-Spares _ = still _ refl refl

  drop_phone-Spares : (t : Task) → Spares c s (drop_phone a t s)
  unfolding drop_phone unregister become close
  drop_phone-Spares (registered id) = elim (Bool-cases (s.answered a)) [
    | inl e ↦ rw (e, drop_phone) (moved _ done refl refl)
    | inr e ↦ rw (e, drop_phone) (still _ refl refl)
  ]
  drop_phone-Spares _ = still _ refl refl

step-Spares :
    (s : Relay) (e : Event) (c d : ℕ)
    → actor e ≢ c
    → Inv s
    → s.inbox c ≡ some d
    → Spares c s (step s e)
unfolding step
step-Spares s (line a cmd) c d n v h = begin-Spares s a c n cmd (s.tasks a) d v h
step-Spares s (asks a addr) c d n v h = ask-Spares s a c n addr (s.tasks a)
step-Spares s (proceeds a ok) c d n v h = proceed-Spares s a c n ok (s.tasks a)
step-Spares s (expires a) c d n v h = expire-Spares s a c n (s.tasks a)
step-Spares s (drops a) c d n v h = drop_phone-Spares s a c n (s.tasks a)

run-Spares :
    (es : List Event) (s : Relay) (c d : ℕ)
    → AreOthers c es
    → Inv s
    → s.inbox c ≡ some d
    → Spares c s (run s es)
unfolding run
run-Spares [] s c d o v h = record { task_kept = refl; inbox_kept = refl }
run-Spares (e ∷ es) s c d (n, o) v h =
    let one = step-Spares s e c d n v h in
    let rest = run-Spares es (step s e) c d o (step-Inv s e v) (one.inbox_kept ∙ h) in
    record {
      task_kept = rest.task_kept ∙ one.task_kept;
      inbox_kept = rest.inbox_kept ∙ one.inbox_kept;
    }

-- After any events, let a client wait with a data connection in its channel. Whatever steps all other
-- handlers take from then on, the client's next step, if its 60 seconds are not over, starts the pipe
-- with exactly this data connection, and a SOCKS5 client gets the success reply then.
pub patient :
    (es fs : List Event) (c d : ℕ) (socks ok : Bool) (id : Bytes)
    → (run init es).tasks c ≡ waiting socks id
    → (run init es).inbox c ≡ some d
    → AreOthers c fs
    → let t = run (run init es) fs in
      let u = step t (proceeds c ok) in
      (u.tasks c ≡ piping id d) × (u.sent c ≡ (if socks then t.sent c ++ refusal 0 else t.sent c))
unfolding start_pipe send become
patient es fs c d socks ok id f h o =
    let v = run-Spares fs (run init es) c d o (run-Inv es) h in
    let p = pipe_lem (run (run init es) fs) c d socks ok id (v.task_kept ∙ f) (v.inbox_kept ∙ h) in
    rw p (elim (Bool-cases socks) [
      | inl e ↦ rw e (ground arith, ground arith)
      | inr e ↦ rw e (ground arith, ground arith)
    ])
