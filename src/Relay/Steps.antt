-- ===== src/Relay/Steps.antt =====
-- Every step of the relay keeps the invariant, so it holds after any events.
use zetproxy_turbo.Base.{
  ℕ, ◌≡◌, refl, ◌≢◌, inl, inr, Bool, true, false, Option, none, some, List, [], ◌∷◌, arith,
  if◌then◌else◌, Bool-cases, Option-cases,
}
use zetproxy_turbo.Text.{Bytes, equal}
use zetproxy_turbo.Dict.{lookup, delete}
use zetproxy_turbo.Relay.{
  Task, idle, registered, chosen, queued, entered, waiting, piping, abandoned, delivered, Relay,
  init, send, become, close, refusal, next, client_id, answer, notify, choose, enqueue, give_up,
  ctrl_msg, signal, start_pipe, time_out,
}
use zetproxy_turbo.Relay.Command.{
  Command, socks_line, register_line, connect_line, data_line, ping_line, other_line, closed_early,
}
use zetproxy_turbo.Relay.Machine.{
  Event, line, asks, proceeds, expires, drops, start, receive, proceed, begin, ask, expire,
  drop_phone, step, run,
}
use zetproxy_turbo.Relay.Invariant.{
  key_of, Inv, init-Inv, same-Inv, become-Inv, queue-Inv, delete-Inv, leave-Inv, register-Inv,
  unregister-Inv, connect-Inv, announce-Inv,
}

choose-Inv : (s : Relay) (c : ℕ) (addr : Bytes) → Inv s → s.tasks c ≡ idle → Inv (choose c addr s)
unfolding choose
choose-Inv s c addr v f = elim (Bool-cases (equal s.last_phone [])) [
  | inl e ↦ rw (e, choose) (leave-Inv s c (refusal 1) v f)
  | inr e ↦
      rw (e, choose) (become-Inv s c _ v (ground arith) (λ i. ground arith) (λ i d. ground arith))
]

enqueue-Inv :
    (s : Relay) (c : ℕ) (phone addr : Bytes)
    → Inv s
    → s.tasks c ≡ chosen phone addr
    → Inv (enqueue c phone addr s)
unfolding enqueue become
enqueue-Inv s c phone addr v f =
    let cid = client_id (next s.conn_cid) in
    same-Inv _ _
      (queue-Inv s c cid (queued phone cid addr) v (ground arith) (λ i. ground arith) refl
        (λ i d. ground arith))
      refl refl refl

-- A handler that has waited for `id` gives up.
give_up-Inv :
    (s : Relay) (c : ℕ) (id b : Bytes)
    → Inv s
    → key_of (s.tasks c) ≡ some id
    → ((i : Bytes) → s.tasks c ≢ delivered i)
    → Inv (give_up c id b s)
unfolding give_up send close become
give_up-Inv s c id b v k n =
    same-Inv _ _
      (become-Inv (record s { wait = delete id s.wait }) c (abandoned id) (delete-Inv s id v)
        (ground arith) n (λ i d. ground arith))
      refl refl refl

signal-Inv :
    (s : Relay) (c : ℕ) (phone cid addr : Bytes) (ok : Bool)
    → Inv s
    → s.tasks c ≡ queued phone cid addr
    → Inv (signal c phone cid addr ok s)
unfolding signal send become
signal-Inv s c phone cid addr ok v f =
    let refused = give_up-Inv s c cid (refusal 1) v (ground arith) (λ i. ground arith) in
    elim (Option-cases (lookup phone s.ctrl)) [
      | inl e ↦ rw (e, signal) refused
      | inr (sc, e) ↦ rw (e, signal) (branch ok sc refused)
    ]
  where
    branch :
        (b : Bool) (sc : ℕ)
        → Inv (give_up c cid (refusal 1) s)
        → Inv (
            if b
            then become c (waiting true cid) (send sc (ctrl_msg cid addr) s)
            else give_up c cid (refusal 1) s)
    branch false sc r = r
    branch true sc r =
        same-Inv (become c (waiting true cid) s) _
          (become-Inv s c (waiting true cid) v (ground arith) (λ i. ground arith)
            (λ i d. ground arith))
          refl refl refl

notify-Inv : (s : Relay) (c : ℕ) (id : Bytes) → Inv s → s.tasks c ≡ entered id → Inv (notify c id s)
unfolding notify send become
notify-Inv s c id v f =
    let waits =
      become-Inv s c (waiting false id) v (ground arith) (λ i. ground arith)
        (λ i d. ground arith) in
    elim (Option-cases (lookup id s.ctrl)) [
      | inl e ↦ rw (e, notify) waits
      | inr (sc, e) ↦
          rw (e, notify) (same-Inv (become c (waiting false id) s) _ waits refl refl refl)
    ]

receive-Inv :
    (s : Relay) (c : ℕ) (b : Bool) (id : Bytes) (o : Option ℕ)
    → Inv s
    → s.tasks c ≡ waiting b id
    → s.inbox c ≡ o
    → Inv (receive c b id o s)
unfolding receive start_pipe send become
receive-Inv s c b id none v f e = v
receive-Inv s c b id (some d) v f e =
    same-Inv (become c (piping id d) s) _
      (become-Inv s c (piping id d) v (ground arith) (λ i. ground arith) (λ i x. ground arith))
      (ground arith) (ground arith) (ground arith)

time_out-Inv :
    (s : Relay) (c : ℕ) (b : Bool) (id : Bytes)
    → Inv s
    → s.tasks c ≡ waiting b id
    → Inv (time_out c b id s)
unfolding time_out close become
time_out-Inv s c true id v f = give_up-Inv s c id (refusal 3) v (ground arith) (λ i. ground arith)
time_out-Inv s c false id v f =
    same-Inv (become c (abandoned id) s) _
      (become-Inv s c (abandoned id) v (ground arith) (λ i. ground arith) (λ i d. ground arith))
      refl refl refl

close-Inv : (s : Relay) (c : ℕ) → Inv s → Inv (close c s)
unfolding close
close-Inv s c v = same-Inv s _ v refl refl refl

start-Inv : (s : Relay) (c : ℕ) (cmd : Command) → Inv s → s.tasks c ≡ idle → Inv (start c cmd s)
unfolding start
start-Inv s c socks_line v f = v
start-Inv s c register_line v f = register-Inv s c v f
start-Inv s c (connect_line id) v f = connect-Inv s c id v f
start-Inv s c (data_line id) v f = announce-Inv s c id v f
start-Inv s c ping_line v f = leave-Inv s c _ v f
start-Inv s c other_line v f = leave-Inv s c _ v f
start-Inv s c closed_early v f = leave-Inv s c [] v f

begin-Inv :
    (s : Relay) (c : ℕ) (cmd : Command) (t : Task) → Inv s → s.tasks c ≡ t → Inv (begin c cmd t s)
unfolding begin
begin-Inv s c cmd idle v f = start-Inv s c cmd v f
begin-Inv s c cmd _ v f = v

ask-Inv :
    (s : Relay) (c : ℕ) (addr : Bytes) (t : Task) → Inv s → s.tasks c ≡ t → Inv (ask c addr t s)
unfolding ask
ask-Inv s c addr idle v f = choose-Inv s c addr v f
ask-Inv s c addr _ v f = v

answer-Inv : (s : Relay) (c : ℕ) (id : Bytes) → Inv s → Inv (answer c id s)
unfolding answer send
answer-Inv s c id v = elim (Bool-cases (s.answered c)) [
  | inl e ↦ rw (e, answer) v
  | inr e ↦ rw (e, answer) (same-Inv s _ v refl refl refl)
]

proceed-Inv :
    (s : Relay) (c : ℕ) (ok : Bool) (t : Task) → Inv s → s.tasks c ≡ t → Inv (proceed c ok t s)
unfolding proceed
proceed-Inv s c ok (registered id) v f = answer-Inv s c id v
proceed-Inv s c ok (chosen phone addr) v f = enqueue-Inv s c phone addr v f
proceed-Inv s c ok (queued phone cid addr) v f = signal-Inv s c phone cid addr ok v f
proceed-Inv s c ok (entered id) v f = notify-Inv s c id v f
proceed-Inv s c ok (waiting b id) v f = receive-Inv s c b id (s.inbox c) v f refl
proceed-Inv s c ok (piping id d) v f = close-Inv s c v
proceed-Inv s c ok (delivered id) v f = close-Inv s c v
proceed-Inv s c ok _ v f = v

expire-Inv : (s : Relay) (c : ℕ) (t : Task) → Inv s → s.tasks c ≡ t → Inv (expire c t s)
unfolding expire
expire-Inv s c (waiting b id) v f = time_out-Inv s c b id v f
expire-Inv s c _ v f = v

drop_phone-Inv : (s : Relay) (c : ℕ) (t : Task) → Inv s → s.tasks c ≡ t → Inv (drop_phone c t s)
unfolding drop_phone
drop_phone-Inv s c (registered id) v f = elim (Bool-cases (s.answered c)) [
  | inl e ↦ rw (e, drop_phone) (unregister-Inv s c id v f)
  | inr e ↦ rw (e, drop_phone) v
]
drop_phone-Inv s c _ v f = v

pub step-Inv : (s : Relay) (e : Event) → Inv s → Inv (step s e)
unfolding step
step-Inv s (line c cmd) v = begin-Inv s c cmd (s.tasks c) v refl
step-Inv s (asks c addr) v = ask-Inv s c addr (s.tasks c) v refl
step-Inv s (proceeds c ok) v = proceed-Inv s c ok (s.tasks c) v refl
step-Inv s (expires c) v = expire-Inv s c (s.tasks c) v refl
step-Inv s (drops c) v = drop_phone-Inv s c (s.tasks c) v refl

run_from-Inv : (s : Relay) (es : List Event) → Inv s → Inv (run s es)
unfolding run
run_from-Inv s [] v = v
run_from-Inv s (e ∷ es) v = run_from-Inv (step s e) es (step-Inv s e v)

pub run-Inv : (es : List Event) → Inv (run init es)
run-Inv es = run_from-Inv init es init-Inv
