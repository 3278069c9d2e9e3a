-- ===== src/Relay/Phones.antt =====
-- The control connections of the relay: which phone a SOCKS5 client is sent to.
use zetproxy_turbo.Base.{
  ℕ, ◌≡◌, refl, ◌≢◌, ◌⊎◌, inl, inr, true, false, some, List, [], ◌∷◌, ◌++◌, arith, Bool-cases,
}
use zetproxy_turbo.Text.{Bytes, equal}
use zetproxy_turbo.Text.Laws.{equal_iff, equal_self}
use zetproxy_turbo.Dict.{lookup}
use zetproxy_turbo.Dict.Laws.{equal_sym, lookup-delete, lookup-insert, lookup-insert_self}
use zetproxy_turbo.Relay.{
  Task, idle, registered, chosen, waiting, done, Relay, init, send, become, close, refusal, leave,
  next, phone_id, register, unregister, choose,
}
use zetproxy_turbo.Relay.Command.{
  Command, socks_line, register_line, connect_line, data_line, ping_line, other_line, closed_early,
}
use zetproxy_turbo.Relay.Machine.{
  Event, line, asks, proceeds, expires, drops, start, begin, ask, expire, drop_phone, step, run,
}
use zetproxy_turbo.Relay.Quiet.{
  Quiet, leave-Quiet, connect-Quiet, announce-Quiet, choose-Quiet, time_out-Quiet, proceed-Quiet,
}

-- The entries of `ctrl` are control connections whose handlers have not ended, and the last phone is one.
pub record Control (s : Relay) : Type 0 where
  pub entries : (id : Bytes) (c : ℕ) → lookup id s.ctrl ≡ some c → s.tasks c ≡ registered id
  pub last : equal s.last_phone [] ≡ false → (c : ℕ) × (lookup s.last_phone s.ctrl ≡ some c)

init-Control : Control init
unfolding init lookup equal
init-Control = record {
  entries = λ id c h. absurd (ground arith);
  last = λ h. absurd (ground arith);
}

Quiet-Control : (s t : Relay) → Quiet s t → Control s → Control t
Quiet-Control s t q v = record {
  entries = λ id c h. q.registered_kept c id (v.entries id c (rw q.ctrl_kept at h));
  last = λ h. rw (q.phone_kept, q.ctrl_kept) (v.last (rw q.phone_kept at h));
}

register-Control : (s : Relay) (c : ℕ) → s.tasks c ≡ idle → Control s → Control (register c s)
unfolding register send become
register-Control s c f v =
    let id = phone_id (next s.next_id) in
    record {
      entries = λ i e h. ground (arith, lookup-insert id i c s.ctrl, equal_iff id i, v.entries i e);
      last = λ h. (c, lookup-insert_self id c s.ctrl);
    }

unregister-Control :
    (s : Relay) (c : ℕ) (id : Bytes)
    → s.tasks c ≡ registered id
    → Control s
    → Control (unregister c id s)
unfolding unregister close become
unregister-Control s c id f v = record {
  entries = λ i e h. ground (arith, lookup-delete id i s.ctrl, equal_iff id i, v.entries i e);
  last = λ h. elim (Bool-cases (equal s.last_phone id)) [
    | inl e ↦ absurd (ground (arith, equal_self []))
    | inr e ↦
        let (d, k) = v.last (ground arith) in
        (d, ground (arith, lookup-delete id s.last_phone s.ctrl, equal_sym id s.last_phone))
  ];
}

start-Control :
    (s : Relay) (c : ℕ) (cmd : Command) → s.tasks c ≡ idle → Control s → Control (start c cmd s)
unfolding start
start-Control s c socks_line f v = v
start-Control s c register_line f v = register-Control s c f v
start-Control s c (connect_line id) f v =
    Quiet-Control s _ (connect-Quiet s c (λ i. ground arith) id) v
start-Control s c (data_line id) f v =
    Quiet-Control s _ (announce-Quiet s c (λ i. ground arith) id) v
start-Control s c ping_line f v = Quiet-Control s _ (leave-Quiet s c (λ i. ground arith) _) v
start-Control s c other_line f v = Quiet-Control s _ (leave-Quiet s c (λ i. ground arith) _) v
start-Control s c closed_early f v = Quiet-Control s _ (leave-Quiet s c (λ i. ground arith) []) v

begin-Control :
    (s : Relay) (c : ℕ) (cmd : Command) (t : Task)
    → s.tasks c ≡ t
    → Control s
    → Control (begin c cmd t s)
unfolding begin
begin-Control s c cmd idle f v = start-Control s c cmd f v
begin-Control s c cmd _ f v = v

ask-Control :
    (s : Relay) (c : ℕ) (addr : Bytes) (t : Task)
    → s.tasks c ≡ t
    → Control s
    → Control (ask c addr t s)
unfolding ask
ask-Control s c addr idle f v = Quiet-Control s _ (choose-Quiet s c (λ i. ground arith) addr) v
ask-Control s c addr _ f v = v

expire-Control : (s : Relay) (c : ℕ) (t : Task) → s.tasks c ≡ t → Control s → Control (expire c t s)
unfolding expire
expire-Control s c (waiting b id) f v =
    Quiet-Control s _ (time_out-Quiet s c (λ i. ground arith) b id) v
expire-Control s c _ f v = v

drop_phone-Control :
    (s : Relay) (c : ℕ) (t : Task) → s.tasks c ≡ t → Control s → Control (drop_phone c t s)
unfolding drop_phone
drop_phone-Control s c (registered id) f v = elim (Bool-cases (s.answered c)) [
  | inl e ↦ rw (e, drop_phone) (unregister-Control s c id f v)
  | inr e ↦ rw (e, drop_phone) v
]
drop_phone-Control s c _ f v = v

step-Control : (s : Relay) (e : Event) → Control s → Control (step s e)
unfolding step
step-Control s (line c cmd) v = begin-Control s c cmd _ refl v
step-Control s (asks c addr) v = ask-Control s c addr _ refl v
step-Control s (proceeds c ok) v = Quiet-Control s _ (proceed-Quiet s c ok _ refl) v
step-Control s (expires c) v = expire-Control s c _ refl v
step-Control s (drops c) v = drop_phone-Control s c _ refl v

run_from-Control : (es : List Event) (s : Relay) → Control s → Control (run s es)
unfolding run
run_from-Control [] s v = v
run_from-Control (e ∷ es) s v = run_from-Control es (step s e) (step-Control s e v)

-- After any events: every entry of the map of control connections is a connection that registered
-- under that id and whose handler has not ended, and the last phone, if there is one, has an entry.
pub run-Control : (es : List Event) → Control (run init es)
run-Control es = run_from-Control es init init-Control

-- After any events, a SOCKS5 client whose request has been read is refused with the general failure
-- exactly when there is no last phone; else it goes on with the id of a phone that at that moment has a
-- control connection whose handler has registered it and not ended.
pub chosen_phone :
    (es : List Event) (c : ℕ) (addr : Bytes)
    → let s = run init es in
      let t = step s (asks c addr) in
      s.tasks c ≡ idle
      → ((s.last_phone ≡ [])
          × (t.tasks c ≡ done)
          × (t.closed c ≡ true)
          × (t.sent c ≡ s.sent c ++ refusal 1))
        ⊎ ((p : ℕ) × (s.last_phone ≢ [])
            × (t.tasks c ≡ chosen s.last_phone addr)
            × (lookup s.last_phone s.ctrl ≡ some p)
            × (s.tasks p ≡ registered s.last_phone))
unfolding step ask choose leave send become close
chosen_phone es c addr f =
    let s = run init es in
    let v = run-Control es in
    elim (Bool-cases (equal s.last_phone [])) [
      | inl e ↦ inl (ground (arith, equal_iff s.last_phone []))
      | inr e ↦
          let (p, k) = v.last e in
          inr (
            p,
            ground (arith, equal_iff s.last_phone []),
            ground arith,
            k,
            v.entries s.last_phone p k,
          )
    ]
