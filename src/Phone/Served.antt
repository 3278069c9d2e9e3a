-- ===== src/Phone/Served.antt =====
-- A SOCKS5 client of the relay, the phone, and the phone's data connection together.
use zetproxy_turbo.Base.{
  ℕ, ◌≡◌, refl, subst, ◌≢◌, true, false, some, List, [], ◌∷◌, ◌++◌, append-nil, arith,
}
use zetproxy_turbo.Text.{Bytes, equal}
use zetproxy_turbo.Dict.{lookup}
use zetproxy_turbo.Dict.Laws.{lookup-insert_self}
use zetproxy_turbo.Relay.{
  idle, registered, chosen, queued, waiting, piping, Relay, init, send, become, refusal, next,
  client_id, announce, choose, enqueue, ctrl_msg, signal, start_pipe,
}
use zetproxy_turbo.Relay.Command.{command}
use zetproxy_turbo.Relay.Machine.{
  Event, line, asks, proceeds, start, receive, proceed, begin, ask, step, run,
}
use zetproxy_turbo.Relay.Phones.{run-Control}
use zetproxy_turbo.Phone.{relay_target, complete_lines, orders, data_line_bytes}
use zetproxy_turbo.Phone.Agree.{IsLine, letter-IsId, IsTight, orders-ctrl_msg, command-data_line}

module _ (s : Relay) (c : ℕ) where
  asked_lem :
      (addr : Bytes)
      → s.tasks c ≡ idle
      → equal s.last_phone [] ≡ false
      → step s (asks c addr) ≡ become c (chosen s.last_phone addr) s
  unfolding step choose ask become
  asked_lem addr f e = rw (f, ask) (rw (e, choose) refl)

  queued_lem :
      (phone addr : Bytes)
      → s.tasks c ≡ chosen phone addr
      → step s (proceeds c true) ≡ enqueue c phone addr s
  unfolding step proceed enqueue
  queued_lem phone addr f = rw (f, proceed) refl

  signalled_lem :
      (phone cid addr : Bytes) (p : ℕ)
      → s.tasks c ≡ queued phone cid addr
      → lookup phone s.ctrl ≡ some p
      → step s (proceeds c true) ≡ become c (waiting true cid) (send p (ctrl_msg cid addr) s)
  unfolding step signal proceed become
  signalled_lem phone cid addr p f e = rw (f, proceed) (rw (e, signal) refl)

-- The three steps of the client's handler from its request on.
abbrev pub asking : ℕ → Bytes → Relay → Relay
asking c addr s = step (step (step s (asks c addr)) (proceeds c true)) (proceeds c true)

-- The phone's data connection for `id`, and the client's next step.
abbrev pub answering : ℕ → ℕ → Bytes → Relay → Relay
answering c d id s = step (step s (line d (command (data_line_bytes id)))) (proceeds c true)

asking_lem :
    (s : Relay) (c p : ℕ) (addr : Bytes)
    → s.tasks c ≡ idle
    → equal s.last_phone [] ≡ false
    → lookup s.last_phone s.ctrl ≡ some p
    → let cid = client_id (next s.conn_cid) in
      asking c addr s
      ≡ become c (waiting true cid) (
          send p
            (ctrl_msg cid addr)
            (enqueue c s.last_phone addr (become c (chosen s.last_phone addr) s)))
unfolding become enqueue
asking_lem s c p addr f e k =
    let s1 = become c (chosen s.last_phone addr) s in
    let s2 = enqueue c s.last_phone addr s1 in
    rw (asked_lem s c addr f e) (
      rw (queued_lem s1 c s.last_phone addr (ground arith))
        (signalled_lem s2 c s.last_phone (client_id (next s.conn_cid)) addr p (ground arith) k))

-- After any events, let `c` be a SOCKS5 client whose request for `addr`, a text of one line, has been
-- read, while there is a last phone and the write to it succeeds. Then that phone's control connection
-- gets one message, which the phone's loop reads as the order to connect the client's id to `addr`, if
-- the phone has been told its own id before; and when
-- the phone's data connection `d` announces that id as the phone writes it, the client gets the success
-- reply and is piped with `d`. No other handler moves in between.
pub client_served :
    (es : List Event) (c d : ℕ) (addr : Bytes)
    → let s = run init es in
      let cid = client_id (next s.conn_cid) in
      let t = asking c addr s in
      let u = answering c d cid t in
      s.tasks c ≡ idle
      → s.tasks d ≡ idle
      → c ≢ d
      → equal s.last_phone [] ≡ false
      → IsLine addr
      → IsTight addr
      → ((p : ℕ) × (s.tasks p ≡ registered s.last_phone)
          × (t.sent p ≡ s.sent p ++ ctrl_msg cid addr))
        × (orders (ctrl_msg cid addr) ≡ relay_target cid addr ∷ [])
        × (u.tasks c ≡ piping cid d)
        × (u.sent c ≡ s.sent c ++ refusal 0)
unfolding step begin start announce proceed receive start_pipe send become enqueue orders
    complete_lines
client_served es c d addr f g n e l k =
    let s = run init es in
    let v = run-Control es in
    let cid = client_id (next s.conn_cid) in
    let id = letter-IsId b'c' (next s.conn_cid) (omega arith) (omega arith) in
    let (p, h) = v.last e in
    let reg = v.entries s.last_phone p h in
    let read =
      subst (λ m. orders m ≡ relay_target cid addr ∷ []) (append-nil (ctrl_msg cid addr))
        (orders-ctrl_msg cid addr [] id l k) in
    let a = asking_lem s c p addr f e h in
    let b = command-data_line cid id in
    rw (a, b)
      (
        (p, reg, ground arith),
        read,
        ground (arith, lookup-insert_self cid c s.wait),
        ground (arith, lookup-insert_self cid c s.wait),
      )
