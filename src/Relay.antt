-- ===== src/Relay.antt =====
-- The relay of cmd/relay/main.go: its shared maps and counters, the first line of a connection, and
-- each handler cut at the points where it blocks or takes a lock.
--
-- Connections are numbered. What a connection was sent, whether it is closed and what lies in the
-- channel of its `waitEntry` are functions of that number.
pub mod Command
pub mod Machine
pub mod Request
pub mod Steps
pub mod Invariant
pub mod Routing
pub mod Quiet
pub mod Moves
pub mod Patience
pub mod Phones
pub mod Streams
use zetproxy_turbo.Base.{
  ℕ, Bool, true, false, Option, none, some, List, [], ◌∷◌, ◌++◌, ◌==◌, if◌then◌else◌, add_int64,
}
use zetproxy_turbo.Text.{Bytes, codes, equal, show_int64}
use zetproxy_turbo.Dict.{lookup, delete, insert}

-- Where the handler of a connection stands.
pub data Task : Type 0 where
  idle : Task  -- accepted, its first line or request not read
  registered : Bytes → Task  -- a control connection with its id, its entry in `ctrl`
  chosen : Bytes → Bytes → Task  -- SOCKS5: phone and target address
  queued : Bytes → Bytes → Bytes → Task  -- SOCKS5: phone, id in `wait`, target address
  entered : Bytes → Task  -- plain: with its id in `wait`, its phone not told
  waiting : Bool → Bytes → Task  -- in the `select` for its id; whether it speaks SOCKS5
  piping : Bytes → ℕ → Task  -- in `pipe` with a data connection
  abandoned : Bytes → Task  -- returned without a data connection, after waiting for its id
  delivered : Bytes → Task  -- a data connection that was put into a channel; `handle` returns next
  done : Task  -- returned

abbrev pub update : {A : Type 0} → (ℕ → A) → ℕ → A → ℕ → A
update f i v j = if i == j then v else f j

pub record Relay : Type 0 where
  pub ctrl : List (Bytes × ℕ)  -- `ctrl`, the control connections of phones
  pub last_phone : Bytes
  pub wait : List (Bytes × ℕ)  -- `wait`, by the client of the entry
  pub next_id : ℕ
  pub conn_cid : ℕ
  pub tasks : ℕ → Task
  pub inbox : ℕ → Option ℕ  -- what a client's `dataCh`, of one place, holds or held
  pub sent : ℕ → Bytes
  pub closed : ℕ → Bool
  pub answered : ℕ → Bool  -- whether a control connection was told its id

unfoldable pub init : Relay
init = record {
  ctrl = [];
  last_phone = [];
  wait = [];
  next_id = 0;
  conn_cid = 0;
  tasks = λ c. idle;
  inbox = λ c. none;
  sent = λ c. [];
  closed = λ c. false;
  answered = λ c. false;
}

-- The address that `main` listens on, by the variable PORT of the environment.
unfoldable pub listen_addr : Bytes → Bytes
listen_addr port = b':' ∷ (if equal port [] then codes "8080" else port)

-- `fmt.Fprintf(conn, …)` and `conn.Write(…)`
unfoldable pub send : ℕ → Bytes → Relay → Relay
send c b s = record s { sent = update s.sent c (s.sent c ++ b) }

unfoldable pub become : ℕ → Task → Relay → Relay
become c t s = record s { tasks = update s.tasks c t }

-- The deferred `conn.Close()` of `safeHandle`.
unfoldable pub close : ℕ → Relay → Relay
close c s = record s { closed = update s.closed c true }

abbrev pub refusal : ℕ → Bytes
refusal code = 5 ∷ code ∷ 0 ∷ 1 ∷ 0 ∷ 0 ∷ 0 ∷ 0 ∷ 0 ∷ 0 ∷ []

-- A handler that returns with nothing in `wait`.
unfoldable pub leave : ℕ → Bytes → Relay → Relay
leave c b s = close c (become c done (send c b s))

-- `nextID++` and `connCID++` on a 64-bit int
abbrev pub next : ℕ → ℕ
next n = add_int64 n 1

abbrev pub phone_id : ℕ → Bytes
phone_id n = b'p' ∷ show_int64 n

abbrev pub client_id : ℕ → Bytes
client_id n = b'c' ∷ show_int64 n

abbrev pub newline : Bytes
newline = 10 ∷ []

-- `case line == "register"` up to `ctrlMu.Unlock()`.
unfoldable pub register : ℕ → Relay → Relay
register c s =
    let id = phone_id (next s.next_id) in
    become c (registered id)
      (record s { next_id = next s.next_id; ctrl = insert id c s.ctrl; last_phone = id })

-- The answer with the id, behind which the loop reads the control connection.
unfoldable pub answer : ℕ → Bytes → Relay → Relay
answer c id s =
    if s.answered c
    then s
    else send c (codes "id:" ++ (id ++ newline)) (record s { answered = update s.answered c true })

-- The rest of it: the control connection failed.
unfoldable pub unregister : ℕ → Bytes → Relay → Relay
unregister c id s = close c (
    become c done (record s {
      ctrl = delete id s.ctrl;
      last_phone = if equal s.last_phone id then [] else s.last_phone;
    }))

-- `case strings.HasPrefix(line, "connect:")` up to the entry in `wait`.
unfoldable pub connect : ℕ → Bytes → Relay → Relay
connect c id s =
    if equal id []
    then leave c [] s
    else become c (entered id)
        (send c (codes "ready" ++ newline) (record s { wait = insert id c s.wait }))

-- The message to the phone, if there is one, up to the `select`.
unfoldable pub notify : ℕ → Bytes → Relay → Relay
notify c id s = elim (lookup id s.ctrl) [
  | none ↦ become c (waiting false id) s
  | some sc ↦ become c (waiting false id) (send sc (codes "conn" ++ newline) s)
]

-- `case strings.HasPrefix(line, "data:")` up to the return of `handle`.
unfoldable pub announce : ℕ → Bytes → Relay → Relay
announce d id s =
    let t = send d (codes "ready" ++ newline) s in
    elim (lookup id t.wait) [
      | none ↦ close d (become d done t)
      | some c ↦
          become d (delivered id)
            (record t { wait = delete id t.wait; inbox = update t.inbox c (some d) })
    ]

-- `handleSOCKS5` behind the request: the phone is chosen.
unfoldable pub choose : ℕ → Bytes → Relay → Relay
choose c addr s =
    if equal s.last_phone [] then leave c (refusal 1) s else become c (chosen s.last_phone addr) s

-- The entry in `wait`.
unfoldable pub enqueue : ℕ → Bytes → Bytes → Relay → Relay
enqueue c phone addr s =
    let cid = client_id (next s.conn_cid) in
    become c (queued phone cid addr)
      (record s { conn_cid = next s.conn_cid; wait = insert cid c s.wait })

-- A handler that takes its entry out of `wait`, answers and returns.
unfoldable pub give_up : ℕ → Bytes → Bytes → Relay → Relay
give_up c cid b s =
    close c (become c (abandoned cid) (send c b (record s { wait = delete cid s.wait })))

-- `fmt.Sprintf("conn:%s:%s\n", cid, targetAddr)`
abbrev pub ctrl_msg : Bytes → Bytes → Bytes
ctrl_msg cid addr = codes "conn:" ++ (cid ++ (b':' ∷ (addr ++ newline)))

-- The message to the phone; `ok` is whether that write succeeds.
unfoldable pub signal : ℕ → Bytes → Bytes → Bytes → Bool → Relay → Relay
signal c phone cid addr ok s = elim (lookup phone s.ctrl) [
  | none ↦ give_up c cid (refusal 1) s
  | some sc ↦
      if ok
      then become c (waiting true cid) (send sc (ctrl_msg cid addr) s)
      else give_up c cid (refusal 1) s
]

-- `case data := <-ch` of either `select`: `pipe` starts.
unfoldable pub start_pipe : ℕ → Bool → Bytes → ℕ → Relay → Relay
start_pipe c socks id d s = become c (piping id d) (if socks then send c (refusal 0) s else s)

-- `case <-time.After(60 * time.Second)`: only the SOCKS5 handler deletes its entry.
unfoldable pub time_out : ℕ → Bool → Bytes → Relay → Relay
time_out c true id s = give_up c id (refusal 3) s
time_out c false id s = close c (become c (abandoned id) s)
