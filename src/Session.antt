-- ===== src/Session.antt =====
-- One client connection as a handler sees it: the calls of package net and io that the handlers of
-- both servers make, as a state monad with early return and panic.
--
-- A handler reads what the client will ever send it (`rest`), so a read that gets too little is the
-- end of the stream or the deadline. What the network decides is a parameter: the write that fails,
-- the outcome of a dial, how many bytes one `Read` returns, and what a finished relay has copied.
pub mod Rules
pub mod Reads
use zetproxy_turbo.Base.{
  ℕ, suc, ◌+◌, ◌-◌, ◌<◌, Bool, true, false, Option, none, some, List, [], ◌∷◌, ◌++◌, leb,
  if◌then◌else◌, length, take, drop,
}
use Prim.Native.Nat.{min}
use zetproxy_turbo.Text.{Bytes}

-- What a dialled connection to a target does.
pub record Target : Type 0 where
  pub local_ip : Bytes  -- `LocalAddr().(*net.TCPAddr).IP`
  pub local_port : ℕ
  pub write_ok : Bool  -- whether a first `target.Write` succeeds
  pub upload : ℕ  -- bytes that the relay copies from the client to the target
  pub download : ℕ  -- and from the target to the client

pub record World : Type 0 where
  pub first_read : ℕ  -- bytes that one `Read` of the client returns, if it sends that many
  pub write_ok : ℕ → Bool  -- whether the n-th write to the client succeeds
  pub dial : Bytes → Option Target  -- `net.DialTimeout("tcp", addr, 10 * time.Second)`
  pub remote_addr : Bytes  -- `conn.RemoteAddr().String()`
  pub now : ℕ

-- `S` is the server's state.
pub record Session (S : Type 0) : Type 0 where
  pub server : S
  pub rest : Bytes  -- what the client sends and no read has taken
  pub sent : Bytes  -- what successful writes sent to the client
  pub writes : ℕ  -- calls of `Write` so far
  pub deadline : Option ℕ  -- seconds from the start; `none` when cleared
  pub connected : Bool  -- the client's connection is open
  pub dialed : List Bytes  -- the addresses dialled, in order
  pub targets : ℕ  -- target connections that are open
  pub forwarded : Bytes  -- bytes written to the target before the relay
  pub relays : ℕ  -- relays run to their end

pub data Exit (A : Type 0) : Type 0 where
  value : A → Exit A
  returned : Exit A
  panicked : Exit A

abbrev pub M : Type 0 → Type 0 → Type 0
M S A = Session S → Exit A × Session S

module _ {S : Type 0} where
  module _ {A B : Type 0} where
    abbrev pub and_then : Exit A × Session S → (A → M S B) → Exit B × Session S
    and_then (value a, s) f = f a s
    and_then (returned, s) f = (returned, s)
    and_then (panicked, s) f = (panicked, s)

    infixl 5 ◌>>=◌ ◌>>◌
    abbrev pub ◌>>=◌ : M S A → (A → M S B) → M S B
    ◌>>=◌ m f s = and_then (m s) f

    abbrev pub ◌>>◌ : M S A → M S B → M S B
    ◌>>◌ m k s = and_then (m s) (λ _. k)

  abbrev pub pure : {A : Type 0} → A → M S A
  pure a s = (value a, s)

  abbrev pub return : {A : Type 0} → M S A
  return s = (returned, s)

  abbrev pub panic : {A : Type 0} → M S A
  panic s = (panicked, s)

  -- `if !ok { f(); return }`
  unfoldable pub check : Bool → M S (Unit {0}) → M S (Unit {0})
  check true f s = (value tt, s)
  check false f s = and_then (f s) (λ _. return)

  unfoldable pub or_return : {A : Type 0} → Option A → M S (Unit {0}) → M S A
  or_return (some a) f s = (value a, s)
  or_return none f s = and_then (f s) (λ _. return)

  -- `x, err := m; if err != nil { f(); return }`
  unfoldable pub try : {A : Type 0} → M S (Option A) → M S (Unit {0}) → M S A
  try m f s = and_then (m s) (λ o. or_return o f)

  -- `defer f()` with the rest of the function behind it: `f` runs whatever the rest does.
  unfoldable pub defer : {A : Type 0} → (Session S → Session S) → M S A → M S A
  defer f m s = let (x, t) = m s in (x, f t)

  -- A statement that changes the server's counters.
  unfoldable pub on_server : (S → S) → M S (Unit {0})
  on_server f s = (value tt, record s { server = f s.server })

  unfoldable pub set_deadline : Option ℕ → M S (Unit {0})
  set_deadline d s = (value tt, record s { deadline = d })

  -- `io.ReadFull(conn, make([]byte, n))`: nothing is read for `n == 0`.
  unfoldable pub read_full : ℕ → M S (Option Bytes)
  read_full n s =
      if leb n (length s.rest)
      then (value (some (take n s.rest)), record s { rest = drop n s.rest })
      else (value none, record s { rest = [] })

  -- `conn.Read(buf)` for a buffer of `n` bytes: an error at the end of the stream.
  unfoldable pub read : World → ℕ → M S (Option Bytes)
  read w n s = elim s.rest [
    | [] ↦ (value none, s)
    | _ ∷ _ ↦
        let k = min n w.first_read in
        (value (some (take k s.rest)), record s { rest = drop k s.rest })
  ]

  -- `net.DialTimeout`
  unfoldable pub dial : World → Bytes → M S (Option Target)
  dial w addr s = elim (w.dial addr) [
    | none ↦ (value none, record s { dialed = s.dialed ++ (addr ∷ []) })
    | some t ↦
        (value (some t), record s { dialed = s.dialed ++ (addr ∷ []); targets = suc s.targets })
  ]

  -- `target.Close()`
  unfoldable pub close_target : Session S → Session S
  close_target s = record s { targets = s.targets - 1 }

  -- `conn.Write(b)`; a failed write may have sent a part of `b`, which is not recorded.
  unfoldable pub write : World → Bytes → M S Bool
  write w b s =
      if w.write_ok s.writes
      then (value true, record s { sent = s.sent ++ b; writes = suc s.writes })
      else (value false, record s { writes = suc s.writes })

  -- A write whose error is ignored.
  unfoldable pub write_ignore : World → Bytes → M S (Unit {0})
  write_ignore w b = do write w b; pure tt

  -- `target.Write(b)`
  unfoldable pub write_target : Target → Bytes → M S Bool
  write_target t b s =
      if t.write_ok
      then (value true, record s { forwarded = s.forwarded ++ b })
      else (value false, s)

  -- `pool.Relay(conn, target)`, run to its end: it reads all that the client still sends.
  unfoldable pub relay : Target → M S (ℕ × ℕ)
  relay t s = (value (t.upload, t.download), record s { rest = []; relays = suc s.relays })

-- A connection as `Accept` returns it, which will send `bytes`.
abbrev pub accepted : {S : Type 0} → S → Bytes → Session S
accepted server bytes = record {
  server = server;
  rest = bytes;
  sent = [];
  writes = 0;
  deadline = none;
  connected = true;
  dialed = [];
  targets = 0;
  forwarded = [];
  relays = 0;
}

-- What a run of a handler computes with.
unfoldable pub code : Unit {0}
unfolding check or_return try defer on_server set_deadline read_full read dial close_target write
    write_ignore write_target relay
code = tt
