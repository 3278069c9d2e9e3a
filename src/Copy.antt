-- ===== src/Copy.antt =====
-- Two copies that run beside each other: `Relay` of internal/pool/pool.go, and `pipe` of
-- cmd/relay/main.go.
--
-- A source is what its peer sends until the end of the stream or an error. How much a read returns,
-- which write fails and after how many bytes, and which of the two goroutines runs next are chosen by a
-- schedule. A peer that has not closed yet is a schedule that stops.
use Prim.Native.Nat.{min, max}
pub mod Total
pub mod Cut
use zetproxy_turbo.Base.{
  ℕ, Bool, true, false, ◌||◌, Option, none, some, List, [], ◌∷◌, ◌++◌, if◌then◌else◌, length, take,
  drop, add_int64,
}
use zetproxy_turbo.Text.{Bytes}

pub record Copy : Type 0 where
  pub rest : Bytes  -- what the source still sends
  pub sent : Bytes  -- what the destination got
  pub count : ℕ  -- the int64 result of `CopyBuffer`
  pub running : Bool
  pub write_closed : Bool  -- `closeWrite` of the destination

-- One round of the loop of `CopyBuffer`: a read of at most so many bytes, and a write of them, which
-- may fail after a part.
pub data Round : Type 0 where
  whole : ℕ → Round
  broken : ℕ → ℕ → Round

-- A read returns at least one byte, and at most a buffer.
abbrev pub chunk : ℕ → ℕ → ℕ
chunk size k = max 1 (min k size)

-- The goroutine's end.
unfoldable pub finish : Copy → Copy
finish c = record c { running = false; write_closed = true }

unfoldable pub round : ℕ → Round → Copy → Copy
round size (whole k) c =
    let n = chunk size k in
    record c {
      rest = drop n c.rest;
      sent = c.sent ++ take n c.rest;
      count = add_int64 c.count (length (take n c.rest));
    }
round size (broken k j) c =
    let written = take j (take (chunk size k) c.rest) in
    finish (record c {
      rest = drop (chunk size k) c.rest;
      sent = c.sent ++ written;
      count = add_int64 c.count (length written);
    })

-- The goroutine does one round, or finds the end of the stream.
unfoldable pub advance : ℕ → Round → Copy → Copy
advance size r c = if c.running then elim c.rest [ [] ↦ finish c | _ ∷ _ ↦ round size r c ] else c

abbrev pub begin : Bytes → Copy
begin bytes = record { rest = bytes; sent = []; count = 0; running = true; write_closed = false }

-- The copies from `conn1` to `conn2` and back.
pub record Pair : Type 0 where
  pub up : Copy
  pub down : Copy

pub data Side : Type 0 where
  upward downward : Side

unfoldable pub step : ℕ → Side × Round → Pair → Pair
step size (upward, r) p = record p { up = advance size r p.up }
step size (downward, r) p = record p { down = advance size r p.down }

unfoldable pub run : ℕ → List (Side × Round) → Pair → Pair
run size [] p = p
run size (e ∷ es) p = run size es (step size e p)

-- `wg.Wait()`, then `return n1, n2`.
unfoldable pub results : Pair → Option (ℕ × ℕ)
results p = if p.up.running || p.down.running then none else some (p.up.count, p.down.count)

-- `Relay`. The first argument is the most that one round copies: `LargeBufSize`, or what package net
-- takes at once when it copies between two sockets by itself.
unfoldable pub relay : ℕ → List (Side × Round) → Bytes → Bytes → Pair
relay size es a b = run size es (record { up = begin a; down = begin b })

-- `pipe`: the reader of `a` may hold bytes that were read before; the reader of `b` is new.
unfoldable pub pipe : ℕ → List (Side × Round) → Bytes → Bytes → Bytes → Pair
pipe size es buffered a b = run size es (record { up = begin (buffered ++ a); down = begin b })
