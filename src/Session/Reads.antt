-- ===== src/Session/Reads.antt =====
-- Reads that find what they ask for.
use zetproxy_turbo.Base.{
  ℕ, ◌+◌, ◌<◌, ◌≡◌, none, some, [], ◌++◌, arith, leb-of_le, length, length-append, take-append,
  drop-append,
}
use zetproxy_turbo.Text.{Bytes}
use zetproxy_turbo.Session.{Session, value, read_full}

module _ {S : Type 0} where
  -- A full read of as many bytes as stand before `r` takes them.
  pub read_full-append :
      (n : ℕ) (xs r : Bytes) (s : Session S)
      → length xs ≡ n
      → s.rest ≡ xs ++ r
      → read_full n s ≡ (value (some xs), record s { rest = r })
  unfolding read_full
  read_full-append n xs r s e h = rw (
    ← e,
    h,
    length-append xs r,
    leb-of_le (length xs) (length xs + length r) (omega arith),
    take-append xs r,
    drop-append xs r,
  )

  pub read_full_short :
      (n : ℕ) (s : Session S)
      → length s.rest < n
      → read_full n s ≡ (value none, record s { rest = [] })
  unfolding read_full
  read_full_short n s h = ground arith
