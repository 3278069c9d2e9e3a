-- ===== src/Base/Words.antt =====
-- Go's fixed-width integers as native numbers below 2 ^ w, a negative one by its bit pattern.
use Prim.Native.Nat.{ℕ, ◌+◌, ◌%◌, ◌^◌, ◌<◌}
use mathlib.Core.Path.{◌≡◌}
use native.Mathlib.Omega.{arith}

-- `atomic.AddInt64(&x, d)` for a non-negative `d`
abbrev pub add_int64 : ℕ → ℕ → ℕ
add_int64 x d = (x + d) % 2 ^ 64

-- `atomic.AddInt32(&x, 1)` and `atomic.AddInt32(&x, -1)`
abbrev pub inc_int32 : ℕ → ℕ
inc_int32 x = (x + 1) % 2 ^ 32

abbrev pub dec_int32 : ℕ → ℕ
dec_int32 x = (x + 4294967295) % 2 ^ 32

pub dec-inc_int32 : (x : ℕ) → x < 2 ^ 32 → dec_int32 (inc_int32 x) ≡ x
dec-inc_int32 x h = omega arith
