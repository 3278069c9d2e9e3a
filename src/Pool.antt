-- ===== src/Pool.antt =====
-- The buffer pool of internal/pool/pool.go: three pools of buffers by size class, and the counters.
--
-- A buffer is its capacity. What a `sync.Pool` does is the choice of an argument: `Get` returns one of
-- the buffers that were put back, or a new one; a pool may forget buffers at any time.
pub mod Classes
use zetproxy_turbo.Base.{
  ℕ, zero, suc, Bool, true, false, Option, none, some, List, [], ◌∷◌, ◌++◌, leb, if◌then◌else◌,
  get_elem?, take, drop, add_int64,
}

pub data Class : Type 0 where
  small medium large : Class

unfoldable pub size : Class → ℕ
size small = 4096
size medium = 65536
size large = 262144

pub record PoolStats : Type 0 where
  pub allocated : ℕ
  pub reused : ℕ
  pub put_back : ℕ
  pub dropped : ℕ

-- The capacities of the buffers in each `sync.Pool`.
pub record BufferPool : Type 0 where
  pub buffers : Class → List ℕ
  pub stats : PoolStats

abbrev pub same : Class → Class → Bool
same small small = true
same medium medium = true
same large large = true
same _ _ = false

abbrev pub with_buffers : Class → List ℕ → (Class → List ℕ) → Class → List ℕ
with_buffers k bs f j = if same k j then bs else f j

-- `New` of a `sync.Pool`
unfoldable pub allocate : BufferPool → BufferPool
allocate p =
    let st = p.stats in record p { stats = record st { allocated = add_int64 st.allocated 1 } }

-- `Get` of a `sync.Pool`: the capacity of the buffer. `i` is the place in the pool of the buffer that it
-- picks; where there is none it makes a new one.
unfoldable pub take_out : Class → ℕ → BufferPool → ℕ × BufferPool
take_out k i p = elim (get_elem? (p.buffers k) i) [
  | none ↦ (size k, allocate p)
  | some b ↦ (
    b,
    record p {
      buffers = with_buffers k (take i (p.buffers k) ++ drop (suc i) (p.buffers k)) p.buffers;
    },
  )
]

-- `Put` of a `sync.Pool`
abbrev pub put_back_in : Class → ℕ → BufferPool → BufferPool
put_back_in k b p = record p { buffers = with_buffers k (b ∷ p.buffers k) p.buffers }

-- `bp.small.Put(bp.small.Get())`
unfoldable pub warm : Class → ℕ → BufferPool → BufferPool
warm k i p = let (b, q) = take_out k i p in put_back_in k b q

-- The loop of `New`. `picks n` is what `sync.Pool` picks in a round.
unfoldable pub warm_up : ℕ → (ℕ → ℕ) → BufferPool → BufferPool
warm_up zero picks p = p
warm_up (suc n) picks p =
    warm_up n picks (warm large (picks n) (warm medium (picks n) (warm small (picks n) p)))

-- `New`, with 128 rounds; all pools share the counters.
unfoldable pub new : (ℕ → ℕ) → PoolStats → BufferPool
new picks stats = warm_up 128 picks (record { buffers = λ k. []; stats = stats })

-- `Get`, `GetSmall` and `GetLarge`
unfoldable pub get : Class → ℕ → BufferPool → ℕ × BufferPool
get k i p =
    let st = p.stats in
    take_out k i (record p { stats = record st { reused = add_int64 st.reused 1 } })

-- `PutSmall` and `PutLarge` of a buffer that is not nil: no look at its capacity.
unfoldable pub put_in : Class → ℕ → BufferPool → BufferPool
put_in k b p =
    let st = p.stats in
    record p {
      buffers = with_buffers k (b ∷ p.buffers k) p.buffers;
      stats = record st { put_back = add_int64 st.put_back 1 };
    }

-- The `switch` of `Put`: `none` is a buffer that is dropped.
unfoldable pub class_of : ℕ → Option Class
class_of b =
    if leb 262144 b
    then some large
    else if leb 65536 b
    then some medium
    else if leb 4096 b
    then some small
    else none

-- `Put` of a buffer that is not nil.
unfoldable pub put : ℕ → BufferPool → BufferPool
put b p = elim (class_of b) [
  | some k ↦ put_in k b p
  | none ↦ let st = p.stats in record p { stats = record st { dropped = add_int64 st.dropped 1 } }
]

-- A `sync.Pool` forgets its buffers.
unfoldable pub forget : Class → BufferPool → BufferPool
forget k p = record p { buffers = with_buffers k [] p.buffers }

-- `GetStats`
unfoldable pub get_stats : BufferPool → PoolStats
get_stats p = p.stats
