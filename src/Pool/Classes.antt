-- ===== src/Pool/Classes.antt =====
-- The sizes of the buffers that the pool gives out.
use zetproxy_turbo.Base.{
  ℕ, zero, suc, ◌≤◌, ◌≡◌, inl, inr, some, List, [], ◌∷◌, ◌++◌, arith, Option-cases, get_elem?, take,
  drop,
}
use zetproxy_turbo.Pool.{
  Class, small, medium, large, size, PoolStats, BufferPool, with_buffers, allocate, take_out, warm,
  warm_up, new, get, put_in, class_of, put, forget,
}

abbrev pub AllAtLeast : ℕ → List ℕ → Type 0
AllAtLeast n [] = Unit
AllAtLeast n (b ∷ bs) = (n ≤ b) × AllAtLeast n bs

-- Every pool holds buffers of its class or larger ones.
abbrev pub Sized : BufferPool → Type 0
Sized p = (k : Class) → AllAtLeast (size k) (p.buffers k)

at_least_get : (n i b : ℕ) (bs : List ℕ) → AllAtLeast n bs → get_elem? bs i ≡ some b → n ≤ b
at_least_get n i b [] h e = absurd (ground arith)
at_least_get n zero b (x ∷ bs) h e = ground arith
at_least_get n (suc i) b (x ∷ bs) h e = at_least_get n i b bs h.1 e

at_least_removed :
    (n i : ℕ) (bs : List ℕ) → AllAtLeast n bs → AllAtLeast n (take i bs ++ drop (suc i) bs)
at_least_removed n zero [] h = tt
at_least_removed n (suc i) [] h = tt
at_least_removed n zero (x ∷ bs) h = h.1
at_least_removed n (suc i) (x ∷ bs) h = (h.0, at_least_removed n i bs h.1)

with_buffers-AllAtLeast :
    (k j : Class) (bs : List ℕ) (f : Class → List ℕ)
    → AllAtLeast (size k) bs
    → AllAtLeast (size j) (f j)
    → AllAtLeast (size j) (with_buffers k bs f j)
with_buffers-AllAtLeast small small bs f h g = h
with_buffers-AllAtLeast medium medium bs f h g = h
with_buffers-AllAtLeast large large bs f h g = h
with_buffers-AllAtLeast small medium bs f h g = g
with_buffers-AllAtLeast small large bs f h g = g
with_buffers-AllAtLeast medium small bs f h g = g
with_buffers-AllAtLeast medium large bs f h g = g
with_buffers-AllAtLeast large small bs f h g = g
with_buffers-AllAtLeast large medium bs f h g = g

class_of_fits : (b : ℕ) (k : Class) → class_of b ≡ some k → size k ≤ b
unfolding class_of size
class_of_fits b k h = ground arith

-- Calls of the pool, and what `sync.Pool` does on its own. Only buffers that a `Get` of the class
-- returned are put back by `PutSmall` and `PutLarge`, so these are as large as the class.
pub data Reach (p : BufferPool) : BufferPool → Type 0 where
  here : Reach p p
  gets : {q : BufferPool} (k : Class) (i : ℕ) → Reach p q → Reach p (get k i q).1
  puts : {q : BufferPool} (b : ℕ) → Reach p q → Reach p (put b q)
  puts_in : {q : BufferPool} (k : Class) (b : ℕ) → size k ≤ b → Reach p q → Reach p (put_in k b q)
  forgets : {q : BufferPool} (k : Class) → Reach p q → Reach p (forget k q)

take_out-Sized : (p : BufferPool) (k : Class) (i : ℕ) → Sized p → Sized (take_out k i p).1
unfolding allocate take_out
take_out-Sized p k i h j = elim (Option-cases (get_elem? (p.buffers k) i)) [
  | inl e ↦ rw (e, take_out) (h j)
  | inr (b, e) ↦
      rw (e, take_out)
        (with_buffers-AllAtLeast k j _ p.buffers (at_least_removed (size k) i (p.buffers k) (h k))
          (h j))
]

take_out_fits : (p : BufferPool) (k : Class) (i : ℕ) → Sized p → size k ≤ (take_out k i p).0
unfolding take_out
take_out_fits p k i h = elim (Option-cases (get_elem? (p.buffers k) i)) [
  | inl m ↦ rw (m, take_out) (omega arith)
  | inr (b, m) ↦ rw (m, take_out) (at_least_get (size k) i b (p.buffers k) (h k) m)
]

get-Sized : (p : BufferPool) (k : Class) (i : ℕ) → Sized p → Sized (get k i p).1
unfolding get
get-Sized p k i h = take_out-Sized _ k i h

warm-Sized : (p : BufferPool) (k : Class) (i : ℕ) → Sized p → Sized (warm k i p)
unfolding warm
warm-Sized p k i h j =
    let q = (take_out k i p).1 in
    let v = take_out-Sized p k i h in
    with_buffers-AllAtLeast k j _ q.buffers (take_out_fits p k i h, v k) (v j)

warm_up-Sized : (n : ℕ) (picks : ℕ → ℕ) (p : BufferPool) → Sized p → Sized (warm_up n picks p)
unfolding warm_up
warm_up-Sized zero picks p h = h
warm_up-Sized (suc n) picks p h =
    warm_up-Sized n picks _ (
      warm-Sized _ large (picks n) (warm-Sized _ medium (picks n) (warm-Sized p small (picks n) h)))

put_in-Sized : (p : BufferPool) (k : Class) (b : ℕ) → size k ≤ b → Sized p → Sized (put_in k b p)
unfolding put_in
put_in-Sized p k b l h j = with_buffers-AllAtLeast k j (b ∷ p.buffers k) p.buffers (l, h k) (h j)

put-Sized : (p : BufferPool) (b : ℕ) → Sized p → Sized (put b p)
unfolding put
put-Sized p b h = elim (Option-cases (class_of b)) [
  | inl e ↦ rw (e, put) h
  | inr (k, e) ↦ rw (e, put) (put_in-Sized p k b (class_of_fits b k e) h)
]

forget-Sized : (p : BufferPool) (k : Class) → Sized p → Sized (forget k p)
unfolding forget
forget-Sized p k h j = with_buffers-AllAtLeast k j [] p.buffers tt (h j)

Reach-Sized : {p q : BufferPool} → Sized p → Reach p q → Sized q
Reach-Sized h here = h
Reach-Sized h (gets {q} k i r) = get-Sized q k i (Reach-Sized h r)
Reach-Sized h (puts {q} b r) = put-Sized q b (Reach-Sized h r)
Reach-Sized h (puts_in {q} k b l r) = put_in-Sized q k b l (Reach-Sized h r)
Reach-Sized h (forgets {q} k r) = forget-Sized q k (Reach-Sized h r)

-- After any calls of a pool that `New` made, with `Put` of buffers of any capacity and `PutSmall` and
-- `PutLarge` of buffers that are as large as the class, and whatever `sync.Pool` picks and forgets: a
-- buffer that is got from a class is at least as large as the class.
pub get_fits :
    (picks : ℕ → ℕ) (stats : PoolStats) (q : BufferPool) (k : Class) (i : ℕ)
    → Reach (new picks stats) q
    → size k ≤ (get k i q).0
unfolding get new
get_fits picks stats q k i r =
    let h =
      Reach-Sized (warm_up-Sized 128 picks (record { buffers = λ j. []; stats = stats }) (λ j. tt))
        r in
    take_out_fits _ k i h
