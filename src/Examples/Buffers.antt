-- ===== src/Examples/Buffers.antt =====
-- Runs of the buffer pool of internal/pool/pool.go.
use zetproxy_turbo.Base.{◌≡◌, refl, [], ◌∷◌}
use zetproxy_turbo.Pool.{
  large, size, BufferPool, allocate, take_out, warm, warm_up, new, get, put_in, class_of, put,
}

abbrev empty : BufferPool
empty = record {
  buffers = λ k. [];
  stats = record { allocated = 0; reused = 0; put_back = 0; dropped = 0 };
}

-- A buffer of 300000 bytes is put and got again.
large_test : (get large 0 (put 300000 empty)).0 ≡ 300000
unfolding get take_out put class_of put_in
large_test = refl

-- The warm-up of `New` gets each time the buffer that it has just put back: one of each class is made.
warm_up_test :
    let p = new (λ n. 0) (record { allocated = 0; reused = 0; put_back = 0; dropped = 0 }) in
    (p.buffers large ≡ 262144 ∷ []) × (p.stats.allocated ≡ 3)
unfolding new warm_up warm take_out allocate size
warm_up_test = (refl, refl)
