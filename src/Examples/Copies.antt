-- ===== src/Examples/Copies.antt =====
-- Copies of internal/pool/pool.go and cmd/relay/main.go under a concrete schedule.
use zetproxy_turbo.Proxy
use zetproxy_turbo.Base.{◌≡◌, refl, true, some, List, [], ◌∷◌, ◌++◌, arith}
use zetproxy_turbo.Text.{codes}
use zetproxy_turbo.Copy.{
  Round, whole, broken, finish, round, advance, Side, upward, downward, step, run, results, relay,
  pipe,
}
use zetproxy_turbo.Copy.Total.{relay_ends, relay_delivers}
use zetproxy_turbo.Examples.{target, world, methods, host, payload}
use zetproxy_turbo.Proxy.Delivered.{counted}
use zetproxy_turbo.Session.{Target, World, accepted}
use zetproxy_turbo.Socks.{greeting, request_bytes}

-- A read of two bytes on one side, of four on the other, then reads of one byte.
abbrev schedule : List (Side × Round)
schedule =
    (upward, whole 2)
    ∷ (downward, whole 4)
    ∷ (upward, whole 1)
    ∷ (downward, whole 1)
    ∷ (upward, whole 1)
    ∷ (upward, whole 1)
    ∷ (upward, whole 1)
    ∷ (upward, whole 1)
    ∷ []

-- The second write fails after no byte.
abbrev failing : List (Side × Round)
failing =
    (upward, whole 2)
    ∷ (downward, whole 4)
    ∷ (upward, broken 1 0)
    ∷ (downward, whole 1)
    ∷ (upward, whole 1)
    ∷ (upward, whole 1)
    ∷ (upward, whole 1)
    ∷ (upward, whole 1)
    ∷ []

relay_ends_example :
    let p = relay 262144 failing (codes "ab" ++ codes "cde") (codes "x") in
    let q = pipe 262144 failing (codes "ab") (codes "cde") (codes "x") in
    (results p ≡ some (p.up.count, p.down.count))
    × (results q ≡ some (q.up.count, q.down.count))
    × (p.up.write_closed ≡ true)
    × (p.down.write_closed ≡ true)
    × (q.up.write_closed ≡ true)
    × (q.down.write_closed ≡ true)
relay_ends_example =
    relay_ends 262144 failing (codes "ab") (codes "cde") (codes "x") (omega arith) (omega arith)

relay_delivers_example :
    let p = relay 262144 schedule (codes "ab" ++ codes "cde") (codes "x") in
    let q = pipe 262144 schedule (codes "ab") (codes "cde") (codes "x") in
    (p.up.sent ≡ codes "abcde")
    × (p.down.sent ≡ codes "x")
    × (results p ≡ some (5, 1))
    × (q.up.sent ≡ codes "abcde")
    × (q.down.sent ≡ codes "x")
relay_delivers_example =
    relay_delivers 262144 schedule (codes "ab") (codes "cde") (codes "x") (omega arith)
      (omega arith) tt tt

-- A client of the SOCKS5 server that sends three bytes, and a target that answers with two.
abbrev answering : Target
answering = record target { upload = 3; download = 2 }

abbrev network : World
network = record (world 4) { dial = λ addr. some answering }

abbrev long_enough : List (Side × Round)
long_enough =
    (upward, whole 2)
    ∷ (downward, whole 4)
    ∷ (upward, whole 1)
    ∷ (downward, whole 1)
    ∷ (upward, whole 1)
    ∷ (upward, whole 1)
    ∷ (downward, whole 1)
    ∷ []

counted_example :
    let srv = (Proxy.accept (Proxy.set_max_conns Proxy.new 2)).0 in
    let f =
      Proxy.handle network (accepted srv (greeting methods ++ request_bytes 1 host 80 payload)) in
    let p = relay 262144 long_enough payload (codes "ok") in
    (p.up.sent ≡ payload)
    × (p.down.sent ≡ codes "ok")
    × (f.server.stats.bytes_in ≡ 3)
    × (f.server.stats.bytes_out ≡ 2)
unfolding Proxy.accept Proxy.set_max_conns Proxy.new relay run step advance round finish results
counted_example =
    counted network methods host 80 payload ((Proxy.accept (Proxy.set_max_conns Proxy.new 2)).0)
      answering 262144 long_enough (codes "ok") (omega arith) (omega arith) (omega arith)
      (λ n. refl) refl refl (omega arith) (omega arith) tt tt
