-- ===== src/Proxy/Delivered.antt =====
-- The SOCKS5 server's counters against the bytes that it delivers.
use zetproxy_turbo.Base.{
  ℕ, ◌+◌, ◌%◌, ◌^◌, ◌<◌, ◌≡◌, sym, ap, ◌∙◌, true, Option, none, some, List, [], ◌++◌, arith, length,
}
use zetproxy_turbo.Text.{Bytes}
use zetproxy_turbo.Session.{Target, World, accepted}
use zetproxy_turbo.Socks.{greeting, Address, IsAddress, host_text, request_bytes}
use zetproxy_turbo.Proxy.{Server, target_addr, handle}
use zetproxy_turbo.Proxy.Served.{handle_connected}
use zetproxy_turbo.Copy.{Round, Side, upward, downward, results, relay}
use zetproxy_turbo.Copy.Total.{rounds, AreWhole, relay_delivers}

pair_of : {p q : ℕ × ℕ} → some p ≡ some q → (p.0 ≡ q.0) × (p.1 ≡ q.1)
pair_of e = (ap first e, ap second e)
  where
    first : Option (ℕ × ℕ) → ℕ
    first o = elim o [ none ↦ 0 | some p ↦ p.0 ]

    second : Option (ℕ × ℕ) → ℕ
    second o = elim o [ none ↦ 0 | some p ↦ p.1 ]

-- A client whose CONNECT request is well formed, whose writes succeed and whose target is reached; the
-- relay's results are those of its two copies, which run long enough and whose writes do not fail, when
-- the client sends `payload` behind the request and the target sends `answer`. Then the target gets
-- exactly the payload and the client exactly the answer, and the server's counters are higher by
-- just these numbers of bytes, modulo 2 ^ 64.
pub counted :
    (w : World) (methods : Bytes) (a : Address) (port : ℕ) (payload : Bytes) (srv : Server)
    (t : Target) (size : ℕ) (es : List (Side × Round)) (answer : Bytes)
    → length methods < 256
    → IsAddress a
    → port < 65536
    → ((n : ℕ) → w.write_ok n ≡ true)
    → w.dial (target_addr (host_text a) port) ≡ some t
    → results (relay size es payload answer) ≡ some (t.upload, t.download)
    → length payload < length (rounds upward es)
    → length answer < length (rounds downward es)
    → AreWhole (rounds upward es)
    → AreWhole (rounds downward es)
    → let f = handle w (accepted srv (greeting methods ++ request_bytes 1 a port payload)) in
      let p = relay size es payload answer in
      (p.up.sent ≡ payload)
      × (p.down.sent ≡ answer)
      × (f.server.stats.bytes_in ≡ (srv.stats.bytes_in + length payload) % 2 ^ 64)
      × (f.server.stats.bytes_out ≡ (srv.stats.bytes_out + length answer) % 2 ^ 64)
counted w methods a port payload srv t size es answer few valid small writes reached copied h k x
      y =
    let (sent, back, r, _, _) = relay_delivers size es [] payload answer h k x y in
    let f = handle_connected w methods a port payload srv few valid small writes t reached in
    let same : some (t.upload, t.download)
        ≡ some (length payload % 2 ^ 64, length answer % 2 ^ 64) =
      sym copied ∙ r in
    let (up, down) = pair_of same in
    (sent, back, f.4 ∙ omega (arith, up), f.5 ∙ omega (arith, down))
