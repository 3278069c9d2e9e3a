-- ===== src/Tunnel/Streams.antt =====
-- What the tunnel server does for a client whose first byte is 5, by what the parser of
-- Socks/Parse.antt makes of its stream.
use zetproxy_turbo.Base.{
  ℕ, suc, ◌<◌, ◌≡◌, refl, inl, inr, true, Option, none, some, List, [], ◌∷◌, ◌++◌, arith,
  Option-cases, length,
}
use zetproxy_turbo.Text.{Bytes}
use zetproxy_turbo.Socks.{host_text}
use zetproxy_turbo.Socks.Parse.{Verdict, unasked, not_connect, no_type, short, ask}
use zetproxy_turbo.Session.{
  Target, World, Session, returned, and_then, or_return, try, defer, on_server, set_deadline, dial,
  write, write_ignore, accepted,
}
use zetproxy_turbo.Tunnel.{
  Server, count_failed, count_bytes, refusal, target_addr, success, socks5_unreachable,
  socks5_reach, handle_socks5,
}
use zetproxy_turbo.Tunnel.Parsed.{judge, requested, socks5_request-judge}
use zetproxy_turbo.Tunnel.Served.{reach_lem, first_bytes_lem, detect_five}
use zetproxy_turbo.Tunnel.Handle.{dispatch, body, release, finish, recover, handle_tcp}

-- What the client is sent by the outcome of the dial.
abbrev pub dial_reply : ℕ → Option Target → Bytes
dial_reply port none = refusal 4
dial_reply port (some t) = success t port

-- All that the client is sent.
abbrev pub reply : World → Option Verdict → Bytes
reply w none = []
reply w (some unasked) = 5 ∷ 0 ∷ []
reply w (some (not_connect r)) = (5 ∷ 0 ∷ []) ++ refusal 7
reply w (some (no_type r)) = 5 ∷ 0 ∷ []
reply w (some short) = 5 ∷ 0 ∷ []
reply w (some (ask a port payload)) =
    (5 ∷ 0 ∷ []) ++ dial_reply port (w.dial (target_addr (host_text a) port))

-- The addresses that are dialled.
abbrev pub dials : Option Verdict → List Bytes
dials (some (ask a port payload)) = target_addr (host_text a) port ∷ []
dials _ = []

-- The counters, by the outcome of the dial.
abbrev pub dial_counts : Option Target → Server → Server
dial_counts none s = count_failed s
dial_counts (some t) s = count_bytes (t.upload, t.download) s

abbrev pub counts : World → Option Verdict → Server → Server
counts w (some (ask a port payload)) s = dial_counts (w.dial (target_addr (host_text a) port)) s
counts w _ s = s

refuse_lem :
    (w : World) (host : Bytes) (port : ℕ) (s : Session Server)
    → w.dial (target_addr host port) ≡ none
    → w.write_ok s.writes ≡ true
    → socks5_reach w (host, port) s ≡ (
      returned,
      record s {
        server = count_failed s.server;
        sent = s.sent ++ refusal 4;
        writes = suc s.writes;
        dialed = s.dialed ++ (target_addr host port ∷ []);
      },
    )
unfolding socks5_reach try or_return dial socks5_unreachable write write_ignore on_server
refuse_lem w host port s missed ok = rw (missed, dial) (rw (ok, write) refl)

module _ (w : World) (stale xs r : Bytes) (srv : Server) (few : length xs < 4096)
    (alone : w.first_read ≡ suc (length xs)) (writes : (n : ℕ) → w.write_ok n ≡ true) where
  abbrev opened : Session Server
  opened = record (accepted srv r) { deadline = some 120 }

  finished :
      (v : Option Verdict)
      → let f = recover (defer finish (λ s. and_then (requested v s) (socks5_reach w)) opened) in
        (f.sent ≡ reply w v) × (f.dialed ≡ dials v) × (f.server ≡ release (counts w v srv))
  unfolding recover defer finish
  finished none = (refl, refl, refl)
  finished (some unasked) = (refl, refl, refl)
  finished (some (not_connect t)) = (refl, refl, refl)
  finished (some (no_type t)) = (refl, refl, refl)
  finished (some short) = (refl, refl, refl)
  finished (some (ask a port payload)) =
      let addr = target_addr (host_text a) port in
      let s = record opened { rest = payload; sent = 5 ∷ 0 ∷ []; writes = 1 } in
      elim (Option-cases (w.dial addr)) [
        | inl e ↦ rw (refuse_lem w (host_text a) port s e (writes 1), e) (refl, refl, refl)
        | inr (t, e) ↦ rw (reach_lem w (host_text a) port t s e (writes 1), e) (refl, refl, refl)
      ]

  -- For every stream of bytes whose first read brings `5 ∷ xs`, well formed or not, of a client whose
  -- writes succeed: what the client is sent, what is dialled and every counter are as the verdict says
  -- that the parser gives on the bytes behind that read, with the version tested. Without three bytes
  -- and all the methods in the first read nothing is sent; a request for another command or of another
  -- version gets the refusal 7; an unknown address type and a stream that is over within the request,
  -- the greeting's answer alone; and only a complete CONNECT request has its host and port dialled,
  -- once, with the success reply or the refusal 4. A failure is counted only where the dial fails.
  pub handle_tcp-parse :
      let f = handle_tcp w stale (accepted srv ((5 ∷ xs) ++ r)) in
      let v = judge (5 ∷ xs) r in
      (f.sent ≡ reply w v) × (f.dialed ≡ dials v) × (f.server ≡ release (counts w v srv))
  unfolding handle_tcp body set_deadline dispatch handle_socks5 defer
  handle_tcp-parse =
      let timed = record (accepted srv ((5 ∷ xs) ++ r)) { deadline = some 120 } in
      rw
        (
          first_bytes_lem w (5 ∷ xs) r timed (omega arith) (omega arith) alone refl,
          detect_five xs stale,
          socks5_request-judge w writes (5 ∷ xs) r opened,
        )
        (finished (judge (5 ∷ xs) r))
