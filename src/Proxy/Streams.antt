-- ===== src/Proxy/Streams.antt =====
-- What the handler does for a client, by what the parser of Socks/Parse.antt makes of its stream.
use zetproxy_turbo.Base.{
  ℕ, ◌+◌, ◌≡◌, refl, inl, inr, Bool, true, false, Option, none, some, List, [], ◌∷◌, ◌++◌,
  if◌then◌else◌, Option-cases, add_int64,
}
use zetproxy_turbo.Text.{Bytes, codes}
use zetproxy_turbo.Socks.{host_text}
use zetproxy_turbo.Socks.Parse.{Verdict, unasked, not_connect, no_type, short, ask, parse, IsStream}
use zetproxy_turbo.Session.{Target, World, and_then, defer, accepted}
use zetproxy_turbo.Proxy.{
  ConnLog, Server, add_conn_log, count_failed, count_bytes, refusal, target_addr, success,
  log_entry, reach, body, release, finish, recover, handle,
}
use zetproxy_turbo.Proxy.Parsed.{answered, requested, request-requested}
use zetproxy_turbo.Proxy.Request.{reach_lem, refuse_lem}

-- All that the client is sent, after the greeting's answer, by the outcome of the dial.
abbrev pub dial_reply : Option Target → Bytes
dial_reply none = refusal 4
dial_reply (some t) = success t

abbrev pub reply : World → Option Verdict → Bytes
reply w none = []
reply w (some unasked) = 5 ∷ 0 ∷ []
reply w (some (not_connect r)) = (5 ∷ 0 ∷ []) ++ refusal 7
reply w (some (no_type r)) = 5 ∷ 0 ∷ []
reply w (some short) = 5 ∷ 0 ∷ []
reply w (some (ask a port payload)) =
    (5 ∷ 0 ∷ []) ++ dial_reply (w.dial (target_addr (host_text a) port))

-- The addresses that are dialled.
abbrev pub dials : Option Verdict → List Bytes
dials (some (ask a port payload)) = target_addr (host_text a) port ∷ []
dials _ = []

-- Whether a failure is counted.
abbrev pub dial_fails : Option Target → Bool
dial_fails none = true
dial_fails (some t) = false

abbrev pub fails : World → Option Verdict → Bool
fails w none = true
fails w (some unasked) = true
fails w (some (not_connect r)) = true
fails w (some (no_type r)) = false
fails w (some short) = false
fails w (some (ask a port payload)) = dial_fails (w.dial (target_addr (host_text a) port))

-- The new log entry.
abbrev pub dial_log : World → Bytes → Option Target → ConnLog
dial_log w addr none = log_entry w addr (codes "failed") 0
dial_log w addr (some t) = log_entry w addr (codes "connected") (t.upload + t.download)

abbrev pub logs : World → Option Verdict → Option ConnLog
logs w (some (ask a port payload)) =
    let addr = target_addr (host_text a) port in some (dial_log w addr (w.dial addr))
logs w _ = none

abbrev pub add_entry : Option ConnLog → Server → Server
add_entry none s = s
add_entry (some e) s = add_conn_log e s

module _ (w : World) (srv : Server) (bytes : Bytes) (stream : IsStream bytes)
    (writes : (n : ℕ) → w.write_ok n ≡ true) where
  finished :
      (v : Option Verdict)
      → let f =
          recover (defer finish (λ s. and_then (requested w v s) (reach w)) (accepted srv bytes)) in
        (f.sent ≡ reply w v)
        × (f.dialed ≡ dials v)
        × (f.server.stats.conns_failed
            ≡ (if fails w v then add_int64 srv.stats.conns_failed 1 else srv.stats.conns_failed))
        × (f.server.conn_log ≡ (add_entry (logs w v) srv).conn_log)
  unfolding recover defer finish release count_failed count_bytes add_conn_log
  finished none = (refl, refl, refl, refl)
  finished (some unasked) = (refl, refl, refl, refl)
  finished (some (not_connect r)) = (refl, refl, refl, refl)
  finished (some (no_type r)) = (refl, refl, refl, refl)
  finished (some short) = (refl, refl, refl, refl)
  finished (some (ask a port payload)) =
      let addr = target_addr (host_text a) port in
      let s = record (answered (accepted srv bytes)) { rest = payload } in
      elim (Option-cases (w.dial addr)) [
        | inl e ↦ rw (refuse_lem w addr s e (writes 1), e) (refl, refl, refl, refl)
        | inr (t, e) ↦ rw (reach_lem w addr t s e (writes 1), e) (refl, refl, refl, refl)
      ]

  -- For every stream of bytes of a client whose writes succeed, well formed or not: what the client is
  -- sent, what is dialled, whether a failure is counted and what is logged are as the parser's verdict
  -- on the stream says. A stream that is over within the greeting gets no byte and counts as a failure;
  -- within the head of the request, the greeting's answer alone and a failure; another command than
  -- CONNECT, the refusal 7 and a failure; an unknown address type and a stream that is over within the
  -- address or the port, the greeting's answer alone and no failure; and only a complete CONNECT
  -- request has its host and port dialled, once, with the success reply or the refusal 4.
  pub handle-parse :
      let f = handle w (accepted srv bytes) in
      let v = parse bytes in
      (f.sent ≡ reply w v)
      × (f.dialed ≡ dials v)
      × (f.server.stats.conns_failed
          ≡ (if fails w v then add_int64 srv.stats.conns_failed 1 else srv.stats.conns_failed))
      × (f.server.conn_log ≡ (add_entry (logs w v) srv).conn_log)
  unfolding handle body defer
  handle-parse =
      rw (request-requested w bytes (accepted srv bytes) stream writes) (finished (parse bytes))
