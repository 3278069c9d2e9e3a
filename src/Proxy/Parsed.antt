-- ===== src/Proxy/Parsed.antt =====
-- The greeting and the request of the SOCKS5 server of internal/proxy/socks5.go on every stream of
-- bytes, well formed or not, against the parser of Socks/Parse.antt.
use zetproxy_turbo.Base.{
  ℕ, zero, suc, ◌<◌, ◌≡◌, refl, inl, inr, true, Option, none, some, [], ◌∷◌, ◌++◌, arith, ltb, ◌==◌,
  leb-of_le, Bool-cases, Option-cases, get_or,
}
use zetproxy_turbo.Text.{Bytes}
use zetproxy_turbo.Addr.{ip_string}
use zetproxy_turbo.Socks.{Address, ip4, domain, ip6, host_text}
use zetproxy_turbo.Socks.Parse.{
  Verdict, unasked, not_connect, no_type, short, ask, take_bytes, parse_port, behind, parse_domain,
  parse_address, parse_request, parse, IsStream, take_bytes-IsStream, reading, read_full-take_bytes,
}
use zetproxy_turbo.Session.{
  World, Session, Exit, value, returned, M, ◌>>=◌, ◌>>◌, pure, check, or_return, try, on_server,
  set_deadline, write, write_ignore,
}
use zetproxy_turbo.Proxy.{
  Server, count_failed, refusal, read_buf, read_host, uint16_of, target_addr, skip_methods, request,
}

-- What the part behind the greeting makes of the verdict.
abbrev pub outcome : World → Verdict → Session Server → Exit Bytes × Session Server
outcome w unasked s = (returned, record s { server = count_failed s.server; rest = [] })
outcome w (not_connect r) s = (
  returned,
  record s {
    server = count_failed s.server;
    rest = r;
    sent = s.sent ++ refusal 7;
    writes = suc s.writes;
  },
)
outcome w (no_type r) s = (returned, record s { rest = r })
outcome w short s = (returned, record s { rest = [] })
outcome w (ask a port payload) s =
    (value (target_addr (host_text a) port), record s { rest = payload })

read_buf_lem :
    (n : ℕ) (s : Session Server) → n < 257 → read_buf n s ≡ reading (take_bytes n s.rest) s
unfolding read_buf
read_buf_lem n s h = rw (leb-of_le n 257 (omega arith)) (read_full-take_bytes n s)

abbrev then_port : Bytes → M Server Bytes
then_port host = do port ← try (read_buf 2) (pure tt); pure (target_addr host (uint16_of port))

then_port_lem :
    (w : World) (a : Address) (r : Bytes) (s : Session Server)
    → then_port (host_text a) (record s { rest = r }) ≡ outcome w (parse_port a r) s
unfolding try or_return
then_port_lem w a [] s = rw (read_buf_lem 2 (record s { rest = [] }) (omega arith))
then_port_lem w a (h ∷ []) s = rw (read_buf_lem 2 (record s { rest = h ∷ [] }) (omega arith))
then_port_lem w a (h ∷ l ∷ r) s = rw (read_buf_lem 2 (record s { rest = h ∷ l ∷ r }) (omega arith))

-- A host of `n` bytes, with the port behind it.
abbrev then_host : (Bytes → Bytes) → ℕ → M Server Bytes
then_host g n = do host ← (do b ← try (read_buf n) (pure tt); pure (g b)); then_port host

then_host_lem :
    (w : World) (f : Bytes → Address) (g : Bytes → Bytes) (n : ℕ) (r : Bytes) (s : Session Server)
    → ((b : Bytes) → host_text (f b) ≡ g b)
    → n < 257
    → then_host g n (record s { rest = r }) ≡ outcome w (behind f (take_bytes n r)) s
unfolding try or_return
then_host_lem w f g n r s h small =
    rw (read_buf_lem n (record s { rest = r }) small) (elim (Option-cases (take_bytes n r)) [
      | inl e ↦ rw e refl
      | inr ((b, t), e) ↦ rw (e, ← h b) (then_port_lem w (f b) t s)
    ])

abbrev then_address : ℕ → M Server Bytes
then_address t = do host ← read_host t; then_port host

then_domain_lem :
    (w : World) (r : Bytes) (s : Session Server)
    → IsStream r
    → then_address 3 (record s { rest = r }) ≡ outcome w (parse_domain r) s
unfolding read_host try or_return
then_domain_lem w [] s h = rw (read_buf_lem 1 (record s { rest = [] }) (omega arith))
then_domain_lem w (n ∷ r) s h =
    rw (read_buf_lem 1 (record s { rest = n ∷ r }) (omega arith))
      (then_host_lem w domain (λ b. b) n r s (λ b. refl) (omega (arith, h.0)))

then_address_lem :
    (w : World) (t : ℕ) (r : Bytes) (s : Session Server)
    → IsStream r
    → then_address t (record s { rest = r }) ≡ outcome w (parse_address t r) s
unfolding read_host
then_address_lem w t r s h =
    let four = then_host_lem w ip4 ip_string 4 r s (λ b. refl) (omega arith) in
    let name = then_domain_lem w r s h in
    let six = then_host_lem w ip6 ip_string 16 r s (λ b. refl) (omega arith) in
    elim (Bool-cases (t == 1)) [
      | inl e ↦ rw e four
      | inr e ↦ rw e (elim (Bool-cases (t == 3)) [
        | inl e ↦ rw e name
        | inr e ↦ rw e (elim (Bool-cases (t == 4)) [ inl e ↦ rw e six | inr e ↦ rw e refl ])
      ])
    ]

abbrev then_request : World → M Server Bytes
then_request w = do
  req ← try (read_buf 4) (on_server count_failed)
  check (get_or req 1 0 == 1) (do write_ignore w (refusal 7); on_server count_failed)
  then_address (get_or req 3 0)

then_request_lem :
    (w : World) (r : Bytes) (s : Session Server)
    → IsStream r
    → w.write_ok s.writes ≡ true
    → then_request w (record s { rest = r }) ≡ outcome w (parse_request r) s
unfolding check try or_return write_ignore write on_server
then_request_lem w [] s h ok = rw (read_buf_lem 4 (record s { rest = [] }) (omega arith))
then_request_lem w (v ∷ []) s h ok = rw (read_buf_lem 4 (record s { rest = v ∷ [] }) (omega arith))
then_request_lem w (v ∷ c ∷ []) s h ok =
    rw (read_buf_lem 4 (record s { rest = v ∷ c ∷ [] }) (omega arith))
then_request_lem w (v ∷ c ∷ z ∷ []) s h ok =
    rw (read_buf_lem 4 (record s { rest = v ∷ c ∷ z ∷ [] }) (omega arith))
then_request_lem w (v ∷ c ∷ z ∷ t ∷ r) s h ok =
    let read = read_buf_lem 4 (record s { rest = v ∷ c ∷ z ∷ t ∷ r }) (omega arith) in
    let address = then_address_lem w t r s h.1.1.1.1 in
    rw read (elim (Bool-cases (c == 1)) [ inl e ↦ rw e address | inr e ↦ rw (e, ok) refl ])

abbrev pub answered : Session Server → Session Server
answered s = record s { sent = s.sent ++ (5 ∷ 0 ∷ []); writes = suc s.writes; deadline = some 60 }

-- And the part from the greeting on.
abbrev pub requested : World → Option Verdict → Session Server → Exit Bytes × Session Server
requested w none s =
    (returned, record s { server = count_failed s.server; rest = []; deadline = some 60 })
requested w (some v) s = outcome w v (answered s)

skip_methods_lem :
    (n : ℕ) (r : Bytes) (s : Session Server)
    → n < 256
    → skip_methods n (record s { rest = r })
      ≡ (elim (take_bytes n r) as (λ o. Exit (Unit {0}) × Session Server) [
        | none ↦ (returned, record s { server = count_failed s.server; rest = [] })
        | some (b, t) ↦ (value tt, record s { rest = t })
      ])
unfolding skip_methods try or_return on_server
skip_methods_lem zero r s h = refl
skip_methods_lem (suc n) r s h =
    let any : ltb 0 (suc n) ≡ true = ground arith in
    rw (any, read_buf_lem (suc n) (record s { rest = r }) (omega arith))
      (elim (Option-cases (take_bytes (suc n) r)) [ inl e ↦ rw e refl | inr (p, e) ↦ rw e refl ])

pub request-requested :
    (w : World) (r : Bytes) (s : Session Server)
    → IsStream r
    → ((n : ℕ) → w.write_ok n ≡ true)
    → request w (record s { rest = r }) ≡ requested w (parse r) s
unfolding request set_deadline check try or_return write on_server
request-requested w [] s h ok =
    rw (read_buf_lem 2 (record s { rest = []; deadline = some 60 }) (omega arith))
request-requested w (v ∷ []) s h ok =
    rw (read_buf_lem 2 (record s { rest = v ∷ []; deadline = some 60 }) (omega arith))
request-requested w (v ∷ n ∷ r) s h ok =
    let opened = record s { deadline = some 60 } in
    rw
      (
        read_buf_lem 2 (record opened { rest = v ∷ n ∷ r }) (omega arith),
        skip_methods_lem n r opened (omega (arith, h.1.0)),
      )
      (elim (Option-cases (take_bytes n r)) [
        | inl e ↦ rw e refl
        | inr ((b, t), e) ↦
            rw (e, ok s.writes)
              (then_request_lem w t (answered s) (take_bytes-IsStream n r b t h.1.1 e)
                (ok (suc s.writes)))
      ])
