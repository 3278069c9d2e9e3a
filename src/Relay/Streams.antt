-- ===== src/Relay/Streams.antt =====
-- `handleSOCKS5` of cmd/relay/main.go up to the choice of a phone, on every stream of bytes, against
-- the parser of Socks/Parse.antt.
use zetproxy_turbo.Base.{
  ℕ, suc, ◌≡◌, refl, inl, inr, true, Option, none, some, [], ◌∷◌, ◌++◌, ◌==◌, Bool-cases,
  Option-cases, get_or,
}
use zetproxy_turbo.Text.{Bytes, show_nat}
use zetproxy_turbo.Addr.{ip_string, join_host_port}
use zetproxy_turbo.Socks.{Address, ip4, domain, ip6, host_text}
use zetproxy_turbo.Socks.Parse.{
  Verdict, unasked, not_connect, no_type, short, ask, take_bytes, parse_port, behind, parse_domain,
  parse_address, parse_request, parse, read_full-take_bytes,
}
use zetproxy_turbo.Session.{
  World, Session, Exit, value, returned, M, ◌>>=◌, ◌>>◌, pure, check, or_return, try, set_deadline,
  read_full, write, write_ignore, code,
}
use zetproxy_turbo.Relay.{refusal}
use zetproxy_turbo.Relay.Request.{read_addr, read_port, request}
use mathlib.Core.Option

module _ {S : Type 0} where
  -- A refusal, after which the handler returns; `r` is what no read has taken.
  abbrev pub refuse : ℕ → Bytes → Session S → Exit Bytes × Session S
  refuse code r s =
      (returned, record s { rest = r; sent = s.sent ++ refusal code; writes = suc s.writes })

  -- What the part behind the greeting makes of the verdict.
  abbrev pub outcome : Verdict → Session S → Exit Bytes × Session S
  outcome unasked s = (returned, record s { rest = [] })
  outcome (not_connect r) s = refuse 7 r s
  outcome (no_type r) s = refuse 8 r s
  outcome short s = refuse 8 [] s
  outcome (ask a port payload) s = (
    value (join_host_port (host_text a) (show_nat port)),
    record s { rest = payload; deadline = none },
  )

  -- The session when the greeting has been answered.
  abbrev pub answered : Session S → Session S
  answered s = record s { sent = s.sent ++ (5 ∷ 0 ∷ []); writes = suc s.writes; deadline = some 15 }

  -- And the part from the greeting on.
  abbrev pub requested : Option Verdict → Session S → Exit Bytes × Session S
  requested none s = (returned, record s { rest = []; deadline = some 15 })
  requested (some v) s = outcome v (answered s)

  abbrev then_port : World → Bytes → M S Bytes
  then_port w host = do
    port ← try read_port (write_ignore w (refusal 8))
    set_deadline none
    pure (join_host_port host (show_nat port))

  abbrev then_addr : World → M S (Option Bytes) → M S Bytes
  then_addr w m = do host ← try m (write_ignore w (refusal 8)); then_port w host

  module _ (w : World) (writes : (n : ℕ) → w.write_ok n ≡ true) where
    then_port_lem :
        (a : Address) (r : Bytes) (s : Session S)
        → then_port w (host_text a) (record s { rest = r }) ≡ outcome (parse_port a r) s
    unfolding read_port try or_return write_ignore write set_deadline
    then_port_lem a [] s =
        rw (read_full-take_bytes 2 (record s { rest = [] }), writes s.writes) refl
    then_port_lem a (h ∷ []) s =
        rw (read_full-take_bytes 2 (record s { rest = h ∷ [] }), writes s.writes) refl
    then_port_lem a (h ∷ l ∷ r) s = rw (read_full-take_bytes 2 (record s { rest = h ∷ l ∷ r }))

    -- An address of `n` bytes that are shown by `g`.
    then_addr_lem :
        (f : Bytes → Address) (g : Bytes → Bytes) (n : ℕ) (r : Bytes) (s : Session S)
        → ((b : Bytes) → host_text (f b) ≡ g b)
        → then_addr w (do b ← read_full n; pure (Option.map g b)) (record s { rest = r })
          ≡ outcome (behind f (take_bytes n r)) s
    unfolding try or_return write_ignore write
    then_addr_lem f g n r s h =
        rw (read_full-take_bytes n (record s { rest = r })) (elim (Option-cases (take_bytes n r)) [
          | inl e ↦ rw (e, writes s.writes) refl
          | inr ((b, t), e) ↦ rw (e, ← h b) (then_port_lem (f b) t s)
        ])

    then_domain_lem :
        (r : Bytes) (s : Session S)
        → then_addr w (read_addr 3) (record s { rest = r }) ≡ outcome (parse_domain r) s
    unfolding try or_return read_addr write_ignore write
    then_domain_lem [] s =
        rw (read_full-take_bytes 1 (record s { rest = [] }), writes s.writes) refl
    then_domain_lem (n ∷ r) s =
        rw
          (
            read_full-take_bytes 1 (record s { rest = n ∷ r }),
            read_full-take_bytes n (record s { rest = r }),
          )
          (elim (Option-cases (take_bytes n r)) [
            | inl e ↦ rw (e, writes s.writes) refl
            | inr ((b, t), e) ↦ rw e (then_port_lem (domain b) t s)
          ])

    then_address_lem :
        (t : ℕ) (r : Bytes) (s : Session S)
        → then_addr w (read_addr t) (record s { rest = r }) ≡ outcome (parse_address t r) s
    unfolding try or_return read_addr write_ignore write
    then_address_lem t r s =
        let four = then_addr_lem ip4 ip_string 4 r s (λ b. refl) in
        let name = then_domain_lem r s in
        let six = then_addr_lem ip6 ip_string 16 r s (λ b. refl) in
        elim (Bool-cases (t == 1)) [
          | inl e ↦ rw e four
          | inr e ↦ rw e (elim (Bool-cases (t == 3)) [
            | inl e ↦ rw e name
            | inr e ↦ rw e (elim (Bool-cases (t == 4)) [
              | inl e ↦ rw e six
              | inr e ↦ rw (e, writes s.writes) refl
            ])
          ])
        ]

    abbrev then_request : M S Bytes
    then_request = do
      req ← try (read_full 4) (pure tt)
      check (get_or req 1 0 == 1) (write_ignore w (refusal 7))
      then_addr w (read_addr (get_or req 3 0))

    then_request_lem :
        (r : Bytes) (s : Session S)
        → then_request (record s { rest = r }) ≡ outcome (parse_request r) s
    unfolding check try or_return write_ignore write
    then_request_lem [] s = rw (read_full-take_bytes 4 (record s { rest = [] }))
    then_request_lem (v ∷ []) s = rw (read_full-take_bytes 4 (record s { rest = v ∷ [] }))
    then_request_lem (v ∷ c ∷ []) s = rw (read_full-take_bytes 4 (record s { rest = v ∷ c ∷ [] }))
    then_request_lem (v ∷ c ∷ z ∷ []) s =
        rw (read_full-take_bytes 4 (record s { rest = v ∷ c ∷ z ∷ [] }))
    then_request_lem (v ∷ c ∷ z ∷ t ∷ r) s =
        rw (read_full-take_bytes 4 (record s { rest = v ∷ c ∷ z ∷ t ∷ r }))
          (elim (Bool-cases (c == 1)) [
            | inl e ↦ rw e (then_address_lem t r s)
            | inr e ↦ rw (e, writes s.writes) refl
          ])

    -- For every stream of bytes of a client whose writes succeed, well formed or not, the part of the
    -- handler before the choice of a phone ends as the parser's verdict on the stream says. A stream
    -- that is over within the greeting gets no byte; within the head of the request, the greeting's
    -- answer alone; another command than CONNECT, the refusal 7 behind it; an unknown address type and a
    -- stream that is over within the address or the port, the refusal 8; and the handler goes on, with
    -- the joined host and port, the payload unread and no deadline, exactly for a complete CONNECT
    -- request.
    pub request-parse :
        (r : Bytes) (s : Session S) → request w (record s { rest = r }) ≡ requested (parse r) s
    unfolding request set_deadline check try or_return write_ignore write
    request-parse [] s = rw (read_full-take_bytes 2 (record s { rest = []; deadline = some 15 }))
    request-parse (v ∷ []) s =
        rw (read_full-take_bytes 2 (record s { rest = v ∷ []; deadline = some 15 }))
    request-parse (v ∷ n ∷ r) s =
        rw
          (
            read_full-take_bytes 2 (record s { rest = v ∷ n ∷ r; deadline = some 15 }),
            read_full-take_bytes n (record s { rest = r; deadline = some 15 }),
          )
          (elim (Option-cases (take_bytes n r)) [
            | inl e ↦ rw e refl
            | inr ((b, t), e) ↦ rw (e, writes s.writes) (then_request_lem t (answered s))
          ])
