-- ===== src/Tunnel/Parsed.antt =====
-- `handleSOCKS5` of internal/tunnel/tunnel.go up to the dial, on every stream of bytes, against the
-- parser of Socks/Parse.antt.
use zetproxy_turbo.Base.{
  ℕ, suc, ◌+◌, ◌≡◌, refl, inl, inr, Bool, true, false, ◌&&◌, Option, none, some, [], ◌∷◌, ◌++◌,
  arith, leb, ◌==◌, if◌then◌else◌, Bool-cases, Option-cases, length, get_or,
}
use zetproxy_turbo.Text.{Bytes}
use zetproxy_turbo.Addr.{ip_string}
use zetproxy_turbo.Socks.{Address, ip4, domain, ip6, host_text}
use zetproxy_turbo.Socks.Parse.{
  Verdict, unasked, not_connect, no_type, short, ask, take_bytes, parse_port, behind, parse_domain,
  parse_address, read_full-take_bytes, parse_strict,
}
use zetproxy_turbo.Session.{
  World, Session, Exit, value, returned, M, ◌>>=◌, ◌>>◌, pure, check, or_return, try, read_full,
  write, write_ignore,
}
use zetproxy_turbo.Tunnel.{Server, refusal, read_host, uint16_of, socks5_request}

-- Whether the first read brings a greeting that the handler takes: three bytes, and all the methods.
abbrev pub greets : Bytes → Bool
greets (v ∷ n ∷ m ∷ s) = leb n (suc (length s))
greets _ = false

-- The verdict on a client whose first read brings `initial`, and that sends `r` behind it.
abbrev pub judge : Bytes → Bytes → Option Verdict
judge initial r = if greets initial then some (parse_strict r) else none

-- What the part behind the greeting makes of the verdict.
abbrev pub outcome : Verdict → Session Server → Exit (Bytes × ℕ) × Session Server
outcome unasked s = (returned, record s { rest = [] })
outcome (not_connect r) s =
    (returned, record s { rest = r; sent = s.sent ++ refusal 7; writes = suc s.writes })
outcome (no_type r) s = (returned, record s { rest = r })
outcome short s = (returned, record s { rest = [] })
outcome (ask a port payload) s = (value (host_text a, port), record s { rest = payload })

-- And the part from the greeting on.
abbrev pub requested : Option Verdict → Session Server → Exit (Bytes × ℕ) × Session Server
requested none s = (returned, s)
requested (some v) s = outcome v (record s { sent = s.sent ++ (5 ∷ 0 ∷ []); writes = suc s.writes })

abbrev then_port : Bytes → M Server (Bytes × ℕ)
then_port host = do port ← try (read_full 2) (pure tt); pure (host, uint16_of port)

then_port_lem :
    (a : Address) (r : Bytes) (s : Session Server)
    → then_port (host_text a) (record s { rest = r }) ≡ outcome (parse_port a r) s
unfolding try or_return
then_port_lem a [] s = rw (read_full-take_bytes 2 (record s { rest = [] }))
then_port_lem a (h ∷ []) s = rw (read_full-take_bytes 2 (record s { rest = h ∷ [] }))
then_port_lem a (h ∷ l ∷ r) s = rw (read_full-take_bytes 2 (record s { rest = h ∷ l ∷ r }))

-- A host of `n` bytes, with the port behind it.
abbrev then_host : (Bytes → Bytes) → ℕ → M Server (Bytes × ℕ)
then_host g n = do host ← (do b ← try (read_full n) (pure tt); pure (g b)); then_port host

then_host_lem :
    (f : Bytes → Address) (g : Bytes → Bytes) (n : ℕ) (r : Bytes) (s : Session Server)
    → ((b : Bytes) → host_text (f b) ≡ g b)
    → then_host g n (record s { rest = r }) ≡ outcome (behind f (take_bytes n r)) s
unfolding try or_return
then_host_lem f g n r s h =
    rw (read_full-take_bytes n (record s { rest = r })) (elim (Option-cases (take_bytes n r)) [
      | inl e ↦ rw e refl
      | inr ((b, t), e) ↦ rw (e, ← h b) (then_port_lem (f b) t s)
    ])

abbrev then_address : ℕ → M Server (Bytes × ℕ)
then_address t = do host ← read_host t; then_port host

then_domain_lem :
    (r : Bytes) (s : Session Server)
    → then_address 3 (record s { rest = r }) ≡ outcome (parse_domain r) s
unfolding read_host try or_return
then_domain_lem [] s = rw (read_full-take_bytes 1 (record s { rest = [] }))
then_domain_lem (n ∷ r) s =
    rw (read_full-take_bytes 1 (record s { rest = n ∷ r }))
      (then_host_lem domain (λ b. b) n r s (λ b. refl))

then_address_lem :
    (t : ℕ) (r : Bytes) (s : Session Server)
    → then_address t (record s { rest = r }) ≡ outcome (parse_address t r) s
unfolding read_host
then_address_lem t r s =
    let four = then_host_lem ip4 ip_string 4 r s (λ b. refl) in
    let name = then_domain_lem r s in
    let six = then_host_lem ip6 ip_string 16 r s (λ b. refl) in
    elim (Bool-cases (t == 1)) [
      | inl e ↦ rw e four
      | inr e ↦ rw e (elim (Bool-cases (t == 3)) [
        | inl e ↦ rw e name
        | inr e ↦ rw e (elim (Bool-cases (t == 4)) [ inl e ↦ rw e six | inr e ↦ rw e refl ])
      ])
    ]

module _ (w : World) (writes : (n : ℕ) → w.write_ok n ≡ true) where
  abbrev then_request : M Server (Bytes × ℕ)
  then_request = do
    req ← try (read_full 4) (pure tt)
    check (get_or req 0 0 == 5 && get_or req 1 0 == 1) (write_ignore w (refusal 7))
    then_address (get_or req 3 0)

  then_request_lem :
      (r : Bytes) (s : Session Server)
      → then_request (record s { rest = r }) ≡ outcome (parse_strict r) s
  unfolding check try or_return write_ignore write
  then_request_lem [] s = rw (read_full-take_bytes 4 (record s { rest = [] }))
  then_request_lem (v ∷ []) s = rw (read_full-take_bytes 4 (record s { rest = v ∷ [] }))
  then_request_lem (v ∷ c ∷ []) s = rw (read_full-take_bytes 4 (record s { rest = v ∷ c ∷ [] }))
  then_request_lem (v ∷ c ∷ z ∷ []) s =
      rw (read_full-take_bytes 4 (record s { rest = v ∷ c ∷ z ∷ [] }))
  then_request_lem (v ∷ c ∷ z ∷ t ∷ r) s =
      rw (read_full-take_bytes 4 (record s { rest = v ∷ c ∷ z ∷ t ∷ r }))
        (elim (Bool-cases (v == 5 && c == 1)) [
          | inl e ↦ rw e (then_address_lem t r s)
          | inr e ↦ rw (e, writes s.writes) refl
        ])

  pub socks5_request-judge :
      (initial r : Bytes) (s : Session Server)
      → socks5_request w initial (record s { rest = r })
        ≡ requested (judge initial r) (record s { rest = r })
  unfolding socks5_request check try or_return write_ignore write
  socks5_request-judge [] r s = ground arith
  socks5_request-judge (v ∷ []) r s = ground arith
  socks5_request-judge (v ∷ n ∷ []) r s = ground arith
  socks5_request-judge (v ∷ n ∷ m ∷ b) r s =
      let three : leb 3 (length (v ∷ n ∷ m ∷ b)) ≡ true = ground arith in
      let whole : leb (2 + n) (length (v ∷ n ∷ m ∷ b)) ≡ leb n (suc (length b)) = ground arith in
      rw (three, whole)
        (elim (Bool-cases (leb n (suc (length b)))) [
          | inl e ↦
              rw (e, writes s.writes)
                (then_request_lem r
                  (record s { rest = r; sent = s.sent ++ (5 ∷ 0 ∷ []); writes = suc s.writes }))
          | inr e ↦ rw e refl
        ])
