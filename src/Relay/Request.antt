-- ===== src/Relay/Request.antt =====
-- `handleSOCKS5` of cmd/relay/main.go up to the choice of a phone: the greeting and the request.
use mathlib.Core.Option
use zetproxy_turbo.Base.{
  ℕ, suc, ◌+◌, ◌*◌, ◌/◌, ◌%◌, ◌<◌, ◌≡◌, refl, true, Option, none, some, [], ◌∷◌, ◌++◌, arith, ◌==◌,
  if◌then◌else◌, length, get_or,
}
use zetproxy_turbo.Text.{Bytes, show_nat}
use zetproxy_turbo.Addr.{ip_string, join_host_port}
use zetproxy_turbo.Session.{
  World, Session, value, M, ◌>>=◌, ◌>>◌, pure, check, or_return, try, set_deadline, read_full,
  write, write_ignore,
}
use zetproxy_turbo.Session.Reads.{read_full-append}
use zetproxy_turbo.Socks.{
  greeting, Address, ip4, domain, ip6, IsAddress, address_type, address_bytes, host_text,
  port_bytes, request_bytes,
}
use zetproxy_turbo.Relay.{refusal}

module _ {S : Type 0} where
  abbrev nothing : M S (Unit {0})
  nothing = pure tt

  -- `readAddr`; `none` is an error.
  unfoldable pub read_addr : ℕ → M S (Option Bytes)
  read_addr atyp =
      if atyp == 1
      then (do b ← read_full 4; pure (Option.map ip_string b))
      else if atyp == 3
      then (do n ← read_full 1; elim n [ none ↦ pure none | some b ↦ read_full (get_or b 0 0) ])
      else if atyp == 4
      then (do b ← read_full 16; pure (Option.map ip_string b))
      else pure none

  -- `readPort`
  unfoldable pub read_port : M S (Option ℕ)
  read_port = do b ← read_full 2; pure (Option.map (λ p. get_or p 0 0 * 256 + get_or p 1 0) b)

  -- The address as `net.JoinHostPort` has it. No test is made of the version of the request.
  unfoldable pub request : World → M S Bytes
  request w = do
    set_deadline (some 15)
    hdr ← try (read_full 2) nothing
    try (read_full (get_or hdr 1 0)) nothing
    write_ignore w (5 ∷ 0 ∷ [])
    req ← try (read_full 4) nothing
    check (get_or req 1 0 == 1) (write_ignore w (refusal 7))
    host ← try (read_addr (get_or req 3 0)) (write_ignore w (refusal 8))
    port ← try read_port (write_ignore w (refusal 8))
    set_deadline none
    pure (join_host_port host (show_nat port))

  read_addr_lem :
      (a : Address) (r : Bytes) (s : Session S)
      → IsAddress a
      → s.rest ≡ address_bytes a ++ r
      → read_addr (address_type a) s ≡ (value (some (host_text a)), record s { rest = r })
  unfolding read_addr
  read_addr_lem (ip4 b) r s h e = rw (read_full-append 4 b r s h e)
  read_addr_lem (ip6 b) r s h e = rw (read_full-append 16 b r s h e)
  read_addr_lem (domain d) r s h e = rw (
    read_full-append 1 (length d ∷ []) (d ++ r) s refl e,
    read_full-append (length d) d r (record s { rest = d ++ r }) refl refl,
  )

  module _ (w : World) (methods : Bytes) (a : Address) (port : ℕ) (payload : Bytes) (s : Session S)
      (few : length methods < 256) (valid : IsAddress a) (small : port < 65536)
      (granted : w.write_ok s.writes ≡ true)
      (stream : s.rest ≡ greeting methods ++ request_bytes 1 a port payload) where
    -- A well-formed CONNECT request is answered by the greeting, its address is the host and the port
    -- that it names, joined so that an IPv6 host stands in brackets, nothing behind it is read, and
    -- the deadline is cleared.
    pub request_lem : request w s ≡ (
      value (join_host_port (host_text a) (show_nat port)),
      record s {
        rest = payload;
        sent = s.sent ++ (5 ∷ 0 ∷ []);
        writes = suc s.writes;
        deadline = none;
      },
    )
    unfolding request read_port try or_return set_deadline check write write_ignore
    request_lem =
        let greeted = record s { deadline = some 15 } in
        let head = 5 ∷ 1 ∷ 0 ∷ address_type a ∷ [] in
        let body = address_bytes a ++ (port_bytes port ++ payload) in
        let answered = record s {
          sent = s.sent ++ (5 ∷ 0 ∷ []);
          writes = suc s.writes;
          deadline = some 15;
        } in
        let port_read : port / 256 * 256 + port % 256 ≡ port = omega arith in
        rw
          (
            read_full-append 2 (5 ∷ length methods ∷ []) (methods ++ (head ++ body)) greeted refl
                stream,
            read_full-append (length methods) methods (head ++ body)
                (record greeted { rest = methods ++ (head ++ body) }) refl refl,
            granted,
            read_full-append 4 head body (record answered { rest = head ++ body }) refl refl,
            read_addr_lem a (port_bytes port ++ payload) (record answered { rest = body }) valid
                refl,
            read_full-append 2 (port_bytes port) payload
                (record answered { rest = port_bytes port ++ payload }) refl refl,
          )
          (rw port_read)
