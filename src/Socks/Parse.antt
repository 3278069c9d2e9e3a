-- ===== src/Socks/Parse.antt =====
-- A parser for a client's whole stream, as RFC 1928 has it: an independent description of which
-- streams ask for what. Only `parse_strict` looks at a version byte, that of the request.
use zetproxy_turbo.Base.{
  ℕ, zero, suc, ◌+◌, ◌*◌, ◌/◌, ◌%◌, ◌<◌, ◌≡◌, refl, subst, ◌&&◌, Option, none, some, [], ◌∷◌, ◌++◌,
  arith, leb, ◌==◌, if◌then◌else◌, length, take, drop,
}
use zetproxy_turbo.Text.{Bytes}
use zetproxy_turbo.Socks.{
  greeting, Address, ip4, domain, ip6, IsAddress, address_type, address_bytes, port_bytes,
  request_bytes,
}
use zetproxy_turbo.Session.{Session, Exit, value, read_full}

-- What the stream behind a greeting comes to; with it what stands behind the part that decides.
pub data Verdict : Type 0 where
  unasked : Verdict  -- it is over within the first four bytes of the request
  not_connect : Bytes → Verdict  -- another command than CONNECT
  no_type : Bytes → Verdict  -- no such address type
  short : Verdict  -- it is over within the address or the port
  ask : Address → ℕ → Bytes → Verdict  -- host, port and payload

abbrev pub take_bytes : ℕ → Bytes → Option (Bytes × Bytes)
take_bytes zero s = some ([], s)
take_bytes (suc n) [] = none
take_bytes (suc n) (b ∷ s) = elim (take_bytes n s) [ none ↦ none | some p ↦ some (b ∷ p.0, p.1) ]

abbrev pub parse_port : Address → Bytes → Verdict
parse_port a [] = short
parse_port a (h ∷ []) = short
parse_port a (h ∷ l ∷ payload) = ask a (h * 256 + l) payload

abbrev pub behind : (Bytes → Address) → Option (Bytes × Bytes) → Verdict
behind f none = short
behind f (some (b, s)) = parse_port (f b) s

abbrev pub parse_domain : Bytes → Verdict
parse_domain [] = short
parse_domain (n ∷ s) = behind domain (take_bytes n s)

abbrev pub parse_address : ℕ → Bytes → Verdict
parse_address t s =
    if t == 1
    then behind ip4 (take_bytes 4 s)
    else if t == 3
    then parse_domain s
    else if t == 4
    then behind ip6 (take_bytes 16 s)
    else no_type s

-- Version, command, reserved byte and address type.
abbrev pub parse_request : Bytes → Verdict
parse_request (v ∷ cmd ∷ r ∷ t ∷ s) = if cmd == 1 then parse_address t s else not_connect s
parse_request _ = unasked

abbrev pub parse_greeted : Option (Bytes × Bytes) → Option Verdict
parse_greeted none = none
parse_greeted (some (methods, s)) = some (parse_request s)

-- `none`: the stream is over within the greeting.
abbrev pub parse : Bytes → Option Verdict
parse (v ∷ n ∷ s) = parse_greeted (take_bytes n s)
parse _ = none

-- Every entry is a byte.
abbrev pub IsStream : Bytes → Type 0
IsStream [] = Unit
IsStream (b ∷ s) = (b < 256) × IsStream s

pub take_bytes_lem :
    (n : ℕ) (s : Bytes)
    → take_bytes n s ≡ (if leb n (length s) then some (take n s, drop n s) else none)
take_bytes_lem zero s = ground arith
take_bytes_lem (suc n) [] = ground arith
take_bytes_lem (suc n) (b ∷ s) = rw (take_bytes_lem n s) (ground arith)

pub take_bytes-append : (xs ys : Bytes) → take_bytes (length xs) (xs ++ ys) ≡ some (xs, ys)
take_bytes-append [] ys = refl
take_bytes-append (x ∷ xs) ys = rw (take_bytes-append xs ys)

IsStream-drop : (n : ℕ) (s : Bytes) → IsStream s → IsStream (drop n s)
IsStream-drop zero s h = h
IsStream-drop (suc n) [] h = h
IsStream-drop (suc n) (b ∷ s) h = IsStream-drop n s h.1

-- What is left of a stream is a stream.
pub take_bytes-IsStream :
    (n : ℕ) (s b r : Bytes) → IsStream s → take_bytes n s ≡ some (b, r) → IsStream r
take_bytes-IsStream n s b r h e =
    let left : drop n s ≡ r = ground (arith, take_bytes_lem n s) in
    subst IsStream left (IsStream-drop n s h)

parse_address_lem :
    (a : Address) (port : ℕ) (payload : Bytes)
    → IsAddress a
    → parse_address (address_type a) (address_bytes a ++ (port_bytes port ++ payload))
      ≡ ask a port payload
parse_address_lem (ip4 b) port payload h =
    let port_read : port / 256 * 256 + port % 256 ≡ port = omega arith in
    rw (← h, take_bytes-append b (port_bytes port ++ payload), port_read)
parse_address_lem (ip6 b) port payload h =
    let port_read : port / 256 * 256 + port % 256 ≡ port = omega arith in
    rw (← h, take_bytes-append b (port_bytes port ++ payload), port_read)
parse_address_lem (domain d) port payload h =
    let port_read : port / 256 * 256 + port % 256 ≡ port = omega arith in
    rw (take_bytes-append d (port_bytes port ++ payload), port_read)

-- The parser reads a well-formed client as it was written.
pub parse_written :
    (methods : Bytes) (a : Address) (port : ℕ) (payload : Bytes)
    → IsAddress a
    → parse (greeting methods ++ request_bytes 1 a port payload) ≡ some (ask a port payload)
parse_written methods a port payload h =
    rw (
      take_bytes-append methods (request_bytes 1 a port payload),
      parse_address_lem a port payload h,
    )

module _ {S : Type 0} where
  -- What a full read makes of the bytes that are there.
  abbrev pub reading : Option (Bytes × Bytes) → Session S → Exit (Option Bytes) × Session S
  reading none s = (value none, record s { rest = [] })
  reading (some (b, r)) s = (value (some b), record s { rest = r })

  pub read_full-take_bytes :
      (n : ℕ) (s : Session S) → read_full n s ≡ reading (take_bytes n s.rest) s
  unfolding read_full
  read_full-take_bytes n s = rw (take_bytes_lem n s.rest) (ground arith)

-- A server that looks at the request's version too takes another version for another command.
abbrev pub parse_strict : Bytes → Verdict
parse_strict (v ∷ cmd ∷ r ∷ t ∷ s) = if v == 5 && cmd == 1 then parse_address t s else not_connect s
parse_strict _ = unasked
