-- ===== src/Phone/Agree.antt =====
-- What the relay writes the phone reads, and the other way round.
use zetproxy_turbo.Base.{
  ℕ, ◌-◌, ◌≤◌, ◌<◌, ◌≡◌, refl, subst, ap, ◌∙◌, ◌≢◌, inl, inr, false, some, [], ◌∷◌, ◌++◌,
  append_assoc, arith, ltb, Bool-cases,
}
use zetproxy_turbo.Text.{
  Bytes, codes, equal, has_prefix, contains_byte, is_space, trim_left, trim_right, trim_space,
  show_nat, show_int64,
}
use zetproxy_turbo.Text.Laws.{contains_byte-append, cut_byte-append}
use zetproxy_turbo.Text.Decimal.{show_nat-AllDigits}
use zetproxy_turbo.Text.Trim.{
  IsSolid, trim_right-solid, append-ne, trim_right-append, AllDigits-IsSolid, show_nat-ne-nil,
  digits_no_byte,
}
use zetproxy_turbo.Addr.{join_host_port}
use zetproxy_turbo.Relay.{phone_id, client_id, newline, ctrl_msg}
use zetproxy_turbo.Relay.Command.{data_line, trim_ends, command_of_line, command}
use zetproxy_turbo.Phone.{parse_id, relay_target, order, complete_lines, orders, data_line_bytes}

-- No line end inside.
abbrev pub IsLine : Bytes → Type 0
IsLine s = contains_byte s 10 ≡ false

pub complete_lines-line :
    (l rest : Bytes) → IsLine l → complete_lines (l ++ 10 ∷ rest) ≡ l ∷ complete_lines rest
unfolding complete_lines contains_byte
complete_lines-line [] rest h = refl
complete_lines-line (c ∷ l) rest h = ground (arith, complete_lines-line l rest)

-- A text with no white space, no colon and no line end.
abbrev pub IsId : Bytes → Type 0
IsId s = IsSolid s × (contains_byte s b':' ≡ false) × IsLine s

cons-IsId : (c : ℕ) (s : Bytes) → 33 ≤ c → c < 58 → IsId s → IsId (c ∷ s)
unfolding contains_byte is_space
cons-IsId c s lo hi (a, b, l) = ((ground arith, a), ground arith, ground arith)

show_nat-IsId : (k : ℕ) → IsId (show_nat k)
show_nat-IsId k =
    let d = show_nat-AllDigits k in
    (
      AllDigits-IsSolid _ d,
      digits_no_byte _ b':' d (inr (omega arith)),
      digits_no_byte _ 10 d (inl (omega arith)),
    )

show_int64-IsId : (n : ℕ) → IsId (show_int64 n)
unfolding show_int64
show_int64-IsId n = elim (Bool-cases (ltb n 9223372036854775808)) [
  | inl e ↦ rw e (show_nat-IsId n)
  | inr e ↦
      rw e (cons-IsId b'-' _ (omega arith) (omega arith) (show_nat-IsId (18446744073709551616 - n)))
]

pub letter-IsId : (c n : ℕ) → 97 ≤ c → c < 123 → IsId (c ∷ show_int64 n)
unfolding contains_byte is_space
letter-IsId c n lo hi =
    let (a, b, l) = show_int64-IsId n in ((ground arith, a), ground arith, ground arith)

-- A text that ends in something other than white space.
abbrev pub IsTight : Bytes → Type 0
IsTight s = (s ≢ []) × (trim_right s ≡ s)

tight-append : (xs ys : Bytes) → IsTight ys → trim_right (xs ++ ys) ≡ xs ++ ys
tight-append xs ys (n, e) = trim_right-append xs ys n e

pub order_lem :
    (cid target : Bytes)
    → contains_byte cid b':' ≡ false
    → IsTight target
    → order (codes "conn:" ++ (cid ++ b':' ∷ target)) ≡ relay_target cid target
unfolding order trim_space trim_left is_space has_prefix
order_lem cid target c t =
    let whole =
      append_assoc (codes "conn:" ++ cid) (b':' ∷ []) target
      ∙ append_assoc (codes "conn:") cid (b':' ∷ target) in
    let trimmed : trim_right (codes "conn:" ++ (cid ++ b':' ∷ target))
        ≡ codes "conn:" ++ (cid ++ b':' ∷ target) =
      subst (λ s. trim_right s ≡ s) whole
        (tight-append ((codes "conn:" ++ cid) ++ b':' ∷ []) target t) in
    rw trimmed (rw (cut_byte-append cid target b':' c))

pub IsLine-append : (a b : Bytes) → IsLine a → IsLine b → IsLine (a ++ b)
IsLine-append a b h k = rw (contains_byte-append a b 10, h, k)

pub relayed-IsLine :
    (cid addr : Bytes) → IsLine cid → IsLine addr → IsLine (codes "conn:" ++ (cid ++ b':' ∷ addr))
unfolding contains_byte
relayed-IsLine cid addr h k = IsLine-append cid (b':' ∷ addr) h k

-- One control message, whatever follows it, is one order.
pub orders-ctrl_msg :
    (cid addr rest : Bytes)
    → IsId cid
    → IsLine addr
    → IsTight addr
    → orders (ctrl_msg cid addr ++ rest) ≡ relay_target cid addr ∷ orders rest
unfolding orders
orders-ctrl_msg cid addr rest (solid, colon, l) k t =
    let whole = codes "conn:" ++ (cid ++ b':' ∷ addr) in
    let regroup : ctrl_msg cid addr ++ rest ≡ whole ++ 10 ∷ rest = simp append_assoc in
    rw regroup (
      rw (complete_lines-line whole rest (relayed-IsLine cid addr l k))
        (rw (order_lem cid addr colon t)))

joined-IsLine :
    (host : Bytes) (port : ℕ) → IsLine host → IsLine (join_host_port host (show_nat port))
unfolding join_host_port contains_byte
joined-IsLine host port h =
    let digits = digits_no_byte (show_nat port) 10 (show_nat-AllDigits port) (inl (omega arith)) in
    elim (Bool-cases (contains_byte host b':')) [
      | inl e ↦ rw e (IsLine-append host (b']' ∷ b':' ∷ show_nat port) h digits)
      | inr e ↦ rw e (IsLine-append host (b':' ∷ show_nat port) h digits)
    ]

pub port-IsTight : (front : Bytes) (port : ℕ) → IsTight (front ++ show_nat port)
port-IsTight front port =
    let n = show_nat-ne-nil port in
    let solid = AllDigits-IsSolid _ (show_nat-AllDigits port) in
    (append-ne front (show_nat port) n, trim_right-append front _ n (trim_right-solid _ solid))

joined-IsTight : (host : Bytes) (port : ℕ) → IsTight (join_host_port host (show_nat port))
unfolding join_host_port
joined-IsTight host port = elim (Bool-cases (contains_byte host b':')) [
  | inl e ↦ rw e (
      subst IsTight (ap (◌∷◌ b'[') (append_assoc host (b']' ∷ b':' ∷ []) (show_nat port)))
        (port-IsTight (b'[' ∷ (host ++ b']' ∷ b':' ∷ [])) port))
  | inr e ↦ rw e (
      subst IsTight (append_assoc host (b':' ∷ []) (show_nat port))
        (port-IsTight (host ++ b':' ∷ []) port))
]

pub trim_ends-solid : (s : Bytes) → IsSolid s → trim_ends s ≡ s
unfolding trim_ends is_space
trim_ends-solid [] h = refl
trim_ends-solid (c ∷ s) h = ground (arith, trim_ends-solid s h.1)

pub command-data_line : (id : Bytes) → IsId id → command (data_line_bytes id) ≡ data_line id
unfolding command command_of_line contains_byte equal has_prefix is_space
command-data_line id (solid, colon, l) =
    let whole = codes "data:" ++ id in
    let solid_line : IsSolid whole = (refl, (refl, (refl, (refl, (refl, solid))))) in
    rw (cut_byte-append whole [] 10 l) (rw (trim_ends-solid whole solid_line))

-- The relay and the phone agree on a SOCKS5 client: the message for the client's id and for a host
-- that holds no line end and a port is read by the phone as the order to connect that id to exactly
-- that address, and nothing of what follows is touched; the line that the phone sends on its data
-- connection for that id is read by the relay as the announcement of exactly that id.
pub client_agreed :
    (n port : ℕ) (host rest : Bytes)
    → contains_byte host 10 ≡ false
    → let cid = client_id n in
      let addr = join_host_port host (show_nat port) in
      (orders (ctrl_msg cid addr ++ rest) ≡ relay_target cid addr ∷ orders rest)
      × (command (data_line_bytes cid) ≡ data_line cid)
client_agreed n port host rest h =
    let id = letter-IsId b'c' n (omega arith) (omega arith) in
    (
      orders-ctrl_msg (client_id n) _ rest id (joined-IsLine host port h)
          (joined-IsTight host port),
      command-data_line (client_id n) id,
    )

trim_right-newline : (s : Bytes) → IsSolid s → trim_right (s ++ 10 ∷ []) ≡ s
unfolding trim_right is_space
trim_right-newline [] h = refl
trim_right-newline (c ∷ s) h = ground (arith, trim_right-newline s h.1)

-- The id that the relay gives a phone is the id that the phone reads from the answer, and announces.
pub phone_agreed :
    (n : ℕ)
    → (parse_id (codes "id:" ++ (phone_id n ++ newline)) ≡ some (phone_id n))
      × (command (data_line_bytes (phone_id n)) ≡ data_line (phone_id n))
unfolding parse_id trim_space trim_left is_space has_prefix
phone_agreed n =
    let id = letter-IsId b'p' n (omega arith) (omega arith) in
    let solid_line : IsSolid (codes "id:" ++ phone_id n) = (refl, (refl, (refl, id.0))) in
    (
      rw (trim_right-newline (codes "id:" ++ phone_id n) solid_line),
      command-data_line (phone_id n) id,
    )
