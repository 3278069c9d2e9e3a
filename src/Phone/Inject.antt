-- ===== src/Phone/Inject.antt =====
-- A host with a line end inside: what the phone makes of the relay's message.
use zetproxy_turbo.Base.{ℕ, ◌≡◌, subst, ◌∙◌, inl, true, [], ◌∷◌, ◌++◌, append_assoc, arith}
use zetproxy_turbo.Text.{Bytes, codes, contains_byte, show_nat}
use zetproxy_turbo.Text.Laws.{contains_byte-append}
use zetproxy_turbo.Text.Decimal.{show_nat-AllDigits}
use zetproxy_turbo.Text.Trim.{digits_no_byte}
use zetproxy_turbo.Addr.{join_host_port}
use zetproxy_turbo.Relay.{ctrl_msg}
use zetproxy_turbo.Phone.{relay_target, orders}
use zetproxy_turbo.Phone.Agree.{IsLine, IsId, IsTight, IsLine-append, orders-ctrl_msg, port-IsTight}

-- The host name that makes a second message: `front`, a line end, and a message for `cid'`.
abbrev pub two_lines : Bytes → Bytes → Bytes → Bytes
two_lines front cid' target = front ++ 10 ∷ (codes "conn:" ++ (cid' ++ b':' ∷ target))

two_lines_colon :
    (front cid' target : Bytes) → contains_byte (two_lines front cid' target) b':' ≡ true
unfolding contains_byte
two_lines_colon front cid' target =
    contains_byte-append front (10 ∷ (codes "conn:" ++ (cid' ++ b':' ∷ target))) b':' ∙ ground arith

-- A SOCKS5 client that asks for a domain name with a line end and the text of a message behind it makes
-- the phone take the relay's one message for two orders: the second one opens a data connection that
-- announces an id of the client's choice, for a host of the client's choice. The host name's first line
-- does not end in white space, the id has no white space and no colon, and the host is one line.
pub two_orders :
    (cid front cid' target rest : Bytes) (port : ℕ)
    → IsId cid
    → IsId cid'
    → IsLine front
    → IsTight (b'[' ∷ front)
    → IsLine target
    → orders (ctrl_msg cid (join_host_port (two_lines front cid' target) (show_nat port)) ++ rest)
      ≡ relay_target cid (b'[' ∷ front)
        ∷ relay_target cid' (target ++ b']' ∷ b':' ∷ show_nat port)
        ∷ orders rest
unfolding join_host_port contains_byte
two_orders cid front cid' target rest port i i' l t k =
    let address' = target ++ b']' ∷ b':' ∷ show_nat port in
    let digits = digits_no_byte (show_nat port) 10 (show_nat-AllDigits port) (inl (omega arith)) in
    let line' : IsLine address' = IsLine-append target (b']' ∷ b':' ∷ show_nat port) k digits in
    let tight' : IsTight address' =
      subst IsTight (append_assoc target (b']' ∷ b':' ∷ []) (show_nat port))
        (port-IsTight (target ++ b']' ∷ b':' ∷ []) port) in
    let regroup : ctrl_msg cid (b'[' ∷ (two_lines front cid' target ++ b']' ∷ b':' ∷ show_nat port))
          ++ rest
        ≡ ctrl_msg cid (b'[' ∷ front) ++ (ctrl_msg cid' address' ++ rest) =
      simp append_assoc in
    rw (two_lines_colon front cid' target) (
      rw regroup (
        rw (orders-ctrl_msg cid (b'[' ∷ front) (ctrl_msg cid' address' ++ rest) i l t)
          (rw (orders-ctrl_msg cid' address' rest i' line' tight'))))
