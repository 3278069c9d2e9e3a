-- ===== src/Phone.antt =====
-- The phone's side of the relay protocol: the texts of internal/tunnel/relay.go, and those that open
-- a data connection.
pub mod Agree
pub mod Inject
pub mod Served
pub mod Data
pub mod Plain
use zetproxy_turbo.Base.{
  ℕ, Bool, Option, none, some, List, [], ◌∷◌, ◌++◌, map, ◌==◌, if◌then◌else◌, drop,
}
use zetproxy_turbo.Text.{
  Bytes, codes, equal, has_prefix, contains_byte, cut_byte, cut_last_byte, trim_space,
}

-- `relayHost`: the text before the last colon, unless that is the first byte.
unfoldable pub relay_host : Bytes → Bytes
relay_host addr = elim (cut_last_byte addr b':') [
  | none ↦ addr
  | some ([], port) ↦ addr
  | some (c ∷ host, port) ↦ c ∷ host
]

-- `if !strings.Contains(relayAddr, ":") { relayAddr = relayAddr + ":7800" }`
unfoldable pub relay_addr : Bytes → Bytes
relay_addr addr = if contains_byte addr b':' then addr else addr ++ codes ":7800"

-- The id in the relay's answer to "register".
unfoldable pub parse_id : Bytes → Option Bytes
parse_id resp =
    let line = trim_space resp in if has_prefix line (codes "id:") then some (drop 3 line) else none

-- What the control loop starts for a line.
pub data Order : Type 0 where
  relay_target : Bytes → Bytes → Order  -- `handleRelayTarget` with an id and a target address
  relay_data : Order  -- `handleRelayData`
  ignored : Order

unfoldable pub order : Bytes → Order
order s =
    let line = trim_space s in
    if has_prefix line (codes "conn:")
    then elim (cut_byte (drop 5 line) b':') [
      | none ↦ ignored
      | some (cid, target) ↦ relay_target cid target
    ]
    else if equal line (codes "conn")
    then relay_data
    else ignored

abbrev push_line : ℕ → List Bytes → List Bytes
push_line c [] = []
push_line c (l ∷ ls) = (c ∷ l) ∷ ls

-- The lines that `r.ReadString('\n')` returns without an error, each without its end.
unfoldable pub complete_lines : Bytes → List Bytes
complete_lines [] = []
complete_lines (c ∷ s) =
    let rest = complete_lines s in if c == 10 then [] ∷ rest else push_line c rest

-- The control loop over all that the relay sends.
unfoldable pub orders : Bytes → List Order
orders s = map order (complete_lines s)

-- The first line that `handleRelayTarget` and `handleRelayData` send on a data connection.
abbrev pub data_line_bytes : Bytes → Bytes
data_line_bytes id = codes "data:" ++ (id ++ (10 ∷ []))

-- `strings.TrimSpace(resp) != "ready"`
unfoldable pub is_ready : Bytes → Bool
is_ready resp = equal (trim_space resp) (codes "ready")
