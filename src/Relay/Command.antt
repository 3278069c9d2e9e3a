-- ===== src/Relay/Command.antt =====
-- The first line of a connection to the relay: how `handle` of cmd/relay/main.go reads it.
use zetproxy_turbo.Base.{◌||◌, none, some, [], ◌∷◌, ◌==◌, if◌then◌else◌, drop}
use zetproxy_turbo.Text.{Bytes, codes, equal, has_prefix, cut_byte}

pub data Command : Type 0 where
  socks_line : Command  -- the first byte is 5
  register_line : Command
  connect_line : Bytes → Command
  data_line : Bytes → Command
  ping_line : Command
  other_line : Command
  closed_early : Command  -- no byte, or no line end: the handler returns

-- `strings.TrimRight(line, "\r\n")`
unfoldable pub trim_ends : Bytes → Bytes
trim_ends [] = []
trim_ends (c ∷ s) = elim (trim_ends s) [
  | [] ↦ if c == 10 || c == 13 then [] else c ∷ []
  | x ∷ r ↦ c ∷ x ∷ r
]

-- The `switch` on the line.
unfoldable pub command_of_line : Bytes → Command
command_of_line line =
    if equal line (codes "register")
    then register_line
    else if has_prefix line (codes "connect:")
    then connect_line (drop 8 line)
    else if has_prefix line (codes "data:")
    then data_line (drop 5 line)
    else if equal line (codes "ping")
    then ping_line
    else other_line

-- `r.ReadString('\n')` of the bytes that the client sends, after the peek at the first.
unfoldable pub command : Bytes → Command
command [] = closed_early
command (b ∷ s) = if b == 5 then socks_line else elim (cut_byte (b ∷ s) 10) [
  | none ↦ closed_early
  | some (line, _) ↦ command_of_line (trim_ends line)
]
