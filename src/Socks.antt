-- ===== src/Socks.antt =====
-- The client's side of SOCKS version 5 as RFC 1928 has it: an independent description of what the
-- three servers of the program read (internal/proxy/socks5.go, internal/tunnel/tunnel.go and
-- cmd/relay/main.go).
pub mod Parse
use zetproxy_turbo.Base.{ℕ, ◌/◌, ◌%◌, ◌<◌, ◌≡◌, [], ◌∷◌, ◌++◌, length}
use zetproxy_turbo.Text.{Bytes}
use zetproxy_turbo.Addr.{ip_string}

-- The bytes of a client that greets with `methods` and asks for `addr` and `port`.
abbrev pub greeting : Bytes → Bytes
greeting methods = 5 ∷ length methods ∷ methods

pub data Address : Type 0 where
  ip4 : Bytes → Address
  domain : Bytes → Address
  ip6 : Bytes → Address

abbrev pub IsAddress : Address → Type 0
IsAddress (ip4 b) = length b ≡ 4
IsAddress (domain d) = length d < 256
IsAddress (ip6 b) = length b ≡ 16

abbrev pub address_type : Address → ℕ
address_type (ip4 b) = 1
address_type (domain d) = 3
address_type (ip6 b) = 4

abbrev pub address_bytes : Address → Bytes
address_bytes (ip4 b) = b
address_bytes (domain d) = length d ∷ d
address_bytes (ip6 b) = b

-- The host as text.
abbrev pub host_text : Address → Bytes
host_text (ip4 b) = ip_string b
host_text (domain d) = d
host_text (ip6 b) = ip_string b

abbrev pub port_bytes : ℕ → Bytes
port_bytes port = (port / 256) ∷ (port % 256) ∷ []

-- A request for command `cmd`, with what the client sends after it.
abbrev pub request_bytes : ℕ → Address → ℕ → Bytes → Bytes
request_bytes cmd a port payload =
    5 ∷ cmd ∷ 0 ∷ address_type a ∷ (address_bytes a ++ (port_bytes port ++ payload))
