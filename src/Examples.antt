-- ===== src/Examples.antt =====
-- Runs of the models at concrete inputs, and the theorems applied there.
--
-- A client with two methods asks for a host by name and sends three bytes behind its request; the
-- network has one target.
pub mod Proxies
pub mod Tunnels
pub mod Datagrams
pub mod Relays
pub mod Phones
pub mod Texts
pub mod Buffers
pub mod Configs
pub mod Copies
pub mod Hostnames
pub mod Daemons
pub mod Dashboards
pub mod Remotes
pub mod Lives
pub mod Streams
use zetproxy_turbo.Base.{ℕ, true, none, some, [], ◌∷◌, if◌then◌else◌}
use zetproxy_turbo.Text.{Bytes, codes, equal}
use zetproxy_turbo.Socks.{Address, domain}
use zetproxy_turbo.Session.{Target, World, dial}

abbrev pub target : Target
target = record {
  local_ip = 10 ∷ 0 ∷ 0 ∷ 1 ∷ [];
  local_port = 4660;
  write_ok = true;
  upload = 7;
  download = 9;
}

-- The first read brings `n` bytes.
abbrev pub world : ℕ → World
world n = record {
  first_read = n;
  write_ok = λ k. true;
  dial = λ addr. if equal addr (codes "a.b:80") then some target else none;
  remote_addr = codes "10.0.0.2:5000";
  now = 3;
}

abbrev pub methods : Bytes
methods = 0 ∷ 2 ∷ []

abbrev pub host : Address
host = domain (codes "a.b")

abbrev pub payload : Bytes
payload = codes "abc"

-- 2001:db8::1
abbrev pub v6 : Bytes
v6 = 32 ∷ 1 ∷ 13 ∷ 184 ∷ 0 ∷ 0 ∷ 0 ∷ 0 ∷ 0 ∷ 0 ∷ 0 ∷ 0 ∷ 0 ∷ 0 ∷ 0 ∷ 1 ∷ []
