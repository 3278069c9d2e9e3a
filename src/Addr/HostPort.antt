-- ===== src/Addr/HostPort.antt =====
-- Host and port pairs: what `JoinHostPort` writes `SplitHostPort` reads back.
use zetproxy_turbo.Base.{◌≡◌, refl, ◌∙◌, false, inl, inr, some, [], ◌∷◌, ◌++◌, arith, Bool-cases}
use zetproxy_turbo.Text.{Bytes, contains_byte}
use zetproxy_turbo.Text.Laws.{cut_byte-append, cut_last_byte-append, contains_byte-append}
use zetproxy_turbo.Addr.{join_host_port, split_bracket, split_plain, split_host_port}

-- No byte that has a meaning in a host and port pair, the colon apart.
abbrev pub HasNoBracket : Bytes → Type 0
HasNoBracket s = (contains_byte s b'[' ≡ false) × (contains_byte s b']' ≡ false)

split_bracket_lem :
    (host port : Bytes)
    → HasNoBracket host
    → HasNoBracket port
    → contains_byte port b':' ≡ false
    → split_bracket (host ++ (b']' ∷ b':' ∷ port)) ≡ some (host, port)
unfolding split_bracket
split_bracket_lem host port h p c =
    rw (cut_byte-append host (b':' ∷ port) b']' h.1, split_bracket) (ground arith)

split_plain_lem :
    (host port : Bytes)
    → HasNoBracket host
    → HasNoBracket port
    → contains_byte host b':' ≡ false
    → contains_byte port b':' ≡ false
    → split_plain (host ++ (b':' ∷ port)) ≡ some (host, port)
unfolding split_plain contains_byte
split_plain_lem host port h p hc pc =
    rw (cut_last_byte-append host port b':' pc, split_plain)
      (ground (
        arith,
        contains_byte-append host (b':' ∷ port) b'[',
        contains_byte-append host (b':' ∷ port) b']',
      ))

split_plain_start :
    (host port : Bytes)
    → contains_byte host b'[' ≡ false
    → split_host_port (host ++ (b':' ∷ port)) ≡ split_plain (host ++ (b':' ∷ port))
unfolding split_host_port contains_byte
split_plain_start [] port h = refl
split_plain_start (x ∷ host) port h = ground arith

-- A host, an IPv6 address among them, and a port come back from the text that joins them.
pub split_host_port-join_host_port :
    (host port : Bytes)
    → HasNoBracket host
    → HasNoBracket port
    → contains_byte port b':' ≡ false
    → split_host_port (join_host_port host port) ≡ some (host, port)
unfolding join_host_port split_host_port
split_host_port-join_host_port host port h p pc = elim (Bool-cases (contains_byte host b':')) [
  | inl six ↦ rw six (split_bracket_lem host port h p pc)
  | inr plain ↦ rw plain (split_plain_start host port h.0 ∙ split_plain_lem host port h p plain pc)
]
