-- ===== src/Addr.antt =====
-- What the program uses of package net on addresses: the text of an IP address, `To4`, `ParseIP` of
-- dotted text, and host:port pairs.
pub mod Colons
pub mod HostPort
pub mod Dotted
use zetproxy_turbo.Base.{
  ℕ, zero, suc, ◌+◌, ◌-◌, ◌*◌, ◌/◌, ◌%◌, Bool, true, false, not, ◌&&◌, ◌||◌, Option, none, some,
  List, [], ◌∷◌, ◌++◌, map, ltb, leb, ◌==◌, if◌then◌else◌, length, take, drop, get_or,
}
use zetproxy_turbo.Text.{Bytes, codes, equal, contains_byte, cut_byte, cut_last_byte, show_nat}

-- `IP.To4`: a 4-byte address, or the last 4 bytes of an IPv4-mapped one; `none` is nil.
unfoldable pub to4 : Bytes → Option Bytes
to4 ip =
    if length ip == 4
    then some ip
    else if length ip == 16
        && equal (take 12 ip) (0 ∷ 0 ∷ 0 ∷ 0 ∷ 0 ∷ 0 ∷ 0 ∷ 0 ∷ 0 ∷ 0 ∷ 255 ∷ 255 ∷ [])
    then some (drop 12 ip)
    else none

unfoldable pub join_with : Bytes → List Bytes → Bytes
join_with sep [] = []
join_with sep (x ∷ []) = x
join_with sep (x ∷ y ∷ r) = x ++ (sep ++ join_with sep (y ∷ r))

-- Dotted decimal.
unfoldable pub dotted : Bytes → Bytes
unfolding join_with
dotted ip = join_with (codes ".") (map show_nat ip)

-- The 16-bit groups of an address.
unfoldable pub groups : Bytes → List ℕ
groups (a ∷ b ∷ r) = (a * 256 + b) ∷ groups r
groups _ = []

unfoldable pub hex_digit : ℕ → ℕ
hex_digit d = if ltb d 10 then 48 + d else 87 + d

-- Lower case hexadecimal with no leading zero; a group has at most 4 digits.
unfoldable pub show_hex : ℕ → ℕ → Bytes
unfolding hex_digit
show_hex zero n = []
show_hex (suc f) n =
    let rest = show_hex f (n / 16) in
    if ltb n 16 then hex_digit n ∷ [] else rest ++ (hex_digit (n % 16) ∷ [])

unfoldable pub leading_zeros : List ℕ → ℕ
leading_zeros [] = 0
leading_zeros (g ∷ gs) = let rest = leading_zeros gs in if g == 0 then suc rest else 0

-- The first longest run of two or more zero groups, as (start, length).
unfoldable pub longest_run : ℕ → ℕ × ℕ → List ℕ → ℕ × ℕ
unfolding leading_zeros
longest_run i best [] = best
longest_run i best (g ∷ gs) =
    let here = leading_zeros (g ∷ gs) in
    longest_run (i + 1) (if ltb 1 here && ltb best.1 here then (i, here) else best) gs

unfoldable pub compress : ℕ × ℕ → List ℕ → Bytes
compress run gs =
    if run.1 == 0
    then join_with (codes ":") (map (show_hex 4) gs)
    else join_with (codes ":") (map (show_hex 4) (take run.0 gs))
      ++ (codes "::" ++ join_with (codes ":") (map (show_hex 4) (drop (run.0 + run.1) gs)))

-- IPv6 text, the longest run of zero groups written `::`.
unfoldable pub ip6_text : Bytes → Bytes
unfolding groups longest_run compress
ip6_text ip = compress (longest_run 0 (0, 0) (groups ip)) (groups ip)

-- `net.IP(b).String()` for the 4 and 16 bytes that the program reads.
unfoldable pub ip_string : Bytes → Bytes
unfolding to4 dotted ip6_text
ip_string ip = elim (to4 ip) [ some v4 ↦ dotted v4 | none ↦ ip6_text ip ]

-- `net.JoinHostPort`
unfoldable pub join_host_port : Bytes → Bytes → Bytes
unfolding contains_byte
join_host_port host port =
    if contains_byte host b':' then b'[' ∷ (host ++ (b']' ∷ b':' ∷ port)) else host ++ (b':' ∷ port)

-- The part of `net.SplitHostPort` behind an opening bracket.
unfoldable pub split_bracket : Bytes → Option (Bytes × Bytes)
unfolding cut_byte contains_byte
split_bracket s = elim (cut_byte s b']') [
  | none ↦ none
  | some (host, []) ↦ none
  | some (host, c ∷ port) ↦
      if c == b':'
        && not (
            contains_byte port b':'
            || contains_byte host b'['
            || contains_byte port b'['
            || contains_byte port b']')
      then some (host, port)
      else none
]

-- The part for a host with no bracket; `none` is an error such as "too many colons".
unfoldable pub split_plain : Bytes → Option (Bytes × Bytes)
unfolding cut_last_byte contains_byte
split_plain s = elim (cut_last_byte s b':') [
  | none ↦ none
  | some (host, port) ↦
      if contains_byte host b':' || contains_byte s b'[' || contains_byte s b']'
      then none
      else some (host, port)
]

-- `net.SplitHostPort`
unfoldable pub split_host_port : Bytes → Option (Bytes × Bytes)
unfolding split_bracket split_plain
split_host_port [] = none
split_host_port (c ∷ s) = if c == b'[' then split_bracket s else split_plain (c ∷ s)
