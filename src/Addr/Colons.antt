-- ===== src/Addr/Colons.antt =====
-- The text of an IPv6 address: it holds a colon and no bracket, so that a colon and a port behind it
-- make no host and port pair.
use zetproxy_turbo.Base.{
  ℕ, zero, suc, ◌+◌, ◌*◌, ◌/◌, ◌%◌, ◌<◌, ◌≡◌, refl, ◌∙◌, true, false, inl, inr, none, List, [], ◌∷◌,
  ◌++◌, map, arith, ltb, ◌==◌, Bool-cases, length, take, drop,
}
use zetproxy_turbo.Text.{Bytes, codes, contains_byte}
use zetproxy_turbo.Text.Laws.{cut_last_byte-append, contains_byte-append, contains_byte_middle}
use zetproxy_turbo.Addr.{
  to4, join_with, groups, hex_digit, show_hex, compress, ip6_text, ip_string, split_plain,
  split_host_port,
}

hex_digit-ne : (d : ℕ) → d < 16 → (hex_digit d == b'[') ≡ false
unfolding hex_digit
hex_digit-ne d h = ground arith

show_hex_plain : (f n : ℕ) → contains_byte (show_hex f n) b'[' ≡ false
unfolding show_hex contains_byte
show_hex_plain zero n = refl
show_hex_plain (suc f) n = elim (Bool-cases (ltb n 16)) [
  | inl small ↦ rw small (rw (hex_digit-ne n (ground arith)))
  | inr large ↦ rw large (
      contains_byte-append (show_hex f (n / 16)) (hex_digit (n % 16) ∷ []) b'['
      ∙ rw (show_hex_plain f (n / 16)) (rw (hex_digit-ne (n % 16) (omega arith))))
]

join_plain :
    (gs : List ℕ) → contains_byte (join_with (codes ":") (map (show_hex 4) gs)) b'[' ≡ false
unfolding join_with contains_byte
join_plain [] = refl
join_plain (g ∷ []) = show_hex_plain 4 g
join_plain (g ∷ h ∷ gs) =
    contains_byte-append (show_hex 4 g) _ b'[' ∙ rw (show_hex_plain 4 g) (join_plain (h ∷ gs))

compress_plain : (run : ℕ × ℕ) (gs : List ℕ) → contains_byte (compress run gs) b'[' ≡ false
unfolding compress contains_byte
compress_plain run gs = elim (Bool-cases (run.1 == 0)) [
  | inl whole ↦ rw whole (join_plain gs)
  | inr zeros ↦ rw zeros (
      contains_byte-append (join_with (codes ":") (map (show_hex 4) (take run.0 gs))) _ b'['
      ∙ rw (join_plain (take run.0 gs)) (join_plain (drop (run.0 + run.1) gs)))
]

compress_colon :
    (run : ℕ × ℕ) (g h : ℕ) (gs : List ℕ) → contains_byte (compress run (g ∷ h ∷ gs)) b':' ≡ true
unfolding compress join_with contains_byte
compress_colon run g h gs = elim (Bool-cases (run.1 == 0)) [
  | inl whole ↦ rw whole (contains_byte_middle (show_hex 4 g) _ b':')
  | inr zeros ↦ rw zeros (
      contains_byte_middle (join_with (codes ":") (map (show_hex 4) (take run.0 (g ∷ h ∷ gs)))) _
        b':')
]

-- A host that holds a colon and stands in no brackets is refused, whatever the port.
pub split_host_port_unbracketed :
    (host port : Bytes)
    → contains_byte host b'[' ≡ false
    → contains_byte host b':' ≡ true
    → contains_byte port b':' ≡ false
    → split_host_port (host ++ (b':' ∷ port)) ≡ none
unfolding split_host_port split_plain contains_byte
split_host_port_unbracketed [] port h c p = ground arith
split_host_port_unbracketed (x ∷ host) port h c p =
    ground (arith, cut_last_byte-append (x ∷ host) port b':' p)

ip6_text_colon :
    (a b c d : ℕ) (ip : Bytes) → contains_byte (ip6_text (a ∷ b ∷ c ∷ d ∷ ip)) b':' ≡ true
unfolding ip6_text
ip6_text_colon a b c d ip = compress_colon _ (a * 256 + b) (c * 256 + d) (groups ip)

ip6_text_plain : (ip : Bytes) → contains_byte (ip6_text ip) b'[' ≡ false
unfolding ip6_text
ip6_text_plain ip = compress_plain _ (groups ip)

-- The text of a 16-byte address that is not IPv4-mapped, followed by a colon and a port with no
-- brackets round the host, is no address to dial.
pub split_host_port_ip6 :
    (ip port : Bytes)
    → length ip ≡ 16
    → to4 ip ≡ none
    → contains_byte port b':' ≡ false
    → split_host_port (ip_string ip ++ (b':' ∷ port)) ≡ none
unfolding ip_string
split_host_port_ip6 (a ∷ b ∷ c ∷ d ∷ ip) port l v p =
    let e : ip_string (a ∷ b ∷ c ∷ d ∷ ip) ≡ ip6_text (a ∷ b ∷ c ∷ d ∷ ip) = rw (v, ip_string) in
    rw e (
      split_host_port_unbracketed _ port (ip6_text_plain (a ∷ b ∷ c ∷ d ∷ ip))
        (ip6_text_colon a b c d ip) p)
split_host_port_ip6 ip port l v p = absurd (omega arith)
