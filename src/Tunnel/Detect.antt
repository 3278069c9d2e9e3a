-- ===== src/Tunnel/Detect.antt =====
-- Which protocol the tunnel takes the first bytes of a client for.
use zetproxy_turbo.Base.{
  ℕ, ◌≤◌, ◌≡◌, refl, ◌&&◌, ◌||◌, [], ◌∷◌, arith, leb, ◌==◌, if◌then◌else◌, leb-of_le, length, take,
}
use zetproxy_turbo.Text.{Bytes, codes, equal, has_prefix}
use zetproxy_turbo.Tunnel.{Protocol, socks5, http_connect, http_proxy, raw, unknown, detect}

-- From four bytes on the protocol is a function of what the client sent: the first byte 5 is SOCKS5,
-- else the word CONNECT, else one of the four HTTP words, else two zero bytes, else none.
abbrev pub by_first_bytes : Bytes → Protocol
by_first_bytes b =
    if has_prefix b (5 ∷ [])
    then socks5
    else if has_prefix b (codes "CONNECT")
    then http_connect
    else if has_prefix b (codes "GET ")
        || has_prefix b (codes "POST")
        || has_prefix b (codes "PUT ")
        || has_prefix b (codes "HEAD")
    then http_proxy
    else if has_prefix b (0 ∷ 0 ∷ [])
    then raw
    else unknown

prefix-take :
    (p s : Bytes) → (leb (length p) (length s) && equal (take (length p) s) p) ≡ has_prefix s p
unfolding has_prefix equal
prefix-take [] s = ground arith
prefix-take (x ∷ p) [] = ground arith
prefix-take (x ∷ p) (y ∷ s) = ground (arith, prefix-take p s)

-- The first four bytes against a word of four.
word_prefix :
    (a b c d : ℕ) (r p : Bytes)
    → length p ≡ 4
    → equal (a ∷ b ∷ c ∷ d ∷ []) p ≡ has_prefix (a ∷ b ∷ c ∷ d ∷ r) p
unfolding equal has_prefix
word_prefix a b c d r (p ∷ q ∷ x ∷ y ∷ []) h = refl
word_prefix a b c d r [] h = absurd (omega arith)
word_prefix a b c d r (p ∷ []) h = absurd (omega arith)
word_prefix a b c d r (p ∷ q ∷ []) h = absurd (omega arith)
word_prefix a b c d r (p ∷ q ∷ x ∷ []) h = absurd (omega arith)
word_prefix a b c d r (p ∷ q ∷ x ∷ y ∷ z ∷ e) h = absurd (omega arith)

detect_four :
    (a b c d : ℕ) (r stale : Bytes)
    → detect (a ∷ b ∷ c ∷ d ∷ r) stale ≡ by_first_bytes (a ∷ b ∷ c ∷ d ∷ r)
unfolding detect
detect_four a b c d r stale =
    let i : Bytes = a ∷ b ∷ c ∷ d ∷ r in
    let five : (leb 1 (length i) && a == 5) ≡ has_prefix i (5 ∷ []) =
      unfold has_prefix in ground arith in
    let zeros : (leb 2 (length i) && a == 0 && b == 0) ≡ has_prefix i (0 ∷ 0 ∷ []) =
      unfold has_prefix in ground arith in
    rw (
      five,
      prefix-take (codes "CONNECT") i,
      leb-of_le 4 (length i) (omega arith),
      word_prefix a b c d r (codes "GET ") refl,
      word_prefix a b c d r (codes "POST") refl,
      word_prefix a b c d r (codes "PUT ") refl,
      word_prefix a b c d r (codes "HEAD") refl,
      zeros,
    )

-- From four bytes on, the protocol of a connection is that table of its first bytes: the stale content
-- of the pooled buffer has no part in it.
pub detect_lem :
    (initial stale : Bytes) → 4 ≤ length initial → detect initial stale ≡ by_first_bytes initial
detect_lem (a ∷ b ∷ c ∷ d ∷ r) stale h = detect_four a b c d r stale
detect_lem [] stale h = absurd (omega arith)
detect_lem (a ∷ []) stale h = absurd (omega arith)
detect_lem (a ∷ b ∷ []) stale h = absurd (omega arith)
detect_lem (a ∷ b ∷ c ∷ []) stale h = absurd (omega arith)
