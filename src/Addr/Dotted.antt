-- ===== src/Addr/Dotted.antt =====
-- `To4`: what it returns has 4 bytes.
use zetproxy_turbo.Base.{
  ◌≡◌, inl, inr, none, some, [], ◌∷◌, arith, Option-cases, length, length-drop,
}
use zetproxy_turbo.Text.{Bytes}
use zetproxy_turbo.Addr.{to4}

pub to4_four : (ip v : Bytes) → to4 ip ≡ some v → length v ≡ 4
unfolding to4
to4_four ip v e = ground (arith, length-drop 12 ip)

-- The 4 bytes of an address in a reply: zeros where there is no IPv4 address.
abbrev pub four_bytes : Bytes → Bytes
four_bytes ip = elim (to4 ip) [ some v4 ↦ v4 | none ↦ 0 ∷ 0 ∷ 0 ∷ 0 ∷ [] ]

pub length-four_bytes : (ip : Bytes) → length (four_bytes ip) ≡ 4
length-four_bytes ip = elim (Option-cases (to4 ip)) [
  | inl e ↦ rw (e, length)
  | inr (v, e) ↦ rw (e, length) (to4_four ip v e)
]
