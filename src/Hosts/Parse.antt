-- ===== src/Hosts/Parse.antt =====
-- Dotted addresses: what `IP.String` prints `ParseIP` reads back.
use zetproxy_turbo.Base.{
  ℕ, zero, suc, ◌+◌, ◌/◌, ◌%◌, ◌≤◌, ◌<◌, ◌≡◌, refl, sym, ap, ◌∙◌, ◌⊎◌, inl, inr, some, List, [],
  ◌∷◌, ◌++◌, append-nil, arith, ltb, Bool-cases, length,
}
use zetproxy_turbo.Text.{Bytes, show_fuel, show_nat}
use zetproxy_turbo.Addr.{to4, join_with, dotted, ip_string}
use zetproxy_turbo.Hosts.{parse_fields, parse_ip4}

show_fuel_enough : (f g n : ℕ) → n < f → n < g → show_fuel f n ≡ show_fuel g n
unfolding show_fuel
show_fuel_enough zero g n h k = absurd (omega arith)
show_fuel_enough (suc f) zero n h k = absurd (omega arith)
show_fuel_enough (suc f) (suc g) n h k = elim (Bool-cases (ltb n 10)) [
  | inl small ↦ rw small
  | inr large ↦ rw large (rw (show_fuel_enough f g (n / 10) (ground arith) (ground arith)))
]

show_nat_small : (n : ℕ) → n < 10 → show_nat n ≡ (48 + n) ∷ []
unfolding show_nat
show_nat_small n h = ground arith

show_nat_large : (n : ℕ) → 10 ≤ n → show_nat n ≡ show_nat (n / 10) ++ (48 + n % 10) ∷ []
unfolding show_nat
show_nat_large n h = ground (arith, show_fuel_enough n (n / 10 + 1) (n / 10))

-- The three shapes of a number below 256.
show_byte :
    (n : ℕ)
    → n < 256
    → ((n < 10) × (show_nat n ≡ (48 + n) ∷ []))
      ⊎ ((10 ≤ n) × (n < 100) × (show_nat n ≡ (48 + n / 10) ∷ (48 + n % 10) ∷ []))
      ⊎ ((100 ≤ n) × (show_nat n ≡ (48 + n / 10 / 10) ∷ (48 + n / 10 % 10) ∷ (48 + n % 10) ∷ []))
show_byte n h = elim (Bool-cases (ltb n 10)) [
  | inl small ↦ inl (ground arith, show_nat_small n (ground arith))
  | inr large ↦ elim (Bool-cases (ltb n 100)) [
    | inl two ↦ inr (
        inl (
          ground arith,
          ground arith,
          rw (show_nat_large n (ground arith), show_nat_small (n / 10) (ground arith)),
        ))
    | inr three ↦ inr (
        inr (
          ground arith,
          rw (
            show_nat_large n (ground arith),
            show_nat_large (n / 10) (ground arith),
            show_nat_small (n / 10 / 10) (ground arith),
          ),
        ))
  ]
]

-- One field is read up to its end.
field_read :
    (n : ℕ) (fields : List ℕ) (rest : Bytes)
    → n < 256
    → (k : ℕ) × (0 < k)
      × (parse_fields 0 0 fields (show_nat n ++ rest) ≡ parse_fields n k fields rest)
unfolding parse_fields
field_read n fields rest h = elim (show_byte n h) [
  | inl (a, e) ↦ (1, omega arith, rw e (ground arith))
  | inr (inl (a, b, e)) ↦ (2, omega arith, rw e (ground arith))
  | inr (inr (a, e)) ↦ (3, omega arith, rw e (ground arith))
]

-- One field and the dot behind it.
dotted_read :
    (n : ℕ) (fields : List ℕ) (rest : Bytes)
    → n < 256
    → length fields < 3
    → parse_fields 0 0 fields (show_nat n ++ b'.' ∷ rest) ≡ parse_fields 0 0 (fields ++ n ∷ []) rest
unfolding parse_fields
dotted_read n fields rest h l =
    let (k, p, e) = field_read n fields (b'.' ∷ rest) h in e ∙ ground arith

last_read :
    (n : ℕ) (fields : List ℕ)
    → n < 256
    → length fields ≡ 3
    → parse_fields 0 0 fields (show_nat n) ≡ some (fields ++ n ∷ [])
unfolding parse_fields
last_read n fields h l =
    let (k, p, e) = field_read n fields [] h in
    ap (parse_fields 0 0 fields) (sym (append-nil (show_nat n))) ∙ e ∙ ground arith

-- A 4-byte address.
abbrev pub IsFour : Bytes → Type 0
IsFour (a ∷ b ∷ c ∷ d ∷ []) = (a < 256) × (b < 256) × (c < 256) × (d < 256)
IsFour _ = ⊥

pub parse_ip4-ip_string : (ip : Bytes) → IsFour ip → parse_ip4 (ip_string ip) ≡ some ip
unfolding parse_ip4 ip_string to4 dotted join_with
parse_ip4-ip_string (a ∷ b ∷ c ∷ d ∷ []) (p, q, r, s) =
    dotted_read a [] _ p (omega arith)
    ∙ dotted_read b (a ∷ []) _ q (omega arith)
    ∙ dotted_read c (a ∷ b ∷ []) _ r (omega arith)
    ∙ last_read d (a ∷ b ∷ c ∷ []) s refl
parse_ip4-ip_string [] h = absurd h
parse_ip4-ip_string (a ∷ []) h = absurd h
parse_ip4-ip_string (a ∷ b ∷ []) h = absurd h
parse_ip4-ip_string (a ∷ b ∷ c ∷ []) h = absurd h
parse_ip4-ip_string (a ∷ b ∷ c ∷ d ∷ e ∷ r) h = absurd h
