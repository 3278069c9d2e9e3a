-- ===== src/Text/Decimal.antt =====
-- Decimal numbers: what `%d` prints, and that it determines the number.
use zetproxy_turbo.Base.{
  ℕ, zero, suc, ◌+◌, ◌-◌, ◌*◌, ◌/◌, ◌%◌, ◌<◌, ◌≤◌, ◌≡◌, ◌≢◌, refl, ap, sym, subst, ◌∙◌, ◌^◌, inl,
  inr, [], ◌∷◌, ◌++◌, arith, ltb, Bool-cases,
}
use zetproxy_turbo.Text.{Bytes, show_fuel, show_nat, show_int64}

-- The number that a run of digits stands for, after the digits that `acc` stands for.
abbrev pub value_from : ℕ → Bytes → ℕ
value_from acc [] = acc
value_from acc (c ∷ s) = value_from (acc * 10 + (c - 48)) s

abbrev pub AllDigits : Bytes → Type 0
AllDigits [] = Unit
AllDigits (c ∷ s) = (48 ≤ c) × (c ≤ 57) × AllDigits s

value_from-append :
    (a : ℕ) (xs ys : Bytes) → value_from a (xs ++ ys) ≡ value_from (value_from a xs) ys
value_from-append a [] ys = refl
value_from-append a (x ∷ xs) ys = value_from-append (a * 10 + (x - 48)) xs ys

AllDigits-append : (xs ys : Bytes) → AllDigits xs → AllDigits ys → AllDigits (xs ++ ys)
AllDigits-append [] ys h k = k
AllDigits-append (x ∷ xs) ys h k = (h.0, h.1, AllDigits-append xs ys h.2 k)

show_fuel-AllDigits : (f n : ℕ) → AllDigits (show_fuel f n)
unfolding show_fuel
show_fuel-AllDigits zero n = tt
show_fuel-AllDigits (suc f) n = elim (Bool-cases (ltb n 10)) [
  | inl small ↦ rw small (ground arith, ground arith, tt)
  | inr large ↦ rw large (
      AllDigits-append (show_fuel f (n / 10)) ((48 + n % 10) ∷ []) (show_fuel-AllDigits f (n / 10))
        (omega arith, omega arith, tt))
]

value_from-show_fuel : (f n : ℕ) → n < f → value_from 0 (show_fuel f n) ≡ n
unfolding show_fuel
value_from-show_fuel zero n h = elim h [ ]
value_from-show_fuel (suc f) n h = elim (Bool-cases (ltb n 10)) [
  | inl small ↦ rw small (omega arith)
  | inr large ↦ rw large (
      value_from-append 0 (show_fuel f (n / 10)) ((48 + n % 10) ∷ [])
      ∙ omega (arith, value_from-show_fuel f (n / 10) (ground arith)))
]

pub show_nat-AllDigits : (n : ℕ) → AllDigits (show_nat n)
unfolding show_nat
show_nat-AllDigits n = show_fuel-AllDigits (n + 1) n

pub value_from-show_nat : (n : ℕ) → value_from 0 (show_nat n) ≡ n
unfolding show_nat
value_from-show_nat n = value_from-show_fuel (n + 1) n (omega arith)

pub show_nat_injective : (m n : ℕ) → show_nat m ≡ show_nat n → m ≡ n
show_nat_injective m n e = sym (value_from-show_nat m) ∙ ap (value_from 0) e ∙ value_from-show_nat n

not-minus : (m : ℕ) (s : Bytes) → (b'-' ∷ s) ≢ show_nat m
not-minus m s e = absurd (omega (arith, (subst AllDigits (sym e) (show_nat-AllDigits m)).0))

-- Different int64 patterns print differently.
pub show_int64_injective : (m n : ℕ) → m < 2 ^ 64 → n < 2 ^ 64 → show_int64 m ≡ show_int64 n → m ≡ n
unfolding show_int64
show_int64_injective m n hm hn = ground (
  arith,
  show_nat_injective m n,
  show_nat_injective (18446744073709551616 - m) (18446744073709551616 - n),
  not-minus m (show_nat (18446744073709551616 - n)),
  not-minus n (show_nat (18446744073709551616 - m)),
)
