-- ===== src/Text/Trim.antt =====
-- White space at the ends of a text.
use zetproxy_turbo.Base.{
  ℕ, suc, ◌+◌, ◌/◌, ◌%◌, ◌<◌, ◌≡◌, refl, ap, ◌≢◌, ◌⊎◌, inl, inr, false, [], ◌∷◌, ◌++◌, arith, ltb,
  if◌then◌else◌, Bool-cases,
}
use zetproxy_turbo.Text.{Bytes, contains_byte, is_space, trim_right, show_fuel, show_nat}
use zetproxy_turbo.Text.Decimal.{AllDigits}

-- No white space inside.
abbrev pub IsSolid : Bytes → Type 0
IsSolid [] = Unit
IsSolid (c ∷ s) = (is_space c ≡ false) × IsSolid s

pub trim_right-solid : (s : Bytes) → IsSolid s → trim_right s ≡ s
unfolding trim_right
trim_right-solid [] h = refl
trim_right-solid (c ∷ s) h = ground (arith, trim_right-solid s h.1)

trim_right-cons : (x : ℕ) (s : Bytes) → s ≢ [] → trim_right s ≡ s → trim_right (x ∷ s) ≡ x ∷ s
unfolding trim_right
trim_right-cons x [] n e = absurd (n refl)
trim_right-cons x (y ∷ s) n e =
    ap (λ r. elim r as (λ _. Bytes) [ [] ↦ if is_space x then [] else x ∷ [] | z ∷ q ↦ x ∷ z ∷ q ])
      e

pub append-ne : (xs ys : Bytes) → ys ≢ [] → (xs ++ ys) ≢ []
append-ne [] ys n e = n e
append-ne (x ∷ xs) ys n e = ground arith

-- White space inside a text does not matter to its end.
pub trim_right-append :
    (xs ys : Bytes) → ys ≢ [] → trim_right ys ≡ ys → trim_right (xs ++ ys) ≡ xs ++ ys
trim_right-append [] ys n h = h
trim_right-append (x ∷ xs) ys n h =
    trim_right-cons x (xs ++ ys) (append-ne xs ys n) (trim_right-append xs ys n h)

pub AllDigits-IsSolid : (s : Bytes) → AllDigits s → IsSolid s
unfolding is_space
AllDigits-IsSolid [] h = tt
AllDigits-IsSolid (c ∷ s) h = (ground arith, AllDigits-IsSolid s h.2)

show_fuel-ne-nil : (f n : ℕ) → show_fuel (suc f) n ≢ []
unfolding show_fuel
show_fuel-ne-nil f n = elim (Bool-cases (ltb n 10)) [
  | inl e ↦ rw e (λ h. ground arith)
  | inr e ↦ rw e (append-ne (show_fuel f (n / 10)) ((48 + n % 10) ∷ []) (λ h. ground arith))
]

pub show_nat-ne-nil : (n : ℕ) → show_nat n ≢ []
unfolding show_nat
show_nat-ne-nil n = let e : n + 1 ≡ suc n = omega arith in rw e (show_fuel-ne-nil n n)

pub digits_no_byte :
    (s : Bytes) (c : ℕ) → AllDigits s → (c < 48) ⊎ (57 < c) → contains_byte s c ≡ false
unfolding contains_byte
digits_no_byte [] c h k = refl
digits_no_byte (x ∷ s) c h k = ground (arith, digits_no_byte s c h.2 k)
