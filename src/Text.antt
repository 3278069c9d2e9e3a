-- ===== src/Text.antt =====
-- Go strings as lists of bytes, and what the program uses of package strings and fmt.
pub mod Decimal
pub mod Laws
pub mod Trim
use Prim.Native.Char.{code}
use zetproxy_turbo.Base.{
  ℕ, zero, suc, ◌+◌, ◌-◌, ◌*◌, ◌/◌, ◌%◌, ◌<◌, ◌≤◌, String, ◌≡◌, refl, Bool, true, false, ◌&&◌, ◌||◌,
  Option, none, some, List, [], ◌∷◌, ◌++◌, arith, ltb, leb, ◌==◌, if◌then◌else◌, length, take, drop,
}

abbrev pub Bytes : Type 0
Bytes = List ℕ

-- The bytes of an ASCII literal.
abbrev pub codes : String → Bytes
codes String.[] = []
codes (String.◌∷◌ c s) = code c ∷ codes s

-- `a == b` on strings
unfoldable pub equal : Bytes → Bytes → Bool
equal [] [] = true
equal (x ∷ xs) (y ∷ ys) = x == y && equal xs ys
equal _ _ = false

-- `strings.HasPrefix(s, p)`
unfoldable pub has_prefix : Bytes → Bytes → Bool
has_prefix s [] = true
has_prefix [] (y ∷ p) = false
has_prefix (x ∷ s) (y ∷ p) = x == y && has_prefix s p

-- `strings.Contains(s, sep)` and `strings.Index(s, sep)` for a separator of one byte
unfoldable pub contains_byte : Bytes → ℕ → Bool
contains_byte [] c = false
contains_byte (x ∷ s) c = x == c || contains_byte s c

-- The text before and after the first `c`: `s[:idx]` and `s[idx+1:]`.
unfoldable pub cut_byte : Bytes → ℕ → Option (Bytes × Bytes)
cut_byte [] c = none
cut_byte (x ∷ s) c =
    if x == c
    then some ([], s)
    else elim (cut_byte s c) [ none ↦ none | some (a, b) ↦ some (x ∷ a, b) ]

-- The text before and after the last `c`, as by `strings.LastIndex(s, c)`.
unfoldable pub cut_last_byte : Bytes → ℕ → Option (Bytes × Bytes)
cut_last_byte [] c = none
cut_last_byte (x ∷ s) c = elim (cut_last_byte s c) [
  | none ↦ if x == c then some ([], s) else none
  | some (a, b) ↦ some (x ∷ a, b)
]

-- The ASCII white space of `strings.TrimSpace`.
unfoldable pub is_space : ℕ → Bool
is_space c = c == b' ' || leb 9 c && leb c 13

unfoldable pub trim_left : Bytes → Bytes
trim_left [] = []
trim_left (c ∷ s) = if is_space c then trim_left s else c ∷ s

unfoldable pub trim_right : Bytes → Bytes
trim_right [] = []
trim_right (c ∷ s) = elim (trim_right s) [
  | [] ↦ if is_space c then [] else c ∷ []
  | x ∷ r ↦ c ∷ x ∷ r
]

unfoldable pub trim_space : Bytes → Bytes
trim_space s = trim_right (trim_left s)

-- `%d` of a number that is not negative. The fuel bounds the digits; `n + 1` is enough.
unfoldable pub show_fuel : ℕ → ℕ → Bytes
show_fuel zero n = []
show_fuel (suc f) n =
    let rest = show_fuel f (n / 10) in
    if ltb n 10 then (48 + n) ∷ [] else rest ++ ((48 + n % 10) ∷ [])

unfoldable pub show_nat : ℕ → Bytes
unfolding show_fuel
show_nat n = show_fuel (n + 1) n

-- `%d` of an int64, given by its bit pattern.
unfoldable pub show_int64 : ℕ → Bytes
unfolding show_nat
show_int64 x =
    if ltb x 9223372036854775808 then show_nat x else b'-' ∷ show_nat (18446744073709551616 - x)
