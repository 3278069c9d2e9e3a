-- ===== src/Text/Laws.antt =====
-- Laws of the searches and comparisons in texts.
use zetproxy_turbo.Base.{ℕ, ◌≡◌, refl, ◌↔◌, true, false, ◌||◌, none, some, [], ◌∷◌, ◌++◌, arith}
use zetproxy_turbo.Text.{Bytes, equal, has_prefix, contains_byte, cut_byte, cut_last_byte}

pub equal_iff : (s t : Bytes) → (equal s t ≡ true) ↔ (s ≡ t)
unfolding equal
equal_iff [] [] = ground arith
equal_iff [] (c ∷ t) = ground arith
equal_iff (c ∷ s) [] = ground arith
equal_iff (c ∷ s) (d ∷ t) = ground (arith, equal_iff s t)

pub equal_self : (a : Bytes) → equal a a ≡ true
equal_self a = (equal_iff a a).1 refl

pub has_prefix-append : (p s : Bytes) → has_prefix (p ++ s) p ≡ true
unfolding has_prefix
has_prefix-append [] [] = refl
has_prefix-append [] (x ∷ s) = refl
has_prefix-append (x ∷ p) s = ground (arith, has_prefix-append p s)

pub contains_byte-append :
    (a b : Bytes) (c : ℕ) → contains_byte (a ++ b) c ≡ (contains_byte a c || contains_byte b c)
unfolding contains_byte
contains_byte-append [] b c = refl
contains_byte-append (x ∷ a) b c = ground (arith, contains_byte-append a b c)

-- The first separator is found where it stands.
pub cut_byte-append :
    (a b : Bytes) (c : ℕ) → contains_byte a c ≡ false → cut_byte (a ++ c ∷ b) c ≡ some (a, b)
unfolding contains_byte cut_byte
cut_byte-append [] b c h = ground arith
cut_byte-append (x ∷ a) b c h = ground (arith, cut_byte-append a b c)

pub cut_byte-none : (s : Bytes) (c : ℕ) → contains_byte s c ≡ false → cut_byte s c ≡ none
unfolding contains_byte cut_byte
cut_byte-none [] c h = refl
cut_byte-none (x ∷ s) c h = ground (arith, cut_byte-none s c)

pub cut_last_byte-none : (s : Bytes) (c : ℕ) → contains_byte s c ≡ false → cut_last_byte s c ≡ none
unfolding contains_byte cut_last_byte
cut_last_byte-none [] c h = refl
cut_last_byte-none (x ∷ s) c h = ground (arith, cut_last_byte-none s c)

-- The last separator is found where it stands.
pub cut_last_byte-append :
    (a b : Bytes) (c : ℕ) → contains_byte b c ≡ false → cut_last_byte (a ++ c ∷ b) c ≡ some (a, b)
unfolding cut_last_byte
cut_last_byte-append [] b c h = ground (arith, cut_last_byte-none b c h)
cut_last_byte-append (x ∷ a) b c h = ground (arith, cut_last_byte-append a b c h)

pub contains_byte_middle : (a b : Bytes) (c : ℕ) → contains_byte (a ++ c ∷ b) c ≡ true
unfolding contains_byte
contains_byte_middle [] b c = ground arith
contains_byte_middle (x ∷ a) b c = ground (arith, contains_byte_middle a b c)
