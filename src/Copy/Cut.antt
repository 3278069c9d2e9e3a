-- ===== src/Copy/Cut.antt =====
-- A pair of copies of which one side's writes may fail, as on a connection that its other owner closes.
use zetproxy_turbo.Base.{
  ℕ, ◌<◌, ◌≡◌, refl, ap, ◌∙◌, sym, Bool, true, false, List, [], ◌∷◌, ◌++◌, append_assoc, arith,
  if◌then◌else◌, length, take, drop, take-append-drop,
}
use zetproxy_turbo.Text.{Bytes}
use zetproxy_turbo.Copy.{
  Copy, Round, whole, broken, chunk, finish, round, advance, begin, Side, upward, downward, run,
}
use zetproxy_turbo.Copy.Total.{rounds, AreWhole, advance_all, run_sides, copied}

-- One text, and more or nothing behind it, is the other.
abbrev pub IsPrefix : Bytes → Bytes → Type 0
IsPrefix part bytes = (more : Bytes) × (part ++ more ≡ bytes)

record Cut (bytes : Bytes) (c : Copy) : Type 0 where
  pub part : IsPrefix c.sent bytes
  pub going : c.running ≡ true → c.sent ++ c.rest ≡ bytes

joined : (sent rest : Bytes) (n : ℕ) → (sent ++ take n rest) ++ drop n rest ≡ sent ++ rest
joined sent rest n =
    append_assoc sent (take n rest) (drop n rest) ∙ ap (◌++◌ sent) (take-append-drop n rest)

round-Cut :
    (bytes : Bytes) (size : ℕ) (r : Round) (c : Copy)
    → Cut bytes c
    → c.running ≡ true
    → Cut bytes (round size r c)
unfolding round finish
round-Cut bytes size (whole k) c v on =
    let n = chunk size k in
    let e = joined c.sent c.rest n ∙ v.going on in
    record { part = (drop n c.rest, e); going = λ h. e }
round-Cut bytes size (broken k j) c v on =
    let n = chunk size k in
    let got = take n c.rest in
    record {
      part = (
        drop j got ++ drop n c.rest,
        sym (append_assoc (c.sent ++ take j got) (drop j got) (drop n c.rest))
            ∙ ap (λ s. s ++ drop n c.rest) (joined c.sent got j)
            ∙ joined c.sent c.rest n
            ∙ v.going on,
      );
      going = λ h. absurd (ground arith);
    }

advance-Cut :
    (bytes : Bytes) (size : ℕ) (r : Round) (c : Copy) → Cut bytes c → Cut bytes (advance size r c)
unfolding advance finish
advance-Cut bytes size r c v = split_case c.running c.rest refl
  where
    split_case :
        (b : Bool) (l : Bytes)
        → c.running ≡ b
        → Cut bytes (if b then elim l [ [] ↦ finish c | _ ∷ _ ↦ round size r c ] else c)
    split_case false l on = v
    split_case true [] on = record { part = v.part; going = λ h. absurd (ground arith) }
    split_case true (x ∷ l) on = round-Cut bytes size r c v on

advance_all-Cut :
    (bytes : Bytes) (size : ℕ) (rs : List Round) (c : Copy)
    → Cut bytes c
    → Cut bytes (advance_all size rs c)
advance_all-Cut bytes size [] c v = v
advance_all-Cut bytes size (r ∷ rs) c v =
    advance_all-Cut bytes size rs (advance size r c) (advance-Cut bytes size r c v)

-- If no downward write fails, the downward side delivers every byte, whatever becomes of the upward
-- side; what that one delivers is a prefix of its source, in order.
pub run_cut :
    (size : ℕ) (es : List (Side × Round)) (a b : Bytes)
    → length b < length (rounds downward es)
    → AreWhole (rounds downward es)
    → let p = run size es (record { up = begin a; down = begin b }) in
      (p.down.sent ≡ b) × IsPrefix p.up.sent a
run_cut size es a b h w =
    let (u, d) = run_sides size es (record { up = begin a; down = begin b }) in
    let first : Cut a (begin a) = record { part = (a, refl); going = λ h. refl } in
    let v = advance_all-Cut a size (rounds upward es) (begin a) first in
    rw (u, d) ((copied size (rounds downward es) b h w).0, v.part)
