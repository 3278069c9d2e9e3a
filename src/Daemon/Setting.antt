-- ===== src/Daemon/Setting.antt =====
-- A number that is written in the environment is read.
use zetproxy_turbo.Base.{ℕ, ◌^◌, ◌<◌, ◌≡◌, refl, ap, ◌∙◌, ◌≢◌, some, [], ◌∷◌, arith}
use zetproxy_turbo.Text.{Bytes, show_nat}
use zetproxy_turbo.Text.Laws.{equal_iff}
use zetproxy_turbo.Text.Decimal.{value_from, AllDigits, show_nat-AllDigits, value_from-show_nat}
use zetproxy_turbo.Text.Trim.{show_nat-ne-nil}
use zetproxy_turbo.Daemon.{skip_space, leading_digits, positive, scan_int, get_env_int}

leading_digits-AllDigits : (s : Bytes) → AllDigits s → leading_digits s ≡ s
unfolding leading_digits
leading_digits-AllDigits [] h = refl
leading_digits-AllDigits (c ∷ s) h = ground (arith, leading_digits-AllDigits s h.2)

scan_digits :
    (s : Bytes)
    → AllDigits s
    → s ≢ []
    → value_from 0 s < 2 ^ 63
    → scan_int s ≡ some (value_from 0 s)
unfolding scan_int skip_space positive
scan_digits [] d n h = absurd (n refl)
scan_digits (c ∷ s) d n h = ground (arith, leading_digits-AllDigits (c ∷ s) d)

pub scan_int-show_nat : (n : ℕ) → n < 2 ^ 63 → scan_int (show_nat n) ≡ some n
scan_int-show_nat n h =
    let e = value_from-show_nat n in
    scan_digits (show_nat n) (show_nat-AllDigits n) (show_nat-ne-nil n) (omega (arith, e))
    ∙ ap some e

pub get_env_int-show_nat :
    (env : Bytes → Bytes) (key : Bytes) (n fallback : ℕ)
    → env key ≡ show_nat n
    → 0 < n
    → n < 2 ^ 63
    → get_env_int env key fallback ≡ n
unfolding get_env_int
get_env_int-show_nat env key n fallback e p h =
    rw e (ground (arith, scan_int-show_nat n h, equal_iff (show_nat n) [], show_nat-ne-nil n))
