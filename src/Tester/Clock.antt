-- ===== src/Tester/Clock.antt =====
-- `formatClock` and `formatDuration` of web/frontend/src/page/tester/testerFormat.ts, for a whole
-- number of seconds that is at least 0.
use fru_lab.Prelude.{
  ℕ, ◌+◌, ◌*◌, ◌/◌, ◌%◌, ◌-◌, ◌<◌, ◌≡◌, refl, ◌∙◌, ◌∷◌, ◌++◌, arith, ltb, if◌then◌else◌, length,
}
use fru_lab.Js.Text.{Text, codes, pad_start}
use fru_lab.Js.Decimal.{decimal, value, value-decimal, value-pad}

abbrev pub two_digits : ℕ → Text
two_digits n = pad_start 2 b'0' (decimal n)

unfoldable pub format_clock : ℕ → Text
format_clock s =
    two_digits (s / 3600) ++ b':' ∷ two_digits (s / 60 % 60) ++ b':' ∷ two_digits (s % 60)

unfoldable pub format_duration : ℕ → Text
format_duration sec =
    let d = sec / 86400 in
    let h = sec % 86400 / 3600 in
    let m = sec % 3600 / 60 in
    if ltb 0 d
    then decimal d ++ codes "d " ++ decimal h ++ codes "h"
    else if ltb 0 h
    then decimal h ++ codes "h " ++ decimal m ++ codes "m"
    else if ltb 0 m
    then decimal m ++ codes "m " ++ decimal (sec % 60) ++ codes "s"
    else decimal sec ++ codes "s"

value-two_digits : (n : ℕ) → value (two_digits n) ≡ n
value-two_digits n = value-pad (2 - length (decimal n)) (decimal n) ∙ value-decimal n

-- A clock is hours, minutes and seconds that add up to the time, with minutes and seconds below 60.
pub format_clock_lem :
    (sec : ℕ)
    → (h m s : Text) × (format_clock sec ≡ h ++ b':' ∷ m ++ b':' ∷ s)
      × (value h * 3600 + value m * 60 + value s ≡ sec)
      × (value m < 60)
      × (value s < 60)
unfolding format_clock
format_clock_lem sec =
    let eh = value-two_digits (sec / 3600) in
    let em = value-two_digits (sec / 60 % 60) in
    let es = value-two_digits (sec % 60) in
    (
      two_digits (sec / 3600),
      two_digits (sec / 60 % 60),
      two_digits (sec % 60),
      refl,
      omega arith,
      omega arith,
      omega arith,
    )
