-- ===== src/Js/Numeral.antt =====
-- Reading a run of decimal digits at the start of a text, as `\d+` does.
use fru_lab.Prelude.{◌≡◌, refl, false, [], ◌∷◌, ◌++◌, if◌then◌else◌, append-nil}
use fru_lab.Js.Text.{Text, is_digit}
use fru_lab.Js.Decimal.{AreDigits}

-- The longest run of digits, and what follows it.
unfoldable pub span_digits : Text → Text × Text
span_digits [] = ([], [])
span_digits (c ∷ s) =
    let rest = span_digits s in if is_digit c then (c ∷ rest.0, rest.1) else ([], c ∷ s)

-- The text does not go on with a digit.
abbrev pub EndsNumeral : Text → Type 0
EndsNumeral [] = Unit
EndsNumeral (c ∷ _) = is_digit c ≡ false

span_digits_stop : (s : Text) → EndsNumeral s → span_digits s ≡ ([], s)
unfolding span_digits
span_digits_stop [] h = refl
span_digits_stop (c ∷ s) h = rw h

pub span_digits-append :
    (ds s : Text) → AreDigits ds → EndsNumeral s → span_digits (ds ++ s) ≡ (ds, s)
unfolding span_digits
span_digits-append [] s _ h = span_digits_stop s h
span_digits-append (d ∷ ds) s (hd, hs) h = rw (hd, span_digits-append ds s hs h)

pub span_digits_all : (ds : Text) → AreDigits ds → span_digits ds ≡ (ds, [])
span_digits_all ds h = rw (append-nil ds) at (span_digits-append ds [] h tt)
