-- ===== src/Js/Trim.antt =====
-- What `trim` leaves.
use fru_lab.Prelude.{
  ℕ, ◌≡◌, ◌≢◌, refl, ap, ◌∙◌, inl, inr, Bool, true, false, ◌&&◌, [], ◌∷◌, ◌++◌, arith, Bool-cases,
}
use fru_lab.Js.Text.{Text, is_empty, is_space, trim, trim_start, trim_end, IsSolid, is_digit}
use fru_lab.Js.Decimal.{AreDigits}

-- Text that begins with no white space, as `trim` leaves it.
abbrev pub IsTrimmed : Text → Type 0
IsTrimmed [] = Unit
IsTrimmed (c ∷ s) = is_space c ≡ false

trim_end-IsTrimmed : (s : Text) → IsTrimmed s → IsTrimmed (trim_end s)
unfolding trim_end
trim_end-IsTrimmed [] h = tt
trim_end-IsTrimmed (c ∷ s) h = rw (h) h

trim_start-IsTrimmed : (s : Text) → IsTrimmed (trim_start s)
unfolding trim_start
trim_start-IsTrimmed [] = tt
trim_start-IsTrimmed (c ∷ s) = elim (Bool-cases (is_space c)) [
  | inl e ↦ rw (e) (trim_start-IsTrimmed s)
  | inr e ↦ rw (e) e
]

pub trim-IsTrimmed : (s : Text) → IsTrimmed (trim s)
unfolding trim
trim-IsTrimmed s = trim_end-IsTrimmed (trim_start s) (trim_start-IsTrimmed s)

digit_not_space : (c : ℕ) → is_digit c ≡ true → is_space c ≡ false
digit_not_space c h = ground arith

pub digits-IsSolid : (d : Text) → AreDigits d → IsSolid d
digits-IsSolid [] h = tt
digits-IsSolid (c ∷ d) (p, h) = (digit_not_space c p, digits-IsSolid d h)

pub is_empty-append : (s d : Text) → d ≢ [] → is_empty (s ++ d) ≡ false
is_empty-append [] [] ne = absurd (ne refl)
is_empty-append [] (c ∷ d) ne = refl
is_empty-append (c ∷ s) d ne = refl

and_false : (b : Bool) → (b && false) ≡ false
and_false true = refl
and_false false = refl

pub trim_end-append : (s d : Text) → d ≢ [] → trim_end d ≡ d → trim_end (s ++ d) ≡ s ++ d
unfolding trim_end
trim_end-append [] d ne solid = solid
trim_end-append (c ∷ s) d ne solid =
    rw (trim_end-append s d ne solid, is_empty-append s d ne, and_false (is_space c)) refl

pub trim_end_of_IsSolid : (d : Text) → IsSolid d → trim_end d ≡ d
unfolding trim_end
trim_end_of_IsSolid [] h = refl
trim_end_of_IsSolid (c ∷ d) (p, h) = rw (p, trim_end_of_IsSolid d h) refl

pub cons-ne-nil : (c : ℕ) (s : Text) → c ∷ s ≢ []
cons-ne-nil c s e = cc

trim_start_of_IsTrimmed : (s : Text) → IsTrimmed s → trim_start s ≡ s
unfolding trim_start
trim_start_of_IsTrimmed [] h = refl
trim_start_of_IsTrimmed (c ∷ s) h = rw (h) refl

trim_end_idem : (s : Text) → trim_end (trim_end s) ≡ trim_end s
unfolding trim_end
trim_end_idem [] = refl
trim_end_idem (c ∷ s) = elim (Bool-cases (is_space c && is_empty (trim_end s))) [
  | inl e ↦ rw (e) refl
  | inr e ↦ rw (e) (rw (trim_end_idem s, e) refl)
]

pub trim_idem : (s : Text) → trim (trim s) ≡ trim s
unfolding trim
trim_idem s =
    ap trim_end (trim_start_of_IsTrimmed (trim s) (trim-IsTrimmed s)) ∙ trim_end_idem (trim_start s)

-- Text without white space at its ends.
pub trim_of_IsTrimmed : (s : Text) → IsTrimmed s → trim_end s ≡ s → trim s ≡ s
unfolding trim
trim_of_IsTrimmed s h e = ap trim_end (trim_start_of_IsTrimmed s h) ∙ e
