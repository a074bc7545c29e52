-- ===== src/Js/Text.antt =====
-- JavaScript strings as lists of UTF-16 code units, with the methods that the frontend calls.
use Prim.Native.Char.{code}
use Prim.Native.String.{String}
use fru_lab.Prelude.{
  ℕ, ◌-◌, ◌≡◌, refl, ◌↔◌, ◌≢◌, Bool, true, false, ◌&&◌, ◌||◌, Option, none, some, List, [], ◌∷◌,
  ◌++◌, arith, leb, ◌==◌, if◌then◌else◌, length, replicate, All, Bool-cases, inl, inr,
}

abbrev pub Text : Type 0
Text = List ℕ

-- The code units of a literal, for characters below 0x10000.
abbrev pub codes : String → Text
codes String.[] = []
codes (String.◌∷◌ c s) = code c ∷ codes s

-- `a === b`.
abbrev pub text_eq : Text → Text → Bool
text_eq [] [] = true
text_eq [] (_ ∷ _) = false
text_eq (_ ∷ _) [] = false
text_eq (a ∷ s) (b ∷ t) = a == b && text_eq s t

pub text_eq_iff : (s t : Text) → (text_eq s t ≡ true) ↔ (s ≡ t)
text_eq_iff [] [] = ((λ _. refl), (λ _. refl))
text_eq_iff [] (_ ∷ _) = ((λ h. cc), (λ h. cc))
text_eq_iff (_ ∷ _) [] = ((λ h. cc), (λ h. cc))
text_eq_iff (a ∷ s) (b ∷ t) =
    ((λ h. ground (arith, text_eq_iff s t)), (λ h. ground (arith, text_eq_iff s t)))

pub text_eq_refl : (s : Text) → text_eq s s ≡ true
text_eq_refl s = (text_eq_iff s s).1 refl

pub text_eq_ne : (s t : Text) → s ≢ t → text_eq s t ≡ false
text_eq_ne s t ne = elim (Bool-cases (text_eq s t)) [
  | inl e ↦ absurd (ne ((text_eq_iff s t).0 e))
  | inr e ↦ e
]

-- A text is falsy when it is empty.
abbrev pub is_empty : Text → Bool
is_empty [] = true
is_empty (_ ∷ _) = false

-- `s || d`.
abbrev pub or_else : Text → Text → Text
or_else [] d = d
or_else (c ∷ s) d = c ∷ s

-- White space and line ends of `trim` and of `\s`.
abbrev pub is_space : ℕ → Bool
is_space c =
    (leb 9 c && leb c 13)
    || c == 32
    || c == 160
    || c == 0x1680
    || (leb 0x2000 c && leb c 0x200a)
    || c == 0x2028
    || c == 0x2029
    || c == 0x202f
    || c == 0x205f
    || c == 0x3000
    || c == 0xfeff

unfoldable pub trim_start : Text → Text
trim_start [] = []
trim_start (c ∷ s) = if is_space c then trim_start s else c ∷ s

unfoldable pub trim_end : Text → Text
trim_end [] = []
trim_end (c ∷ s) = let rest = trim_end s in if is_space c && is_empty rest then [] else c ∷ rest

-- `s.trim()`.
unfoldable pub trim : Text → Text
unfolding trim_start trim_end
trim s = trim_end (trim_start s)

-- `s.startsWith(p)`.
abbrev pub starts_with : Text → Text → Bool
starts_with s [] = true
starts_with [] (_ ∷ _) = false
starts_with (c ∷ s) (d ∷ p) = c == d && starts_with s p

-- What follows a prefix, if it is one.
abbrev pub after_prefix : Text → Text → Option Text
after_prefix s [] = some s
after_prefix [] (_ ∷ _) = none
after_prefix (c ∷ s) (d ∷ p) = if c == d then after_prefix s p else none

-- `s.replace(/^p/, '')`.
abbrev pub strip_prefix : Text → Text → Text
strip_prefix p s = elim (after_prefix s p) [ none ↦ s | some rest ↦ rest ]

-- `s.padStart(n, c)`.
abbrev pub pad_start : ℕ → ℕ → Text → Text
pad_start n c s = replicate (n - length s) c ++ s

abbrev pub is_digit : ℕ → Bool
is_digit c = leb b'0' c && leb c b'9'

-- Text with no white space in it.
abbrev pub IsSolid : Text → Type 0
IsSolid = All (λ c. is_space c ≡ false)

trim_end_of_IsSolid : (s : Text) → IsSolid s → trim_end s ≡ s
unfolding trim_end
trim_end_of_IsSolid [] h = refl
trim_end_of_IsSolid (c ∷ s) (p, h) = rw (p, trim_end_of_IsSolid s h)

pub trim_of_IsSolid : (s : Text) → IsSolid s → trim s ≡ s
unfolding trim
trim_of_IsSolid [] h = refl
trim_of_IsSolid (c ∷ s) (p, h) = rw (p) (trim_end_of_IsSolid (c ∷ s) (p, h))
