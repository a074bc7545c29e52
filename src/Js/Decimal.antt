-- ===== src/Js/Decimal.antt =====
-- Numerals: `n.toString(base)` and what a run of decimal digits stands for.
use mathlib.Core.Path.{subst}
use native.Mathlib.Nat.{pow-suc, pow-le-pow_right, le_trans}
use fru_lab.Prelude.{
  ℕ, zero, suc, ◌+◌, ◌-◌, ◌*◌, ◌/◌, ◌%◌, ◌^◌, ◌<◌, ◌≤◌, ◌≡◌, ◌≢◌, ◌↔◌, refl, ap, ◌∙◌, true, false,
  [], ◌∷◌, ◌++◌, arith, ltb, if◌then◌else◌, length, All, All-append, length-append, Bool-cases, inl,
  inr, replicate, sym,
}
use fru_lab.Js.Text.{Text, is_digit}

-- The digits 0-9, then a-f.
abbrev pub digit_char : ℕ → ℕ
digit_char d = if ltb d 10 then b'0' + d else b'a' + (d - 10)

-- The digits of `n`, by repeated division; the fuel `n + 1` suffices.
unfoldable pub digits : ℕ → ℕ → ℕ → Text
digits zero base n = []
digits (suc f) base n =
    let more = digits f base (n / base) ++ digit_char (n % base) ∷ [] in
    if ltb n base then digit_char n ∷ [] else more

-- `n.toString()` and `n.toString(16)` of a whole number that is at least 0.
abbrev pub decimal : ℕ → Text
decimal n = digits (suc n) 10 n

abbrev pub hex : ℕ → Text
hex n = digits (suc n) 16 n

abbrev pub AreDigits : Text → Type 0
AreDigits = All (λ c. is_digit c ≡ true)

-- What decimal digits stand for.
abbrev pub step_value : ℕ → ℕ → ℕ
step_value n c = n * 10 + (c - b'0')

abbrev pub value_from : ℕ → Text → ℕ
value_from n [] = n
value_from n (c ∷ s) = value_from (n * 10 + (c - b'0')) s

abbrev pub value : Text → ℕ
value s = value_from 0 s

value_from-append : (n : ℕ) (s t : Text) → value_from n (s ++ t) ≡ value_from (value_from n s) t
value_from-append n [] t = refl
value_from-append n (c ∷ s) t = value_from-append (n * 10 + (c - b'0')) s t

digit_char-is_digit : (d : ℕ) → d < 10 → is_digit (digit_char d) ≡ true
digit_char-is_digit d h = ground arith

digits_small : (f n : ℕ) → ltb n 10 ≡ true → digits (suc f) 10 n ≡ digit_char n ∷ []
unfolding digits
digits_small f n h = rw h

digits_large :
    (f n : ℕ)
    → ltb n 10 ≡ false
    → digits (suc f) 10 n ≡ digits f 10 (n / 10) ++ digit_char (n % 10) ∷ []
unfolding digits
digits_large f n h = rw h

last_digit : (c : ℕ) → c < 10 → AreDigits (digit_char c ∷ [])
last_digit c h = (digit_char-is_digit c h, tt)

digits-AreDigits : (f n : ℕ) → AreDigits (digits f 10 n)
digits-AreDigits zero n = unfold digits in tt
digits-AreDigits (suc f) n = elim (Bool-cases (ltb n 10)) [
  | inl small ↦ subst AreDigits (sym (digits_small f n small)) (last_digit n (ground arith))
  | inr large ↦ subst AreDigits (sym (digits_large f n large)) (
      All-append (λ c. is_digit c ≡ true) (digits f 10 (n / 10)) (digit_char (n % 10) ∷ [])
        (digits-AreDigits f (n / 10)) (last_digit (n % 10) (omega arith)))
]

-- The digits of `n` stand for `n`.
pub value-digits : (f n : ℕ) → n < f → value (digits f 10 n) ≡ n
unfolding digits
value-digits zero n h = elim h [ ]
value-digits (suc f) n h = ground (
  arith,
  value-digits f (n / 10),
  value_from-append 0 (digits f 10 (n / 10)) (digit_char (n % 10) ∷ []),
)

pub value-decimal : (n : ℕ) → value (decimal n) ≡ n
value-decimal n = value-digits (suc n) n (omega arith)

length-digits_pos : (f n : ℕ) → 0 < length (digits (suc f) 10 n)
unfolding digits
length-digits_pos f n =
    ground (arith, length-append (digits f 10 (n / 10)) (digit_char (n % 10) ∷ []))

-- A larger number has no fewer digits.
length-digits_mono :
    (f g n m : ℕ) → n < f → m < g → n ≤ m → length (digits f 10 n) ≤ length (digits g 10 m)
unfolding digits
length-digits_mono zero g n m h k le = elim h [ ]
length-digits_mono (suc f) zero n m h k le = elim k [ ]
length-digits_mono (suc f) (suc g) n m h k le = ground (
  arith,
  length-digits_pos g m,
  length-append (digits f 10 (n / 10)) (digit_char (n % 10) ∷ []),
  length-append (digits g 10 (m / 10)) (digit_char (m % 10) ∷ []),
  length-digits_mono f g (n / 10) (m / 10),
)

pub length-decimal_mono : (n m : ℕ) → n ≤ m → length (decimal n) ≤ length (decimal m)
length-decimal_mono n m = length-digits_mono (suc n) (suc m) n m (omega arith) (omega arith)

pub decimal-AreDigits : (n : ℕ) → AreDigits (decimal n)
decimal-AreDigits n = digits-AreDigits (suc n) n

pub decimal-ne-nil : (n : ℕ) → decimal n ≢ []
decimal-ne-nil n e = ground (arith, length-digits_pos n n, ap length e)

-- Zeros in front change nothing.
pub value-pad : (k : ℕ) (s : Text) → value (replicate k b'0' ++ s) ≡ value s
value-pad zero s = refl
value-pad (suc k) s = value-pad k s

-- Different numbers have different numerals.
pub decimal-injective : (n m : ℕ) → decimal n ≡ decimal m → n ≡ m
decimal-injective n m e = sym (value-decimal n) ∙ ap value e ∙ value-decimal m

-- `k` digits stand for a number below the k-th power of ten.
value_from-lt : (n : ℕ) (s : Text) → AreDigits s → value_from n s < (n + 1) * 10 ^ length s
value_from-lt n [] h = omega arith
value_from-lt n (c ∷ s) (hc, h) =
    let next = value_from-lt (n * 10 + (c - b'0')) s h in
    let small : n * 10 + (c - b'0') + 1 ≤ (n + 1) * 10 = ground arith in
    let p : 10 ^ length (c ∷ s) ≡ 10 ^ length s * 10 = pow-suc 10 (length s) in rw p (grind arith)

pub value-lt : (s : Text) → AreDigits s → value s < 10 ^ length s
value-lt s h = omega (arith, value_from-lt 0 s h)

length-digits-le : (f n k : ℕ) → n < f → n < 10 ^ suc k → length (digits f 10 n) ≤ suc k
length-digits-le zero n k h lt = elim h [ ]
length-digits-le (suc f) n zero h lt = rw (digits_small f n (ground arith)) (omega arith)
length-digits-le (suc f) n (suc k) h lt = elim (Bool-cases (ltb n 10)) [
  | inl small ↦ rw (digits_small f n small) (omega arith)
  | inr large ↦
      let p : 10 ^ suc (suc k) ≡ 10 ^ suc k * 10 = pow-suc 10 (suc k) in
      let tenth : n / 10 < 10 ^ suc k = omega (arith, rw p at lt) in
      let tens : 10 ≤ n = ground arith in
      let shorter = length-digits-le f (n / 10) k (omega arith) tenth in
      rw (digits_large f n large, length-append) (omega arith)
]

-- A number has at most `k` digits exactly if it is below the k-th power of ten.
pub length-decimal_iff : (n k : ℕ) → (length (decimal n) ≤ suc k) ↔ (n < 10 ^ suc k)
length-decimal_iff n k = (left, length-digits-le (suc n) n k (omega arith))
  where
    left : length (decimal n) ≤ suc k → n < 10 ^ suc k
    left h =
        le_trans (rw (value-decimal n) at (value-lt (decimal n) (decimal-AreDigits n)))
          (pow-le-pow_right (omega arith) h)
