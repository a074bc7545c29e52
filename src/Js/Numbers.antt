-- ===== src/Js/Numbers.antt =====
-- What the code uses of the type `number`, whose values are IEEE doubles. The operations are an
-- interface; `whole` numbers are an instance, on which the code can be run.
use fru_lab.Prelude.{ℕ, Bool, true, not, ◌==◌}
use fru_lab.Js.Text.{Text}
use fru_lab.Js.Decimal.{decimal, hex, value}

pub record Numbers (N : Type 0) : Type 0 where
  -- A whole number that is exact.
  pub of_count : ℕ → N
  -- `Number(s)`, which is `NaN` for a string that is no numeral.
  pub number : Text → N
  -- `Number.isFinite(n)`.
  pub is_finite : N → Bool
  -- `String(n)` and `n.toString(16)`.
  pub show : N → Text
  pub show_hex : N → Text
  -- `a === b`.
  pub same : N → N → Bool
  -- `Boolean(n)`: neither `NaN` nor 0.
  pub is_truthy : N → Bool

-- Whole numbers, and numerals with decimal digits only.
abbrev pub whole : Numbers ℕ
whole = record {
  of_count = λ n. n;
  number = value;
  is_finite = λ _. true;
  show = decimal;
  show_hex = hex;
  same = λ a b. a == b;
  is_truthy = λ n. not (n == 0);
}
