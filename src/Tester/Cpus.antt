-- ===== src/Tester/Cpus.antt =====
-- web/frontend/src/page/tester/cpus.ts: CPU lists such as "0-3,8". A JavaScript `Set` is a list in
-- order of insertion without repeats; numbers from `\d+` are exact, since any above 4095 is refused.
pub mod Parse
pub mod Ranges
pub mod RoundTrip
pub mod Panel
mod Tests
use fru_lab.Prelude.{
  ℕ, zero, suc, ◌+◌, ◌-◌, ◌≡◌, refl, Bool, true, false, ◌||◌, not, Option, none, some, List, [],
  ◌∷◌, ◌++◌, arith, ltb, ◌==◌, if◌then◌else◌, ◌>>=◌,
}
use fru_lab.Js.Text.{Text, codes, is_empty, trim, trim_start}
use fru_lab.Js.Split.{split, join}
use fru_lab.Js.Decimal.{decimal, value}
use fru_lab.Js.Numeral.{span_digits}
use fru_lab.Js.Sets.{set_add, sort, unique}

abbrev pub max_cpu : ℕ
max_cpu = 4095

-- The optional group of the pattern, `(?:\s*-\s*(\d+))?$`, after the first number.
pub match_end : ℕ → Text → Option (ℕ × ℕ)
match_end a [] = none
match_end a (c ∷ s) =
    let b = span_digits (trim_start s) in
    if c == b'-'
    then if is_empty b.0 || not (is_empty b.1) then none else some (a, value b.0)
    else none

-- `/^(\d+)(?:\s*-\s*(\d+))?$/.exec(part)`; a missing second number is the first.
unfoldable pub match_range : Text → Option (ℕ × ℕ)
match_range part =
    let a = span_digits part in
    if is_empty a.0
    then none
    else if is_empty a.1
    then some (value a.0, value a.0)
    else match_end (value a.0) (trim_start a.1)

-- `for (let c = a; c <= b; c++) out.add(c)`, by the number of rounds.
pub add_range : ℕ → ℕ → List ℕ → List ℕ
add_range zero c out = out
add_range (suc n) c out = add_range n (c + 1) (set_add c out)

-- One round of the loop over the parts, after the match.
pub add_found : ℕ × ℕ → List ℕ → Option (List ℕ)
add_found (a, b) out = if ltb b a || ltb max_cpu b then none else some (add_range (b + 1 - a) a out)

pub add_part : Text → List ℕ → Option (List ℕ)
add_part raw out = do r ← match_range (trim raw); add_found r out

pub add_parts : List Text → List ℕ → Option (List ℕ)
add_parts [] out = some out
add_parts (p ∷ ps) out = do next ← add_part p out; add_parts ps next

unfoldable pub parse_cpus : Text → Option (List ℕ)
parse_cpus s =
    let text = trim s in
    if is_empty text then some [] else do out ← add_parts (split b',' text) []; some (sort out)

-- One range of the list: the first and the last of its CPUs.
pub show_run : ℕ → ℕ → Text
show_run i j = if j == i then decimal i else decimal i ++ b'-' ∷ decimal j

-- The two loops of `formatCpus`: a range from `i`, so far to `j`, and the CPUs left.
pub runs : ℕ → ℕ → List ℕ → List Text
runs i j [] = show_run i j ∷ []
runs i j (x ∷ xs) = elim (x == j + 1) [ true ↦ runs i x xs | false ↦ show_run i j ∷ runs x x xs ]

pub format_sorted : List ℕ → Text
format_sorted [] = []
format_sorted (x ∷ xs) = join b',' (runs x x xs)

unfoldable pub format_cpus : List ℕ → Text
format_cpus cpus = format_sorted (sort (unique cpus))
