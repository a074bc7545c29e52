-- ===== src/Tester/Cpus/RoundTrip.antt =====
-- `formatCpus`, read back by `parseCpus`.
use fru_lab.Prelude.{
  ℕ, ◌+◌, ◌≤◌, ◌≡◌, ◌≢◌, refl, sym, ◌∙◌, true, false, some, List, [], ◌∷◌, ◌++◌, arith, every, any,
  ◌==◌, IsAscending, All, All-append, Bool-cases, inl, inr,
}
use mathlib.Core.Path.{subst}
use fru_lab.Js.Text.{Text, is_empty, trim, IsSolid, trim_of_IsSolid}
use fru_lab.Js.Split.{split, join, Lacks, split-join}
use fru_lab.Js.Decimal.{decimal, decimal-ne-nil}
use fru_lab.Tester.Cpus.{max_cpu, add_parts, parse_cpus, show_run, runs, format_sorted, format_cpus}
use fru_lab.Tester.Cpus.Ranges.{
  IsPlain, show_run-IsPlain, is_empty_of_ne, IsPlain-IsSolid, IsPlain-Lacks, count_up_one,
  runs_joined, runs_apart, add_parts-runs,
}
use fru_lab.Tester.Cpus.Parse.{
  parts_of, good_part, in_part, parse_cpus_sound, parse_cpus-eq-none_iff,
}
use fru_lab.Js.Sets.{
  has, sort, unique, unique_of_IsAscending, sort_of_IsAscending, has-sort, has-unique,
  unique-IsUnique, sort-IsAscending,
}

-- What holds of the ranges' texts.
abbrev IsPart : Text → Type 0
IsPart p = IsPlain p × (is_empty p ≡ false)

is_empty-append : (s t : Text) → is_empty s ≡ false → is_empty (s ++ t) ≡ false
is_empty-append [] t h = cc
is_empty-append (c ∷ s) t h = refl

show_run-IsPart : (i j : ℕ) → IsPart (show_run i j)
show_run-IsPart i j = (show_run-IsPlain i j, filled)
  where
    numeral : is_empty (decimal i) ≡ false
    numeral = is_empty_of_ne (decimal i) (decimal-ne-nil i)

    filled : is_empty (show_run i j) ≡ false
    filled =
        unfold show_run in ground (arith, numeral, is_empty-append (decimal i) (b'-' ∷ decimal j))

runs-IsPart : (i j : ℕ) (xs : List ℕ) → All IsPart (runs i j xs)
runs-IsPart i j [] = unfold runs in (show_run-IsPart i j, tt)
runs-IsPart i j (x ∷ xs) = elim (Bool-cases (x == j + 1)) [
  | inl joined ↦ subst (All IsPart) (sym (runs_joined i j x xs joined)) (runs-IsPart i x xs)
  | inr apart ↦
      subst (All IsPart) (sym (runs_apart i j x xs apart)) (show_run-IsPart i j, runs-IsPart x x xs)
]

runs-ne-nil : (i j : ℕ) (xs : List ℕ) → runs i j xs ≢ []
runs-ne-nil i j [] = unfold runs in λ e. cc
runs-ne-nil i j (x ∷ xs) = elim (Bool-cases (x == j + 1)) [
  | inl joined ↦ λ e. runs-ne-nil i x xs (sym (runs_joined i j x xs joined) ∙ e)
  | inr apart ↦ λ e. cc (runs_apart i j x xs apart)
]

-- The text of the parts: without white space, not empty, and split into the parts again.
join-IsSolid : (ps : List Text) → All IsPart ps → IsSolid (join b',' ps)
unfolding join
join-IsSolid [] h = tt
join-IsSolid (p ∷ []) ((hp, _), _) = IsPlain-IsSolid p hp
join-IsSolid (p ∷ q ∷ ps) ((hp, _), h) =
    All-append _ p (b',' ∷ join b',' (q ∷ ps)) (IsPlain-IsSolid p hp)
      (refl, join-IsSolid (q ∷ ps) h)

is_empty-join : (ps : List Text) → ps ≢ [] → All IsPart ps → is_empty (join b',' ps) ≡ false
unfolding join
is_empty-join [] ne h = absurd (ne refl)
is_empty-join (p ∷ []) ne ((_, e), _) = e
is_empty-join (p ∷ q ∷ ps) ne ((_, e), _) = is_empty-append p _ e

All-Lacks : (ps : List Text) → All IsPart ps → All (Lacks b',') ps
All-Lacks [] h = tt
All-Lacks (p ∷ ps) ((hp, _), h) = (IsPlain-Lacks p hp, All-Lacks ps h)

split-join-IsPart : (ps : List Text) → ps ≢ [] → All IsPart ps → split b',' (join b',' ps) ≡ ps
split-join-IsPart [] ne h = absurd (ne refl)
split-join-IsPart (p ∷ ps) ne (hp, h) = split-join b',' p ps (IsPlain-Lacks p hp.0) (All-Lacks ps h)

parse_cpus-join :
    (ps : List Text) (out : List ℕ)
    → ps ≢ []
    → All IsPart ps
    → add_parts ps [] ≡ some out
    → parse_cpus (join b',' ps) ≡ some (sort out)
unfolding parse_cpus
parse_cpus-join ps out ne h e = rw (
  trim_of_IsSolid (join b',' ps) (join-IsSolid ps h),
  is_empty-join ps ne h,
  split-join-IsPart ps ne h,
  e,
)

-- Every member of a list has a property that holds of all of it, and the other way round.
All-has : (m c : ℕ) (xs : List ℕ) → All (λ x. x ≤ m) xs → has c xs ≡ true → c ≤ m
All-has m c [] h e = cc
All-has m c (x ∷ xs) (p, h) e = ground (arith, All-has m c xs h)

pub All-of_has : (m : ℕ) (xs : List ℕ) → ((c : ℕ) → has c xs ≡ true → c ≤ m) → All (λ x. x ≤ m) xs
All-of_has m [] h = tt
All-of_has m (x ∷ xs) h = (h x (ground arith), All-of_has m xs (λ c e. h c (ground arith)))

parse_cpus-format_sorted :
    (xs : List ℕ)
    → All (λ x. x ≤ max_cpu) xs
    → IsAscending xs
    → parse_cpus (format_sorted xs) ≡ some xs
unfolding format_sorted
parse_cpus-format_sorted [] tops up = unfold parse_cpus trim in refl
parse_cpus-format_sorted (x ∷ xs) tops up =
    let added : add_parts (runs x x xs) [] ≡ some (x ∷ xs) =
      rw (count_up_one x) at (add_parts-runs x x xs [] (omega arith) tops up tt) in
    rw (
      parse_cpus-join (runs x x xs) (x ∷ xs) (runs-ne-nil x x xs) (runs-IsPart x x xs) added,
      sort_of_IsAscending (x ∷ xs) up,
    )

has-sort_unique : (c : ℕ) (cpus : List ℕ) → has c (sort (unique cpus)) ≡ has c cpus
has-sort_unique c cpus = has-sort c (unique cpus) ∙ has-unique c cpus

-- A list of CPUs up to 4095, in any order and with repeats, is written as a text that is read
-- back as the strictly ascending list of the same CPUs.
pub parse_cpus-format_cpus :
    (cpus : List ℕ)
    → All (λ c. c ≤ max_cpu) cpus
    → (ys : List ℕ) × (parse_cpus (format_cpus cpus) ≡ some ys)
      × IsAscending ys
      × ((c : ℕ) → has c ys ≡ has c cpus)
unfolding format_cpus
parse_cpus-format_cpus cpus tops =
    let ys = sort (unique cpus) in
    let up = sort-IsAscending (unique cpus) (unique-IsUnique cpus) in
    let below =
      All-of_has max_cpu ys
        (λ c e. All-has max_cpu c cpus tops (sym (has-sort_unique c cpus) ∙ e)) in
    (ys, parse_cpus-format_sorted ys below up, up, λ c. has-sort_unique c cpus)

in_part_le : (c : ℕ) (p : Text) → good_part p ≡ true → in_part c p ≡ true → c ≤ max_cpu
in_part_le c p g h = ground arith

in_parts_le :
    (c : ℕ) (ps : List Text) → every good_part ps ≡ true → any (in_part c) ps ≡ true → c ≤ max_cpu
in_parts_le c [] g h = cc
in_parts_le c (p ∷ ps) g h = ground (arith, in_part_le c p, in_parts_le c ps)

pub parse_cpus_le :
    (s : Text) (xs : List ℕ) → parse_cpus s ≡ some xs → (c : ℕ) → has c xs ≡ true → c ≤ max_cpu
parse_cpus_le s xs e c h = elim (Bool-cases (every good_part (parts_of s))) [
  | inl good ↦ in_parts_le c (parts_of s) good (sym ((parse_cpus_sound s xs e).1 c) ∙ h)
  | inr bad ↦ cc ((parse_cpus-eq-none_iff s).1 bad)
]

-- Writing what an accepted text was read as, and reading that, gives the same list.
pub parse_cpus_normal :
    (s : Text) (xs : List ℕ) → parse_cpus s ≡ some xs → parse_cpus (format_cpus xs) ≡ some xs
unfolding format_cpus
parse_cpus_normal s xs e =
    let (up, holds) = parse_cpus_sound s xs e in
    let below = All-of_has max_cpu xs (parse_cpus_le s xs e) in
    rw (unique_of_IsAscending xs up, sort_of_IsAscending xs up)
      (parse_cpus-format_sorted xs below up)
