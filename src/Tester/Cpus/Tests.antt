-- ===== src/Tester/Cpus/Tests.antt =====
-- Runs of the CPU list functions, and the theorems at concrete inputs.
use fru_lab.Prelude.{
  ℕ, ◌≡◌, ◌↔◌, refl, false, none, some, List, [], ◌∷◌, arith, IsAscending, any, every,
}
use fru_lab.Js.Text.{codes, trim}
use fru_lab.Js.Split.{split, join}
use fru_lab.Js.Decimal.{digits}
use fru_lab.Js.Numeral.{span_digits}
use fru_lab.Tester.Cpus.{
  match_end, match_range, add_range, add_found, add_part, add_parts, parse_cpus, show_run, runs,
  format_sorted, format_cpus,
}
use fru_lab.Js.Sets.{has, set_add, sort, unique}
use fru_lab.Tester.Cpus.Parse.{
  parts_of, good_part, in_part, parse_cpus-eq-none_iff, parse_cpus_sound,
}
use fru_lab.Tester.Cpus.RoundTrip.{parse_cpus-format_cpus}
use fru_lab.Tester.Cpus.Panel.{CpuAllocation}

parses : parse_cpus (codes " 8, 0 - 3,2") ≡ some (0 ∷ 1 ∷ 2 ∷ 3 ∷ 8 ∷ [])
unfolding parse_cpus add_parts add_part add_found add_range match_range match_end span_digits trim
    split sort set_add
parses = refl

parses_nothing : parse_cpus (codes "  ") ≡ some []
unfolding parse_cpus trim
parses_nothing = refl

refuses : parse_cpus (codes "3-1") ≡ none
unfolding parse_cpus add_parts add_part add_found match_range match_end span_digits trim split
refuses = refl

formats : format_cpus (8 ∷ 0 ∷ 3 ∷ 1 ∷ 2 ∷ 0 ∷ []) ≡ codes "0-3,8"
unfolding format_cpus format_sorted runs show_run unique sort set_add join digits
formats = refl

parse_cpus-eq-none_iff_example :
    (parse_cpus (codes "0-2,5-4") ≡ none) ↔ (every good_part (parts_of (codes "0-2,5-4")) ≡ false)
parse_cpus-eq-none_iff_example = parse_cpus-eq-none_iff (codes "0-2,5-4")

parse_cpus_sound_example :
    IsAscending (0 ∷ 1 ∷ 2 ∷ 3 ∷ 8 ∷ [])
    × ((c : ℕ) → has c (0 ∷ 1 ∷ 2 ∷ 3 ∷ 8 ∷ []) ≡ any (in_part c) (parts_of (codes " 8, 0 - 3,2")))
parse_cpus_sound_example = parse_cpus_sound (codes " 8, 0 - 3,2") (0 ∷ 1 ∷ 2 ∷ 3 ∷ 8 ∷ []) parses

parse_cpus-format_cpus_example :
    (ys : List ℕ) × (parse_cpus (format_cpus (8 ∷ 0 ∷ 1 ∷ 0 ∷ [])) ≡ some ys)
    × IsAscending ys
    × ((c : ℕ) → has c ys ≡ has c (8 ∷ 0 ∷ 1 ∷ 0 ∷ []))
parse_cpus-format_cpus_example = parse_cpus-format_cpus (8 ∷ 0 ∷ 1 ∷ 0 ∷ []) (omega arith)

abbrev form : CpuAllocation
form = record { cp_cpus = codes "0-1"; dp_cpus = codes "4" }
