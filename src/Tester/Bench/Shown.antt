-- ===== src/Tester/Bench/Shown.antt =====
-- The bench that is shown is one of the tester that is picked.
use mathlib.Core.Path.{subst}
use fru_lab.Prelude.{
  ◌≤◌, ◌≡◌, sym, inl, inr, Option, none, some, List, [], ◌∷◌, arith, ltb, All, Bool-cases,
}
use fru_lab.Js.Text.{Text, text_eq, text_eq_iff}
use fru_lab.Dashboard.Types.{Answer, answered, failed}
use fru_lab.Tester.Bench.{
  TesterBenchStep, TesterBenchResult, Bench, BenchEvent, system_came, bench_came, start_clicked,
  start_came, picked, on_bench_event, better, best_from,
}

abbrev pub IsAnswerFrom :
    {E : Type 0} → (Text → TesterBenchResult → Type 0) → Text → Answer E TesterBenchResult → Type 0
IsAnswerFrom IsFrom id (answered r) = IsFrom id r
IsAnswerFrom IsFrom id (failed e) = Unit

-- Nothing is shown, or a result of this tester.
abbrev pub IsShownOf :
    (Text → TesterBenchResult → Type 0) → Text → Option TesterBenchResult → Type 0
IsShownOf IsFrom id none = Unit
IsShownOf IsFrom id (some r) = IsFrom id r

module _ {Sy E : Type 0} (message : E → Text → Text)
    (IsFrom : Text → TesterBenchResult → Type 0) where
  -- An answer comes from the tester that was asked, and the tester that a bench was started on is
  -- still picked when its answer comes.
  abbrev pub IsHonest : BenchEvent Sy E → Bench Sy → Type 0
  IsHonest (bench_came id a) s = IsAnswerFrom IsFrom id a
  IsHonest (start_came id a) s = (id ≡ s.tester_id) × IsAnswerFrom IsFrom id a
  IsHonest (system_came id a) s = Unit
  IsHonest start_clicked s = Unit
  IsHonest (picked id) s = Unit

  abbrev pub bench_events : List (BenchEvent Sy E) → Bench Sy → Bench Sy
  bench_events [] s = s
  bench_events (e ∷ es) s = bench_events es (on_bench_event message e s)

  abbrev pub AreHonest : List (BenchEvent Sy E) → Bench Sy → Type 0
  AreHonest [] s = Unit
  AreHonest (e ∷ es) s = IsHonest e s × AreHonest es (on_bench_event message e s)

  keeps_origin :
      (e : BenchEvent Sy E) (s : Bench Sy)
      → IsHonest e s
      → IsShownOf IsFrom s.tester_id s.result
      → IsShownOf IsFrom (on_bench_event message e s).tester_id (on_bench_event message e s).result
  unfolding on_bench_event
  keeps_origin (system_came id (answered sys)) s ok h = elim (Bool-cases (text_eq s.tester_id id)) [
    | inl e ↦ rw (e) h
    | inr e ↦ rw (e) h
  ]
  keeps_origin (system_came id (failed x)) s ok h = elim (Bool-cases (text_eq s.tester_id id)) [
    | inl e ↦ rw (e) h
    | inr e ↦ rw (e) h
  ]
  keeps_origin (bench_came id (answered r)) s ok h = elim (Bool-cases (text_eq s.tester_id id)) [
    | inl e ↦ rw (e) (subst (λ t. IsFrom t r) (sym ((text_eq_iff s.tester_id id).0 e)) ok)
    | inr e ↦ rw (e) h
  ]
  keeps_origin (bench_came id (failed x)) s ok h = elim (Bool-cases (text_eq s.tester_id id)) [
    | inl e ↦ rw (e) tt
    | inr e ↦ rw (e) h
  ]
  keeps_origin start_clicked s ok h = h
  keeps_origin (start_came id (answered r)) s (same, from) h = subst (λ t. IsFrom t r) same from
  keeps_origin (start_came id (failed x)) s ok h = h
  keeps_origin (picked id) s ok h = elim (Bool-cases (text_eq s.tester_id id)) [
    | inl e ↦ rw (e) h
    | inr e ↦ rw (e) tt
  ]

  -- However the answers of several testers come, the result that is shown is one of the tester that
  -- is picked, if each start is answered while its tester is still picked.
  pub bench_origin :
      (es : List (BenchEvent Sy E)) (s : Bench Sy)
      → AreHonest es s
      → IsShownOf IsFrom s.tester_id s.result
      → IsShownOf IsFrom (bench_events es s).tester_id (bench_events es s).result
  bench_origin [] s ok h = h
  bench_origin (e ∷ es) s (ok, oks) h =
      bench_origin es (on_bench_event message e s) oks (keeps_origin e s ok h)

-- No step has more bits per second.
abbrev pub IsBest : List TesterBenchStep → Option TesterBenchStep → Type 0
IsBest steps none = ⊥
IsBest steps (some b) = All (λ (s : TesterBenchStep). s.bps ≤ b.bps) steps

better-le :
    (a s : TesterBenchStep) → (a.bps ≤ (better (some a) s).bps) × (s.bps ≤ (better (some a) s).bps)
better-le a s = elim (Bool-cases (ltb a.bps s.bps)) [
  | inl e ↦ rw (e) (ground arith, omega arith)
  | inr e ↦ rw (e) (omega arith, ground arith)
]

best_from-IsBest :
    (a : TesterBenchStep) (steps : List TesterBenchStep)
    → IsBest (a ∷ steps) (best_from (some a) steps)
unfolding best_from
best_from-IsBest a [] = (omega arith, tt)
best_from-IsBest a (s ∷ steps) =
    join (best_from (some (better (some a) s)) steps) (best_from-IsBest (better (some a) s) steps)
  where
    join :
        (o : Option TesterBenchStep)
        → IsBest (better (some a) s ∷ steps) o
        → IsBest (a ∷ s ∷ steps) o
    join none h = h
    join (some b) (le, rest) = let (la, ls) = better-le a s in (omega arith, (omega arith, rest))
