-- ===== src/Tester/Bench/Tests.antt =====
-- The bench of two testers, and the theorem at a concrete input.
use fru_lab.Prelude.{ℕ, ◌≡◌, refl, true, false, none, List, [], ◌∷◌}
use fru_lab.Js.Text.{Text, codes}
use fru_lab.Dashboard.Types.{answered}
use fru_lab.Tester.Bench.{
  done, TesterBenchResult, Bench, BenchEvent, bench_came, picked, start_clicked, start_came,
  on_bench_event,
}
use fru_lab.Tester.Bench.Shown.{IsShownOf, bench_events, bench_origin}

abbrev message : Text → Text → Text
message e _ = e

-- A result that names the kernel of its tester.
abbrev result_of : Text → TesterBenchResult
result_of kernel = record {
  state = done;
  error = [];
  cpus = 4;
  kernel = kernel;
  settings = record { packet_size = 1400; step_seconds = 3; gso = true };
  planned_senders = 1 ∷ 2 ∷ 4 ∷ [];
  steps = [];
  started_at = none;
  finished_at = none;
}

abbrev IsFrom : Text → TesterBenchResult → Type 0
IsFrom id r = r.kernel ≡ id

abbrev bench : Bench ℕ
bench = record {
  tester_id = codes "a";
  result = none;
  system = none;
  is_starting = false;
  errors = [];
  successes = [];
}

-- The answer of the first tester comes after the second one was picked.
abbrev events : List (BenchEvent ℕ Text)
events =
    picked (codes "b")
    ∷ bench_came (codes "a") (answered (result_of (codes "a")))
    ∷ start_clicked
    ∷ start_came (codes "b") (answered (result_of (codes "b")))
    ∷ []

bench_origin_example :
    IsShownOf IsFrom
      (bench_events message IsFrom events bench).tester_id
      (bench_events message IsFrom events bench).result
unfolding on_bench_event
bench_origin_example =
    bench_origin message IsFrom events bench (tt, (refl, (tt, ((refl, refl), tt)))) tt
