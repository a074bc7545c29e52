-- ===== src/Tester/Bench.antt =====
-- web/frontend/src/page/tester/TesterBenchPage.tsx: the bench of one tester. The answers come as
-- events, each with the tester that was asked. What a host is made of is the parameter `Sy`.
pub mod Shown
mod Tests
use fru_lab.Prelude.{
  ℕ, ◌+◌, Bool, true, false, Option, none, some, List, [], ◌∷◌, ◌++◌, ltb, max, if◌then◌else◌,
  length, drop,
}
use fru_lab.Js.Text.{Text, codes, text_eq}
use fru_lab.Dashboard.Types.{Answer, answered, failed}

pub data BenchState : Type 0 where
  idle running done bench_failed : BenchState

pub record TesterBenchSettings : Type 0 where
  pub packet_size : ℕ
  pub step_seconds : ℕ
  pub gso : Bool

pub record TesterBenchStep : Type 0 where
  pub senders : ℕ
  pub pps : ℕ
  pub bps : ℕ
  pub send_errors : ℕ
  pub gso : Bool

pub record TesterBenchResult : Type 0 where
  pub state : BenchState
  pub error : Text
  pub cpus : ℕ
  pub kernel : Text
  pub settings : TesterBenchSettings
  pub planned_senders : List ℕ
  pub steps : List TesterBenchStep
  pub started_at : Option Text
  pub finished_at : Option Text

-- `STATE_LABELS`.
abbrev pub bench_label : BenchState → Text
bench_label idle = codes "Not run yet"
bench_label running = codes "Measuring"
bench_label done = codes "Done"
bench_label bench_failed = codes "Failed"

pub record Bench (Sy : Type 0) : Type 0 where
  pub tester_id : Text
  pub result : Option TesterBenchResult
  pub system : Option Sy
  pub is_starting : Bool
  pub errors : List Text
  pub successes : List Text

pub data BenchEvent (Sy E : Type 0) : Type 0 where
  system_came : Text → Answer E Sy → BenchEvent Sy E
  bench_came : Text → Answer E TesterBenchResult → BenchEvent Sy E
  start_clicked : BenchEvent Sy E
  start_came : Text → Answer E TesterBenchResult → BenchEvent Sy E
  picked : Text → BenchEvent Sy E

module _ {Sy E : Type 0} (message : E → Text → Text) where
  abbrev pub show_system : Answer E Sy → Bench Sy → Bench Sy
  show_system (answered sys) s = record s { system = some sys }
  show_system (failed e) s = record s { system = none }

  abbrev pub show_bench : Answer E TesterBenchResult → Bench Sy → Bench Sy
  show_bench (answered r) s = record s { result = some r }
  show_bench (failed e) s = record s {
    result = none;
    errors = s.errors ++ message e (codes "Failed to load the bench") ∷ [];
  }

  -- `current.current === id`: a reply for a tester that was picked before is dropped.
  abbrev pub if_current : Text → (Bench Sy → Bench Sy) → Bench Sy → Bench Sy
  if_current id f s = if text_eq s.tester_id id then f s else s

  -- `handleStart` behind its call, for whatever tester it was.
  abbrev pub show_started : Answer E TesterBenchResult → Bench Sy → Bench Sy
  show_started (answered r) s = record s {
    result = some r;
    successes = s.successes ++ codes "Bench started" ∷ [];
    is_starting = false;
  }
  show_started (failed e) s = record s {
    errors = s.errors ++ message e (codes "Failed to start the bench") ∷ [];
    is_starting = false;
  }

  -- Another tester: the effects drop what is known of the former one, and ask.
  abbrev pub pick_tester : Text → Bench Sy → Bench Sy
  pick_tester id s =
      if text_eq s.tester_id id
      then s
      else record s { tester_id = id; result = none; system = none }

  unfoldable pub on_bench_event : BenchEvent Sy E → Bench Sy → Bench Sy
  on_bench_event (system_came id a) s = if_current id (show_system a) s
  on_bench_event (bench_came id a) s = if_current id (show_bench a) s
  on_bench_event start_clicked s = record s { is_starting = true }
  on_bench_event (start_came id a) s = show_started a s
  on_bench_event (picked id) s = pick_tester id s

-- `best`: the first step with the most bits per second.
abbrev pub better : Option TesterBenchStep → TesterBenchStep → TesterBenchStep
better none s = s
better (some a) s = if ltb a.bps s.bps then s else a

unfoldable pub best_from : Option TesterBenchStep → List TesterBenchStep → Option TesterBenchStep
best_from a [] = a
best_from a (s ∷ steps) = best_from (some (better a s)) steps

abbrev pub peak_pps : List TesterBenchStep → ℕ
peak_pps [] = 0
peak_pps (s ∷ steps) = max s.pps (peak_pps steps)

abbrev pub send_errors_of : List TesterBenchStep → ℕ
send_errors_of [] = 0
send_errors_of (s ∷ steps) = s.send_errors + send_errors_of steps

abbrev pub is_measuring : BenchState → Bool
is_measuring running = true
is_measuring idle = false
is_measuring done = false
is_measuring bench_failed = false

-- `pending`: the planned senders that have no step yet.
abbrev pub pending_senders : TesterBenchResult → List ℕ
pending_senders r = if is_measuring r.state then drop (length r.steps) r.planned_senders else []
