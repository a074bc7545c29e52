-- ===== src/Tester/Status.antt =====
-- `TesterPanel` of web/frontend/src/page/tester/TesterStatusPage.tsx: the polls of one tester and
-- the form of its CPUs. The answers come as events; what a status, a run and a CPU load hold is a
-- parameter, as is the text that an error is shown by.
pub mod Polls
mod Tests
use fru_lab.Prelude.{
  ℕ, ◌+◌, Bool, true, false, Option, none, some, List, [], ◌∷◌, ◌++◌, if◌then◌else◌,
}
use fru_lab.Js.Text.{Text, codes}
use fru_lab.Dashboard.Types.{Answer, answered, failed}
use fru_lab.Tester.RunApi.{RunState, idle, configuring, n2, running, stopping, stopped}
use fru_lab.Tester.Cpus.Panel.{CpuAllocation}

pub record TesterFieldError : Type 0 where
  pub field : Text
  pub message : Text

-- `status`, `run`, `cpu_load` and `topology` are what the API answers. `loads` counts the calls of
-- `loadSystem`, and `was_down` and `is_cancelled` are variables of the effect.
pub record Panel (St Ru Lo To : Type 0) : Type 0 where
  pub status : Option St
  pub unreachable : Option Text
  pub topology : Option To
  pub run : Option Ru
  pub cpu_load : Option Lo
  pub form : CpuAllocation
  pub saved : CpuAllocation
  pub field_errors : List TesterFieldError
  pub is_saving : Bool
  pub was_down : Bool
  pub is_cancelled : Bool
  pub loads : ℕ
  pub errors : List Text
  pub successes : List Text

-- `RUN_LABELS`.
abbrev pub run_label : RunState → Text
run_label idle = codes "No run yet"
run_label configuring = codes "Configuring"
run_label n2 = codes "N2 setup"
run_label running = codes "Running"
run_label stopping = codes "Cleaning up"
run_label stopped = codes "Stopped"
run_label RunState.failed = codes "Failed"

-- `FINISHED`.
abbrev pub is_finished : RunState → Bool
is_finished idle = true
is_finished stopped = true
is_finished RunState.failed = true
is_finished configuring = false
is_finished n2 = false
is_finished running = false
is_finished stopping = false

abbrev pub no_cpus : CpuAllocation
no_cpus = record { cp_cpus = []; dp_cpus = [] }

module _ {St Ru Lo To E : Type 0} (message : E → Text → Text) where
  abbrev pub new_panel : Panel St Ru Lo To
  new_panel = record {
    status = none;
    unreachable = none;
    topology = none;
    run = none;
    cpu_load = none;
    form = no_cpus;
    saved = no_cpus;
    field_errors = [];
    is_saving = false;
    was_down = true;
    is_cancelled = false;
    loads = 0;
    errors = [];
    successes = [];
  }

  -- `loadSystem`, and its answer.
  abbrev pub load_system : Panel St Ru Lo To → Panel St Ru Lo To
  load_system s = record s { loads = s.loads + 1 }

  unfoldable pub on_system : Answer E (CpuAllocation × To) → Panel St Ru Lo To → Panel St Ru Lo To
  on_system (answered (cpus, topology)) s = record s {
    topology = some topology;
    form = cpus;
    saved = cpus;
  }
  on_system (failed e) s = record s {
    errors = s.errors ++ message e (codes "Failed to read the tester host") ∷ [];
  }

  -- The answers of `readStatus`, of an effect that was not cancelled.
  abbrev pub status_read : Answer E St → Panel St Ru Lo To → Panel St Ru Lo To
  status_read (answered st) s =
      let s₁ : Panel St Ru Lo To = record s { status = some st; unreachable = none } in
      record (if s.was_down then load_system s₁ else s₁) { was_down = false }
  status_read (failed e) s = record s {
    unreachable = some (message e (codes "fru-tester did not answer"));
    was_down = true;
  }

  abbrev pub run_read : Answer E Ru → Panel St Ru Lo To → Panel St Ru Lo To
  run_read (answered r) s = record s { run = some r }
  run_read (failed e) s = s

  abbrev pub load_read : Answer E Lo → Panel St Ru Lo To → Panel St Ru Lo To
  load_read (answered l) s = record s { cpu_load = some l }
  load_read (failed e) s = record s { cpu_load = none }

  abbrev pub unless_cancelled :
      (Panel St Ru Lo To → Panel St Ru Lo To) → Panel St Ru Lo To → Panel St Ru Lo To
  unless_cancelled f s = if s.is_cancelled then s else f s

  unfoldable pub on_status : Answer E St → Panel St Ru Lo To → Panel St Ru Lo To
  on_status a = unless_cancelled (status_read a)

  unfoldable pub on_run : Answer E Ru → Panel St Ru Lo To → Panel St Ru Lo To
  on_run a = unless_cancelled (run_read a)

  unfoldable pub on_load : Answer E Lo → Panel St Ru Lo To → Panel St Ru Lo To
  on_load a = unless_cancelled (load_read a)

  -- `setField`, with the change of one of the two lists.
  unfoldable pub set_field : (CpuAllocation → CpuAllocation) → Panel St Ru Lo To → Panel St Ru Lo To
  set_field change s = record s { field_errors = []; form = change s.form }

  -- `handleSave`, with the field errors that a rejection carries.
  unfoldable pub handle_save :
      (CpuAllocation → Answer (E × List TesterFieldError) CpuAllocation)
      → Panel St Ru Lo To
      → Panel St Ru Lo To
  handle_save cpus_put s = elim (cpus_put s.form) [
    | answered cpus ↦ record s {
      form = cpus;
      saved = cpus;
      field_errors = [];
      successes = s.successes ++ codes "CPU allocation saved; the next run uses it" ∷ [];
      is_saving = false;
    }
    | failed (e, bad) ↦ record s {
      field_errors = bad;
      errors = s.errors ++ message e (codes "Failed to save the CPU allocation") ∷ [];
      is_saving = false;
    }
  ]
