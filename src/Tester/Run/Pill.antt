-- ===== src/Tester/Run/Pill.antt =====
-- The head of the run page and its figures, and `handleStop`, of
-- web/frontend/src/page/tester/TesterRunPage.tsx.
use fru_lab.Prelude.{
  ℕ, ◌+◌, Bool, true, false, ◌&&◌, ◌||◌, not, Option, none, some, List, [], ◌∷◌, ◌++◌,
  if◌then◌else◌,
}
use fru_lab.Js.Text.{Text, codes}
use fru_lab.Tester.RunApi.{
  RunState, idle, configuring, n2, running, stopping, stopped, failed, TesterStageSnapshot,
  TesterRunSnapshot, TesterSetupPoint,
}
use fru_lab.Tester.Run.Causes.{failures_of}

-- `STATE_LABELS`, and `STATE_TITLES` for what the label has no room for.
abbrev pub state_label : RunState → Text
state_label idle = codes "No run yet"
state_label configuring = codes "Configuring"
state_label n2 = codes "N2 setup"
state_label running = codes "Running"
state_label stopping = codes "Cleaning up"
state_label stopped = codes "Stopped"
state_label failed = codes "Failed"

abbrev pub state_title : RunState → Option Text
state_title configuring = some (codes "Configuring gNB IPs")
state_title n2 = some (codes "N2 setup in progress")
state_title stopping = some (codes "Cleaning up: deregistering UEs, closing N2")
state_title idle = none
state_title running = none
state_title stopped = none
state_title failed = none

-- `ACTIVE_STATES`.
abbrev pub is_active_state : RunState → Bool
is_active_state configuring = true
is_active_state n2 = true
is_active_state running = true
is_active_state idle = false
is_active_state stopping = false
is_active_state stopped = false
is_active_state failed = false

abbrev pub is_cleaning_state : RunState → Bool
is_cleaning_state stopping = true
is_cleaning_state idle = false
is_cleaning_state configuring = false
is_cleaning_state n2 = false
is_cleaning_state running = false
is_cleaning_state stopped = false
is_cleaning_state failed = false

-- `cleaning` of `RunBody`.
abbrev pub is_cleaning : RunState → Bool
is_cleaning stopping = true
is_cleaning stopped = true
is_cleaning idle = false
is_cleaning configuring = false
is_cleaning n2 = false
is_cleaning running = false
is_cleaning failed = false

abbrev pub later_or : {A : Type 0} → A → Option A → A
later_or a none = a
later_or a (some b) = b

-- `list[list.length - 1]`, if there is one.
abbrev pub last_point : {A : Type 0} → List A → Option A
last_point [] = none
last_point (p ∷ ps) = some (later_or p (last_point ps))

abbrev pub points_of : {A : Type 0} → Option (List A) → List A
points_of none = []
points_of (some points) = points

abbrev pub reg_rate : {N : Type 0} → Option (TesterSetupPoint N) → Option N
reg_rate none = none
reg_rate (some point) = some point.reg_per_sec

module _ {N : Type 0} where
  abbrev pub is_active : Option (TesterRunSnapshot N) → Bool
  is_active none = false
  is_active (some s) = is_active_state s.state

  abbrev pub is_cleaning_up : Option (TesterRunSnapshot N) → Bool
  is_cleaning_up none = false
  is_cleaning_up (some s) = is_cleaning_state s.state

  -- The stage that a running run is at.
  abbrev pub stage_at : TesterRunSnapshot N → Text
  stage_at s =
      if not s.n2.done
      then codes "N2 setup"
      else if not s.registration.done
      then codes "Registration"
      else if not s.pdu.done
      then codes "PDU sessions"
      else codes "Traffic"

  abbrev pub pill_of : RunState → TesterRunSnapshot N → Text
  pill_of running s = codes "Running " ++ 0xb7 ∷ 32 ∷ stage_at s
  pill_of idle s = state_label idle
  pill_of configuring s = state_label configuring
  pill_of n2 s = state_label n2
  pill_of stopping s = state_label stopping
  pill_of stopped s = state_label stopped
  pill_of failed s = state_label failed

  abbrev pub pill_text : Option (TesterRunSnapshot N) → Text
  pill_text none = []
  pill_text (some s) = pill_of s.state s

  -- The first component of the stop button's `disabled`.
  abbrev pub can_stop : Option (TesterRunSnapshot N) → Bool → Bool
  can_stop s is_stopping = (is_active s || is_cleaning_up s) && not is_stopping

  -- `RunBody`: the stages that count, and their sums.
  abbrev pub throughput_stages : TesterRunSnapshot N → List (TesterStageSnapshot N)
  throughput_stages s = s.n2 ∷ s.registration ∷ s.pdu ∷ s.deregistration ∷ s.n2_release ∷ []

  abbrev pub failures : List (TesterStageSnapshot N) → ℕ
  failures [] = 0
  failures (s ∷ stages) = failures_of s + failures stages

  abbrev pub attempts : List (TesterStageSnapshot N) → ℕ
  attempts [] = 0
  attempts (s ∷ stages) = s.attempted + attempts stages

  -- The setup curve's last point, while UEs register.
  abbrev pub reg_now : TesterRunSnapshot N → Option N
  reg_now s = if s.registration.done then none else reg_rate (last_point (points_of s.setup))

pub data StopCall : Type 0 where
  run_stopped : Text → StopCall

pub record Stopping : Type 0 where
  pub is_stopping : Bool
  pub calls : List StopCall
  pub told : Option Text

-- `handleStop`: during the cleanup the user is asked; `stop` is the text that the call's rejection
-- is shown by, if it is rejected.
abbrev pub stopped_text : Bool → Text
stopped_text true = codes "Skipping the rest of the cleanup"
stopped_text false = codes "Stopping: deregistering UEs, then closing N2"

abbrev pub told_of : Bool → Option Text → Text
told_of cleaning none = stopped_text cleaning
told_of cleaning (some message) = message

unfoldable pub handle_stop : Text → Bool → Bool → Option Text → Stopping → Stopping
handle_stop tester_id cleaning confirmed stop s = if cleaning && not confirmed then s else record {
  is_stopping = false;
  calls = s.calls ++ run_stopped tester_id ∷ [];
  told = some (told_of cleaning stop);
}
