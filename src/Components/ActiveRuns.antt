-- ===== src/Components/ActiveRuns.antt =====
-- web/frontend/src/components/layout/useActiveRuns.ts: one poll of the runs in progress. What the
-- API answers is a parameter: the list of testers and, for each, the state of its run, or `none`
-- where that call is rejected.
use fru_lab.Prelude.{
  ℕ, suc, ◌≤◌, Bool, true, false, Option, none, some, List, [], ◌∷◌, arith, if◌then◌else◌, length,
  any, Bool-cases, inl, inr,
}
use fru_lab.Js.Text.{Text, codes, text_eq}

pub record ActiveRuns : Type 0 where
  pub count : Option ℕ
  pub live : Bool

abbrev pub initial_runs : ActiveRuns
initial_runs = record { count = none; live = true }

abbrev pub active : List Text
active = codes "configuring" ∷ codes "n2" ∷ codes "running" ∷ codes "stopping" ∷ []

abbrev pub is_active : Option Text → Bool
is_active none = false
is_active (some state) = any (λ s. text_eq s state) active

abbrev pub count_active : List (Option Text) → ℕ
count_active [] = 0
count_active (run ∷ runs) = let rest = count_active runs in if is_active run then suc rest else rest

-- `read`: nothing is asked while the page is hidden; a list that fails keeps the last count.
unfoldable pub read_runs : Bool → Option (List (Option Text)) → ActiveRuns → ActiveRuns
read_runs true answer s = s
read_runs false none s = record s { live = false }
read_runs false (some runs) s = record { count = some (count_active runs); live = true }

-- No more runs are counted than there are testers.
count_active_le : (runs : List (Option Text)) → count_active runs ≤ length runs
count_active_le [] = omega arith
count_active_le (run ∷ runs) = elim (Bool-cases (is_active run)) [
  | inl e ↦ rw e (omega (arith, count_active_le runs))
  | inr e ↦ rw e (omega (arith, count_active_le runs))
]
