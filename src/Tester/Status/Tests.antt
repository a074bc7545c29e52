-- ===== src/Tester/Status/Tests.antt =====
-- Polls of one tester, and the theorem at a concrete input.
use fru_lab.Prelude.{ℕ, ◌+◌, ◌≡◌, refl, true, List, [], ◌∷◌}
use fru_lab.Js.Text.{Text, codes}
use fru_lab.Dashboard.Types.{answered, failed}
use fru_lab.Tester.Status.{Panel, new_panel, on_status, on_run, on_load}
use fru_lab.Tester.Status.Polls.{
  Poll, status_came, run_came, load_came, reached_again, on_polls, polls_lem,
}

abbrev message : Text → Text → Text
message e _ = e

abbrev panel : Panel ℕ ℕ ℕ ℕ
panel = new_panel message

-- The tester answers, fails, and answers twice.
abbrev polls : List (Poll ℕ ℕ ℕ Text)
polls =
    status_came (answered 1)
    ∷ run_came (answered 2)
    ∷ status_came (failed (codes "down"))
    ∷ load_came (failed (codes "down"))
    ∷ status_came (answered 3)
    ∷ status_came (answered 4)
    ∷ []

twice : (on_polls message polls panel).loads ≡ 2
unfolding on_status on_run on_load
twice = refl

polls_lem_example :
    ((on_polls message polls panel).form ≡ panel.form)
    × ((on_polls message polls panel).loads ≡ 0 + reached_again true polls)
polls_lem_example = polls_lem message polls panel refl
