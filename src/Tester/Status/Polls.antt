-- ===== src/Tester/Status/Polls.antt =====
-- The CPU layout is read each time that the tester is reached again.
use fru_lab.Prelude.{
  ℕ, ◌+◌, ◌≡◌, refl, ◌∙◌, inl, inr, Bool, true, false, List, [], ◌∷◌, arith, Bool-cases,
}
use fru_lab.Js.Text.{Text}
use fru_lab.Dashboard.Types.{Answer, answered, failed}
use fru_lab.Tester.Status.{Panel, unless_cancelled, on_status, on_run, on_load}

-- The answers of the polls, in the order in which they come.
pub data Poll (St Ru Lo E : Type 0) : Type 0 where
  status_came : Answer E St → Poll St Ru Lo E
  run_came : Answer E Ru → Poll St Ru Lo E
  load_came : Answer E Lo → Poll St Ru Lo E

-- The specification: how often a status comes after a failure, or as the first one.
abbrev pub reached_again : {St Ru Lo E : Type 0} → Bool → List (Poll St Ru Lo E) → ℕ
reached_again true [] = 0
reached_again false [] = 0
reached_again true (status_came (answered st) ∷ ps) = 1 + reached_again false ps
reached_again false (status_came (answered st) ∷ ps) = reached_again false ps
reached_again true (status_came (failed e) ∷ ps) = reached_again true ps
reached_again false (status_came (failed e) ∷ ps) = reached_again true ps
reached_again true (run_came a ∷ ps) = reached_again true ps
reached_again false (run_came a ∷ ps) = reached_again false ps
reached_again true (load_came a ∷ ps) = reached_again true ps
reached_again false (load_came a ∷ ps) = reached_again false ps

module _ {St Ru Lo To E : Type 0} (message : E → Text → Text) where
  abbrev pub on_poll : Poll St Ru Lo E → Panel St Ru Lo To → Panel St Ru Lo To
  on_poll (status_came a) = on_status message a
  on_poll (run_came a) = on_run message a
  on_poll (load_came a) = on_load message a

  abbrev pub on_polls : List (Poll St Ru Lo E) → Panel St Ru Lo To → Panel St Ru Lo To
  on_polls [] s = s
  on_polls (p ∷ ps) s = on_polls ps (on_poll p s)

  -- A poll on the page of one tester, by what it does to the three variables that matter.
  poll_keeps :
      (p : Poll St Ru Lo E) (s : Panel St Ru Lo To)
      → s.is_cancelled ≡ false
      → ((on_poll p s).is_cancelled ≡ false)
        × ((on_poll p s).form ≡ s.form)
        × ((ps : List (Poll St Ru Lo E))
            → (on_poll p s).loads + reached_again (on_poll p s).was_down ps
              ≡ s.loads + reached_again s.was_down (p ∷ ps))
  unfolding on_status on_run on_load
  poll_keeps (status_came (answered st)) s on = elim (Bool-cases s.was_down) [
    | inl e ↦ rw (on, e, unless_cancelled) (refl, refl, λ ps. omega arith)
    | inr e ↦ rw (on, e, unless_cancelled) (refl, refl, λ ps. refl)
  ]
  poll_keeps (status_came (failed x)) s on = elim (Bool-cases s.was_down) [
    | inl e ↦ rw (on, e, unless_cancelled) (refl, refl, λ ps. refl)
    | inr e ↦ rw (on, e, unless_cancelled) (refl, refl, λ ps. refl)
  ]
  poll_keeps (run_came (answered r)) s on = elim (Bool-cases s.was_down) [
    | inl e ↦ rw (on, e, unless_cancelled) (refl, refl, λ ps. refl)
    | inr e ↦ rw (on, e, unless_cancelled) (refl, refl, λ ps. refl)
  ]
  poll_keeps (run_came (failed x)) s on = elim (Bool-cases s.was_down) [
    | inl e ↦ rw (on, e, unless_cancelled) (refl, refl, λ ps. refl)
    | inr e ↦ rw (on, e, unless_cancelled) (refl, refl, λ ps. refl)
  ]
  poll_keeps (load_came (answered l)) s on = elim (Bool-cases s.was_down) [
    | inl e ↦ rw (on, e, unless_cancelled) (refl, refl, λ ps. refl)
    | inr e ↦ rw (on, e, unless_cancelled) (refl, refl, λ ps. refl)
  ]
  poll_keeps (load_came (failed x)) s on = elim (Bool-cases s.was_down) [
    | inl e ↦ rw (on, e, unless_cancelled) (refl, refl, λ ps. refl)
    | inr e ↦ rw (on, e, unless_cancelled) (refl, refl, λ ps. refl)
  ]

  -- The answers of the polls, in whatever order they come, leave the form as it is, and read the
  -- CPU layout as often as the tester is reached after it was not, until the page is left.
  pub polls_lem :
      (ps : List (Poll St Ru Lo E)) (s : Panel St Ru Lo To)
      → s.is_cancelled ≡ false
      → ((on_polls ps s).form ≡ s.form)
        × ((on_polls ps s).loads ≡ s.loads + reached_again s.was_down ps)
  polls_lem [] s on = (
    refl,
    elim (Bool-cases s.was_down) [ inl e ↦ rw (e) (omega arith) | inr e ↦ rw (e) (omega arith) ],
  )
  polls_lem (p ∷ ps) s on =
      let (still, form, count) = poll_keeps p s on in
      let (later, all) = polls_lem ps (on_poll p s) still in (later ∙ form, all ∙ count ps)
