-- ===== src/Tester/Setup/Validate/Settles.antt =====
-- Without further edits the validation of the form comes to the page.
use fru_lab.Prelude.{
  ◌≡◌, inl, inr, refl, ◌∙◌, false, none, some, List, [], ◌∷◌, ◌++◌, ◌==◌, Bool-cases, Option-cases,
}
use fru_lab.Js.Text.{Text}
use fru_lab.Dashboard.Types.{Answer, answered, failed}
use fru_lab.Tester.Profiles.{ProfileOps}
use fru_lab.Tester.Setup.Validate.{
  Request, Validating, on_timer, answer_of, show_answer, on_validated, fires, answers, IsReachable,
  goes,
}
use fru_lab.Tester.Setup.Validate.Current.{expected, validation_current}

module _ {P V E : Type 0} (ops : ProfileOps P) (validate : Text → P → Answer E V)
    (message : E → Text → Text) where
  infix 40 ◌⟶*◌
  -- Steps that are timers and answers only.
  pub data ◌⟶*◌ : Validating P V → Validating P V → Type 0 where
    stays : {s : Validating P V} → s ⟶* s
    then_fires :
        {s t : Validating P V} (r : Request P)
        → s.timer ≡ some r
        → on_timer ops validate message r s ⟶* t
        → s ⟶* t
    then_answers :
        {s t : Validating P V} (r : Request P) (rs : List (Request P))
        → s.in_flight ≡ r ∷ rs
        → on_validated ops validate message r (record s { in_flight = rs }) ⟶* t
        → s ⟶* t

  -- The state behind the steps, where nothing is waiting and the form is the same.
  abbrev IsSettled : Validating P V → Validating P V → Type 0
  IsSettled s t =
      (s ⟶* t)
      × (t.timer ≡ none)
      × (t.in_flight ≡ [])
      × (t.is_loading ≡ s.is_loading)
      × (expected ops validate message t ≡ expected ops validate message s)

  -- An answer leaves the form and the requests.
  answer_keeps :
      (a : Answer E V) (s : Validating P V)
      → let t = show_answer ops validate message a s in
        (t.timer ≡ s.timer)
        × (t.in_flight ≡ s.in_flight)
        × (t.is_loading ≡ s.is_loading)
        × (expected ops validate message t ≡ expected ops validate message s)
  answer_keeps (answered v) s = (refl, refl, refl, refl)
  answer_keeps (failed e) s = (refl, refl, refl, refl)

  on_validated_keeps :
      (r : Request P) (s : Validating P V)
      → let t = on_validated ops validate message r s in
        (t.timer ≡ s.timer)
        × (t.in_flight ≡ s.in_flight)
        × (t.is_loading ≡ s.is_loading)
        × (expected ops validate message t ≡ expected ops validate message s)
  unfolding on_validated
  on_validated_keeps r s = elim (Bool-cases (r.seq == s.validate_seq)) [
    | inl e ↦ rw (e, on_validated) (answer_keeps (answer_of ops validate message r.profile) s)
    | inr e ↦ rw (e, on_validated) (refl, refl, refl, refl)
  ]

  drain :
      (rs : List (Request P)) (s : Validating P V)
      → s.in_flight ≡ rs
      → s.timer ≡ none
      → (t : Validating P V) × IsSettled s t
  drain [] s empty idle = (s, (stays, idle, empty, refl, refl))
  drain (r ∷ rs) s there idle =
      let s₁ : Validating P V = record s { in_flight = rs } in
      let (timer, flight, loading, form) = on_validated_keeps r s₁ in
      let (t, (steps, none_set, none_left, on, same)) =
        drain rs (on_validated ops validate message r s₁) flight (timer ∙ idle) in
      (t, (then_answers r rs there steps, none_set, none_left, on ∙ loading, same ∙ form))

  settles : (s : Validating P V) → (t : Validating P V) × IsSettled s t
  settles s = elim (Option-cases s.timer) [
    | inl idle ↦ drain s.in_flight s refl idle
    | inr (r, set) ↦
        let (t, (steps, none_set, none_left, on, same)) =
          drain (s.in_flight ++ r ∷ []) (on_timer ops validate message r s)
            (unfold on_timer in refl) (unfold on_timer in refl) in
        (
          t,
          (
            then_fires r set steps,
            none_set,
            none_left,
            on ∙ unfold on_timer in refl,
            same ∙ unfold on_timer in refl,
          ),
        )
  ]

  reached :
      {s t : Validating P V}
      → s ⟶* t
      → IsReachable ops validate message s
      → IsReachable ops validate message t
  reached stays h = h
  reached (then_fires r set steps) h = reached steps (goes h (fires r set))
  reached (then_answers r rs there steps) h = reached steps (goes h (answers [] rs r there))

  -- From every state that the loaded page can reach, the timer and the answers that are still due
  -- lead to one where nothing is waiting and the page shows what the profile's tester answers for
  -- the form.
  pub validation_settles :
      (s : Validating P V)
      → IsReachable ops validate message s
      → s.is_loading ≡ false
      → (t : Validating P V) × (s ⟶* t)
        × (t.timer ≡ none)
        × (t.in_flight ≡ [])
        × (t.validation ≡ expected ops validate message s)
  validation_settles s h on =
      let (t, (steps, idle, empty, loading, same)) = settles s in
      (
        t,
        steps,
        idle,
        empty,
        validation_current ops validate message t (reached steps h) (loading ∙ on) idle empty
            ∙ same,
      )
