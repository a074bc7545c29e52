-- ===== src/Tester/Setup/Start.antt =====
-- A run is started with a saved profile only.
use fru_lab.Prelude.{
  ◌≡◌, ◌⊎◌, inl, inr, refl, ap, ◌∙◌, Bool, true, false, Option, none, some, List, [], ◌∷◌, ◌++◌,
  Bool-cases, Option-cases,
}
use fru_lab.Js.Text.{Text, trim}
use fru_lab.Dashboard.Types.{Answer, answered, failed}
use fru_lab.Tester.Profiles.{TesterStoredProfile, ProfileOps}
use fru_lab.Tester.Setup.{
  Effect, create_called, update_called, run_called, went_to, run_page, told_success, told_error,
  Setup, SetupApi, for_start, emit, is_dirty, put_stored, is_refused, send_create,
}
use fru_lab.Tester.Setup.Handlers.{
  on_created, on_started, on_updated, run_id, start, start_open, start_updated, save_new, update,
  handle_start,
}

-- The runs that were asked for, in order.
abbrev pub runs_of : {P : Type 0} → List (Effect P) → List (Text × P)
runs_of [] = []
runs_of (run_called id p ∷ es) = (id, p) ∷ runs_of es
runs_of (create_called _ ∷ es) = runs_of es
runs_of (update_called _ _ ∷ es) = runs_of es
runs_of (went_to _ ∷ es) = runs_of es
runs_of (told_success _ ∷ es) = runs_of es
runs_of (told_error _ ∷ es) = runs_of es

runs_of-append :
    {P : Type 0} (xs ys : List (Effect P)) → runs_of (xs ++ ys) ≡ runs_of xs ++ runs_of ys
runs_of-append [] ys = refl
runs_of-append (run_called id p ∷ xs) ys = ap (λ r. (id, p) ∷ r) (runs_of-append xs ys)
runs_of-append (create_called _ ∷ xs) ys = runs_of-append xs ys
runs_of-append (update_called _ _ ∷ xs) ys = runs_of-append xs ys
runs_of-append (went_to _ ∷ xs) ys = runs_of-append xs ys
runs_of-append (told_success _ ∷ xs) ys = runs_of-append xs ys
runs_of-append (told_error _ ∷ xs) ys = runs_of-append xs ys

append_nil : {A : Type 0} (xs : List A) → xs ++ [] ≡ xs
append_nil [] = refl
append_nil (x ∷ xs) = ap (λ r. x ∷ r) (append_nil xs)

-- An effect that asks for no run.
runs_same :
    {P : Type 0} (xs ys : List (Effect P)) → runs_of ys ≡ [] → runs_of (xs ++ ys) ≡ runs_of xs
runs_same xs ys e = runs_of-append xs ys ∙ ap (λ r. runs_of xs ++ r) e ∙ append_nil (runs_of xs)

module _ {P E : Type 0} (ops : ProfileOps P) (storage : Bool) (api : SetupApi P E) where
  -- The run of a profile was asked for, and either the page went to it or it may be tried again.
  abbrev pub IsRun : List (Effect P) → P → Setup P → Type 0
  IsRun es p t =
      (runs_of t.effects ≡ runs_of es ++ (run_id ops storage api p, ops.for_tester p) ∷ [])
      × ((t.is_busy ≡ false)
          ⊎ ((s : Setup P) × (t ≡ emit (went_to (run_page (run_id ops storage api p))) s)))

  -- The profile that the server has, as `handleStart` starts it.
  abbrev pub IsSaved : Option Text → Setup P → P → Type 0
  IsSaved none s p =
      (q : TesterStoredProfile P) × (api.create
          (ops.with_name (trim (ops.name s.profile)) s.profile)
        ≡ answered q)
      × (p ≡ ops.normalize q.profile)
  IsSaved (some id) s p =
      ((is_dirty ops storage s ≡ false)
        ⊎ ((q : TesterStoredProfile P) × (api.update id s.profile ≡ answered q)))
      × (p ≡ s.profile)

  start-IsRun : (p : P) (s : Setup P) → IsRun s.effects p (start ops storage api p s)
  unfolding start
  start-IsRun p s = go (api.run_start id (ops.for_tester p))
    where
      id : Text
      id = run_id ops storage api p

      go :
          (o : Option E)
          → IsRun s.effects p
              (on_started ops storage api id o (emit (run_called id (ops.for_tester p)) s))
      go none = (
        runs_same (s.effects ++ run_called id (ops.for_tester p) ∷ []) (went_to (run_page id) ∷ [])
              refl
            ∙ runs_of-append s.effects (run_called id (ops.for_tester p) ∷ []),
        inr (_, refl),
      )
      go (some e) = (
        runs_same (s.effects ++ run_called id (ops.for_tester p) ∷ []) (told_error _ ∷ []) refl
            ∙ runs_of-append s.effects (run_called id (ops.for_tester p) ∷ []),
        inl refl,
      )

  -- What an operation of the page may have done with the run of a profile `p` of state `s`.
  abbrev pub IsStarted : (P → Type 0) → List (Effect P) → Setup P → Type 0
  IsStarted Saved es t =
      ((runs_of t.effects ≡ runs_of es) × (t.is_busy ≡ false)) ⊎ ((p : P) × Saved p × IsRun es p t)

  -- More effects came before the run, none of which asks for one.
  IsRun-later :
      (p : P) (es more : List (Effect P)) (t : Setup P)
      → runs_of more ≡ []
      → IsRun (es ++ more) p t
      → IsRun es p t
  IsRun-later p es more t none_of (e, ended) =
      let r : Text × P = (run_id ops storage api p, ops.for_tester p) in
      (e ∙ ap (λ x. x ++ r ∷ []) (runs_same es more none_of), ended)

  created-IsStarted :
      (name : Text) (a : Answer E (TesterStoredProfile P)) (s : Setup P)
      → IsStarted
          (λ p. (q : TesterStoredProfile P) × (a ≡ answered q) × (p ≡ ops.normalize q.profile))
          s.effects
          (on_created ops storage api name for_start a s)
  unfolding on_created
  created-IsStarted name (failed e) s = inl (runs_same s.effects (told_error _ ∷ []) refl, refl)
  created-IsStarted name (answered q) s = inr (
    ops.normalize q.profile,
    (q, refl, refl),
    start-IsRun (ops.normalize q.profile) (put_stored ops storage q s),
  )

  save_new-IsStarted :
      (name : Text) (s : Setup P)
      → s.is_busy ≡ false
      → IsStarted
          (λ p.
            (q : TesterStoredProfile P) × (api.create (ops.with_name (trim name) s.profile)
              ≡ answered q)
            × (p ≡ ops.normalize q.profile))
          s.effects
          (save_new ops storage api name for_start s)
  unfolding save_new
  save_new-IsStarted name s idle = elim (Bool-cases (is_refused ops storage name s)) [
    | inl e ↦ rw (e, save_new) (inl (refl, idle))
    | inr e ↦
        let sent = ops.with_name (trim name) s.profile in
        let more : List (Effect P) = create_called sent ∷ [] in
        rw (e, save_new)
          (elim (created-IsStarted name (api.create sent) (send_create ops storage name s)) [
            | inl (same, done) ↦ inl (same ∙ runs_same s.effects more refl, done)
            | inr (p, saved, run) ↦ inr (p, saved, IsRun-later p s.effects more _ refl run)
          ])
  ]

  updated-IsStarted :
      (form : P) (a : Answer E (TesterStoredProfile P)) (s : Setup P)
      → IsStarted
          (λ p. ((q : TesterStoredProfile P) × (a ≡ answered q)) × (p ≡ form))
          s.effects
          (start_updated ops storage api form (on_updated ops storage api a s))
  updated-IsStarted form (failed e) s = inl (runs_same s.effects (told_error _ ∷ []) refl, refl)
  updated-IsStarted form (answered q) s =
      inr (form, ((q, refl), refl), start-IsRun form (put_stored ops storage q s))

  start_open-IsStarted :
      (id : Text) (s : Setup P)
      → s.current_id ≡ some id
      → IsStarted (IsSaved (some id) s) s.effects (start_open ops storage api s)
  unfolding update
  start_open-IsStarted id s opened = elim (Bool-cases (is_dirty ops storage s)) [
    | inr e ↦
        rw (e, start_open)
          (inr (s.profile, (inl refl, refl), start-IsRun s.profile (record s { is_busy = true })))
    | inl e ↦
        let more : List (Effect P) = update_called id s.profile ∷ [] in
        rw (e, start_open)
          (rw (opened, update)
            (elim (updated-IsStarted s.profile (api.update id s.profile)
              (emit (update_called id s.profile) (record s { is_busy = true }))) [
                | inl (same, done) ↦ inl (same ∙ runs_same s.effects more refl, done)
                | inr (p, (saved, form), run) ↦
                    inr (p, (inr saved, form), IsRun-later p s.effects more _ refl run)
              ]))
  ]

  -- Start asks for at most one run, of a profile that the server has saved: the new profile that it
  -- answers, or the form, which is unchanged or was updated. Otherwise it asks for none. In the end
  -- the page has gone to the run, or it is not busy, if it was not busy before.
  pub handle_start_lem :
      (s : Setup P)
      → s.is_busy ≡ false
      → IsStarted (IsSaved s.current_id s) s.effects (handle_start ops storage api s)
  unfolding handle_start
  handle_start_lem s idle = elim (Option-cases s.current_id) [
    | inl e ↦ rw (e, handle_start) (save_new-IsStarted (ops.name s.profile) s idle)
    | inr (id, e) ↦ rw (e, handle_start) (start_open-IsStarted id s e)
  ]
