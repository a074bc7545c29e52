-- ===== src/Tester/Setup/Validate/Current.antt =====
-- Once every request is answered, the validation on the page is the one of the form.
use mathlib.Core.Path.{subst}
use fru_lab.Prelude.{
  ℕ, ◌+◌, ◌≤◌, ◌≡◌, ◌≢◌, ◌⊎◌, inl, inr, refl, sym, ap, ◌∙◌, Bool, true, false, Option, none, some,
  List, [], ◌∷◌, ◌++◌, ◌==◌, ==_iff, arith, if◌then◌else◌, All, All-append, Bool-cases,
}
use fru_lab.Js.Text.{Text}
use fru_lab.Dashboard.Types.{Answer, answered, failed}
use fru_lab.Tester.Profiles.{ProfileOps}
use fru_lab.Tester.Setup.Validate.{
  Request, Validating, is_removed, run_effect, change, loaded, on_timer, answer_of, show_answer,
  on_validated, ◌⟶◌, changes, loads, fires, answers, IsReachable, begins, goes,
}

module _ {P : Type 0} where
  -- A request is no newer than the sequence number, and the latest one is for the form.
  abbrev IsOk : ℕ → P → Option Bool → Request P → Type 0
  IsOk seq p known r = (r.seq ≤ seq) × (r.seq ≡ seq → (r.profile ≡ p) × (is_removed known ≡ false))

  abbrev IsTimerOk : ℕ → P → Option Bool → Option (Request P) → Type 0
  IsTimerOk seq p known none = Unit
  IsTimerOk seq p known (some r) = (r.seq ≡ seq) × (r.profile ≡ p) × (is_removed known ≡ false)

  abbrev HasLatest : ℕ → List (Request P) → Type 0
  HasLatest seq [] = ⊥
  HasLatest seq (r ∷ rs) = (r.seq ≡ seq) ⊎ HasLatest seq rs

  All-remove :
      (Q : Request P → Type 0) (xs ys : List (Request P)) (r : Request P)
      → All Q (xs ++ r ∷ ys)
      → Q r × All Q (xs ++ ys)
  All-remove Q [] ys r (q, h) = (q, h)
  All-remove Q (x ∷ xs) ys r (q, h) = let (here, rest) = All-remove Q xs ys r h in (here, (q, rest))

  HasLatest-remove :
      (seq : ℕ) (xs ys : List (Request P)) (r : Request P)
      → r.seq ≢ seq
      → HasLatest seq (xs ++ r ∷ ys)
      → HasLatest seq (xs ++ ys)
  HasLatest-remove seq [] ys r ne (inl e) = absurd (ne e)
  HasLatest-remove seq [] ys r ne (inr h) = h
  HasLatest-remove seq (x ∷ xs) ys r ne (inl e) = inl e
  HasLatest-remove seq (x ∷ xs) ys r ne (inr h) = inr (HasLatest-remove seq xs ys r ne h)

  HasLatest-append :
      (seq : ℕ) (xs : List (Request P)) (r : Request P) → r.seq ≡ seq → HasLatest seq (xs ++ r ∷ [])
  HasLatest-append seq [] r e = inl e
  HasLatest-append seq (x ∷ xs) r e = inr (HasLatest-append seq xs r e)

  nil-ne-append : (xs ys : List (Request P)) (r : Request P) → [] ≢ xs ++ r ∷ ys
  nil-ne-append [] ys r e = cc
  nil-ne-append (x ∷ xs) ys r e = cc

  -- With a new sequence number every request is an old one.
  AreOk-later :
      (seq : ℕ) (p q : P) (known new : Option Bool) (rs : List (Request P))
      → All (IsOk seq p known) rs
      → All (IsOk (seq + 1) q new) rs
  AreOk-later seq p q known new [] h = tt
  AreOk-later seq p q known new (r ∷ rs) ((le, _), h) = (
    (omega arith, λ e. absurd (let bad : ⊥ = omega arith in bad)),
    AreOk-later seq p q known new rs h,
  )

module _ {P V E : Type 0} (ops : ProfileOps P) (validate : Text → P → Answer E V)
    (message : E → Text → Text) where
  abbrev pub shown : Answer E V → Option V
  shown (answered v) = some v
  shown (failed _) = none

  -- What the page should show: nothing if the tester was removed, else what its tester answers.
  abbrev pub expected : Validating P V → Option V
  expected s =
      if is_removed s.tester_known then none else shown (answer_of ops validate message s.profile)

  abbrev IsPending : Validating P V → Type 0
  IsPending s = ((r : Request P) × (s.timer ≡ some r)) ⊎ HasLatest s.validate_seq s.in_flight

  abbrev IsIdle : Validating P V → Type 0
  IsIdle s = (s.is_loading ≡ true) × (s.timer ≡ none) × (s.in_flight ≡ [])

  abbrev IsActive : Validating P V → Type 0
  IsActive s =
      (s.is_loading ≡ false)
      × IsTimerOk s.validate_seq s.profile s.tester_known s.timer
      × All (IsOk s.validate_seq s.profile s.tester_known) s.in_flight
      × (IsPending s ⊎ (s.validation ≡ expected s))

  abbrev Inv : Validating P V → Type 0
  Inv s = IsIdle s ⊎ IsActive s

  -- The effect of a page that is loaded, whose requests are all old.
  Inv-run_effect :
      (s : Validating P V)
      → s.is_loading ≡ false
      → All (IsOk (s.validate_seq + 1) s.profile s.tester_known) s.in_flight
      → Inv (run_effect ops validate message s)
  unfolding run_effect
  Inv-run_effect s on old = elim (Bool-cases (is_removed s.tester_known)) [
    | inl e ↦ rw (on, e, run_effect) (inr (refl, tt, old, inr (rw (e) refl)))
    | inr e ↦ rw (on, e, run_effect) (inr (refl, (refl, refl, e), old, inl (inl (_, refl))))
  ]

  Inv-change :
      (p : P) (known : Option Bool) (s : Validating P V)
      → Inv s
      → Inv (change ops validate message p known s)
  unfolding change run_effect
  Inv-change p known s (inl (loading, idle, empty)) =
      rw (loading, run_effect) (inl (refl, refl, empty))
  Inv-change p known s (inr (on, timer, flight, _)) =
      Inv-run_effect (record s { profile = p; tester_known = known }) on
        (AreOk-later s.validate_seq s.profile p s.tester_known known s.in_flight flight)

  Inv-loaded :
      (p : P) (s : Validating P V)
      → s.is_loading ≡ true
      → Inv s
      → Inv (loaded ops validate message p s)
  unfolding loaded
  Inv-loaded p s loading (inl (_, idle, empty)) =
      Inv-run_effect (record s { profile = p; is_loading = false }) refl
        (subst (All (IsOk (s.validate_seq + 1) p s.tester_known)) (sym empty) tt)
  Inv-loaded p s loading (inr (on, _, _, _)) = absurd cc

  Inv-on_timer :
      (r : Request P) (s : Validating P V)
      → s.timer ≡ some r
      → Inv s
      → Inv (on_timer ops validate message r s)
  unfolding on_timer
  Inv-on_timer r s set (inl (_, idle, _)) = absurd cc
  Inv-on_timer r s set (inr (on, timer, flight, _)) =
      let (same, form, known) =
        subst (IsTimerOk s.validate_seq s.profile s.tester_known) set timer in
      inr (
        on,
        tt,
        All-append (IsOk s.validate_seq s.profile s.tester_known) s.in_flight (r ∷ []) flight
            ((omega arith, λ _. (form, known)), tt),
        inl (inr (HasLatest-append s.validate_seq s.in_flight r same)),
      )

  -- The answer to the latest request.
  Inv-show_answer :
      (a : Answer E V) (s : Validating P V)
      → s.is_loading ≡ false
      → IsTimerOk s.validate_seq s.profile s.tester_known s.timer
      → All (IsOk s.validate_seq s.profile s.tester_known) s.in_flight
      → expected s ≡ shown a
      → Inv (show_answer ops validate message a s)
  Inv-show_answer (answered v) s on timer flight e = inr (on, timer, flight, inr (sym e))
  Inv-show_answer (failed x) s on timer flight e = inr (on, timer, flight, inr (sym e))

  Inv-on_validated :
      (xs ys : List (Request P)) (r : Request P) (s : Validating P V)
      → s.in_flight ≡ xs ++ r ∷ ys
      → Inv s
      → Inv (on_validated ops validate message r (record s { in_flight = xs ++ ys }))
  unfolding on_validated
  Inv-on_validated xs ys r s there (inl (_, _, empty)) =
      absurd (nil-ne-append xs ys r (sym empty ∙ there))
  Inv-on_validated xs ys r s there (inr (on, timer, flight, shows)) =
      let ((le, latest), rest) =
        All-remove (IsOk s.validate_seq s.profile s.tester_known) xs ys r
          (subst (All (IsOk s.validate_seq s.profile s.tester_known)) there flight) in
      elim (Bool-cases (r.seq == s.validate_seq)) [
        | inl e ↦
            let (form, known) = latest ((==_iff r.seq s.validate_seq).0 e) in
            rw (e, on_validated)
              (Inv-show_answer (answer_of ops validate message r.profile) _ on timer rest
                (rw (known) (ap (λ p. shown (answer_of ops validate message p)) (sym form))))
        | inr e ↦
            let old : r.seq ≢ s.validate_seq =
              λ same. (let f = (==_iff r.seq s.validate_seq).1 same in cc) in
            rw (e, on_validated)
              (inr (
                on,
                timer,
                rest,
                elim shows [
                  | inl (inl waits) ↦ inl (inl waits)
                  | inl (inr has) ↦ inl (
                      inr (
                        HasLatest-remove s.validate_seq xs ys r old
                          (subst (HasLatest s.validate_seq) there has)))
                  | inr done ↦ inr done
                ],
              ))
      ]

  Inv-step : {s t : Validating P V} → (◌⟶◌ ops validate message s t) → Inv s → Inv t
  Inv-step {s} (changes p known) = Inv-change p known s
  Inv-step {s} (loads p h) = Inv-loaded p s h
  Inv-step {s} (fires r h) = Inv-on_timer r s h
  Inv-step {s} (answers xs ys r h) = Inv-on_validated xs ys r s h

  Inv-of_IsReachable : {s : Validating P V} → IsReachable ops validate message s → Inv s
  Inv-of_IsReachable (begins p) = inl (refl, refl, refl)
  Inv-of_IsReachable (goes before step) = Inv-step step (Inv-of_IsReachable before)

  -- However edits, timers and answers follow each other: when the page is loaded and no request is
  -- waiting or in flight, it shows what the profile's tester answers for the form as it is now, and
  -- nothing if that tester was removed or the request failed.
  pub validation_current :
      (s : Validating P V)
      → IsReachable ops validate message s
      → s.is_loading ≡ false
      → s.timer ≡ none
      → s.in_flight ≡ []
      → s.validation ≡ expected s
  validation_current s reached on idle empty = elim (Inv-of_IsReachable reached) [
    | inl (loading, _, _) ↦ absurd cc
    | inr (_, _, _, inr e) ↦ e
    | inr (_, _, _, inl (inl (r, set))) ↦ absurd cc
    | inr (_, _, _, inl (inr has)) ↦ absurd (subst (HasLatest s.validate_seq) empty has)
  ]
