-- ===== src/Tester/Setup/Validate.antt =====
-- The validation of the form in web/frontend/src/page/tester/TesterSetupPage.tsx: 400 ms after the
-- last edit a request is sent, and a sequence number tells its answer from those of older requests.
-- The answers come in any order, as steps.
pub mod Current
pub mod Settles
use fru_lab.Prelude.{
  ℕ, ◌+◌, ◌≡◌, Bool, true, false, Option, none, some, List, [], ◌∷◌, ◌++◌, ◌==◌, if◌then◌else◌,
}
use fru_lab.Js.Text.{Text, codes, or_else}
use fru_lab.Dashboard.Types.{Answer, answered, failed}
use fru_lab.Tester.Profiles.{ProfileOps}

-- What the closure of an effect keeps.
pub record Request (P : Type 0) : Type 0 where
  pub seq : ℕ
  pub profile : P

pub record Validating (P V : Type 0) : Type 0 where
  pub profile : P
  pub is_loading : Bool
  pub tester_known : Option Bool
  pub validate_seq : ℕ
  pub timer : Option (Request P)
  pub in_flight : List (Request P)
  pub validation : Option V
  pub errors : List Text

abbrev pub not_validated : {P V : Type 0} → P → Validating P V
not_validated profile = record {
  profile = profile;
  is_loading = true;
  tester_known = none;
  validate_seq = 0;
  timer = none;
  in_flight = [];
  validation = none;
  errors = [];
}

-- `testerKnown === false`.
abbrev pub is_removed : Option Bool → Bool
is_removed (some false) = true
is_removed (some true) = false
is_removed none = false

module _ {P V E : Type 0} (ops : ProfileOps P) (validate : Text → P → Answer E V)
    (message : E → Text → Text) where
  -- The effect, behind the clean-up that clears the timer of the last one.
  unfoldable pub run_effect : Validating P V → Validating P V
  run_effect s =
      let seq = s.validate_seq + 1 in
      if s.is_loading
      then record s { timer = none }
      else if is_removed s.tester_known
      then record s { timer = none; validate_seq = seq; validation = none }
      else record s { timer = some (record { seq = seq; profile = s.profile }); validate_seq = seq }

  -- An edit, or news of the testers.
  unfoldable pub change : P → Option Bool → Validating P V → Validating P V
  change p known s = run_effect (record s { profile = p; tester_known = known })

  -- The saved profiles were loaded, and one is open.
  unfoldable pub loaded : P → Validating P V → Validating P V
  loaded p s = run_effect (record s { profile = p; is_loading = false })

  unfoldable pub on_timer : Request P → Validating P V → Validating P V
  on_timer r s = record s { timer = none; in_flight = s.in_flight ++ r ∷ [] }

  abbrev pub answer_of : P → Answer E V
  answer_of p = validate (or_else (ops.tester_id p) (codes "default")) (ops.for_tester p)

  abbrev pub show_answer : Answer E V → Validating P V → Validating P V
  show_answer (answered v) s = record s { validation = some v }
  show_answer (failed e) s = record s {
    validation = none;
    errors = s.errors ++ message e (codes "Failed to validate the profile") ∷ [];
  }

  unfoldable pub on_validated : Request P → Validating P V → Validating P V
  on_validated r s = if r.seq == s.validate_seq then show_answer (answer_of r.profile) s else s

  infix 40 ◌⟶◌
  pub data ◌⟶◌ : Validating P V → Validating P V → Type 0 where
    changes : {s : Validating P V} (p : P) (known : Option Bool) → s ⟶ change p known s
    loads : {s : Validating P V} (p : P) → s.is_loading ≡ true → s ⟶ loaded p s
    fires : {s : Validating P V} (r : Request P) → s.timer ≡ some r → s ⟶ on_timer r s
    answers :
        {s : Validating P V} (xs ys : List (Request P)) (r : Request P)
        → s.in_flight ≡ xs ++ r ∷ ys
        → s ⟶ on_validated r (record s { in_flight = xs ++ ys })

  pub data IsReachable : Validating P V → Type 0 where
    begins : (p : P) → IsReachable (not_validated p)
    goes : {s t : Validating P V} → IsReachable s → s ⟶ t → IsReachable t
