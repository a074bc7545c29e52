-- ===== src/Tester/Setup/Tests.antt =====
-- The setup page on two saved profiles, and the theorems at concrete inputs.
use fru_lab.Prelude.{ℕ, ◌≡◌, refl, sym, ap, true, false, none, some, [], ◌∷◌, ◌++◌}
use fru_lab.Js.Text.{Text, codes, trim, trim_start, trim_end}
use fru_lab.Js.Numbers.{whole}
use fru_lab.Dashboard.Types.{Answer, answered, failed}
use fru_lab.Tester.Defaults.{Json, text, obj, default_tester_profile}
use fru_lab.Tester.Profiles.{TesterStoredProfile, ProfileOps, ProfileLaws}
use fru_lab.Tester.Profiles.OfJson.{
  json_profiles, json_profiles-ProfileLaws, ascii_lower, ascii_lower-IsCaseMapping,
}
use fru_lab.Tester.Setup.{
  Setup, SetupApi, for_save, for_start, initial_setup, is_refused, proposed, send_create, list_of,
}
use fru_lab.Tester.Setup.Handlers.{on_created, save_new, handle_rename, handle_start}
use fru_lab.Tester.Setup.Save.{
  AreDistinct, KeepsName, key, save_new-AreDistinct, handle_rename-save_new,
}
use fru_lab.Tester.Setup.Start.{IsStarted, IsSaved, handle_start_lem}
use fru_lab.Tester.Setup.Validate.{
  Validating, not_validated, loaded, run_effect, on_timer, on_validated, IsReachable, begins, goes,
  loads, fires, answers,
}
use fru_lab.Tester.Setup.Validate.Current.{expected, validation_current}
use fru_lab.Tester.Setup.Validate.Settles.{◌⟶*◌, validation_settles}

abbrev ops : ProfileOps (Json ℕ)
ops = json_profiles whole (λ _. []) ascii_lower (λ _ _. true)

laws : ProfileLaws ops
laws = json_profiles-ProfileLaws whole (λ _. []) ascii_lower (λ _ _. true) ascii_lower-IsCaseMapping

-- A server that stores what it is sent, and starts every run.
abbrev store : Json ℕ → TesterStoredProfile (Json ℕ)
store p = record { id = codes "new"; updated_at = []; profile = p }

abbrev api : SetupApi (Json ℕ) Text
api = record {
  create = λ p. answered (store p);
  update = λ id p. answered (record { id = id; updated_at = []; profile = p });
  run_start = λ _ _. none;
  extract_error_message = λ e _. e;
}

abbrev stored_of :
    TesterStoredProfile (Json ℕ)
    → Answer Text (TesterStoredProfile (Json ℕ))
    → TesterStoredProfile (Json ℕ)
stored_of d (answered q) = q
stored_of d (failed _) = d

api-keeps : KeepsName ops laws true api
api-keeps p q h = ap (key ops) (sym (ap (stored_of q) h))

-- A page that is loaded, with one saved profile, named like the default one.
abbrev page : Setup (Json ℕ)
page = record (initial_setup ops true none) {
  profiles = some (
      record {
        id = codes "a";
        updated_at = [];
        profile = obj ((codes "name", text (codes "Basic")) ∷ []);
      }
      ∷ []);
  is_loading = false;
}

save_new-AreDistinct_example :
    AreDistinct ops (list_of (save_new ops true api (codes "Other") for_save page))
save_new-AreDistinct_example =
    save_new-AreDistinct ops laws true api api-keeps (codes "Other") for_save page (tt, tt)

taken : is_refused ops true (codes "BASIC ") page ≡ true
unfolding trim trim_start trim_end
taken = refl

handle_rename-save_new_example :
    handle_rename ops true api (save_new ops true api (codes "BASIC ") for_start page)
    ≡ on_created ops true api
        (proposed ops true (codes "BASIC ") page)
        for_start
        (api.create (ops.with_name (trim (proposed ops true (codes "BASIC ") page)) page.profile))
        (send_create ops true
          (proposed ops true (codes "BASIC ") page)
          (record page { rename = none }))
handle_rename-save_new_example =
    handle_rename-save_new ops laws true api (codes "BASIC ") for_start page taken

handle_start_lem_example :
    IsStarted ops true api (IsSaved ops true api none page) [] (handle_start ops true api page)
handle_start_lem_example = handle_start_lem ops true api page refl

abbrev validate : Text → Json ℕ → Answer Text ℕ
validate _ _ = answered 7

abbrev message : Text → Text → Text
message e _ = e

abbrev form : Json ℕ
form = default_tester_profile whole

abbrev opened : Validating (Json ℕ) ℕ
opened = loaded ops validate message form (not_validated form)

opened-IsReachable : IsReachable ops validate message opened
opened-IsReachable = goes (begins form) (loads form refl)

on : opened.is_loading ≡ false
unfolding loaded run_effect
on = refl

-- The timer has fired and the answer has come.
abbrev answered_state : Validating (Json ℕ) ℕ
answered_state =
    on_validated ops validate message (record { seq = 1; profile = form })
      (record (on_timer ops validate message (record { seq = 1; profile = form }) opened) {
        in_flight = [] ++ [];
      })

answered-IsReachable : IsReachable ops validate message answered_state
unfolding loaded run_effect on_timer
answered-IsReachable = goes (goes opened-IsReachable (fires _ refl)) (answers [] [] _ refl)

seven : answered_state.validation ≡ some 7
unfolding loaded run_effect on_timer on_validated
seven = refl

settled :
    (answered_state.is_loading ≡ false)
    × (answered_state.timer ≡ none)
    × (answered_state.in_flight ≡ [])
unfolding loaded run_effect on_timer on_validated
settled = (refl, refl, refl)

validation_current_example :
    answered_state.validation ≡ expected ops validate message answered_state
validation_current_example =
    validation_current ops validate message answered_state answered-IsReachable settled.0 settled.1
      settled.2

validation_settles_example :
    (t : Validating (Json ℕ) ℕ) × (◌⟶*◌ ops validate message opened t)
    × (t.timer ≡ none)
    × (t.in_flight ≡ [])
    × (t.validation ≡ expected ops validate message opened)
validation_settles_example = validation_settles ops validate message opened opened-IsReachable on
