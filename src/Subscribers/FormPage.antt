-- ===== src/Subscribers/FormPage.antt =====
-- web/frontend/src/page/subscribers/SubscriberFormPage.tsx: loading, editing and saving the form.
-- What the webconsole answers is a parameter, and so is the text that an error is shown by. Several
-- subscribers are created through `runLimited`, whose schedule is a parameter.
pub mod Create
pub mod Edits
pub mod RowIds
pub mod KeptIds
mod Tests
use fru_lab.Prelude.{
  ℕ, ◌+◌, ◌-◌, ◌>>=◌, ◌&&◌, ltb, Bool, true, false, not, Option, none, some, List, [], ◌∷◌, ◌++◌,
  if◌then◌else◌, length, get_elem?, map, keep, max,
}
use fru_lab.Js.Text.{Text, codes, text_eq, is_empty}
use fru_lab.Js.Decimal.{decimal}
use fru_lab.Js.Numbers.{Numbers}
use fru_lab.Dashboard.Types.{Answer, answered, failed}
use fru_lab.Subscribers.BulkIds.{BulkResult, ids, message, bulk_ue_ids}
use fru_lab.Subscribers.RunLimited.{Failure, Pool, bulk_concurrency, result}
use fru_lab.Subscribers.RunLimited.Result.{after}
use fru_lab.Subscribers.Webconsole.{Subscription}
use fru_lab.Subscribers.Form.{
  FlowRuleBundleRow, SessionFormRow, SubscriberFormState, make_flow_rule_bundle, make_session_row,
  make_default_up_security,
}
use fru_lab.Subscribers.Form.Save.{to_subscription}
use fru_lab.Subscribers.Form.Load.{from_subscription}

pub record BulkFailure : Type 0 where
  pub ue_id : Text
  pub message : Text

pub record FormPage : Type 0 where
  pub form : SubscriberFormState
  pub is_loading : Bool
  pub is_saving : Bool
  pub load_error : Option Text
  pub progress : ℕ
  pub bulk_failures : List BulkFailure
  pub errors : List Text
  pub successes : List Text
  pub is_left : Bool

-- Two parameters of the route, the subscriber that is edited.
abbrev pub is_edit_mode : Text → Text → Bool
is_edit_mode edit_ue_id edit_plmn_id = not (is_empty edit_ue_id) && not (is_empty edit_plmn_id)

-- `bulkIds`, of more than one subscriber.
abbrev pub bulk_ids : FormPage → ℕ → BulkResult
bulk_ids s count = bulk_ue_ids s.form.ue_id (some count)

abbrev pub last_progress : List ℕ → ℕ
last_progress [] = 0
last_progress (n ∷ []) = n
last_progress (n ∷ m ∷ ms) = last_progress (m ∷ ms)

module _ {N E : Type 0} (js : Numbers N) (extract_message : E → Text → Text) where
  -- `loadForEdit` behind its call, with the counter of the rows.
  unfoldable pub on_loaded : Answer E (Subscription N) → ℕ → FormPage → ℕ × FormPage
  on_loaded (answered sub) next s =
      let (last, form) = from_subscription js sub next in
      (last, record s { form = form; load_error = none; is_loading = false })
  on_loaded (failed e) next s = (
    next,
    record s {
      load_error = some (extract_message e (codes "Failed to load subscriber"));
      is_loading = false;
    },
  )

  module _ (post put : Text → Text → Subscription N → Option E) where
    -- The form's subscription with only `ueId` changed.
    abbrev pub create_one : Subscription N → Text → Option E
    create_one base ue_id = post ue_id base.plmn_id (record base { ue_id = ue_id })

    abbrev pub create_at : Subscription N → List Text → ℕ → Option E
    create_at base all i = get_elem? all i >>= create_one base

    abbrev pub failure_of : Failure Text E → BulkFailure
    failure_of f = record {
      ue_id = f.item;
      message = extract_message f.error (codes "Failed to create");
    }

    abbrev pub pool_of : SubscriberFormState → List Text → List ℕ → Pool Text E
    pool_of form all schedule =
        after all (create_at (to_subscription js form) all) bulk_concurrency schedule

    -- `createMany`.
    unfoldable pub create_many : SubscriberFormState → List Text → List ℕ → List BulkFailure
    create_many form all schedule = map failure_of (result (pool_of form all schedule))

    abbrev pub bulk_error : ℕ → ℕ → Text
    bulk_error total bad =
        codes "Created "
        ++ decimal (total - bad)
        ++ codes " of "
        ++ decimal total
        ++ codes "; "
        ++ decimal bad
        ++ codes " failed (listed below)"

    -- What follows `createMany`.
    abbrev pub on_created : ℕ → List BulkFailure → FormPage → FormPage
    on_created total [] s = record s { is_left = true; is_saving = false }
    on_created total (f ∷ fs) s = record s {
      bulk_failures = f ∷ fs;
      errors = s.errors ++ bulk_error total (length (f ∷ fs)) ∷ [];
      is_saving = false;
    }

    abbrev pub submit_bulk : BulkResult → List ℕ → FormPage → FormPage
    submit_bulk (message text) schedule s = record s { errors = s.errors ++ text ∷ [] }
    submit_bulk (ids all) schedule s =
        on_created (length all) (create_many s.form all schedule) (record s {
          is_saving = true;
          progress = last_progress (pool_of s.form all schedule).progress;
          bulk_failures = [];
        })

    abbrev pub on_saved : Text → Option E → FormPage → FormPage
    on_saved text none s = record s {
      successes = s.successes ++ text ∷ [];
      is_left = true;
      is_saving = false;
    }
    on_saved text (some e) s = record s {
      errors = s.errors ++ extract_message e (codes "Failed to save subscriber") ∷ [];
      is_saving = false;
    }

    abbrev pub submit_one : Bool → Text → Text → FormPage → FormPage
    submit_one true edit_ue_id edit_plmn_id s =
        let sub = to_subscription js s.form in
        on_saved (codes "Updated " ++ sub.ue_id) (put edit_ue_id edit_plmn_id sub) s
    submit_one false edit_ue_id edit_plmn_id s =
        let sub = to_subscription js s.form in
        on_saved (codes "Created " ++ sub.ue_id) (post sub.ue_id sub.plmn_id sub) s

    -- `handleSubmit`, of `count` subscribers.
    unfoldable pub handle_submit : Text → Text → ℕ → List ℕ → FormPage → FormPage
    handle_submit edit_ue_id edit_plmn_id count schedule s =
        let edits = is_edit_mode edit_ue_id edit_plmn_id in
        if not edits && ltb 1 count
        then submit_bulk (bulk_ids s count) schedule s
        else submit_one edits edit_ue_id edit_plmn_id s
