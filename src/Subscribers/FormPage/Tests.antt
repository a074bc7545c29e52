-- ===== src/Subscribers/FormPage/Tests.antt =====
-- Runs of the form page, and the theorems at concrete inputs.
use fru_lab.Prelude.{
  ℕ, ◌≡◌, refl, false, Option, none, some, List, [], ◌∷◌, arith, length, if◌then◌else◌,
}
use fru_lab.Js.Text.{Text, codes, text_eq}
use fru_lab.Js.Numbers.{whole}
use fru_lab.Subscribers.BulkIds.{ids}
use fru_lab.Subscribers.RunLimited.{pick, take_next, finish, settle, launch, start, run_schedule}
use fru_lab.Subscribers.Webconsole.{Subscription}
use fru_lab.Subscribers.Form.{SubscriberFormState}
use fru_lab.Subscribers.Form.Save.{to_subscription}
use fru_lab.Subscribers.Form.Ids.{ids_of}
use fru_lab.Subscribers.FormPage.{FormPage, pool_of, submit_bulk}
use fru_lab.Subscribers.FormPage.Create.{create_in_turn, no_failure, submit_bulk_lem}
use fru_lab.Subscribers.FormPage.RowIds.{
  AreApart, Edit, adds_session, adds_rule, deletes_rule, edits,
}
use fru_lab.Subscribers.FormPage.KeptIds.{edits-AreApart}

abbrev form : SubscriberFormState
form = record {
  ue_id = codes "imsi-208930000000001";
  plmn_mcc = codes "208";
  plmn_mnc = codes "93";
  gpsi = [];
  permanent_key = codes "8baf";
  op_value = codes "8e27";
  sequence_number = codes "23";
  amf = codes "8000";
  ambr_uplink = codes "1 Gbps";
  ambr_downlink = codes "2 Gbps";
  sessions = [];
}

abbrev page : FormPage
page = record {
  form = form;
  is_loading = false;
  is_saving = false;
  load_error = none;
  progress = 0;
  bulk_failures = [];
  errors = [];
  successes = [];
  is_left = false;
}

abbrev all : List Text
all = codes "imsi-208930000000001" ∷ codes "imsi-208930000000002" ∷ []

-- The second subscriber exists already.
abbrev post : Text → Text → Subscription ℕ → Option Text
post ue_id plmn_id sub =
    if text_eq ue_id (codes "imsi-208930000000002") then some (codes "exists") else none

abbrev message : Text → Text → Text
message e _ = e

-- The second call is answered first.
over : (pool_of whole message post post form all (1 ∷ 0 ∷ [])).flying ≡ []
unfolding pick take_next finish settle launch start run_schedule
over = refl

submit_bulk_lem_example :
    ((submit_bulk whole message post post (ids all) (1 ∷ 0 ∷ []) page).bulk_failures
      ≡ create_in_turn whole message post post (to_subscription whole form) all)
    × ((submit_bulk whole message post post (ids all) (1 ∷ 0 ∷ []) page).is_saving ≡ false)
    × ((submit_bulk whole message post post (ids all) (1 ∷ 0 ∷ []) page).is_left
        ≡ no_failure
            (submit_bulk whole message post post (ids all) (1 ∷ 0 ∷ []) page).bulk_failures)
    × ((submit_bulk whole message post post (ids all) (1 ∷ 0 ∷ []) page).progress ≡ length all)
submit_bulk_lem_example = submit_bulk_lem whole message post post all (1 ∷ 0 ∷ []) page refl over

-- A slice with a second rule, whose first one is deleted.
abbrev changes : List Edit
changes =
    adds_session ∷ adds_rule (codes "row-1") ∷ deletes_rule (codes "row-1") (codes "row-2") ∷ []

edits-AreApart_example : AreApart (edits changes (0, [])).0 (ids_of (edits changes (0, [])).1)
edits-AreApart_example =
    edits-AreApart changes 0 [] (tt, (tt, (tt, tt))) ((λ _. omega arith), λ _ _. refl)
