-- ===== src/Subscribers/FormPage/Edits.antt =====
-- The rows of the form in web/frontend/src/page/subscribers/SubscriberFormPage.tsx: slices and flow
-- rules are changed, made and deleted by their ids. A patch is a function on rows.
use fru_lab.Prelude.{ℕ, true, false, not, List, [], ◌∷◌, ◌++◌, if◌then◌else◌, map, keep}
use fru_lab.Js.Text.{Text, text_eq}
use fru_lab.Subscribers.Form.{
  FlowRuleBundleRow, SessionFormRow, make_flow_rule_bundle, make_session_row,
  make_default_up_security,
}

-- `updateRow`, of the rules of a slice.
abbrev pub update_rule :
    Text → (FlowRuleBundleRow → FlowRuleBundleRow) → List FlowRuleBundleRow → List FlowRuleBundleRow
update_rule id patch =
    map (λ (row : FlowRuleBundleRow). if text_eq row.id id then patch row else row)

-- `updateSession`.
unfoldable pub update_session :
    Text → (SessionFormRow → SessionFormRow) → List SessionFormRow → List SessionFormRow
update_session id patch =
    map (λ (row : SessionFormRow). if text_eq row.id id then patch row else row)

-- `updateFlowRule`.
unfoldable pub update_flow_rule :
    Text
    → Text
    → (FlowRuleBundleRow → FlowRuleBundleRow)
    → List SessionFormRow
    → List SessionFormRow
unfolding update_session
update_flow_rule session_id id patch =
    update_session session_id
      (λ (s : SessionFormRow). record s { flow_rules = update_rule id patch s.flow_rules })

-- "Delete slice" and "Delete rule".
unfoldable pub delete_session : Text → List SessionFormRow → List SessionFormRow
delete_session id = keep (λ (item : SessionFormRow). not (text_eq item.id id))

abbrev pub without_rule : Text → SessionFormRow → SessionFormRow
without_rule id s = record s {
  flow_rules = keep (λ (item : FlowRuleBundleRow). not (text_eq item.id id)) s.flow_rules;
}

unfoldable pub delete_rule : Text → Text → List SessionFormRow → List SessionFormRow
unfolding update_session
delete_rule session_id id = update_session session_id (without_rule id)

-- The security of the user plane is shown with its defaults, and hidden without them.
abbrev pub show_security : SessionFormRow → SessionFormRow
show_security s =
    let (integr, confid) = make_default_up_security in
    record s { show_up_security = true; up_integr = integr; up_confid = confid }

abbrev pub hide_security : SessionFormRow → SessionFormRow
hide_security s = record s { show_up_security = false; up_integr = []; up_confid = [] }

-- "Add slice" and "Add rule", with the counter of the rows.
unfoldable pub add_session : ℕ → List SessionFormRow → ℕ × List SessionFormRow
add_session next rows = let (last, row) = make_session_row next (λ r. r) in (last, rows ++ row ∷ [])

abbrev pub with_rule : FlowRuleBundleRow → SessionFormRow → SessionFormRow
with_rule rule s = record s { flow_rules = s.flow_rules ++ rule ∷ [] }

unfoldable pub add_rule : Text → ℕ → List SessionFormRow → ℕ × List SessionFormRow
unfolding update_session
add_rule session_id next rows =
    let (last, rule) = make_flow_rule_bundle next (λ r. r) in
    (last, update_session session_id (with_rule rule) rows)
