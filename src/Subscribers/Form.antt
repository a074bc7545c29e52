-- ===== src/Subscribers/Form.antt =====
-- web/frontend/src/page/subscribers/subscriberForm.ts: the rows of the subscriber form and their
-- defaults. `nextRowId` is passed from call to call; the overrides of a row are a function on rows.
pub mod Save
pub mod Load
pub mod Rules
pub mod RoundTrip
pub mod Slices
pub mod Ids
pub mod Defaults
mod Tests
use fru_lab.Prelude.{ℕ, ◌+◌, Bool, true, false, List, [], ◌∷◌, ◌++◌}
use fru_lab.Js.Text.{Text, codes}
use fru_lab.Js.Decimal.{decimal}

pub record FlowRuleBundleRow : Type 0 where
  pub id : Text
  pub filter : Text
  pub precedence : Text
  pub five_qi : Text
  pub uplink_gbr : Text
  pub downlink_gbr : Text
  pub uplink_mbr : Text
  pub downlink_mbr : Text
  pub charging_method : Text
  pub quota : Text
  pub unit_cost : Text

pub record SessionFormRow : Type 0 where
  pub id : Text
  pub sst : Text
  pub sd : Text
  pub is_default_slice : Bool
  pub dnn : Text
  pub pdu_session_type : Text
  pub ssc_mode : Text
  pub five_qi : Text
  pub arp_priority : Text
  pub ambr_uplink : Text
  pub ambr_downlink : Text
  pub up_integr : Text
  pub up_confid : Text
  pub show_up_security : Bool
  pub flow_rules : List FlowRuleBundleRow

pub record SubscriberFormState : Type 0 where
  pub ue_id : Text
  pub plmn_mcc : Text
  pub plmn_mnc : Text
  pub gpsi : Text
  pub permanent_key : Text
  pub op_value : Text
  pub sequence_number : Text
  pub amf : Text
  pub ambr_uplink : Text
  pub ambr_downlink : Text
  pub sessions : List SessionFormRow

-- `makeRowId` with the counter `next_row_id`: the new counter, and the id that names it.
abbrev pub row_id : ℕ → Text
row_id n = codes "row-" ++ decimal n

unfoldable pub make_row_id : ℕ → ℕ × Text
make_row_id next_row_id = let next = next_row_id + 1 in (next, row_id next)

-- `makeFlowRuleBundle`; no caller overrides the id.
unfoldable pub make_flow_rule_bundle :
    ℕ → (FlowRuleBundleRow → FlowRuleBundleRow) → ℕ × FlowRuleBundleRow
unfolding make_row_id
make_flow_rule_bundle next_row_id overrides =
    let (next, id) = make_row_id next_row_id in
    (
      next,
      overrides (record {
        id = id;
        filter = codes "1.1.1.1/32";
        precedence = codes "128";
        five_qi = codes "9";
        uplink_gbr = codes "208 Mbps";
        downlink_gbr = codes "208 Mbps";
        uplink_mbr = codes "108 Mbps";
        downlink_mbr = codes "108 Mbps";
        charging_method = codes "Online";
        quota = codes "10000";
        unit_cost = codes "1";
      }),
    )

-- `makeSessionRow`, which makes a flow rule of its own even if `flowRules` is overridden.
unfoldable pub make_session_row : ℕ → (SessionFormRow → SessionFormRow) → ℕ × SessionFormRow
unfolding make_row_id
make_session_row next_row_id overrides =
    let (next, id) = make_row_id next_row_id in
    let (last, bundle) = make_flow_rule_bundle next (λ row. row) in
    (
      last,
      overrides (record {
        id = id;
        sst = codes "1";
        sd = [];
        is_default_slice = false;
        dnn = codes "internet";
        pdu_session_type = codes "IPV4";
        ssc_mode = codes "SSC_MODE_1";
        five_qi = codes "9";
        arp_priority = codes "8";
        ambr_uplink = codes "1000 Mbps";
        ambr_downlink = codes "1000 Mbps";
        up_integr = [];
        up_confid = [];
        show_up_security = false;
        flow_rules = bundle ∷ [];
      }),
    )

-- `makeDefaultUpSecurity`: `upIntegr` and `upConfid`.
abbrev pub make_default_up_security : Text × Text
make_default_up_security = (codes "NOT_NEEDED", codes "NOT_NEEDED")

-- `emptySubscriberForm`; the bundle is an argument, so it is made before the row.
unfoldable pub empty_subscriber_form : ℕ → ℕ × SubscriberFormState
empty_subscriber_form next_row_id =
    let (next, bundle) = make_flow_rule_bundle next_row_id (λ row. record row {
      precedence = codes "128";
      five_qi = codes "8";
      uplink_gbr = codes "108 Mbps";
      downlink_gbr = codes "108 Mbps";
      uplink_mbr = codes "208 Mbps";
      downlink_mbr = codes "208 Mbps";
      charging_method = codes "Offline";
      quota = codes "100000";
      unit_cost = codes "1";
    }) in
    let (last, session) = make_session_row next (λ row. record row {
      sd = codes "010203";
      is_default_slice = true;
      ambr_uplink = codes "1000 Mbps";
      ambr_downlink = codes "1000 Mbps";
      flow_rules = bundle ∷ [];
    }) in
    (
      last,
      record {
        ue_id = codes "imsi-208930000000001";
        plmn_mcc = codes "208";
        plmn_mnc = codes "93";
        gpsi = [];
        permanent_key = codes "8baf473f2f8fd09487cccbd7097c6862";
        op_value = codes "8e27b6af0e692e750f32667a3b14605d";
        sequence_number = codes "000000000023";
        amf = codes "8000";
        ambr_uplink = codes "1 Gbps";
        ambr_downlink = codes "2 Gbps";
        sessions = session ∷ [];
      },
    )
