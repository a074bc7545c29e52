-- ===== src/Subscribers/Form/Tests.antt =====
-- The form of a new subscriber, saved with whole numbers and loaded; and the theorems on it.
use fru_lab.Prelude.{◌≡◌, refl, true, false, some, [], ◌∷◌, arith, length, All, ◌>>=◌, map, keep}
use fru_lab.Js.Text.{codes, trim, strip_prefix}
use fru_lab.Js.Numbers.{whole}
use fru_lab.Subscribers.Form.{FlowRuleBundleRow, SessionFormRow, SubscriberFormState}
use fru_lab.Subscribers.Form.Save.{empty_loop, add_sessions, to_subscription}
use fru_lab.Subscribers.Form.Load.{from_subscription}
use fru_lab.Subscribers.Form.Rules.{
  places, has_qos, has_charging, rule_at, qos_at, charging_at, to_subscription_rules,
}
use fru_lab.Subscribers.Form.Slices.{config_at, config_of, last_session, to_subscription_config}
use fru_lab.Subscribers.Form.Defaults.{from-to_no_default}
use fru_lab.Subscribers.Form.RoundTrip.{from-to_subscription}

abbrev bundle : FlowRuleBundleRow
bundle = record {
  id = codes "row-2";
  filter = codes "1.1.1.1/32";
  precedence = codes "128";
  five_qi = codes "9";
  uplink_gbr = [];
  downlink_gbr = [];
  uplink_mbr = [];
  downlink_mbr = [];
  charging_method = [];
  quota = [];
  unit_cost = [];
}

-- A session that is not of a default slice.
abbrev session : SessionFormRow
session = record {
  id = codes "row-1";
  sst = codes "1";
  sd = codes "010203";
  is_default_slice = false;
  dnn = codes "internet";
  pdu_session_type = codes "IPV4";
  ssc_mode = codes "SSC_MODE_1";
  five_qi = codes "9";
  arp_priority = codes "8";
  ambr_uplink = codes "1 Gbps";
  ambr_downlink = codes "2 Gbps";
  up_integr = [];
  up_confid = [];
  show_up_security = false;
  flow_rules = bundle ∷ [];
}

abbrev form : SubscriberFormState
form = record {
  ue_id = codes " imsi-208930000000001";
  plmn_mcc = codes "208";
  plmn_mnc = codes "93";
  gpsi = codes "0900";
  permanent_key = codes "8baf";
  op_value = codes "8e27";
  sequence_number = codes "23";
  amf = codes "8000";
  ambr_uplink = codes "1 Gbps";
  ambr_downlink = codes "2 Gbps";
  sessions = session ∷ [];
}

to_subscription_rules_example :
    let rules = places form.sessions in
    ((to_subscription whole form).flow_rules ≡ map (rule_at whole) rules)
    × ((to_subscription whole form).qos_flows ≡ map (qos_at whole) (keep has_qos rules))
    × ((to_subscription whole form).charging_datas
        ≡ map (charging_at whole) (keep has_charging rules))
to_subscription_rules_example = to_subscription_rules whole form

to_subscription_config_example :
    config_at whole
      (codes "1-010203")
      (codes "internet")
      (add_sessions whole form.sessions empty_loop).slice_map
    ≡ (do
      row ← last_session (codes "1-010203") (codes "internet") form.sessions
      some (config_of whole row))
to_subscription_config_example =
    to_subscription_config whole form (codes "1-010203") (codes "internet")

from-to_no_default_example :
    All
      (λ (r : SessionFormRow). r.is_default_slice ≡ true)
      (from_subscription whole (to_subscription whole form) 4).1.sessions
from-to_no_default_example = from-to_no_default whole form 4 (omega arith) (refl, tt)

from-to_subscription_example :
    (let back = (from_subscription whole (to_subscription whole form) 4).1 in
      (back.ue_id ≡ trim form.ue_id)
      × (back.plmn_mcc ≡ trim form.plmn_mcc)
      × (back.plmn_mnc ≡ trim form.plmn_mnc)
      × (back.gpsi ≡ strip_prefix (codes "msisdn-") (trim form.gpsi))
      × (back.permanent_key ≡ form.permanent_key)
      × (back.op_value ≡ form.op_value)
      × (back.sequence_number ≡ form.sequence_number)
      × (back.amf ≡ form.amf)
      × (back.ambr_uplink ≡ form.ambr_uplink)
      × (back.ambr_downlink ≡ form.ambr_downlink))
from-to_subscription_example = from-to_subscription whole form 4 three
  where
    three : length (trim form.plmn_mcc) ≡ 3
    three = unfold trim in refl
