-- ===== src/Subscribers/Form/Load.antt =====
-- `fromSubscription` of subscriberForm.ts. A field that the type of the API requires is there.
use fru_lab.Prelude.{
  ℕ, Bool, true, false, ◌&&◌, ◌||◌, Option, none, some, List, [], ◌∷◌, ◌++◌, map, keep, any, find,
  take, drop,
}
use fru_lab.Js.Text.{Text, codes, text_eq, or_else, strip_prefix}
use fru_lab.Js.Numbers.{Numbers}
use fru_lab.Js.Objects.{Object}
use fru_lab.Subscribers.Webconsole.{
  Nssai, DnnConfiguration, SessionManagementSubscriptionData, FlowRules, QosFlows, ChargingData,
  Subscription,
}
use fru_lab.Subscribers.Form.{
  FlowRuleBundleRow, SessionFormRow, SubscriberFormState, make_flow_rule_bundle, make_session_row,
}
use fru_lab.Subscribers.Form.Save.{snssai_key, is_given}

-- `o?.f || ''`, where the field is text or optional text.
abbrev pub text_of {ℓ} : {A : Type ℓ} → Option A → (A → Text) → Text
text_of none f = []
text_of (some a) f = f a

abbrev pub text_or : Option Text → Text
text_or none = []
text_or (some s) = s

-- `a === s` for optional text.
abbrev pub is_text : Option Text → Text → Bool
is_text none s = false
is_text (some t) s = text_eq t s

abbrev pub list_or {ℓ} : {A : Type ℓ} → Option (List A) → List A
list_or none = []
list_or (some items) = items

-- `sessions.length > 0 ? sessions : [makeSessionRow()]`.
unfoldable pub or_one_row : ℕ × List SessionFormRow → ℕ × List SessionFormRow
or_one_row (next, []) = let made = make_session_row next (λ row. row) in (made.0, made.1 ∷ [])
or_one_row (next, row ∷ rows) = (next, row ∷ rows)

module _ {N : Type 0} (js : Numbers N) where
  -- `a === b`, where either may be `undefined`.
  abbrev pub same_option : Option N → Option N → Bool
  same_option none none = true
  same_option none (some b) = false
  same_option (some a) none = false
  same_option (some a) (some b) = js.same a b

  -- `String(n ?? '')`.
  abbrev pub show_option : Option N → Text
  show_option none = []
  show_option (some n) = js.show n

  -- The entries of the subscription that belong to a slice and a DNN.
  abbrev pub matching_rule : Text → Text → FlowRules N → Bool
  matching_rule key dnn r = is_text r.snssai key && is_text r.dnn dnn

  abbrev pub matching_qos : Text → Text → Option N → QosFlows N → Bool
  matching_qos key dnn ref q =
      text_eq q.snssai key && text_eq q.dnn dnn && same_option (some q.qos_ref) ref

  abbrev pub matching_charging : Text → Text → Option N → ChargingData N → Bool
  matching_charging key dnn ref c =
      is_text c.snssai key && text_eq c.dnn dnn && same_option c.qos_ref ref

  -- The overrides of the bundle for one flow rule.
  unfoldable pub bundle_of :
      Subscription N → Text → Text → FlowRules N → FlowRuleBundleRow → FlowRuleBundleRow
  bundle_of sub key dnn rule row =
      let qos = find (matching_qos key dnn rule.qos_ref) sub.qos_flows in
      let charging = find (matching_charging key dnn rule.qos_ref) sub.charging_datas in
      record row {
        filter = text_or rule.filter;
        precedence = show_option rule.precedence;
        five_qi = text_of qos (λ q. js.show q.five_qi);
        uplink_gbr = text_of qos (λ q. text_or q.gbr_ul);
        downlink_gbr = text_of qos (λ q. text_or q.gbr_dl);
        uplink_mbr = text_of qos (λ q. text_or q.mbr_ul);
        downlink_mbr = text_of qos (λ q. text_or q.mbr_dl);
        charging_method = text_of charging (λ c. text_or c.charging_method);
        quota = text_of charging (λ c. text_or c.quota);
        unit_cost = text_of charging (λ c. text_or c.unit_cost);
      }

  -- `matchingFlowRules.map(…)`.
  unfoldable pub load_rules :
      Subscription N → Text → Text → List (FlowRules N) → ℕ → ℕ × List FlowRuleBundleRow
  load_rules sub key dnn [] next = (next, [])
  load_rules sub key dnn (rule ∷ rules) next =
      let made = make_flow_rule_bundle next (bundle_of sub key dnn rule) in
      let later = load_rules sub key dnn rules made.0 in (later.0, made.1 ∷ later.1)

  -- `defaultSnssaiKeys`; only its size being 0 and its members are read.
  unfoldable pub default_snssai_keys : Subscription N → List Text
  default_snssai_keys sub =
      map (λ (n : Nssai N). snssai_key js (js.show n.sst) (text_or n.sd))
        (list_or (elim sub.access_and_mobility_subscription_data.nssai [
          | none ↦ none
          | some nssai ↦ some nssai.default_single_nssais
        ]))

  abbrev pub is_default_key : List Text → Text → Bool
  is_default_key [] key = true
  is_default_key (k ∷ ks) key = any (λ j. text_eq j key) (k ∷ ks)

  -- The overrides of the row for one DNN of a slice.
  unfoldable pub session_of :
      Subscription N
      → Text
      → Text
      → Text
      → Text × DnnConfiguration N
      → List FlowRuleBundleRow
      → SessionFormRow
      → SessionFormRow
  session_of sub sst sd key (dnn, config) flow_rules row =
      let up_integr = text_of config.up_security (λ u. u.up_integr) in
      let up_confid = text_of config.up_security (λ u. u.up_confid) in
      record row {
        sst = sst;
        sd = sd;
        is_default_slice = is_default_key (default_snssai_keys sub) key;
        dnn = dnn;
        pdu_session_type = or_else config.pdu_session_types.default_session_type (codes "IPV4");
        ssc_mode = or_else config.ssc_modes.default_ssc_mode (codes "SSC_MODE_1");
        five_qi = text_of config.five_g_qos_profile (λ p. js.show p.five_qi);
        arp_priority = text_of config.five_g_qos_profile (λ p. js.show p.arp.priority_level);
        ambr_uplink = text_of config.session_ambr (λ a. a.uplink);
        ambr_downlink = text_of config.session_ambr (λ a. a.downlink);
        up_integr = up_integr;
        up_confid = up_confid;
        show_up_security = is_given up_integr || is_given up_confid;
        flow_rules = flow_rules;
      }

  -- One round of the loop over the DNNs of a slice.
  unfoldable pub load_session :
      Subscription N → Text → Text → Text × DnnConfiguration N → ℕ → ℕ × SessionFormRow
  load_session sub sst sd (dnn, config) next =
      let key = snssai_key js sst sd in
      let rules = load_rules sub key dnn (keep (matching_rule key dnn) sub.flow_rules) next in
      make_session_row rules.0 (session_of sub sst sd key (dnn, config) rules.1)

  unfoldable pub load_slice :
      Subscription N → Text → Text → Object (DnnConfiguration N) → ℕ → ℕ × List SessionFormRow
  load_slice sub sst sd [] next = (next, [])
  load_slice sub sst sd (entry ∷ entries) next =
      let made = load_session sub sst sd entry next in
      let later = load_slice sub sst sd entries made.0 in (later.0, made.1 ∷ later.1)

  unfoldable pub load_slices :
      Subscription N → List (SessionManagementSubscriptionData N) → ℕ → ℕ × List SessionFormRow
  load_slices sub [] next = (next, [])
  load_slices sub (slice ∷ slices) next =
      let rows =
        load_slice sub (js.show slice.single_nssai.sst) (text_or slice.single_nssai.sd)
          (list_or slice.dnn_configurations) next in
      let later = load_slices sub slices rows.0 in (later.0, rows.1 ++ later.1)

  abbrev pub head_or : List Text → Text
  head_or [] = []
  head_or (s ∷ _) = s

  unfoldable pub op_value_of : Subscription N → Text
  op_value_of sub =
      let auth = sub.authentication_subscription in
      or_else (text_of auth.milenage (λ m. text_of m.op (λ o. o.op_value)))
        (text_of auth.opc (λ o. o.opc_value))

  unfoldable pub from_subscription : Subscription N → ℕ → ℕ × SubscriberFormState
  from_subscription sub next =
      let plmn_id = sub.plmn_id in
      let access = sub.access_and_mobility_subscription_data in
      let auth = sub.authentication_subscription in
      let loaded = or_one_row (load_slices sub sub.session_management_subscription_data next) in
      (
        loaded.0,
        record {
          ue_id = sub.ue_id;
          plmn_mcc = take 3 plmn_id;
          plmn_mnc = drop 3 plmn_id;
          gpsi = strip_prefix (codes "msisdn-") (head_or (list_or access.gpsis));
          permanent_key = auth.permanent_key.permanent_key_value;
          op_value = op_value_of sub;
          sequence_number = auth.sequence_number;
          amf = text_or auth.authentication_management_field;
          ambr_uplink = text_of access.subscribed_ue_ambr (λ a. a.uplink);
          ambr_downlink = text_of access.subscribed_ue_ambr (λ a. a.downlink);
          sessions = loaded.1;
        },
      )
