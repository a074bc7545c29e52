-- ===== src/Subscribers/Form/Save.antt =====
-- `snssaiKey` and `toSubscription` of subscriberForm.ts.
use fru_lab.Prelude.{
  ℕ, ◌+◌, Bool, not, ◌||◌, none, some, List, [], ◌∷◌, ◌++◌, if◌then◌else◌, map, keep,
}
use fru_lab.Js.Text.{Text, codes, is_empty, or_else, trim, starts_with, pad_start}
use fru_lab.Js.Numbers.{Numbers}
use fru_lab.Js.Objects.{Object, put, get, set, keys, values}
use fru_lab.Subscribers.Webconsole.{
  Nssai, DnnConfiguration, SubscribedSnssaiInfo, Dnn, SmPolicySnssai, FlowRules, QosFlows,
  ChargingData, Subscription,
}
use fru_lab.Subscribers.Form.{FlowRuleBundleRow, SessionFormRow, SubscriberFormState}

-- `Boolean(s)`.
abbrev pub is_given : Text → Bool
is_given s = not (is_empty s)

unfoldable pub has_any_qos : FlowRuleBundleRow → Bool
has_any_qos bundle =
    is_given bundle.five_qi
    || is_given bundle.uplink_gbr
    || is_given bundle.downlink_gbr
    || is_given bundle.uplink_mbr
    || is_given bundle.downlink_mbr

unfoldable pub has_any_charging : FlowRuleBundleRow → Bool
has_any_charging bundle =
    is_given bundle.charging_method || is_given bundle.quota || is_given bundle.unit_cost

pub record SliceAccumulator (N : Type 0) : Type 0 where
  pub sst : Text
  pub sd : Text
  pub is_default_slice : Bool
  pub dnn_configurations : Object (DnnConfiguration N)

-- The variables of the loop over the sessions.
pub record Loop (N : Type 0) : Type 0 where
  pub slice_map : List (Text × SliceAccumulator N)
  pub flow_rules : List (FlowRules N)
  pub qos_flows : List (QosFlows N)
  pub charging_datas : List (ChargingData N)

abbrev pub empty_loop : {N : Type 0} → Loop N
empty_loop = record { slice_map = []; flow_rules = []; qos_flows = []; charging_datas = [] }

-- The GPSI that is sent, from the trimmed one.
unfoldable pub full_gpsi : Text → Text
full_gpsi gpsi = if starts_with gpsi (codes "msisdn-") then gpsi else codes "msisdn-" ++ gpsi

pub slice_map_key : SessionFormRow → Text
slice_map_key row = row.sst ++ b'-' ∷ row.sd

module _ {N : Type 0} (js : Numbers N) where
  pub snssai_key : Text → Text → Text
  snssai_key sst sd =
      let parsed = js.number sst in
      let sst_number = if js.is_truthy parsed then parsed else js.of_count 0 in
      pad_start 2 b'0' (js.show_hex sst_number) ++ sd

  pub to_int : Text → N
  to_int s = let parsed = js.number s in if js.is_finite parsed then parsed else js.of_count 0

  -- The `DnnConfiguration` of a session.
  unfoldable pub dnn_configuration : SessionFormRow → DnnConfiguration N
  dnn_configuration row = record {
    pdu_session_types = record {
      default_session_type = row.pdu_session_type;
      allowed_session_types = some (row.pdu_session_type ∷ []);
    };
    ssc_modes = record {
      default_ssc_mode = row.ssc_mode;
      allowed_ssc_modes = some (row.ssc_mode ∷ []);
    };
    five_g_qos_profile = some (record {
      five_qi = to_int row.five_qi;
      arp = record {
        priority_level = to_int row.arp_priority;
        preempt_cap = [];
        preempt_vuln = [];
      };
      priority_level = some (to_int row.arp_priority);
    });
    session_ambr = some (record { uplink = row.ambr_uplink; downlink = row.ambr_downlink });
    static_ip_address = none;
    up_security =
        (if is_given row.up_integr || is_given row.up_confid
          then some (record {
            up_integr = or_else row.up_integr (codes "NOT_NEEDED");
            up_confid = or_else row.up_confid (codes "NOT_NEEDED");
          })
          else none);
  }

  -- What one flow rule of a session pushes to `flowRules`, `qosFlows` and `chargingDatas`.
  unfoldable pub flow_rule_of : Text → Text → ℕ → FlowRuleBundleRow → FlowRules N
  flow_rule_of snssai dnn qos_ref bundle = record {
    filter = some bundle.filter;
    precedence = some (to_int bundle.precedence);
    snssai = some snssai;
    dnn = some dnn;
    qos_ref = some (js.of_count qos_ref);
  }

  unfoldable pub qos_flows_of : Text → Text → ℕ → FlowRuleBundleRow → List (QosFlows N)
  qos_flows_of snssai dnn qos_ref bundle =
      if has_any_qos bundle
      then record {
        snssai = snssai;
        dnn = dnn;
        qos_ref = js.of_count qos_ref;
        five_qi = to_int bundle.five_qi;
        mbr_ul = some bundle.uplink_mbr;
        mbr_dl = some bundle.downlink_mbr;
        gbr_ul = some bundle.uplink_gbr;
        gbr_dl = some bundle.downlink_gbr;
      }
        ∷ []
      else []

  unfoldable pub charging_datas_of : Text → Text → ℕ → FlowRuleBundleRow → List (ChargingData N)
  charging_datas_of snssai dnn qos_ref bundle =
      if has_any_charging bundle
      then record {
        snssai = some snssai;
        dnn = dnn;
        qos_ref = some (js.of_count qos_ref);
        filter = bundle.filter;
        charging_method = some bundle.charging_method;
        quota = some bundle.quota;
        unit_cost = some bundle.unit_cost;
        ue_id = none;
      }
        ∷ []
      else []

  -- `row.flowRules.forEach`, from the index `i`.
  unfoldable pub push_bundles : Text → Text → ℕ → List FlowRuleBundleRow → Loop N → Loop N
  push_bundles snssai dnn i [] s = s
  push_bundles snssai dnn i (bundle ∷ bundles) s =
      let qos_ref = i + 1 in
      push_bundles snssai dnn (i + 1) bundles (record s {
        flow_rules = s.flow_rules ++ flow_rule_of snssai dnn qos_ref bundle ∷ [];
        qos_flows = s.qos_flows ++ qos_flows_of snssai dnn qos_ref bundle;
        charging_datas = s.charging_datas ++ charging_datas_of snssai dnn qos_ref bundle;
      })

  -- The slice of a session in the map, or a new one.
  unfoldable pub slice_for : SessionFormRow → List (Text × SliceAccumulator N) → SliceAccumulator N
  slice_for row slice_map = elim (get (slice_map_key row) slice_map) [
    | some slice ↦ slice
    | none ↦ record {
      sst = row.sst;
      sd = row.sd;
      is_default_slice = row.is_default_slice;
      dnn_configurations = [];
    }
  ]

  -- The map after a session: the slice is shared, so its configuration is set in place.
  unfoldable pub set_slice :
      SessionFormRow → List (Text × SliceAccumulator N) → List (Text × SliceAccumulator N)
  set_slice row slice_map =
      let slice = slice_for row slice_map in
      set (slice_map_key row)
        (record slice {
          dnn_configurations = put row.dnn (dnn_configuration row) slice.dnn_configurations;
        })
        slice_map

  unfoldable pub add_session : SessionFormRow → Loop N → Loop N
  add_session row s =
      push_bundles (snssai_key row.sst row.sd) row.dnn 0 row.flow_rules
        (record s { slice_map = set_slice row s.slice_map })

  unfoldable pub add_sessions : List SessionFormRow → Loop N → Loop N
  add_sessions [] s = s
  add_sessions (row ∷ rows) s = add_sessions rows (add_session row s)

  abbrev pub nssai_of : SliceAccumulator N → Nssai N
  nssai_of slice = record { sst = to_int slice.sst; sd = some slice.sd }

  abbrev pub dnn_named : Text → Dnn
  dnn_named dnn = record { dnn = dnn }

  unfoldable pub put_dnns : List Text → Object Dnn → Object Dnn
  put_dnns [] o = o
  put_dnns (dnn ∷ dnns) o = put_dnns dnns (put dnn (dnn_named dnn) o)

  -- The loop over the slices: `subscribedSnssaiInfos` and `smPolicySnssaiData`.
  unfoldable pub put_slices :
      List (SliceAccumulator N)
      → Object SubscribedSnssaiInfo × Object (SmPolicySnssai N)
      → Object SubscribedSnssaiInfo × Object (SmPolicySnssai N)
  put_slices [] o = o
  put_slices (slice ∷ slices) (infos, policies) =
      let key = snssai_key slice.sst slice.sd in
      let dnns = keys slice.dnn_configurations in
      put_slices slices (
        put key (record { dnn_infos = map dnn_named dnns }) infos,
        put key (record { snssai = nssai_of slice; sm_policy_dnn_data = some (put_dnns dnns []) })
            policies,
      )

  unfoldable pub to_subscription : SubscriberFormState → Subscription N
  to_subscription form =
      let zero_n = js.of_count 0 in
      let s = add_sessions form.sessions empty_loop in
      let slices = values s.slice_map in
      let (infos, policies) = put_slices slices ([], []) in
      record {
        user_number = none;
        plmn_id = trim form.plmn_mcc ++ trim form.plmn_mnc;
        ue_id = trim form.ue_id;
        authentication_subscription = record {
          authentication_method = codes "5G_AKA";
          authentication_management_field = some form.amf;
          sequence_number = form.sequence_number;
          permanent_key = record {
            permanent_key_value = form.permanent_key;
            encryption_key = zero_n;
            encryption_algorithm = zero_n;
          };
          milenage = some (record {
            op =
                some (record {
                  op_value = [];
                  encryption_key = zero_n;
                  encryption_algorithm = zero_n;
                });
          });
          opc = some (record {
            opc_value = form.op_value;
            encryption_key = zero_n;
            encryption_algorithm = zero_n;
          });
        };
        access_and_mobility_subscription_data = record {
          gpsis = some (full_gpsi (trim form.gpsi) ∷ []);
          subscribed_ue_ambr =
              some (record { uplink = form.ambr_uplink; downlink = form.ambr_downlink });
          nssai = some (record {
            default_single_nssais = map nssai_of (keep (λ s. s.is_default_slice) slices);
            single_nssais = some (map nssai_of (keep (λ s. not s.is_default_slice) slices));
          });
        };
        session_management_subscription_data =
            map
              (λ slice. record {
                single_nssai = nssai_of slice;
                dnn_configurations = some slice.dnn_configurations;
              })
              slices;
        smf_selection_subscription_data = record { subscribed_snssai_infos = some infos };
        am_policy_data = record { subsc_cats = some (codes "free5gc" ∷ []) };
        sm_policy_data = record { sm_policy_snssai_data = policies };
        flow_rules = s.flow_rules;
        qos_flows = s.qos_flows;
        charging_datas = s.charging_datas;
      }
