-- ===== src/Dashboard/Tests.antt =====
-- A lab with one UE and one gNB up, a server that accepts everything, and one that does not answer
-- the list of instances; and the theorems on them.
use fru_lab.Prelude.{ℕ, ◌≡◌, refl, true, false, none, some, List, [], ◌∷◌, ◌++◌, length, All}
use fru_lab.Js.Text.{Text, codes, trim}
use fru_lab.Js.Numbers.{whole}
use fru_lab.Js.Objects.{get}
use fru_lab.Subscribers.Form.{SubscriberFormState}
use fru_lab.Subscribers.Form.Save.{to_subscription}
use fru_lab.Dashboard.Types.{
  running, stopped, deploying, basic, DeployStatusResponse, DeployUeStatusResponse, Answer,
  answered, failed,
}
use fru_lab.Dashboard.Nodes.{UeRow}
use fru_lab.Dashboard.Target.{
  Call, down, status, ue_down, ue_list, free5gc, gnb, Target, TargetState, DeployApi, Forms, Ran,
  initial, act, node_of, act_lem,
}
use fru_lab.Dashboard.Target
use fru_lab.Dashboard.Deploy.{subscription_to_ue_deploy_request, deploy-to_subscription}
use fru_lab.Dashboard.Instances.{
  Instances, UeApi, no_instances, rows, row_of, running_ids, stop_all, refresh_instances,
  finish_stop_all,
}
use fru_lab.Dashboard.Actions.{
  Page, is_up, handle_tear_down, tear_down, tear_down_ues, tear_down_gnbs, stop_target,
  stop_all_ues,
}
use fru_lab.Dashboard.StopCalls.{stops_core, is_gnb}
use fru_lab.Dashboard.TearDown.{tear_down_order}
use fru_lab.Dashboard.Pending.{among, stop_all_pending}

abbrev forms : Forms
forms = record { to_upper_case = λ s. s; to_locale_string = λ s. s }

abbrev all_stopped : DeployStatusResponse
all_stopped = record { status = stopped; services = none; last_deployed = none }

abbrev accepting : DeployApi Text
accepting = record {
  up_error = λ t v. none;
  down_error = λ t. none;
  status_answer = λ t. answered all_stopped;
  logs_answer = λ t. answered [];
}

abbrev form : SubscriberFormState
form = record {
  ue_id = codes "imsi-208930000000001";
  plmn_mcc = codes "208";
  plmn_mnc = codes "93";
  gpsi = [];
  permanent_key = codes "8baf";
  op_value = codes "8e27";
  sequence_number = codes "23";
  amf = codes "8000";
  ambr_uplink = codes "1 Gbps";
  ambr_downlink = codes "2 Gbps";
  sessions = [];
}

abbrev ue_server : Answer Text (List DeployUeStatusResponse) → UeApi ℕ Text
ue_server listed = record {
  list_answer = listed;
  subscribers_answer = answered [];
  subscriber_answer = λ id plmn. answered (to_subscription whole form);
  up_error = λ id request. none;
  down_error = λ id. none;
  new_error = λ message. message;
  extract_message = λ e fallback. fallback;
}

abbrev instances : Instances
instances = record no_instances {
  instances_by_ue_id =
      (codes "imsi-1", record { status = running; last_deployed = codes "now" }) ∷ [];
  subscribers = record { plmn_id = codes "20893"; ue_id = codes "imsi-1"; gpsi = [] } ∷ [];
}

abbrev up_state : Target → TargetState
up_state t =
    let s : TargetState = initial t in record s { node = record s.node { status = running } }

abbrev lab : Page
lab = record {
  free5gc_target = up_state free5gc;
  gnb_target = up_state gnb;
  slice1_target = initial Target.slice1;
  slice2_target = initial Target.slice2;
  instances = instances;
  selected_template = basic;
}

abbrev extract : Text → Text → Text
extract e fallback = fallback

-- The tear down of the lab, call by call.
torn_down :
    (handle_tear_down whole accepting (ue_server (answered [])) forms extract true lab).calls
    ≡ ue_down (codes "imsi-1")
      ∷ ue_list
      ∷ down gnb
      ∷ status gnb
      ∷ down free5gc
      ∷ status free5gc
      ∷ []
unfolding handle_tear_down tear_down tear_down_ues tear_down_gnbs stop_all_ues stop_all
    refresh_instances finish_stop_all row_of get stop_target Target.stop Target.act Target.refresh
torn_down = refl

core_stopped :
    stops_core
      (handle_tear_down whole accepting (ue_server (answered [])) forms extract true lab).calls
    ≡ true
core_stopped = rw torn_down refl

tear_down_order_example :
    All (λ id. (ue_server (answered [])).down_error id ≡ none) (running_ids (rows lab.instances))
    × ((t : Target) → is_gnb t ≡ true → is_up t lab ≡ true → accepting.down_error t ≡ none)
tear_down_order_example =
    tear_down_order whole accepting (ue_server (answered [])) forms extract lab core_stopped

one_up : among (codes "imsi-1") (running_ids (rows instances)) ≡ true
unfolding row_of get
one_up = refl

stop_all_pending_example :
    ((items : List DeployUeStatusResponse)
      → (ue_server (failed (codes "gone"))).list_answer ≡ answered items
      → get
          (codes "imsi-1")
          (stop_all whole
            (ue_server (failed (codes "gone")))
            forms
            instances).state.pending_instances
        ≡ some false)
    × ((e : Text)
        → (ue_server (failed (codes "gone"))).list_answer ≡ failed e
        → get
            (codes "imsi-1")
            (stop_all whole
              (ue_server (failed (codes "gone")))
              forms
              instances).state.pending_instances
          ≡ some true)
stop_all_pending_example =
    stop_all_pending whole (ue_server (failed (codes "gone"))) forms (codes "imsi-1") instances
      one_up

act_lem_example :
    ((act accepting forms gnb (down gnb) none (initial gnb)).state.is_action_pending ≡ false)
    × ((x : Text)
        → (act accepting forms gnb (down gnb) none (initial gnb)).error ≡ some x
        → (act accepting forms gnb (down gnb) none (initial gnb)).state.node ≡ (initial gnb).node)
    × ((act accepting forms gnb (down gnb) none (initial gnb)).error ≡ none
        → (r : DeployStatusResponse) × (accepting.status_answer gnb ≡ answered r)
          × ((act accepting forms gnb (down gnb) none (initial gnb)).state.node
              ≡ node_of forms gnb r))
act_lem_example = act_lem accepting forms gnb (down gnb) none (initial gnb)

abbrev two_rows : List UeRow
two_rows =
    record {
      ue_id = codes "a";
      plmn_id = [];
      gpsi = [];
      status = running;
      has_been_deployed = true;
      last_deployed = codes "now";
      sd = [];
    }
    ∷ record {
      ue_id = codes "b";
      plmn_id = [];
      gpsi = [];
      status = deploying;
      has_been_deployed = true;
      last_deployed = codes "now";
      sd = [];
    }
    ∷ []

deploy-to_subscription_example :
    (let request = subscription_to_ue_deploy_request whole (to_subscription whole form) 0 in
      (request.mcc ≡ trim form.plmn_mcc)
      × (request.mnc ≡ trim form.plmn_mnc)
      × (request.msin ≡ codes "0000000001")
      × (request.permanent_key ≡ form.permanent_key)
      × (request.op_value ≡ form.op_value)
      × (request.amf ≡ form.amf)
      × (request.sqn ≡ form.sequence_number))
deploy-to_subscription_example =
    deploy-to_subscription whole form (codes "0000000001") 0 three spelled
  where
    three : length (trim form.plmn_mcc) ≡ 3
    three = unfold trim in refl

    spelled :
        trim form.ue_id
        ≡ codes "imsi-" ++ (trim form.plmn_mcc ++ trim form.plmn_mnc) ++ codes "0000000001"
    spelled = unfold trim in refl
