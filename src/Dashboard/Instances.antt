-- ===== src/Dashboard/Instances.antt =====
-- web/frontend/src/page/dashboard/useUeInstances.ts. What the APIs answer is a parameter; so is the
-- error made from a message.
use fru_lab.Prelude.{
  ℕ, suc, Bool, true, false, not, Option, none, some, List, [], ◌∷◌, ◌++◌, ltb, if◌then◌else◌,
  length, keep, map, find,
}
use fru_lab.Js.Text.{Text, codes, text_eq}
use fru_lab.Js.Decimal.{decimal}
use fru_lab.Js.Numbers.{Numbers}
use fru_lab.Js.Objects.{Object, put, get}
use fru_lab.Subscribers.Webconsole.{Subscriber, Subscription}
use fru_lab.Dashboard.Types.{
  NodeStatus, stopped, is_stopped, DeployUeStatusResponse, Answer, answered, failed,
}
use fru_lab.Dashboard.Nodes.{UeRow, never}
use fru_lab.Dashboard.Target.{Call, ue_list, ue_up, ue_down, subscriber, Ran, Forms, shown_time}
use fru_lab.Dashboard.Deploy.{DeployUeRequest, subscription_to_ue_deploy_request}

pub record UeInstanceStatus : Type 0 where
  pub status : NodeStatus
  pub last_deployed : Text

pub record Instances : Type 0 where
  pub instances_by_ue_id : Object UeInstanceStatus
  pub is_loading_instances : Bool
  pub subscribers : List Subscriber
  pub is_loading_subscribers : Bool
  pub subscribers_error : Option Text
  pub pending_instances : Object Bool
  pub sd_by_ue_id : Object Text

abbrev pub no_instances : Instances
no_instances = record {
  instances_by_ue_id = [];
  is_loading_instances = true;
  subscribers = [];
  is_loading_subscribers = true;
  subscribers_error = none;
  pending_instances = [];
  sd_by_ue_id = [];
}

pub record UeApi (N E : Type 0) : Type 0 where
  pub list_answer : Answer E (List DeployUeStatusResponse)
  pub subscribers_answer : Answer E (List Subscriber)
  pub subscriber_answer : Text → Text → Answer E (Subscription N)
  pub up_error : Text → DeployUeRequest → Option E
  pub down_error : Text → Option E
  -- `new Error(message)`.
  pub new_error : Text → E
  -- `extractWebconsoleErrorMessage(error, fallback)`.
  pub extract_message : E → Text → Text

abbrev pub put_all : List Text → Bool → Object Bool → Object Bool
put_all [] b o = o
put_all (k ∷ ks) b o = put_all ks b (put k b o)

-- `rows`.
unfoldable pub row_of : Instances → Subscriber → UeRow
row_of s u =
    let found = get u.ue_id s.instances_by_ue_id in
    record {
      ue_id = u.ue_id;
      plmn_id = u.plmn_id;
      gpsi = u.gpsi;
      status = (elim found [ none ↦ stopped | some i ↦ i.status ]);
      has_been_deployed = (elim found [ none ↦ false | some i ↦ true ]);
      last_deployed = (elim found [ none ↦ never | some i ↦ i.last_deployed ]);
      sd = (elim (get u.ue_id s.sd_by_ue_id) [ none ↦ [] | some sd ↦ sd ]);
    }

abbrev pub rows : Instances → List UeRow
rows s = map (row_of s) s.subscribers

-- The UEs that `stopAll` stops.
abbrev pub running_ids : List UeRow → List Text
running_ids all = map (λ (r : UeRow). r.ue_id) (keep (λ (r : UeRow). not (is_stopped r.status)) all)

module _ {N E : Type 0} (js : Numbers N) (api : UeApi N E) (forms : Forms) where
  abbrev pub instances_of :
      List DeployUeStatusResponse → Object UeInstanceStatus → Object UeInstanceStatus
  instances_of [] o = o
  instances_of (item ∷ items) o = instances_of items (
      put item.instance_id
        (record { status = item.status; last_deployed = shown_time forms item.last_deployed }) o)

  abbrev pub listed : Answer E (List DeployUeStatusResponse) → Instances → Ran Instances E
  listed (failed e) s = record {
    state = record s { is_loading_instances = false };
    calls = ue_list ∷ [];
    error = some e;
  }
  listed (answered items) s = record {
    state = record s { instances_by_ue_id = instances_of items []; is_loading_instances = false };
    calls = ue_list ∷ [];
    error = none;
  }

  unfoldable pub refresh_instances : Instances → Ran Instances E
  refresh_instances s = listed api.list_answer s

  abbrev pub subscribed : Answer E (List Subscriber) → Instances → Instances
  subscribed (failed e) s = record s {
    subscribers_error = some (
        api.extract_message e
          (codes "Failed to reach the free5GC webconsole. Is free5GC deployed?"));
    is_loading_subscribers = false;
  }
  subscribed (answered us) s = record s {
    subscribers = us;
    subscribers_error = none;
    is_loading_subscribers = false;
  }

  unfoldable pub refresh_subscribers : Instances → Instances
  refresh_subscribers s = subscribed api.subscribers_answer s

  -- `withPending`, for an action that makes these calls and ends with this error or none.
  unfoldable pub with_pending : Text → List Call → Option E → Instances → Ran Instances E
  with_pending ue_id calls (some e) s =
      let pending = put ue_id true s.pending_instances in
      record {
        state = record s { pending_instances = put ue_id false pending };
        calls = calls;
        error = some e;
      }
  with_pending ue_id calls none s =
      let r =
        refresh_instances (record s { pending_instances = put ue_id true s.pending_instances }) in
      record {
        state = record r.state { pending_instances = put ue_id false r.state.pending_instances };
        calls = calls ++ r.calls;
        error = r.error;
      }

  -- The action of `deploy` behind the answer of the webconsole.
  abbrev pub deployed : Text → Answer E (Subscription N) → ℕ → List Call × Option E
  deployed ue_id (failed e) next = (subscriber ue_id ∷ [], some e)
  deployed ue_id (answered sub) next = (
    subscriber ue_id ∷ ue_up ue_id ∷ [],
    api.up_error ue_id (subscription_to_ue_deploy_request js sub next),
  )

  abbrev pub deploy_action : Text → Option Subscriber → ℕ → List Call × Option E
  deploy_action ue_id none next = ([], some (api.new_error (codes "Unknown subscriber " ++ ue_id)))
  deploy_action ue_id (some u) next = deployed ue_id (api.subscriber_answer u.ue_id u.plmn_id) next

  unfoldable pub deploy : Text → ℕ → Instances → Ran Instances E
  deploy ue_id next s =
      let action =
        deploy_action ue_id (find (λ (u : Subscriber). text_eq u.ue_id ue_id) s.subscribers) next in
      with_pending ue_id action.0 action.1 s

  unfoldable pub stop : Text → Instances → Ran Instances E
  stop ue_id s = with_pending ue_id (ue_down ue_id ∷ []) (api.down_error ue_id) s

  -- How many of the stops are rejected.
  abbrev pub failed_count : List Text → ℕ
  failed_count [] = 0
  failed_count (id ∷ ids) =
      let rest = failed_count ids in elim (api.down_error id) [ none ↦ rest | some e ↦ suc rest ]

  abbrev pub stop_error : List Text → Option E
  stop_error ids =
      if ltb 0 (failed_count ids)
      then some (
          api.new_error (
            codes "Failed to stop "
            ++ decimal (failed_count ids)
            ++ codes " of "
            ++ decimal (length ids)
            ++ codes " UE instance(s)"))
      else none

  -- The `finally` of `stopAll`: an error of the refresh takes the place of the one thrown, and the
  -- instances stay pending.
  unfoldable pub finish_stop_all : List Text → Ran Instances E → Ran Instances E
  finish_stop_all ids r = elim r.error [
    | some e ↦ record { state = r.state; calls = map ue_down ids ++ r.calls; error = some e }
    | none ↦ record {
      state = record r.state { pending_instances = put_all ids false r.state.pending_instances };
      calls = map ue_down ids ++ r.calls;
      error = stop_error ids;
    }
  ]

  abbrev pub stop_ids : List Text → Instances → Ran Instances E
  stop_ids [] s = record { state = s; calls = []; error = none }
  stop_ids (id ∷ ids) s = finish_stop_all (id ∷ ids) (
      refresh_instances
        (record s { pending_instances = put_all (id ∷ ids) true s.pending_instances }))

  unfoldable pub stop_all : Instances → Ran Instances E
  stop_all s = stop_ids (running_ids (rows s)) s
