-- ===== src/Dashboard/Actions.antt =====
-- The actions of web/frontend/src/page/dashboard/DashboardPage.tsx: what each leaves of the page's
-- state, the calls that it makes, and the notifications. The calls of one target stand together,
-- also where those of several targets are made at once; of several rejections at once the first in
-- the list of targets counts.
use fru_lab.Prelude.{
  ℕ, Bool, true, false, not, ◌||◌, Option, none, some, List, [], ◌∷◌, ◌++◌, if◌then◌else◌, any,
}
use fru_lab.Js.Text.{Text, codes}
use fru_lab.Js.Numbers.{Numbers}
use fru_lab.Dashboard.Types.{
  NodeId, core, ue, NodeStatus, is_stopped, Template, is_two_slice, detect_free5gc_template,
}
use fru_lab.Dashboard.Types
use fru_lab.Dashboard.Nodes.{UeRow}
use fru_lab.Dashboard.Target.{
  Call, Target, free5gc, gnb, slice1, slice2, TargetState, Ran, DeployApi, Forms,
}
use fru_lab.Dashboard.Target
use fru_lab.Dashboard.Instances.{Instances, UeApi, rows}
use fru_lab.Dashboard.Instances

pub record Page : Type 0 where
  pub free5gc_target : TargetState
  pub gnb_target : TargetState
  pub slice1_target : TargetState
  pub slice2_target : TargetState
  pub instances : Instances
  pub selected_template : Template

-- An argument of `addSuccess` or of `addError`.
pub data Notice : Type 0 where
  success failure : Text → Notice

pub record Done : Type 0 where
  pub page : Page
  pub calls : List Call
  pub notices : List Notice

abbrev pub target_of : Target → Page → TargetState
target_of free5gc p = p.free5gc_target
target_of gnb p = p.gnb_target
target_of slice1 p = p.slice1_target
target_of slice2 p = p.slice2_target

abbrev pub set_target : Target → TargetState → Page → Page
set_target free5gc s p = record p { free5gc_target = s }
set_target gnb s p = record p { gnb_target = s }
set_target slice1 s p = record p { slice1_target = s }
set_target slice2 s p = record p { slice2_target = s }

-- `node.status !== 'stopped'`.
abbrev pub is_up : Target → Page → Bool
is_up t p = not (is_stopped (target_of t p).node.status)

abbrev pub any_ue_up : Page → Bool
any_ue_up p = any (λ (r : UeRow). not (is_stopped r.status)) (rows p.instances)

-- `coreTemplate`.
abbrev pub core_template : Page → Template
core_template p = elim (detect_free5gc_template p.free5gc_target.network_functions) [
  | none ↦ p.selected_template
  | some t ↦ t
]

module _ {N E : Type 0} (js : Numbers N) (deploy_api : DeployApi E) (ue_api : UeApi N E)
    (forms : Forms) (extract_error_message : E → Text → Text) where
  -- The operations of the hooks, on the page.
  unfoldable pub stop_target : Target → Page → Ran Page E
  stop_target t p =
      let r = Target.stop deploy_api forms t (target_of t p) in
      record { state = set_target t r.state p; calls = r.calls; error = r.error }

  unfoldable pub deploy_target : Target → Option Template → Page → Ran Page E
  deploy_target t variant p =
      let r = Target.deploy deploy_api forms t variant (target_of t p) in
      record { state = set_target t r.state p; calls = r.calls; error = r.error }

  abbrev pub on_instances : Page → Ran Instances E → Ran Page E
  on_instances p r = record {
    state = record p { instances = r.state };
    calls = r.calls;
    error = r.error;
  }

  unfoldable pub stop_all_ues : Page → Ran Page E
  stop_all_ues p = on_instances p (Instances.stop_all js ue_api forms p.instances)

  abbrev pub resolved : Page → Ran Page E
  resolved p = record { state = p; calls = []; error = none }

  -- Two operations at once.
  abbrev pub first_error : Option E → Option E → Option E
  first_error none e = e
  first_error (some e) _ = some e

  abbrev pub both : (Page → Ran Page E) → (Page → Ran Page E) → Page → Ran Page E
  both f g p =
      let a = f p in
      let b = g a.state in
      record { state = b.state; calls = a.calls ++ b.calls; error = first_error a.error b.error }

  -- `await f; await g`: an error ends the sequence.
  abbrev pub continue_with : (Page → Ran Page E) → Ran Page E → Ran Page E
  continue_with g a = elim a.error [
    | some e ↦ a
    | none ↦
        let b = g a.state in record { state = b.state; calls = a.calls ++ b.calls; error = b.error }
  ]

  -- `try { await …; addSuccess(done) } catch { addError(extractErrorMessage(error, fallback)) }`.
  abbrev pub notice_of : Option E → Text → Text → Notice
  notice_of none done fallback = success done
  notice_of (some e) done fallback = failure (extract_error_message e fallback)

  abbrev pub reported : Ran Page E → Text → Text → Done
  reported r done fallback = record {
    page = r.state;
    calls = r.calls;
    notices = notice_of r.error done fallback ∷ [];
  }

  unfoldable pub handle_deploy_ue : Text → ℕ → Page → Done
  handle_deploy_ue ue_id next p =
      reported (on_instances p (Instances.deploy js ue_api forms ue_id next p.instances))
        (codes "Deploying UE for " ++ ue_id) (codes "Failed to deploy UE for " ++ ue_id)

  unfoldable pub handle_stop_ue : Text → Page → Done
  handle_stop_ue ue_id p =
      reported (on_instances p (Instances.stop js ue_api forms ue_id p.instances))
        (codes "UE " ++ ue_id ++ codes " stopped") (codes "Failed to stop UE " ++ ue_id)

  unfoldable pub handle_stop_all_ue : Page → Done
  handle_stop_all_ue p =
      reported (stop_all_ues p) (codes "All UE instances stopped")
        (codes "Failed to stop all UE instances")

  -- `Promise.allSettled` fulfils whatever the operations end with.
  abbrev pub all_settled : Ran Page E → Ran Page E
  all_settled r = record r { error = none }

  unfoldable pub handle_two_slice_gnb : Page → Done
  handle_two_slice_gnb p =
      if is_up slice1 p || is_up slice2 p
      then reported (all_settled (both (stop_target slice1) (stop_target slice2) p))
          (codes "gNB stopped") (codes "gNB action failed")
      else reported (all_settled (both (deploy_target slice1 none) (deploy_target slice2 none) p))
          (codes "gNB deploy started") (codes "gNB action failed")

  -- The action on the core or on the single gNB, with the template that it deploys.
  unfoldable pub handle_target_action : Target → Option Template → Page → Done
  handle_target_action t variant p =
      let label = (target_of t p).node.label in
      if is_up t p
      then reported (stop_target t p) (label ++ codes " stopped") (label ++ codes " action failed")
      else reported (deploy_target t variant p) (label ++ codes " deploy started")
          (label ++ codes " action failed")

  unfoldable pub handle_primary_action : NodeId → Page → Done
  handle_primary_action core p = handle_target_action free5gc (some p.selected_template) p
  handle_primary_action Types.gnb p =
      if is_two_slice (core_template p)
      then handle_two_slice_gnb p
      else handle_target_action gnb none p
  handle_primary_action ue p = record { page = p; calls = []; notices = [] }

  unfoldable pub handle_deploy_core : Page → Done
  handle_deploy_core p =
      let label = p.free5gc_target.node.label in
      reported (deploy_target free5gc (some p.selected_template) p)
        (label ++ codes " deploy started") (label ++ codes " action failed")

  -- The parts of the tear down. `start` is the page when it begins, whose statuses it reads.
  abbrev pub stop_if_up : Page → Target → Page → Ran Page E
  stop_if_up start t p = if is_up t start then stop_target t p else resolved p

  unfoldable pub tear_down_ues : Page → Ran Page E
  tear_down_ues p = if any_ue_up p then stop_all_ues p else resolved p

  unfoldable pub tear_down_gnbs : Page → Page → Ran Page E
  tear_down_gnbs start =
      both (stop_if_up start gnb) (both (stop_if_up start slice1) (stop_if_up start slice2))

  unfoldable pub tear_down : Page → Ran Page E
  tear_down p =
      continue_with (stop_if_up p free5gc) (continue_with (tear_down_gnbs p) (tear_down_ues p))

  -- `handleTearDown`, with the answer to its question.
  unfoldable pub handle_tear_down : Bool → Page → Done
  handle_tear_down false p = record { page = p; calls = []; notices = [] }
  handle_tear_down true p =
      reported (tear_down p) (codes "Lab torn down") (codes "Tear down failed")
