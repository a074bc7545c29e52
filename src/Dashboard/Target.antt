-- ===== src/Dashboard/Target.antt =====
-- web/frontend/src/page/dashboard/useDeployTarget.ts, with the targets that useFree5gcStatus.ts,
-- useGnbStatus.ts and useGnbSliceStatus.ts make of it. What the deploy API answers is a parameter,
-- as are `toUpperCase` and the local form of a date. An operation gives the state after it, the
-- calls that it made in order, and the error that it throws, if any.
use fru_lab.Prelude.{
  ℕ, ◌≡◌, refl, Bool, true, false, Option, none, some, List, [], ◌∷◌, ◌++◌, length, map,
}
use fru_lab.Js.Text.{Text, codes}
use fru_lab.Js.Decimal.{decimal}
use fru_lab.Dashboard.Types.{
  stopped, NetworkFunction, DeploymentNode, ServiceStatus, DeployStatusResponse, Template, Answer,
  answered, failed,
}
use fru_lab.Dashboard.Nodes.{never}

pub data Target : Type 0 where
  free5gc gnb slice1 slice2 : Target

abbrev pub id_of : Target → Text
id_of free5gc = codes "core"
id_of gnb = codes "gnb"
id_of slice1 = codes "gnb-slice1"
id_of slice2 = codes "gnb-slice2"

abbrev pub label_of : Target → Text
label_of free5gc = codes "free5GC Core"
label_of gnb = codes "gNB"
label_of slice1 = codes "gNB Slice 1"
label_of slice2 = codes "gNB Slice 2"

abbrev pub format_sublabel : Target → ℕ → Text
format_sublabel free5gc n =
    codes "Core Network " ++ 0xb7 ∷ codes " " ++ decimal n ++ codes " network functions"
format_sublabel gnb n = codes "free-ran-ue " ++ 0xb7 ∷ codes " gNB simulator"
format_sublabel slice1 n = codes "free-ran-ue " ++ 0xb7 ∷ codes " SD 010203"
format_sublabel slice2 n = codes "free-ran-ue " ++ 0xb7 ∷ codes " SD 112233"

pub data Call : Type 0 where
  up : Target → Option Template → Call
  down : Target → Call
  status : Target → Call
  logs : Target → Call
  ue_list : Call
  ue_up : Text → Call
  ue_down : Text → Call
  subscriber : Text → Call

pub record TargetState : Type 0 where
  pub node : DeploymentNode
  pub network_functions : List NetworkFunction
  pub is_action_pending : Bool
  pub log_lines : List Text
  pub is_loading_logs : Bool

pub record Ran (S E : Type 0) : Type 0 where
  pub state : S
  pub calls : List Call
  pub error : Option E

abbrev pub initial : Target → TargetState
initial t = record {
  node = record {
    id = id_of t;
    label = label_of t;
    sublabel = codes "Checking status" ++ 0x2026 ∷ [];
    status = stopped;
    template = codes "basic (built-in template)";
    last_deployed = never;
    status_label = none;
  };
  network_functions = [];
  is_action_pending = false;
  log_lines = [];
  is_loading_logs = false;
}

pub record DeployApi (E : Type 0) : Type 0 where
  pub up_error : Target → Option Template → Option E
  pub down_error : Target → Option E
  pub status_answer : Target → Answer E DeployStatusResponse
  pub logs_answer : Target → Answer E (List Text)

-- The form of text that the pages show.
pub record Forms : Type 0 where
  pub to_upper_case : Text → Text
  pub to_locale_string : Text → Text

abbrev pub services_of : DeployStatusResponse → List ServiceStatus
services_of r = elim r.services [ none ↦ [] | some services ↦ services ]

-- `t ? new Date(t).toLocaleString() : '—'`.
abbrev pub shown_time : Forms → Option Text → Text
shown_time forms none = never
shown_time forms (some []) = never
shown_time forms (some (c ∷ s)) = forms.to_locale_string (c ∷ s)

abbrev pub node_of : Forms → Target → DeployStatusResponse → DeploymentNode
node_of forms t r = record {
  id = id_of t;
  label = label_of t;
  sublabel = format_sublabel t (length (services_of r));
  status = r.status;
  template = codes "basic (built-in template)";
  last_deployed = shown_time forms r.last_deployed;
  status_label = none;
}

module _ {E : Type 0} (api : DeployApi E) (forms : Forms) (t : Target) where
  -- `refresh` behind its call.
  abbrev pub refreshed : Answer E DeployStatusResponse → TargetState → Ran TargetState E
  refreshed (failed e) s = record { state = s; calls = status t ∷ []; error = some e }
  refreshed (answered r) s = record {
    state = record s {
      network_functions =
          map
            (λ (v : ServiceStatus). record { name = forms.to_upper_case v.name; status = v.status })
            (services_of r);
      node = node_of forms t r;
    };
    calls = status t ∷ [];
    error = none;
  }

  unfoldable pub refresh : TargetState → Ran TargetState E
  refresh s = refreshed (api.status_answer t) s

  -- What `deploy` and `stop` do with their call: `try { await call; await refresh() } finally`.
  unfoldable pub act : Call → Option E → TargetState → Ran TargetState E
  act call (some e) s =
      let s₁ : TargetState = record s { is_action_pending = true } in
      record { state = record s₁ { is_action_pending = false }; calls = call ∷ []; error = some e }
  act call none s =
      let r = refresh (record s { is_action_pending = true }) in
      record {
        state = record r.state { is_action_pending = false };
        calls = call ∷ r.calls;
        error = r.error;
      }

  unfoldable pub deploy : Option Template → TargetState → Ran TargetState E
  deploy variant s = act (up t variant) (api.up_error t variant) s

  unfoldable pub stop : TargetState → Ran TargetState E
  stop s = act (down t) (api.down_error t) s

  unfoldable pub fetch_logs : TargetState → Ran TargetState E
  fetch_logs s =
      let s₁ : TargetState = record s { is_loading_logs = true } in
      elim (api.logs_answer t) [
        | failed e ↦ record {
          state = record s₁ { is_loading_logs = false };
          calls = logs t ∷ [];
          error = some e;
        }
        | answered lines ↦ record {
          state = record s₁ { log_lines = lines; is_loading_logs = false };
          calls = logs t ∷ [];
          error = none;
        }
      ]

  refreshed_lem :
      (a : Answer E DeployStatusResponse) (s : TargetState)
      → api.status_answer t ≡ a
      → ((x : E) → (refreshed a s).error ≡ some x → (refreshed a s).state.node ≡ s.node)
        × ((refreshed a s).error ≡ none
            → (r : DeployStatusResponse) × (api.status_answer t ≡ answered r)
              × ((refreshed a s).state.node ≡ node_of forms t r))
  refreshed_lem (failed e) s known = ((λ x _. refl), λ h. absurd cc)
  refreshed_lem (answered r) s known = ((λ x h. absurd cc), λ _. (r, known, refl))

  -- After a deploy or a stop no action is pending, on every branch; if it throws, the node is the
  -- last known one, and if it does not, it has the status that the server answers.
  pub act_lem :
      (call : Call) (e : Option E) (s : TargetState)
      → ((act call e s).state.is_action_pending ≡ false)
        × ((x : E) → (act call e s).error ≡ some x → (act call e s).state.node ≡ s.node)
        × ((act call e s).error ≡ none
            → (r : DeployStatusResponse) × (api.status_answer t ≡ answered r)
              × ((act call e s).state.node ≡ node_of forms t r))
  unfolding act refresh
  act_lem call (some e) s = (refl, (λ x _. refl), λ h. absurd cc)
  act_lem call none s =
      let (kept, shown) =
        refreshed_lem (api.status_answer t) (record s { is_action_pending = true }) refl in
      (refl, kept, shown)
