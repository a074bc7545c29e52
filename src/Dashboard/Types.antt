-- ===== src/Dashboard/Types.antt =====
-- types.ts, statusMeta.ts and free5gcTemplate.ts of web/frontend/src/page/dashboard, and the
-- answers of the deploy API (web/frontend/src/api/api.ts) that they are made from. A status that
-- the API sends is one of the four.
use fru_lab.Prelude.{Bool, true, false, ◌||◌, Option, none, some, List, [], ◌∷◌, any, if◌then◌else◌}
use fru_lab.Js.Text.{Text, codes, text_eq}

pub data NodeId : Type 0 where
  core gnb ue : NodeId

pub data NodeStatus : Type 0 where
  running stopped unhealthy deploying : NodeStatus

abbrev pub is_running : NodeStatus → Bool
is_running running = true
is_running _ = false

abbrev pub is_stopped : NodeStatus → Bool
is_stopped stopped = true
is_stopped _ = false

abbrev pub is_unhealthy : NodeStatus → Bool
is_unhealthy unhealthy = true
is_unhealthy _ = false

abbrev pub is_deploying : NodeStatus → Bool
is_deploying deploying = true
is_deploying _ = false

pub record NetworkFunction : Type 0 where
  pub name : Text
  pub status : NodeStatus

pub record DeploymentNode : Type 0 where
  pub id : Text
  pub label : Text
  pub sublabel : Text
  pub status : NodeStatus
  pub template : Text
  pub last_deployed : Text
  pub status_label : Option Text

pub record StatusMeta : Type 0 where
  pub text : Text
  pub color : Text
  pub bg : Text
  pub border : Text
  pub dot : Text

pub get_status_meta : NodeStatus → StatusMeta
get_status_meta running = record {
  text = codes "Running";
  color = codes "var(--ok-ink)";
  bg = codes "var(--ok-bg)";
  border = codes "var(--ok-bg)";
  dot = codes "var(--ok)";
}
get_status_meta unhealthy = record {
  text = codes "Unhealthy";
  color = codes "var(--bad-ink)";
  bg = codes "var(--bad-bg)";
  border = codes "var(--bad-bg)";
  dot = codes "var(--bad)";
}
get_status_meta deploying = record {
  text = codes "Deploying";
  color = codes "var(--warn-ink)";
  bg = codes "var(--warn-bg)";
  border = codes "var(--warn-bg)";
  dot = codes "var(--warn)";
}
get_status_meta stopped = record {
  text = codes "Stopped";
  color = codes "var(--idle-ink)";
  bg = codes "var(--idle-bg)";
  border = codes "var(--idle-bg)";
  dot = codes "var(--chrome-muted)";
}

pub data Template : Type 0 where
  basic ulcl ulcl_2slice : Template

abbrev pub template_value : Template → Text
template_value basic = codes "basic"
template_value ulcl = codes "ulcl"
template_value ulcl_2slice = codes "ulcl-2slice"

abbrev pub template_label : Template → Text
template_label basic = codes "Basic"
template_label ulcl = codes "ULCL"
template_label ulcl_2slice = codes "ULCL (Two Slice)"

abbrev pub is_two_slice : Template → Bool
is_two_slice ulcl_2slice = true
is_two_slice _ = false

abbrev pub is_slice_upf : NetworkFunction → Bool
is_slice_upf nf =
    text_eq nf.name (codes "I-UPF-1")
    || text_eq nf.name (codes "I-UPF-2")
    || text_eq nf.name (codes "PSA-UPF-1")
    || text_eq nf.name (codes "PSA-UPF-2")

abbrev pub is_ulcl_upf : NetworkFunction → Bool
is_ulcl_upf nf = text_eq nf.name (codes "I-UPF") || text_eq nf.name (codes "PSA-UPF")

unfoldable pub detect_free5gc_template : List NetworkFunction → Option Template
detect_free5gc_template [] = none
detect_free5gc_template (nf ∷ nfs) =
    if any is_slice_upf (nf ∷ nfs)
    then some ulcl_2slice
    else if any is_ulcl_upf (nf ∷ nfs)
    then some ulcl
    else some basic

-- `ServiceStatus`, `DeployStatusResponse` and `DeployUeStatusResponse`.
pub record ServiceStatus : Type 0 where
  pub name : Text
  pub status : NodeStatus

pub record DeployStatusResponse : Type 0 where
  pub status : NodeStatus
  pub services : Option (List ServiceStatus)
  pub last_deployed : Option Text

pub record DeployUeStatusResponse : Type 0 where
  pub instance_id : Text
  pub status : NodeStatus
  pub last_deployed : Option Text

-- What an awaited call ends with.
pub data Answer {ℓ} (E : Type 0) (A : Type ℓ) : Type ℓ where
  answered : A → Answer E A
  failed : E → Answer E A
