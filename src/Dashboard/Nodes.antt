-- ===== src/Dashboard/Nodes.antt =====
-- The nodes that DashboardPage.tsx draws for the UEs and for the two gNB slices.
use fru_lab.Prelude.{
  ℕ, ◌≡◌, refl, Bool, true, false, not, ◌&&◌, ◌||◌, Option, none, some, List, [], ◌∷◌, ◌++◌, arith,
  max, ltb, ◌==◌, if◌then◌else◌, length, map, keep, any, find,
}
use fru_lab.Js.Text.{Text, codes, text_eq}
use fru_lab.Js.Decimal.{decimal}
use fru_lab.Dashboard.Types.{
  NodeId, core, gnb, ue, NodeStatus, running, stopped, unhealthy, deploying, is_running, is_stopped,
  is_unhealthy, is_deploying, DeploymentNode,
}

pub record UeRow : Type 0 where
  pub ue_id : Text
  pub plmn_id : Text
  pub gpsi : Text
  pub status : NodeStatus
  pub has_been_deployed : Bool
  pub last_deployed : Text
  pub sd : Text

-- The em dash.
abbrev pub never : Text
never = 0x2014 ∷ []

abbrev pub or_never : Option Text → Text
or_never none = never
or_never (some s) = s

abbrev pub status_among : List NodeStatus → NodeStatus
status_among statuses =
    if any is_unhealthy statuses
    then unhealthy
    else if any is_deploying statuses
    then deploying
    else if any is_running statuses
    then running
    else stopped

unfoldable pub compute_ue_node : List UeRow → DeploymentNode
compute_ue_node rows =
    let total = length rows in
    let running_count = length (keep (λ (r : UeRow). is_running r.status) rows) in
    record {
      id = codes "ue";
      label = codes "UE";
      sublabel =
          (if total == 0
            then codes "No subscribers yet"
            else decimal running_count
              ++ codes " / "
              ++ decimal total
              ++ codes " UE instance"
              ++ (if total == 1 then [] else codes "s")
              ++ codes " running");
      status =
          (if any (λ (r : UeRow). is_unhealthy r.status) rows
            then unhealthy
            else if any (λ (r : UeRow). is_deploying r.status) rows
            then deploying
            else if ltb 0 running_count
            then running
            else stopped);
      template = codes "basic (built-in template)";
      last_deployed =
          or_never (find (λ s. not (text_eq s never)) (map (λ (r : UeRow). r.last_deployed) rows));
      status_label = some (decimal running_count ++ codes " / " ++ decimal total);
    }

unfoldable pub compute_gnb_aggregate_node : DeploymentNode → DeploymentNode → DeploymentNode
compute_gnb_aggregate_node slice1 slice2 = record {
  id = codes "gnb";
  label = codes "gNB";
  sublabel = codes "free-ran-ue " ++ 0xb7 ∷ codes " slice1 + slice2";
  status = status_among (slice1.status ∷ slice2.status ∷ []);
  template = codes "ulcl-2slice (two slices)";
  last_deployed =
      (if not (text_eq slice1.last_deployed never)
        then slice1.last_deployed
        else slice2.last_deployed);
  status_label = none;
}

-- `actionBlockedReason`, from the statuses of the nodes.
unfoldable pub action_blocked_reason : NodeId → NodeStatus → NodeStatus → List UeRow → Option Text
action_blocked_reason core core_status gnb_status rows =
    if not (is_stopped core_status) && not (is_stopped gnb_status)
    then some (codes "Stop gNB before stopping the core network")
    else none
action_blocked_reason gnb core_status gnb_status rows =
    if not (is_stopped gnb_status) && any (λ (r : UeRow). not (is_stopped r.status)) rows
    then some (codes "Stop all UE instances before stopping gNB")
    else if is_stopped gnb_status && not (is_running core_status)
    then some (codes "Deploy the core network before deploying gNB")
    else none
action_blocked_reason ue core_status gnb_status rows = none

-- How bad a status is.
abbrev pub rank : NodeStatus → ℕ
rank stopped = 0
rank running = 1
rank deploying = 2
rank unhealthy = 3

abbrev pub worst : List UeRow → ℕ
worst [] = 0
worst (r ∷ rows) = max (rank r.status) (worst rows)

keep-any {ℓ} : {A : Type ℓ} (p : A → Bool) (xs : List A) → ltb 0 (length (keep p xs)) ≡ any p xs
keep-any p [] = ground arith
keep-any p (x ∷ xs) = ground (arith, keep-any p xs)

-- The three tests of the rows, read off the worst rank.
Agrees : Bool → Bool → Bool → ℕ → Type 0
Agrees u d r w =
    (u ≡ (w == 3)) × ((u || d) ≡ ltb 1 w) × ((u || d || r) ≡ ltb 0 w) × (ltb 3 w ≡ false)

worse_status :
    (s : NodeStatus) (u d r : Bool) (w : ℕ)
    → Agrees u d r w
    → Agrees (is_unhealthy s || u) (is_deploying s || d) (is_running s || r) (max (rank s) w)
unfolding Agrees
worse_status running u d r w h = ground arith
worse_status stopped u d r w h = ground arith
worse_status unhealthy u d r w h = ground arith
worse_status deploying u d r w h = ground arith

tests_of_rows :
    (rows : List UeRow)
    → Agrees
        (any (λ (r : UeRow). is_unhealthy r.status) rows)
        (any (λ (r : UeRow). is_deploying r.status) rows)
        (any (λ (r : UeRow). is_running r.status) rows)
        (worst rows)
unfolding Agrees
tests_of_rows [] = ground arith
tests_of_rows (r ∷ rows) =
    unfold Agrees in worse_status r.status _ _ _ (worst rows) (tests_of_rows rows)

chosen :
    (u d r : Bool) (w : ℕ)
    → Agrees u d r w
    → rank (if u then unhealthy else if d then deploying else if r then running else stopped) ≡ w
unfolding Agrees
chosen true d r w h = ground arith
chosen false true r w h = ground arith
chosen false false true w h = ground arith
chosen false false false w h = ground arith

-- The UE node shows the worst status of the rows, in the order unhealthy, deploying, running,
-- stopped.
pub rank-compute_ue_node : (rows : List UeRow) → rank (compute_ue_node rows).status ≡ worst rows
unfolding compute_ue_node
rank-compute_ue_node rows =
    rw (keep-any (λ (r : UeRow). is_running r.status) rows)
      (chosen _ _ _ (worst rows) (tests_of_rows rows))

-- The gNB node shows the worse status of the two slices.
pub rank-compute_gnb_aggregate_node :
    (slice1 slice2 : DeploymentNode)
    → rank (compute_gnb_aggregate_node slice1 slice2).status
      ≡ max (rank slice1.status) (rank slice2.status)
unfolding compute_gnb_aggregate_node
rank-compute_gnb_aggregate_node slice1 slice2 = pairs slice1.status slice2.status
  where
    pairs : (a b : NodeStatus) → rank (status_among (a ∷ b ∷ [])) ≡ max (rank a) (rank b)
    pairs running running = refl
    pairs running stopped = refl
    pairs running unhealthy = refl
    pairs running deploying = refl
    pairs stopped running = refl
    pairs stopped stopped = refl
    pairs stopped unhealthy = refl
    pairs stopped deploying = refl
    pairs unhealthy running = refl
    pairs unhealthy stopped = refl
    pairs unhealthy unhealthy = refl
    pairs unhealthy deploying = refl
    pairs deploying running = refl
    pairs deploying stopped = refl
    pairs deploying unhealthy = refl
    pairs deploying deploying = refl
