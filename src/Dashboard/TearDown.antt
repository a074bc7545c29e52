-- ===== src/Dashboard/TearDown.antt =====
-- The order of the tear down: the core network is stopped only after everything that needs it.
use fru_lab.Prelude.{
  ◌≡◌, refl, true, false, Option, none, some, ◌++◌, arith, All, Bool-cases, Option-cases, inl, inr,
}
use fru_lab.Js.Text.{Text}
use fru_lab.Js.Numbers.{Numbers}
use fru_lab.Dashboard.Types.{Answer, answered, failed}
use fru_lab.Dashboard.Target.{
  Call, up, down, status, logs, ue_list, ue_up, ue_down, subscriber, Target, free5gc, gnb, slice1,
  slice2, Ran, DeployApi, Forms,
}
use fru_lab.Dashboard.Target
use fru_lab.Dashboard.Instances.{UeApi, rows, running_ids}
use fru_lab.Dashboard.Actions.{
  Page, target_of, is_up, continue_with, stop_target, stop_if_up, tear_down_ues, tear_down_gnbs,
  tear_down, handle_tear_down, first_error,
}
use fru_lab.Dashboard.StopCalls.{
  is_core_down, stops_core, is_gnb, stops_core-append, tear_down_ues_lem,
}

module _ {N E : Type 0} (js : Numbers N) (deploy_api : DeployApi E) (ue_api : UeApi N E)
    (forms : Forms) (extract : E → Text → Text) where
  module _ (g : Page → Ran Page E) (a : Ran Page E) where
    seq : Ran Page E
    seq = continue_with js deploy_api ue_api forms extract g a

    seq-error : seq.error ≡ none → (a.error ≡ none) × ((g a.state).error ≡ none)
    unfolding seq
    seq-error h = elim (Option-cases a.error) [
      | inl e ↦ (e, rw (e, continue_with) at h)
      | inr (x, e) ↦ absurd (let h₁ = rw (e, continue_with) at h in cc)
    ]

    seq-quiet :
        stops_core a.calls ≡ false
        → stops_core (g a.state).calls ≡ false
        → stops_core seq.calls ≡ false
    unfolding seq
    seq-quiet ha hg = elim (Option-cases a.error) [
      | inl e ↦ rw (e, continue_with) (ground (arith, stops_core-append a.calls (g a.state).calls))
      | inr (x, e) ↦ rw (e, continue_with) ha
    ]

    seq-loud : stops_core a.calls ≡ false → stops_core seq.calls ≡ true → a.error ≡ none
    unfolding seq
    seq-loud ha h = elim (Option-cases a.error) [
      | inl e ↦ e
      | inr (x, e) ↦ absurd (let h₁ = rw (e, continue_with) at h in cc)
    ]

  gnb_down_is_quiet : (t : Target) → is_gnb t ≡ true → is_core_down (down t) ≡ false
  gnb_down_is_quiet free5gc h = absurd cc
  gnb_down_is_quiet gnb h = refl
  gnb_down_is_quiet slice1 h = refl
  gnb_down_is_quiet slice2 h = refl

  refreshed_calls :
      (t : Target) (a : Answer E _) (s : Target.TargetState)
      → stops_core (Target.refreshed deploy_api forms t a s).calls ≡ false
  refreshed_calls t (failed e) s = refl
  refreshed_calls t (answered r) s = refl

  act_lem :
      (t : Target) (e : Option E) (s : Target.TargetState)
      → is_gnb t ≡ true
      → (stops_core (Target.act deploy_api forms t (down t) e s).calls ≡ false)
        × ((Target.act deploy_api forms t (down t) e s).error ≡ none → e ≡ none)
  unfolding Target.act Target.refresh
  act_lem t (some x) s h = (rw (gnb_down_is_quiet t h) refl, λ e. absurd cc)
  act_lem t none s h =
      (rw (gnb_down_is_quiet t h) (refreshed_calls t (deploy_api.status_answer t) _), λ _. refl)

  stop_if_up_lem :
      (start p : Page) (t : Target)
      → is_gnb t ≡ true
      → (stops_core (stop_if_up js deploy_api ue_api forms extract start t p).calls ≡ false)
        × ((stop_if_up js deploy_api ue_api forms extract start t p).error ≡ none
            → is_up t start ≡ true
            → deploy_api.down_error t ≡ none)
  unfolding stop_target Target.stop
  stop_if_up_lem start p t h = elim (Bool-cases (is_up t start)) [
    | inl e ↦
        let (quiet, clean) = act_lem t (deploy_api.down_error t) (target_of t p) h in
        rw e (quiet, λ n _. clean n)
    | inr e ↦ rw e (refl, λ _ up. absurd cc)
  ]

  first_error-none :
      (a b : Option E)
      → first_error js deploy_api ue_api forms extract a b ≡ none
      → (a ≡ none) × (b ≡ none)
  first_error-none none b h = (refl, h)
  first_error-none (some x) b h = absurd cc

  tear_down_gnbs_lem :
      (start p : Page)
      → (stops_core (tear_down_gnbs js deploy_api ue_api forms extract start p).calls ≡ false)
        × ((tear_down_gnbs js deploy_api ue_api forms extract start p).error ≡ none
            → (t : Target) → is_gnb t ≡ true
            → is_up t start ≡ true
            → deploy_api.down_error t ≡ none)
  unfolding tear_down_gnbs
  tear_down_gnbs_lem start p =
      let one = stop_if_up js deploy_api ue_api forms extract start gnb p in
      let two = stop_if_up js deploy_api ue_api forms extract start slice1 one.state in
      let (q₁, c₁) = stop_if_up_lem start p gnb refl in
      let (q₂, c₂) = stop_if_up_lem start one.state slice1 refl in
      let (q₃, c₃) = stop_if_up_lem start two.state slice2 refl in
      let three = stop_if_up js deploy_api ue_api forms extract start slice2 two.state in
      (
        ground (
          arith,
          stops_core-append one.calls (two.calls ++ three.calls),
          stops_core-append two.calls three.calls,
          q₁,
          q₂,
          q₃,
        ),
        λ h.
            let (e₁, rest) = first_error-none one.error _ h in
            let (e₂, e₃) = first_error-none two.error three.error rest in
            λ t.
              elim t
                as (λ t. is_gnb t ≡ true → is_up t start ≡ true → deploy_api.down_error t ≡ none) [
                  | free5gc ↦ λ g _. absurd cc
                  | gnb ↦ λ _ u. c₁ e₁ u
                  | slice1 ↦ λ _ u. c₂ e₂ u
                  | slice2 ↦ λ _ u. c₃ e₃ u
                ],
      )

  -- A tear down stops the core network only if the stop of every UE that was not stopped, and of
  -- every gNB target that was not stopped, has been accepted.
  pub tear_down_order :
      (p : Page)
      → stops_core (handle_tear_down js deploy_api ue_api forms extract true p).calls ≡ true
      → All (λ id. ue_api.down_error id ≡ none) (running_ids (rows p.instances))
        × ((t : Target) → is_gnb t ≡ true → is_up t p ≡ true → deploy_api.down_error t ≡ none)
  unfolding handle_tear_down tear_down seq
  tear_down_order p h =
      let ues = tear_down_ues js deploy_api ue_api forms extract p in
      let gnbs = tear_down_gnbs js deploy_api ue_api forms extract p in
      let (ues_quiet, ues_clean) = tear_down_ues_lem js deploy_api ue_api forms extract p in
      let (gnbs_quiet, gnbs_clean) = tear_down_gnbs_lem p ues.state in
      let before = seq-quiet gnbs ues ues_quiet gnbs_quiet in
      let reached =
        seq-loud (stop_if_up js deploy_api ue_api forms extract p free5gc) (seq gnbs ues) before
          h in
      let (ues_ok, gnbs_ok) = seq-error gnbs ues reached in (ues_clean ues_ok, gnbs_clean gnbs_ok)
