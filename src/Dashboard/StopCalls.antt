-- ===== src/Dashboard/StopCalls.antt =====
-- The calls that stopping the UEs makes, and what it has done when it does not throw.
use fru_lab.Prelude.{
  ◌≡◌, refl, sym, Bool, true, false, not, ◌||◌, none, List, [], ◌∷◌, ◌++◌, arith, ltb, any, map,
  All, Bool-cases, Option-cases, inl, inr,
}
use mathlib.Core.Path.{subst}
use fru_lab.Js.Text.{Text}
use fru_lab.Js.Numbers.{Numbers}
use fru_lab.Dashboard.Types.{is_stopped, Answer, answered, failed}
use fru_lab.Dashboard.Nodes.{UeRow}
use fru_lab.Dashboard.Target.{
  Call, up, down, status, logs, ue_list, ue_up, ue_down, subscriber, Target, free5gc, gnb, slice1,
  slice2, Ran, DeployApi, Forms,
}
use fru_lab.Dashboard.Instances.{
  Instances, UeApi, rows, running_ids, failed_count, stop_error, finish_stop_all, stop_ids,
  stop_all, refresh_instances, listed,
}
use fru_lab.Dashboard.Actions.{Page, any_ue_up, tear_down_ues, stop_all_ues}

abbrev pub is_core_down : Call → Bool
is_core_down (down free5gc) = true
is_core_down (down gnb) = false
is_core_down (down slice1) = false
is_core_down (down slice2) = false
is_core_down (up t v) = false
is_core_down (status t) = false
is_core_down (logs t) = false
is_core_down ue_list = false
is_core_down (ue_up id) = false
is_core_down (ue_down id) = false
is_core_down (subscriber id) = false

abbrev pub stops_core : List Call → Bool
stops_core = any is_core_down

pub stops_core-append :
    (xs ys : List Call) → stops_core (xs ++ ys) ≡ (stops_core xs || stops_core ys)
stops_core-append [] ys = refl
stops_core-append (x ∷ xs) ys = ground (arith, stops_core-append xs ys)

stops_core-ue_downs : (ids : List Text) → stops_core (map ue_down ids) ≡ false
stops_core-ue_downs [] = refl
stops_core-ue_downs (id ∷ ids) = stops_core-ue_downs ids

-- The gNB targets.
abbrev pub is_gnb : Target → Bool
is_gnb free5gc = false
is_gnb gnb = true
is_gnb slice1 = true
is_gnb slice2 = true

module _ {N E : Type 0} (js : Numbers N) (deploy_api : DeployApi E) (ue_api : UeApi N E)
    (forms : Forms) (extract : E → Text → Text) where
  each_accepted :
      (ids : List Text)
      → failed_count js ue_api forms ids ≡ 0
      → All (λ id. ue_api.down_error id ≡ none) ids
  each_accepted [] h = tt
  each_accepted (id ∷ ids) h = elim (Option-cases (ue_api.down_error id)) [
    | inl e ↦ (e, each_accepted ids (rw (e, failed_count) at h))
    | inr (x, e) ↦ absurd (let h₁ = rw (e, failed_count) at h in omega arith)
  ]

  stop_error-none :
      (ids : List Text)
      → stop_error js ue_api forms ids ≡ none
      → All (λ id. ue_api.down_error id ≡ none) ids
  stop_error-none ids h = elim (Bool-cases (ltb 0 (failed_count js ue_api forms ids))) [
    | inl e ↦ absurd (let h₁ = rw (e, stop_error) at h in cc)
    | inr e ↦ each_accepted ids (ground arith)
  ]

  listed_calls :
      (a : Answer E _) (s : Instances) → stops_core (listed js ue_api forms a s).calls ≡ false
  listed_calls (failed e) s = refl
  listed_calls (answered items) s = refl

  finish_stop_all_lem :
      (ids : List Text) (r : Ran Instances E)
      → stops_core r.calls ≡ false
      → (stops_core (finish_stop_all js ue_api forms ids r).calls ≡ false)
        × ((finish_stop_all js ue_api forms ids r).error ≡ none
            → All (λ id. ue_api.down_error id ≡ none) ids)
  unfolding finish_stop_all
  finish_stop_all_lem ids r h =
      let none_of = stops_core-append (map ue_down ids) r.calls in
      let quiet : stops_core (map ue_down ids ++ r.calls) ≡ false =
        ground (arith, none_of, stops_core-ue_downs ids) in
      elim (Option-cases r.error) [
        | inl e ↦ rw (e, finish_stop_all) (quiet, stop_error-none ids)
        | inr (x, e) ↦ rw (e, finish_stop_all) (quiet, λ h. absurd cc)
      ]

  stop_ids_lem :
      (ids : List Text) (s : Instances)
      → (stops_core (stop_ids js ue_api forms ids s).calls ≡ false)
        × ((stop_ids js ue_api forms ids s).error ≡ none
            → All (λ id. ue_api.down_error id ≡ none) ids)
  unfolding refresh_instances
  stop_ids_lem [] s = (refl, λ _. tt)
  stop_ids_lem (id ∷ ids) s = finish_stop_all_lem (id ∷ ids) _ (listed_calls ue_api.list_answer _)

  none_up :
      (all : List UeRow)
      → any (λ (r : UeRow). not (is_stopped r.status)) all ≡ false
      → running_ids all ≡ []
  none_up [] h = refl
  none_up (r ∷ all) h = ground (arith, none_up all)

  pub tear_down_ues_lem :
      (p : Page)
      → (stops_core (tear_down_ues js deploy_api ue_api forms extract p).calls ≡ false)
        × ((tear_down_ues js deploy_api ue_api forms extract p).error ≡ none
            → All (λ id. ue_api.down_error id ≡ none) (running_ids (rows p.instances)))
  unfolding tear_down_ues stop_all_ues stop_all
  tear_down_ues_lem p = elim (Bool-cases (any_ue_up p)) [
    | inl e ↦ rw e (stop_ids_lem (running_ids (rows p.instances)) p.instances)
    | inr e ↦ rw (e) (
      refl,
      λ _. subst (All (λ id. ue_api.down_error id ≡ none)) (sym (none_up (rows p.instances) e)) tt,
    )
  ]
