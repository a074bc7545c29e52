-- ===== src/Dashboard/Pending.antt =====
-- Which UEs stay pending after an action on them.
use fru_lab.Prelude.{
  ◌≡◌, ap, sym, ◌∙◌, Bool, true, false, Option, none, some, List, [], ◌∷◌, arith, any, Bool-cases,
  inl, inr,
}
use mathlib.Core.Path.{subst}
use fru_lab.Js.Text.{Text, text_eq, text_eq_iff}
use fru_lab.Js.Numbers.{Numbers}
use fru_lab.Js.Objects.{Object, put, get, get-put, get-put_other}
use fru_lab.Dashboard.Types.{Answer, answered, failed, DeployUeStatusResponse}
use fru_lab.Dashboard.Target.{Call, Forms}
use fru_lab.Dashboard.Instances.{
  Instances, UeApi, rows, running_ids, put_all, with_pending, stop_all, stop_ids, finish_stop_all,
  refresh_instances, listed,
}

-- An id is among those of a list.
abbrev pub among : Text → List Text → Bool
among id ids = any (λ other. text_eq id other) ids

get-put_all_other :
    (id : Text) (ids : List Text) (b : Bool) (o : Object Bool)
    → get id o ≡ some b
    → get id (put_all ids b o) ≡ some b
get-put_all_other id [] b o h = h
get-put_all_other id (k ∷ ks) b o h = get-put_all_other id ks b (put k b o) kept
  where
    kept : get id (put k b o) ≡ some b
    kept = elim (Bool-cases (text_eq id k)) [
      | inl e ↦ ap (λ j. get j (put k b o)) ((text_eq_iff id k).0 e) ∙ get-put k b o
      | inr e ↦ get-put_other k id b o e ∙ h
    ]

get-put_all :
    (id : Text) (ids : List Text) (b : Bool) (o : Object Bool)
    → among id ids ≡ true
    → get id (put_all ids b o) ≡ some b
get-put_all id [] b o h = absurd cc
get-put_all id (k ∷ ks) b o h = elim (Bool-cases (text_eq id k)) [
  | inl e ↦
      get-put_all_other id ks b (put k b o)
        (ap (λ j. get j (put k b o)) ((text_eq_iff id k).0 e) ∙ get-put k b o)
  | inr e ↦ get-put_all id ks b (put k b o) (ground (arith, e, h))
]

module _ {N E : Type 0} (js : Numbers N) (api : UeApi N E) (forms : Forms) where
  -- A deploy or a stop of one UE leaves it not pending, on every branch.
  pub with_pending_ends :
      (ue_id : Text) (calls : List Call) (e : Option E) (s : Instances)
      → get ue_id (with_pending js api forms ue_id calls e s).state.pending_instances ≡ some false
  unfolding with_pending
  with_pending_ends ue_id calls (some x) s = get-put ue_id false _
  with_pending_ends ue_id calls none s = get-put ue_id false _

  stop_ids_pending :
      (id : Text) (ids : List Text) (s : Instances)
      → among id ids ≡ true
      → ((items : List DeployUeStatusResponse)
          → api.list_answer ≡ answered items
          → get id (stop_ids js api forms ids s).state.pending_instances ≡ some false)
        × ((e : E)
            → api.list_answer ≡ failed e
            → get id (stop_ids js api forms ids s).state.pending_instances ≡ some true)
  unfolding finish_stop_all refresh_instances
  stop_ids_pending id [] s h = absurd cc
  stop_ids_pending id (k ∷ ks) s h =
      let s₁ : Instances = record s {
        pending_instances = put_all (k ∷ ks) true s.pending_instances;
      } in
      let is_left = λ (b : Bool) (a : Answer E (List DeployUeStatusResponse)).
        get id
          (finish_stop_all js api forms (k ∷ ks) (listed js api forms a s₁)).state.pending_instances
        ≡ some b in
      (
        λ items e. subst (is_left false) (sym e) (get-put_all id (k ∷ ks) false _ h),
        λ x e. subst (is_left true) (sym e) (get-put_all id (k ∷ ks) true s.pending_instances h),
      )

  -- After stopping all UEs, those that were stopped are not pending if the list of instances has
  -- been answered, and stay pending if that call failed.
  pub stop_all_pending :
      (id : Text) (s : Instances)
      → among id (running_ids (rows s)) ≡ true
      → ((items : List DeployUeStatusResponse)
          → api.list_answer ≡ answered items
          → get id (stop_all js api forms s).state.pending_instances ≡ some false)
        × ((e : E)
            → api.list_answer ≡ failed e
            → get id (stop_all js api forms s).state.pending_instances ≡ some true)
  unfolding stop_all
  stop_all_pending id s h = stop_ids_pending id (running_ids (rows s)) s h
