-- ===== src/Subscribers/FormPage/Create.antt =====
-- Creating many subscribers at once does what creating them one after the other does.
use fru_lab.Prelude.{
  ℕ, zero, suc, count_up, ◌+◌, ◌≡◌, refl, sym, ap, ◌∙◌, inl, inr, Bool, true, false, Option, none,
  some, List, [], ◌∷◌, arith, length, get_elem?, map, ◌>>=◌, Option-cases,
}
use fru_lab.Js.Text.{Text, codes}
use fru_lab.Js.Numbers.{Numbers}
use fru_lab.Subscribers.BulkIds.{ids}
use fru_lab.Subscribers.RunLimited.{bulk_concurrency}
use fru_lab.Subscribers.RunLimited.Result.{
  failures_of, failures_from, run_limited_result, run_limited_bounds,
}
use fru_lab.Subscribers.Webconsole.{Subscription}
use fru_lab.Subscribers.Form.{SubscriberFormState}
use fru_lab.Subscribers.Form.Save.{to_subscription}
use fru_lab.Subscribers.FormPage.{
  BulkFailure, FormPage, create_one, create_at, failure_of, pool_of, create_many, on_created,
  submit_bulk, last_progress,
}

abbrev pub no_failure : List BulkFailure → Bool
no_failure [] = true
no_failure (_ ∷ _) = false

last-count_up : (n i : ℕ) → last_progress (count_up (suc n) i) ≡ i + n
last-count_up zero i = omega arith
last-count_up (suc n) i = omega (arith, last-count_up n (i + 1))

last-count_up_one : (n : ℕ) → last_progress (count_up n 1) ≡ n
last-count_up_one zero = refl
last-count_up_one (suc n) = omega (arith, last-count_up n 1)

module _ {N E : Type 0} (js : Numbers N) (extract_message : E → Text → Text)
    (post put : Text → Text → Subscription N → Option E) where
  -- The specification: one subscriber after the other, without a limit, and what failed.
  abbrev pub create_in_turn : Subscription N → List Text → List BulkFailure
  create_in_turn base [] = []
  create_in_turn base (ue_id ∷ later) =
      let rest = create_in_turn base later in
      elim (post ue_id base.plmn_id (record base { ue_id = ue_id })) [
        | none ↦ rest
        | some e ↦
            record { ue_id = ue_id; message = extract_message e (codes "Failed to create") } ∷ rest
      ]

  failures_in_turn :
      (base : Subscription N) (all later : List Text) (i : ℕ)
      → ((k : ℕ) → get_elem? all (i + k) ≡ get_elem? later k)
      → map
          (failure_of js extract_message post put)
          (failures_from (create_at js extract_message post put base all) i later)
        ≡ create_in_turn base later
  unfolding failures_from
  failures_in_turn base all [] i h = refl
  failures_in_turn base all (ue_id ∷ later) i h =
      let rest = failures_in_turn base all later (i + 1) (λ k.
        let next : i + 1 + k ≡ i + suc k = omega arith in ap (get_elem? all) next ∙ h (suc k)) in
      let zero_on : i + 0 ≡ i = omega arith in
      let here : create_at js extract_message post put base all i
          ≡ create_one js extract_message post put base ue_id =
        ap (λ o. o >>= create_one js extract_message post put base)
          (ap (get_elem? all) (sym zero_on) ∙ h 0) in
      elim (Option-cases (create_one js extract_message post put base ue_id)) [
        | inl e ↦ let f = here ∙ e in rw (f, failures_from) (rw (e, create_in_turn) rest)
        | inr (x, e) ↦
            let f = here ∙ e in
            rw (f, failures_from)
              (rw (e, create_in_turn)
                (ap
                  (λ (l : List BulkFailure).
                    record { ue_id = ue_id; message = extract_message x (codes "Failed to create") }
                    ∷ l)
                  rest))
      ]

  -- Creating many subscribers eight at a time, in any order of their answers, lists the same
  -- failures, in the order of the IMSIs, as creating one after the other, once no call is in flight.
  pub create_many-in_turn :
      (form : SubscriberFormState) (all : List Text) (schedule : List ℕ)
      → (pool_of js extract_message post put form all schedule).flying ≡ []
      → create_many js extract_message post put form all schedule
        ≡ create_in_turn (to_subscription js form) all
  unfolding create_many failures_of
  create_many-in_turn form all schedule done =
      let base = to_subscription js form in
      let (_, failed) =
        run_limited_result all (create_at js extract_message post put base all) bulk_concurrency
          schedule (omega arith) done in
      ap (map (failure_of js extract_message post put)) failed
      ∙ failures_in_turn base all all 0
          (λ k. let e : 0 + k ≡ k = omega arith in ap (get_elem? all) e)

  -- After a submission for several subscribers whose calls have all settled, the page lists exactly
  -- what creating them one after the other would report, is no longer saving, and was left exactly
  -- if nothing failed.
  pub submit_bulk_lem :
      (all : List Text) (schedule : List ℕ) (s : FormPage)
      → s.is_left ≡ false
      → (pool_of js extract_message post put s.form all schedule).flying ≡ []
      → let t = submit_bulk js extract_message post put (ids all) schedule s in
        (t.bulk_failures ≡ create_in_turn (to_subscription js s.form) all)
        × (t.is_saving ≡ false)
        × (t.is_left ≡ no_failure t.bulk_failures)
        × (t.progress ≡ length all)
  submit_bulk_lem all schedule s here done =
      let calls = create_at js extract_message post put (to_subscription js s.form) all in
      let (_, _, told) = run_limited_bounds all calls bulk_concurrency schedule in
      let (all_done, _) =
        run_limited_result all calls bulk_concurrency schedule (omega arith) done in
      let reported : last_progress
            (pool_of js extract_message post put s.form all schedule).progress
          ≡ length all =
        ap last_progress told ∙ last-count_up_one _ ∙ all_done in
      let listed = create_many-in_turn s.form all schedule done in
      finish (create_many js extract_message post put s.form all schedule) listed reported
    where
      begun : FormPage
      begun = record s {
        is_saving = true;
        progress = last_progress (pool_of js extract_message post put s.form all schedule).progress;
        bulk_failures = [];
      }

      finish :
          (bad : List BulkFailure)
          → bad ≡ create_in_turn (to_subscription js s.form) all
          → begun.progress ≡ length all
          → let t = on_created js extract_message post put (length all) bad begun in
            (t.bulk_failures ≡ create_in_turn (to_subscription js s.form) all)
            × (t.is_saving ≡ false)
            × (t.is_left ≡ no_failure t.bulk_failures)
            × (t.progress ≡ length all)
      finish [] listed reported = (listed, refl, refl, reported)
      finish (f ∷ fs) listed reported = (listed, refl, here, reported)
