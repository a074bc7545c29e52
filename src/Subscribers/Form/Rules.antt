-- ===== src/Subscribers/Form/Rules.antt =====
-- What a saved form holds of the flow rules.
use fru_lab.Prelude.{
  ℕ, ◌+◌, ◌≡◌, refl, ap, sym, ◌∙◌, inl, inr, Bool, true, false, some, none, List, [], ◌∷◌, ◌++◌,
  arith, map, map-append, keep, any, append_assoc, append-nil, Bool-cases,
}
use fru_lab.Js.Numbers.{Numbers}
use fru_lab.Subscribers.Webconsole.{FlowRules, QosFlows, ChargingData}
use fru_lab.Subscribers.Form.{FlowRuleBundleRow, SessionFormRow, SubscriberFormState}
use fru_lab.Subscribers.Form.Save.{
  Loop, empty_loop, is_given, has_any_qos, has_any_charging, to_int, snssai_key, flow_rule_of,
  qos_flows_of, charging_datas_of, push_bundles, set_slice, add_session, add_sessions,
  to_subscription,
}

-- A rule of the form: its session, its place there, counted from 1, and its values.
pub record Place : Type 0 where
  pub row : SessionFormRow
  pub place : ℕ
  pub bundle : FlowRuleBundleRow

abbrev places_from : SessionFormRow → ℕ → List FlowRuleBundleRow → List Place
places_from row i [] = []
places_from row i (b ∷ bundles) =
    record { row = row; place = i + 1; bundle = b } ∷ places_from row (i + 1) bundles

-- The rules of a form, in order.
abbrev pub places : List SessionFormRow → List Place
places [] = []
places (row ∷ rows) = places_from row 0 row.flow_rules ++ places rows

-- One of the QoS values of a rule is given, and one of its charging values.
abbrev pub has_qos : Place → Bool
has_qos p = any is_given (
    p.bundle.uplink_mbr ∷ p.bundle.downlink_mbr ∷ p.bundle.uplink_gbr ∷ p.bundle.downlink_gbr
    ∷ p.bundle.five_qi ∷ [])

abbrev pub has_charging : Place → Bool
has_charging p = any is_given (p.bundle.unit_cost ∷ p.bundle.quota ∷ p.bundle.charging_method ∷ [])

keep-append : (f : Place → Bool) (xs ys : List Place) → keep f (xs ++ ys) ≡ keep f xs ++ keep f ys
keep-append f [] ys = refl
keep-append f (x ∷ xs) ys = elim (Bool-cases (f x)) [
  | inl e ↦ rw (e, keep-append f xs ys) refl
  | inr e ↦ rw (e, keep-append f xs ys) refl
]

module _ {N : Type 0} (js : Numbers N) where
  -- What the webconsole is sent of a rule.
  abbrev pub rule_at : Place → FlowRules N
  rule_at p = record {
    filter = some p.bundle.filter;
    precedence = some (to_int js p.bundle.precedence);
    snssai = some (snssai_key js p.row.sst p.row.sd);
    dnn = some p.row.dnn;
    qos_ref = some (js.of_count p.place);
  }

  abbrev pub qos_at : Place → QosFlows N
  qos_at p = record {
    snssai = snssai_key js p.row.sst p.row.sd;
    dnn = p.row.dnn;
    qos_ref = js.of_count p.place;
    five_qi = to_int js p.bundle.five_qi;
    mbr_ul = some p.bundle.uplink_mbr;
    mbr_dl = some p.bundle.downlink_mbr;
    gbr_ul = some p.bundle.uplink_gbr;
    gbr_dl = some p.bundle.downlink_gbr;
  }

  abbrev pub charging_at : Place → ChargingData N
  charging_at p = record {
    snssai = some (snssai_key js p.row.sst p.row.sd);
    dnn = p.row.dnn;
    qos_ref = some (js.of_count p.place);
    filter = p.bundle.filter;
    charging_method = some p.bundle.charging_method;
    quota = some p.bundle.quota;
    unit_cost = some p.bundle.unit_cost;
    ue_id = none;
  }

  -- The lists that the loop fills with the rules at some places.
  abbrev with_places : List Place → Loop N → Loop N
  with_places ps s = record s {
    flow_rules = s.flow_rules ++ map rule_at ps;
    qos_flows = s.qos_flows ++ map qos_at (keep has_qos ps);
    charging_datas = s.charging_datas ++ map charging_at (keep has_charging ps);
  }

  qos_flows_of_lem :
      (p : Place) (ps : List Place)
      → qos_flows_of js (snssai_key js p.row.sst p.row.sd) p.row.dnn p.place p.bundle
          ++ map qos_at (keep has_qos ps)
        ≡ map qos_at (keep has_qos (p ∷ ps))
  unfolding qos_flows_of has_any_qos
  qos_flows_of_lem p ps = elim (Bool-cases (has_qos p)) [
    | inl e ↦ let same : has_any_qos p.bundle ≡ true = ground (arith, e) in rw (e, same) refl
    | inr e ↦ let same : has_any_qos p.bundle ≡ false = ground (arith, e) in rw (e, same) refl
  ]

  charging_datas_of_lem :
      (p : Place) (ps : List Place)
      → charging_datas_of js (snssai_key js p.row.sst p.row.sd) p.row.dnn p.place p.bundle
          ++ map charging_at (keep has_charging ps)
        ≡ map charging_at (keep has_charging (p ∷ ps))
  unfolding charging_datas_of has_any_charging
  charging_datas_of_lem p ps = elim (Bool-cases (has_charging p)) [
    | inl e ↦ let same : has_any_charging p.bundle ≡ true = ground (arith, e) in rw (e, same) refl
    | inr e ↦ let same : has_any_charging p.bundle ≡ false = ground (arith, e) in rw (e, same) refl
  ]

  push_bundles_lem :
      (row : SessionFormRow) (i : ℕ) (bundles : List FlowRuleBundleRow) (s : Loop N)
      → push_bundles js (snssai_key js row.sst row.sd) row.dnn i bundles s
        ≡ with_places (places_from row i bundles) s
  unfolding push_bundles flow_rule_of
  push_bundles_lem row i [] s =
      rw (append-nil s.flow_rules, append-nil s.qos_flows, append-nil s.charging_datas) refl
  push_bundles_lem row i (b ∷ bundles) s =
      let p : Place = record { row = row; place = i + 1; bundle = b } in
      let ps = places_from row (i + 1) bundles in
      rw
        (
          push_bundles_lem row (i + 1) bundles,
          append_assoc s.flow_rules,
          append_assoc s.qos_flows,
          append_assoc s.charging_datas,
          qos_flows_of_lem p ps,
          charging_datas_of_lem p ps,
        )
        refl

  kept-append :
      {A : Type 0} (g : Place → A) (f : Place → Bool) (xs ys : List Place)
      → map g (keep f (xs ++ ys)) ≡ map g (keep f xs) ++ map g (keep f ys)
  kept-append g f xs ys = ap (map g) (keep-append f xs ys) ∙ map-append g (keep f xs) (keep f ys)

  add_sessions_lem :
      (rows : List SessionFormRow) (s : Loop N)
      → let t = add_sessions js rows s in
        (t.flow_rules ≡ s.flow_rules ++ map rule_at (places rows))
        × (t.qos_flows ≡ s.qos_flows ++ map qos_at (keep has_qos (places rows)))
        × (t.charging_datas ≡ s.charging_datas ++ map charging_at (keep has_charging (places rows)))
  unfolding add_sessions
  add_sessions_lem [] s = (
    sym (append-nil s.flow_rules),
    sym (append-nil s.qos_flows),
    sym (append-nil s.charging_datas),
  )
  add_sessions_lem (row ∷ rows) s =
      let ps = places_from row 0 row.flow_rules in
      let qs = places rows in
      let (a, b, c) = add_sessions_lem rows (add_session js row s) in
      let one = added row s in
      (
        a
            ∙ ap (λ (l : Loop N). l.flow_rules ++ map rule_at qs) one
            ∙ append_assoc s.flow_rules _ _
            ∙ ap (λ l. s.flow_rules ++ l) (sym (map-append rule_at ps qs)),
        b
            ∙ ap (λ (l : Loop N). l.qos_flows ++ map qos_at (keep has_qos qs)) one
            ∙ append_assoc s.qos_flows _ _
            ∙ ap (λ l. s.qos_flows ++ l) (sym (kept-append qos_at has_qos ps qs)),
        c
            ∙ ap (λ (l : Loop N). l.charging_datas ++ map charging_at (keep has_charging qs)) one
            ∙ append_assoc s.charging_datas _ _
            ∙ ap (λ l. s.charging_datas ++ l) (sym (kept-append charging_at has_charging ps qs)),
      )
    where
      added :
          (row : SessionFormRow) (s : Loop N)
          → add_session js row s
            ≡ with_places
                (places_from row 0 row.flow_rules)
                (record s { slice_map = set_slice js row s.slice_map })
      added row s =
          unfold add_session in
          push_bundles_lem row 0 row.flow_rules
            (record s { slice_map = set_slice js row s.slice_map })

  -- The webconsole is sent every flow rule of the form, session by session, with the slice and the
  -- DNN of its session and its place there, counted from 1; with the same slice, DNN and place a
  -- QoS flow for each rule that has a QoS value, and charging data for each rule that has a
  -- charging value, and no others.
  pub to_subscription_rules :
      (form : SubscriberFormState)
      → let rules = places form.sessions in
        ((to_subscription js form).flow_rules ≡ map rule_at rules)
        × ((to_subscription js form).qos_flows ≡ map qos_at (keep has_qos rules))
        × ((to_subscription js form).charging_datas ≡ map charging_at (keep has_charging rules))
  unfolding to_subscription
  to_subscription_rules form = add_sessions_lem form.sessions empty_loop
