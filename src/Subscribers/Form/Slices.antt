-- ===== src/Subscribers/Form/Slices.antt =====
-- The slices that `toSubscription` collects from the sessions.
use fru_lab.Prelude.{
  ℕ, ◌≡◌, refl, ap, ◌∙◌, Bool, true, false, ◌&&◌, ◌||◌, Option, none, some, List, [], ◌∷◌, ◌+◌,
  if◌then◌else◌, ◌>>=◌, Bool-cases, Option-cases, inl, inr,
}
use fru_lab.Js.Text.{Text, codes, or_else, text_eq, text_eq_iff}
use fru_lab.Js.Numbers.{Numbers}
use fru_lab.Js.Objects.{put, get, get-put, get-put_other, get-set, get-set_other}
use fru_lab.Subscribers.Webconsole.{DnnConfiguration, UpSecurity}
use fru_lab.Subscribers.Form.{FlowRuleBundleRow, SessionFormRow, SubscriberFormState}
use fru_lab.Subscribers.Form.Save.{
  Loop, SliceAccumulator, is_given, to_int, empty_loop, dnn_configuration, slice_map_key, slice_for,
  set_slice, push_bundles, add_session, add_sessions,
}

-- The last session of a slice with a DNN.
abbrev pub last_session : Text → Text → List SessionFormRow → Option SessionFormRow
last_session key dnn [] = none
last_session key dnn (row ∷ rows) =
    let later = last_session key dnn rows in
    elim later [
      | some found ↦ some found
      | none ↦ if text_eq key (slice_map_key row) && text_eq dnn row.dnn then some row else none
    ]

module _ {N : Type 0} (js : Numbers N) where
  -- The configuration that the slices hold for a slice and a DNN.
  abbrev pub config_at :
      Text → Text → List (Text × SliceAccumulator N) → Option (DnnConfiguration N)
  config_at key dnn slice_map = do slice ← get key slice_map; get dnn slice.dnn_configurations

  config_at-new :
      (key dnn : Text) (row : SessionFormRow) (m : List (Text × SliceAccumulator N))
      → text_eq key (slice_map_key row) ≡ true
      → (get dnn (slice_for js row m).dnn_configurations) ≡ config_at key dnn m
  unfolding get slice_for
  config_at-new key dnn row m e =
      let same = (text_eq_iff key (slice_map_key row)).0 e in
      elim (Option-cases (get (slice_map_key row) m)) [
        | inl g ↦ rw (same, slice_for, g) refl
        | inr (slice, g) ↦ rw (same, slice_for, g) refl
      ]

  config_at-set_slice :
      (key dnn : Text) (row : SessionFormRow) (m : List (Text × SliceAccumulator N))
      → config_at key dnn (set_slice js row m) ≡ (
          if text_eq key (slice_map_key row) && text_eq dnn row.dnn
          then some (dnn_configuration js row)
          else config_at key dnn m)
  unfolding set_slice
  config_at-set_slice key dnn row m = elim (Bool-cases (text_eq key (slice_map_key row))) [
    | inl e ↦
        let same = (text_eq_iff key (slice_map_key row)).0 e in
        let found = ap (λ k. get k (set_slice js row m)) same ∙ get-set (slice_map_key row) _ m in
        elim (Bool-cases (text_eq dnn row.dnn)) [
          | inl d ↦
              rw (e, d, found)
                (ap
                    (λ k. get k (
                      put row.dnn (dnn_configuration js row)
                        (slice_for js row m).dnn_configurations))
                    ((text_eq_iff dnn row.dnn).0 d)
                  ∙ get-put row.dnn (dnn_configuration js row)
                      (slice_for js row m).dnn_configurations)
          | inr d ↦
              rw (e, d, found) (get-put_other row.dnn dnn _ _ d ∙ config_at-new key dnn row m e)
        ]
    | inr e ↦ rw (e, get-set_other (slice_map_key row) key _ m e) refl
  ]

  slice_map-push_bundles :
      (snssai dnn : Text) (i : ℕ) (bundles : List FlowRuleBundleRow) (s : Loop N)
      → (push_bundles js snssai dnn i bundles s).slice_map ≡ s.slice_map
  unfolding push_bundles
  slice_map-push_bundles snssai dnn i [] s = refl
  slice_map-push_bundles snssai dnn i (b ∷ bundles) s =
      slice_map-push_bundles snssai dnn (i + 1) bundles _

  pub slice_map-add_session :
      (row : SessionFormRow) (s : Loop N)
      → (add_session js row s).slice_map ≡ set_slice js row s.slice_map
  unfolding add_session
  slice_map-add_session row s = slice_map-push_bundles _ row.dnn 0 row.flow_rules _

  chosen :
      (b : Bool) (row : SessionFormRow) (old : Option (DnnConfiguration N))
      → (if b then some (dnn_configuration js row) else old) ≡ elim (if b then some row else none) [
        | some row ↦ some (dnn_configuration js row)
        | none ↦ old
      ]
  chosen true row old = refl
  chosen false row old = refl

  config_at-add_sessions :
      (key dnn : Text) (rows : List SessionFormRow) (s : Loop N)
      → config_at key dnn (add_sessions js rows s).slice_map ≡ elim (last_session key dnn rows) [
        | some row ↦ some (dnn_configuration js row)
        | none ↦ config_at key dnn s.slice_map
      ]
  unfolding add_sessions
  config_at-add_sessions key dnn [] s = refl
  config_at-add_sessions key dnn (row ∷ rows) s =
      let later = config_at-add_sessions key dnn rows (add_session js row s) in
      let here =
        ap (config_at key dnn) (slice_map-add_session row s)
        ∙ config_at-set_slice key dnn row s.slice_map in
      elim (Option-cases (last_session key dnn rows)) [
        | inr (found, e) ↦ rw e (rw e at later)
        | inl e ↦ rw e (
            (rw e at later)
            ∙ here
            ∙ chosen (text_eq key (slice_map_key row) && text_eq dnn row.dnn) row
                (config_at key dnn s.slice_map))
      ]

  -- Both ways of the user plane are secured as the session says, or neither if it says nothing.
  abbrev security_of : Text → Text → Option UpSecurity
  security_of [] [] = none
  security_of [] (c ∷ confid) =
      some (record { up_integr = codes "NOT_NEEDED"; up_confid = c ∷ confid })
  security_of (i ∷ integr) [] =
      some (record { up_integr = i ∷ integr; up_confid = codes "NOT_NEEDED" })
  security_of (i ∷ integr) (c ∷ confid) =
      some (record { up_integr = i ∷ integr; up_confid = c ∷ confid })

  -- The configuration that a session asks for.
  abbrev pub config_of : SessionFormRow → DnnConfiguration N
  config_of row = record {
    pdu_session_types = record {
      default_session_type = row.pdu_session_type;
      allowed_session_types = some (row.pdu_session_type ∷ []);
    };
    ssc_modes = record {
      default_ssc_mode = row.ssc_mode;
      allowed_ssc_modes = some (row.ssc_mode ∷ []);
    };
    five_g_qos_profile = some (record {
      five_qi = to_int js row.five_qi;
      arp = record {
        priority_level = to_int js row.arp_priority;
        preempt_cap = [];
        preempt_vuln = [];
      };
      priority_level = some (to_int js row.arp_priority);
    });
    session_ambr = some (record { uplink = row.ambr_uplink; downlink = row.ambr_downlink });
    static_ip_address = none;
    up_security = security_of row.up_integr row.up_confid;
  }

  dnn_configuration_lem : (row : SessionFormRow) → dnn_configuration js row ≡ config_of row
  unfolding dnn_configuration
  dnn_configuration_lem row =
      ap (λ (u : Option UpSecurity). record (config_of row) { up_security = u })
        (security row.up_integr row.up_confid)
    where
      security :
          (integr confid : Text)
          → (if is_given integr || is_given confid
              then some (record {
                up_integr = or_else integr (codes "NOT_NEEDED");
                up_confid = or_else confid (codes "NOT_NEEDED");
              })
              else none)
            ≡ security_of integr confid
      security [] [] = refl
      security [] (c ∷ confid) = refl
      security (i ∷ integr) [] = refl
      security (i ∷ integr) (c ∷ confid) = refl

  -- A slice and a DNN of the form have the configuration that their last session asks for, and no
  -- slice holds a DNN that has no session.
  pub to_subscription_config :
      (form : SubscriberFormState) (key dnn : Text)
      → config_at key dnn (add_sessions js form.sessions empty_loop).slice_map
        ≡ (do row ← last_session key dnn form.sessions; some (config_of row))
  unfolding get
  to_subscription_config form key dnn =
      config_at-add_sessions key dnn form.sessions empty_loop
      ∙ nothing (last_session key dnn form.sessions)
    where
      nothing :
          (found : Option SessionFormRow)
          → (elim found [
            | some row ↦ some (dnn_configuration js row)
            | none ↦ config_at key dnn []
          ])
            ≡ (do row ← found; some (config_of row))
      nothing none = refl
      nothing (some row) = ap some (dnn_configuration_lem row)
