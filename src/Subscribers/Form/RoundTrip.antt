-- ===== src/Subscribers/Form/RoundTrip.antt =====
-- A form that is saved and loaded: the fields outside the sessions, and the default slices.
use fru_lab.Prelude.{
  ℕ, ◌≡◌, refl, ap, sym, ◌∙◌, true, false, none, some, List, [], ◌∷◌, ◌++◌, arith, if◌then◌else◌,
  length, take, drop, Bool-cases, inl, inr,
}
use fru_lab.Js.Text.{Text, codes, trim, starts_with, strip_prefix, after_prefix}
use fru_lab.Js.Numbers.{Numbers}
use fru_lab.Subscribers.Form.{SubscriberFormState}
use fru_lab.Subscribers.Form.Save.{full_gpsi, to_subscription}
use fru_lab.Subscribers.Form.Load.{op_value_of, from_subscription}

module _ {ℓ} {A : Type ℓ} where
  take-append : (xs ys : List A) → take (length xs) (xs ++ ys) ≡ xs
  take-append [] ys = elim ys [ [] ↦ refl | _ ∷ _ ↦ refl ]
  take-append (x ∷ xs) ys = ap (λ t. x ∷ t) (take-append xs ys)

  pub drop-append : (xs ys : List A) → drop (length xs) (xs ++ ys) ≡ ys
  drop-append [] ys = elim ys [ [] ↦ refl | _ ∷ _ ↦ refl ]
  drop-append (x ∷ xs) ys = drop-append xs ys

pub after-append : (p s : Text) → after_prefix (p ++ s) p ≡ some s
after-append [] s = elim s [ [] ↦ refl | _ ∷ _ ↦ refl ]
after-append (c ∷ p) s = ground (arith, after-append p s)

after_of_starts_with : (s p : Text) → starts_with s p ≡ false → after_prefix s p ≡ none
after_of_starts_with s [] h = elim s [ [] ↦ cc | _ ∷ _ ↦ cc ]
after_of_starts_with [] (_ ∷ _) h = refl
after_of_starts_with (c ∷ s) (d ∷ p) h = ground (arith, after_of_starts_with s p)

strip_lem : (p s : Text) → strip_prefix p (if starts_with s p then s else p ++ s) ≡ strip_prefix p s
strip_lem p s = elim (Bool-cases (starts_with s p)) [
  | inl e ↦ rw e refl
  | inr e ↦ rw (e, strip_prefix, after-append p s, after_of_starts_with s p e) refl
]

pub starts_with_append : (p s : Text) → starts_with (p ++ s) p ≡ true
starts_with_append [] s = elim s [ [] ↦ refl | _ ∷ _ ↦ refl ]
starts_with_append (c ∷ p) s = ground (arith, starts_with_append p s)

starts_with-full_gpsi : (gpsi : Text) → starts_with (full_gpsi gpsi) (codes "msisdn-") ≡ true
unfolding full_gpsi
starts_with-full_gpsi gpsi = elim (Bool-cases (starts_with gpsi (codes "msisdn-"))) [
  | inl e ↦ rw e e
  | inr e ↦ rw e (starts_with_append (codes "msisdn-") gpsi)
]

strip-full_gpsi :
    (gpsi : Text)
    → strip_prefix (codes "msisdn-") (full_gpsi gpsi) ≡ strip_prefix (codes "msisdn-") gpsi
unfolding full_gpsi
strip-full_gpsi gpsi = strip_lem (codes "msisdn-") gpsi

module _ {N : Type 0} (js : Numbers N) where
  -- A saved form loads with the fields outside its sessions: the identifiers are trimmed, the GPSI
  -- loses a prefix `msisdn-`, and the codes of the PLMN are told apart if the MCC has three digits.
  pub from-to_subscription :
      (form : SubscriberFormState) (next : ℕ)
      → length (trim form.plmn_mcc) ≡ 3
      → (let back = (from_subscription js (to_subscription js form) next).1 in
          (back.ue_id ≡ trim form.ue_id)
          × (back.plmn_mcc ≡ trim form.plmn_mcc)
          × (back.plmn_mnc ≡ trim form.plmn_mnc)
          × (back.gpsi ≡ strip_prefix (codes "msisdn-") (trim form.gpsi))
          × (back.permanent_key ≡ form.permanent_key)
          × (back.op_value ≡ form.op_value)
          × (back.sequence_number ≡ form.sequence_number)
          × (back.amf ≡ form.amf)
          × (back.ambr_uplink ≡ form.ambr_uplink)
          × (back.ambr_downlink ≡ form.ambr_downlink))
  unfolding from_subscription to_subscription op_value_of
  from-to_subscription form next three =
      let mcc = trim form.plmn_mcc in
      let mnc = trim form.plmn_mnc in
      (
        refl,
        ap (λ n. take n (mcc ++ mnc)) (sym three) ∙ take-append mcc mnc,
        ap (λ n. drop n (mcc ++ mnc)) (sym three) ∙ drop-append mcc mnc,
        strip-full_gpsi (trim form.gpsi),
        refl,
        refl,
        refl,
        refl,
        refl,
        refl,
      )

  -- A saved form has exactly one GPSI, which begins with `msisdn-`, even if the field is blank.
  pub to_subscription_gpsis :
      (form : SubscriberFormState)
      → (g : Text) × ((to_subscription js form).access_and_mobility_subscription_data.gpsis
          ≡ some (g ∷ []))
        × (starts_with g (codes "msisdn-") ≡ true)
  unfolding to_subscription
  to_subscription_gpsis form =
      (full_gpsi (trim form.gpsi), refl, starts_with-full_gpsi (trim form.gpsi))
