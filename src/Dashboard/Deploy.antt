-- ===== src/Dashboard/Deploy.antt =====
-- web/frontend/src/page/dashboard/ueDeployFromSubscription.ts: the configuration of a UE from its
-- subscription. `next` is the counter of row ids that reading the subscription takes.
use fru_lab.Prelude.{ℕ, ◌≡◌, refl, ap, ◌∙◌, List, [], ◌∷◌, ◌++◌, if◌then◌else◌, length, drop}
use mathlib.Core.Path.{ap₂}
use fru_lab.Js.Text.{Text, codes, or_else, starts_with, strip_prefix, trim}
use fru_lab.Js.Numbers.{Numbers}
use fru_lab.Subscribers.Webconsole.{Subscription}
use fru_lab.Subscribers.Form.{SessionFormRow, SubscriberFormState}
use fru_lab.Subscribers.Form.Save.{to_subscription}
use fru_lab.Subscribers.Form.Load.{from_subscription}
use fru_lab.Subscribers.Form.RoundTrip.{
  from-to_subscription, starts_with_append, drop-append, after-append,
}

pub record DeployUeRequest : Type 0 where
  pub mcc : Text
  pub mnc : Text
  pub msin : Text
  pub permanent_key : Text
  pub op_value : Text
  pub amf : Text
  pub sqn : Text
  pub dnn : Text
  pub sst : Text
  pub sd : Text

-- `session?.f || d`, for the first session.
abbrev pub first_or : List SessionFormRow → (SessionFormRow → Text) → Text → Text
first_or [] f d = d
first_or (row ∷ _) f d = or_else (f row) d

abbrev pub msin_of : Text → Text → Text
msin_of plmn_id raw_imsi =
    if starts_with raw_imsi plmn_id then drop (length plmn_id) raw_imsi else raw_imsi

module _ {N : Type 0} (js : Numbers N) where
  unfoldable pub subscription_to_ue_deploy_request : Subscription N → ℕ → DeployUeRequest
  subscription_to_ue_deploy_request subscription next =
      let form = (from_subscription js subscription next).1 in
      let plmn_id = form.plmn_mcc ++ form.plmn_mnc in
      let raw_imsi = strip_prefix (codes "imsi-") form.ue_id in
      record {
        mcc = form.plmn_mcc;
        mnc = form.plmn_mnc;
        msin = msin_of plmn_id raw_imsi;
        permanent_key = form.permanent_key;
        op_value = form.op_value;
        amf = form.amf;
        sqn = form.sequence_number;
        dnn = first_or form.sessions (λ row. row.dnn) (codes "internet");
        sst = first_or form.sessions (λ row. row.sst) (codes "1");
        sd = first_or form.sessions (λ row. row.sd) [];
      }

  -- A form whose MCC has three digits and whose trimmed UE id is "imsi-", the trimmed MCC and MNC
  -- and an MSIN, once saved, deploys a UE with those codes, that MSIN, and the form's keys.
  pub deploy-to_subscription :
      (form : SubscriberFormState) (msin : Text) (next : ℕ)
      → length (trim form.plmn_mcc) ≡ 3
      → trim form.ue_id ≡ codes "imsi-" ++ (trim form.plmn_mcc ++ trim form.plmn_mnc) ++ msin
      → (let request = subscription_to_ue_deploy_request (to_subscription js form) next in
          (request.mcc ≡ trim form.plmn_mcc)
          × (request.mnc ≡ trim form.plmn_mnc)
          × (request.msin ≡ msin)
          × (request.permanent_key ≡ form.permanent_key)
          × (request.op_value ≡ form.op_value)
          × (request.amf ≡ form.amf)
          × (request.sqn ≡ form.sequence_number))
  unfolding subscription_to_ue_deploy_request
  deploy-to_subscription form msin next three spelled =
      let (ue, mcc, mnc, _, key, op, sqn, amf, _, _) = from-to_subscription js form next three in
      let plmn_id = trim form.plmn_mcc ++ trim form.plmn_mnc in
      let cut = strip_own (codes "imsi-") (plmn_id ++ msin) in
      (
        mcc,
        mnc,
        ap₂ msin_of (ap₂ (λ a b. a ++ b) mcc mnc)
              (ap (strip_prefix (codes "imsi-")) (ue ∙ spelled) ∙ cut)
            ∙ msin_own plmn_id msin,
        key,
        op,
        amf,
        sqn,
      )
    where
      strip_own : (p s : Text) → strip_prefix p (p ++ s) ≡ s
      strip_own p s = rw (strip_prefix, after-append p s) refl

      msin_own : (p s : Text) → msin_of p (p ++ s) ≡ s
      msin_own p s = rw (starts_with_append p s) (drop-append p s)
