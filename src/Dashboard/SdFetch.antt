-- ===== src/Dashboard/SdFetch.antt =====
-- The effect of web/frontend/src/page/dashboard/useUeInstances.ts that fetches each subscriber's SD
-- once. The answers come all together, as `Promise.allSettled` gives them.
use fru_lab.Prelude.{ℕ, Bool, not, List, [], ◌∷◌, ◌++◌, keep, map, any}
use fru_lab.Js.Text.{Text, text_eq}
use fru_lab.Js.Numbers.{Numbers}
use fru_lab.Js.Objects.{Object, put}
use fru_lab.Subscribers.Webconsole.{Subscriber, Subscription}
use fru_lab.Subscribers.Form.{SessionFormRow}
use fru_lab.Subscribers.Form.Load.{from_subscription}
use fru_lab.Dashboard.Types.{Answer, answered, failed}

abbrev pub is_fetched : List Text → Subscriber → Bool
is_fetched fetched u = any (λ id. text_eq id u.ue_id) fetched

-- `missing`.
abbrev pub missing : List Text → List Subscriber → List Subscriber
missing fetched subscribers = keep (λ (u : Subscriber). not (is_fetched fetched u)) subscribers

-- `fetchedSdRef` after the effect.
abbrev pub mark : List Text → List Subscriber → List Text
mark fetched subscribers =
    map (λ (u : Subscriber). u.ue_id) (missing fetched subscribers) ++ fetched

-- `sessions[0]?.sd || ''`.
abbrev pub first_sd : List SessionFormRow → Text
first_sd [] = []
first_sd (row ∷ _) = row.sd

module _ {N E : Type 0} (js : Numbers N) (answer : Text → Text → Answer E (Subscription N)) where
  abbrev pub put_sd : Text → ℕ → Answer E (Subscription N) → Object Text → Object Text
  put_sd ue_id next (failed e) current = current
  put_sd ue_id next (answered sub) current =
      put ue_id (first_sd (from_subscription js sub next).1.sessions) current

  abbrev pub put_sds : ℕ → List Subscriber → Object Text → Object Text
  put_sds next [] current = current
  put_sds next (u ∷ us) current =
      put_sds next us (put_sd u.ue_id next (answer u.ue_id u.plmn_id) current)

  -- The marked subscribers and the SDs after the effect. The row ids that reading a subscription
  -- takes are not kept, so the same counter serves all.
  unfoldable pub fetch_sds : ℕ → List Subscriber → List Text × Object Text → List Text × Object Text
  fetch_sds next subscribers (fetched, sds) =
      (mark fetched subscribers, put_sds next (missing fetched subscribers) sds)
