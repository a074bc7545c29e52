-- ===== src/Tester/Sending.antt =====
-- `forTester` of web/frontend/src/page/tester/testerDefaults.ts, and `lastSupi` of
-- web/frontend/src/page/tester/TesterSetupPage.tsx.
use fru_lab.Prelude.{
  ◌≡◌, refl, true, Option, none, some, List, [], ◌∷◌, if◌then◌else◌, Bool-cases, inl, inr, map,
}
use fru_lab.Js.Text.{Text, is_empty}
use fru_lab.Js.Numbers.{Numbers}
use fru_lab.Tester.Api.{TesterProfile, TesterPlan, TesterGnbSpec}

-- The SUPI of the last gNB that has one.
abbrev pub last_of : List Text → Text
last_of [] = []
last_of (s ∷ supis) = let later = last_of supis in if is_empty later then s else later

unfoldable pub last_supi : {N : Type 0} → TesterPlan N → Text
last_supi {N} plan = last_of (map (λ (g : TesterGnbSpec N). g.last_supi) plan.gnbs)

module _ {N : Type 0} (js : Numbers N) where
  -- `...(x ? { x } : {})`.
  abbrev pub if_truthy : Option N → Option N
  if_truthy none = none
  if_truthy (some n) = if js.is_truthy n then some n else none

  unfoldable pub for_tester : TesterProfile N → TesterProfile N
  for_tester p = record p {
    tester_id = none;
    rates = record p.rates {
      n2 = record p.rates.n2 {
        rate_per_sec = if_truthy p.rates.n2.rate_per_sec;
        max_in_flight = if_truthy p.rates.n2.max_in_flight;
      };
    };
  }

  if_truthy-some :
      (o : Option N) (n : N) → if_truthy o ≡ some n → (o ≡ some n) × (js.is_truthy n ≡ true)
  if_truthy-some none n h = absurd cc
  if_truthy-some (some m) n h = elim (Bool-cases (js.is_truthy m)) [
    | inl e ↦ let same : some m ≡ some n = rw e at h in (same, cc)
    | inr e ↦ absurd (let h₁ = rw e at h in cc)
  ]

  -- What is sent to a tester has no tester id, and an N2 limit is sent only if the profile has it
  -- and it is not 0.
  pub for_tester_lem :
      (p : TesterProfile N) (n : N)
      → ((for_tester p).tester_id ≡ none)
        × ((for_tester p).rates.n2.rate_per_sec ≡ some n
            → (p.rates.n2.rate_per_sec ≡ some n) × (js.is_truthy n ≡ true))
        × ((for_tester p).rates.n2.max_in_flight ≡ some n
            → (p.rates.n2.max_in_flight ≡ some n) × (js.is_truthy n ≡ true))
  unfolding for_tester
  for_tester_lem p n =
      (refl, if_truthy-some p.rates.n2.rate_per_sec n, if_truthy-some p.rates.n2.max_in_flight n)
