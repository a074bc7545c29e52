-- ===== src/Tester/Profiles.antt =====
-- web/frontend/src/page/tester/testerProfiles.ts: the names of saved profiles and the profile that
-- the browser remembers. What a profile is to the pages is the interface `ProfileOps`;
-- `toLowerCase` and `localeCompare` are in it, since they follow Unicode and the locale.
pub mod Names
pub mod OfJson
mod Tests
use fru_lab.Prelude.{
  ℕ, zero, suc, ◌+◌, ◌≡◌, Bool, true, false, ◌&&◌, not, Option, none, some, List, [], ◌∷◌, ◌++◌,
  if◌then◌else◌, length, find, All, ◌||◌, ◌==◌,
}
use fru_lab.Js.Text.{Text, codes, text_eq, is_empty, trim, is_digit}
use fru_lab.Js.Decimal.{decimal}

pub record TesterStoredProfile (P : Type 0) : Type 0 where
  pub id : Text
  pub updated_at : Text
  pub profile : P

-- The digits and the space, which have no case.
abbrev pub is_plain : ℕ → Bool
is_plain c = is_digit c || c == 32

-- What the pages use of a profile. `locale_le a b` is `a.localeCompare(b) <= 0`.
pub record ProfileOps (P : Type 0) : Type 0 where
  pub name : P → Text
  pub with_name : Text → P → P
  pub tester_id : P → Text
  pub normalize : P → P
  pub stringify : P → Text
  pub for_tester : P → P
  pub default_profile : P
  pub to_lower_case : Text → Text
  pub locale_le : Text → Text → Bool

-- `toLowerCase` maps digits and spaces to themselves, and they do not change the case mapping of
-- the text before them.
pub record IsCaseMapping (lower : Text → Text) : Type 0 where
  pub keeps_plain : (s d : Text) → All (λ c. is_plain c ≡ true) d → lower (s ++ d) ≡ lower s ++ d

-- The laws of the interface.
pub record ProfileLaws {P : Type 0} (ops : ProfileOps P) : Type 0 where
  pub name-with_name : (n : Text) (p : P) → ops.name (ops.with_name n p) ≡ n
  pub case_mapping : IsCaseMapping ops.to_lower_case

-- `a !== b`, of an id and an id or null.
abbrev pub differs : Text → Option Text → Bool
differs a none = true
differs a (some b) = not (text_eq a b)

-- `lastProfileId` and `rememberProfileId`, of a browser whose storage may not work.
abbrev pub last_profile_id : Bool → Option Text → Option Text
last_profile_id works stored = if works then stored else none

abbrev pub id_or_nothing : Text → Option Text
id_or_nothing id = if is_empty id then none else some id

abbrev pub remember_profile_id : Bool → Text → Option Text → Option Text
remember_profile_id works id stored = if works then id_or_nothing id else stored

-- `base 2`, `base 3`, …
abbrev pub candidate : Text → ℕ → Text
candidate b i = b ++ 32 ∷ decimal i

module _ {P : Type 0} (ops : ProfileOps P) where
  -- What names are compared by.
  abbrev pub name_key : Text → Text
  name_key a = ops.to_lower_case (trim a)

  abbrev pub same_name : Text → Text → Bool
  same_name a b = text_eq (name_key a) (name_key b)

  abbrev pub owns : Text → Option Text → TesterStoredProfile P → Bool
  owns wanted except_id p = differs p.id except_id && same_name (ops.name p.profile) wanted

  abbrev pub name_owner :
      List (TesterStoredProfile P) → Text → Option Text → Option (TesterStoredProfile P)
  name_owner list wanted except_id = find (owns wanted except_id) list

  -- The loop from `i`: the fuel is one more than the number of saved profiles.
  unfoldable pub free_from : ℕ → List (TesterStoredProfile P) → Text → ℕ → Text
  free_from zero list b i = candidate b i
  free_from (suc f) list b i =
      let next = free_from f list b (i + 1) in
      elim (name_owner list (candidate b i) none) [ none ↦ candidate b i | some _ ↦ next ]

  unfoldable pub free_name : List (TesterStoredProfile P) → Text → Text
  free_name list base =
      let b = trim base in
      elim (name_owner list b none) [ none ↦ b | some _ ↦ free_from (suc (length list)) list b 2 ]

  abbrev pub before : TesterStoredProfile P → TesterStoredProfile P → Bool
  before p q = ops.locale_le (name_key (ops.name p.profile)) (name_key (ops.name q.profile))

  unfoldable pub insert_by_name :
      TesterStoredProfile P → List (TesterStoredProfile P) → List (TesterStoredProfile P)
  insert_by_name p [] = p ∷ []
  insert_by_name p (q ∷ qs) = if before p q then p ∷ q ∷ qs else q ∷ insert_by_name p qs

  -- `[...list].sort(…)`, which is stable.
  unfoldable pub by_name : List (TesterStoredProfile P) → List (TesterStoredProfile P)
  by_name [] = []
  by_name (p ∷ ps) = insert_by_name p (by_name ps)
