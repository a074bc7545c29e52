-- ===== src/Tester/Profiles/Tests.antt =====
-- Names of saved profiles, and the theorems at concrete inputs.
use fru_lab.Prelude.{ℕ, ◌+◌, ◌≤◌, ◌≡◌, ◌⊎◌, refl, true, none, List, [], ◌∷◌, length}
use fru_lab.Js.Text.{codes, trim, trim_start, trim_end}
use fru_lab.Js.Decimal.{digits}
use fru_lab.Js.Numbers.{whole}
use fru_lab.Tester.Defaults.{Json, text, obj}
use fru_lab.Tester.Profiles.{
  TesterStoredProfile, ProfileOps, name_owner, candidate, free_from, free_name,
}
use fru_lab.Tester.Profiles.Names.{free_name_lem}
use fru_lab.Tester.Profiles.OfJson.{json_profiles, ascii_lower, ascii_lower-IsCaseMapping}

abbrev ops : ProfileOps (Json ℕ)
ops = json_profiles whole (λ _. []) ascii_lower (λ _ _. true)

abbrev saved : List (TesterStoredProfile (Json ℕ))
saved =
    record {
      id = codes "a";
      updated_at = [];
      profile = obj ((codes "name", text (codes " Basic")) ∷ []);
    }
    ∷ record {
      id = codes "b";
      updated_at = [];
      profile = obj ((codes "name", text (codes "basic 2")) ∷ []);
    }
    ∷ []

third : free_name ops saved (codes "basic ") ≡ codes "basic 3"
unfolding free_name free_from trim trim_start trim_end digits
third = refl

free_name_lem_example :
    (name_owner ops saved (free_name ops saved (codes "basic ")) none ≡ none)
    × ((free_name ops saved (codes "basic ") ≡ trim (codes "basic "))
        ⊎ ((k : ℕ) × (2 ≤ k)
            × (k ≤ length saved + 2)
            × (free_name ops saved (codes "basic ") ≡ candidate (trim (codes "basic ")) k)))
free_name_lem_example = free_name_lem ops ascii_lower-IsCaseMapping saved (codes "basic ")
