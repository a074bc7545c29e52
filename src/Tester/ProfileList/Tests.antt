-- ===== src/Tester/ProfileList/Tests.antt =====
-- The list of three saved profiles, and the theorem at a concrete input.
use fru_lab.Prelude.{
  ℕ, ◌≡◌, ◌+◌, min, refl, true, false, ◌&&◌, Option, none, some, List, [], ◌∷◌, length, keep,
}
use fru_lab.Js.Text.{Text, codes, text_eq, trim}
use fru_lab.Js.Numbers.{whole}
use fru_lab.Dashboard.Types.{answered}
use fru_lab.Tester.Defaults.{Json, text, obj}
use fru_lab.Subscribers.Selection.{in_set}
use fru_lab.Tester.Profiles.{TesterStoredProfile, ProfileOps}
use fru_lab.Tester.Profiles.OfJson.{json_profiles, ascii_lower}
use fru_lab.Tester.ProfileList.{
  ProfileList, ids_of, is_selected, includes, toggle, chosen, filtered, select_all, handle_delete,
}
use fru_lab.Tester.ProfileList.Delete.{is_rejected, remaining, handle_delete_lem}

abbrev ops : ProfileOps (Json ℕ)
ops = json_profiles whole (λ _. []) ascii_lower (λ _ _. true)

abbrev message : Text → Text → Text
message e _ = e

abbrev named : Text → TesterStoredProfile (Json ℕ)
named n = record { id = n; updated_at = []; profile = obj ((codes "name", text n) ∷ []) }

abbrev list : List (TesterStoredProfile (Json ℕ))
list = named (codes "a") ∷ named (codes "b") ∷ named (codes "c") ∷ []

-- Two profiles are selected, and their deletion is asked.
abbrev page : ProfileList (Json ℕ)
page = record {
  profiles = some list;
  selected = codes "a" ∷ codes "b" ∷ [];
  to_delete = some (named (codes "a") ∷ named (codes "b") ∷ []);
  is_deleting = false;
  query = codes " B ";
  tester_filter = [];
  errors = [];
  successes = [];
}

-- The second one cannot be deleted.
abbrev delete : Text → Option Text
delete id = elim (text_eq id (codes "b")) [ true ↦ some (codes "busy") | false ↦ none ]

includes_middle : includes (codes "se") (codes "baseline") ≡ true
includes_middle = refl

query-filtered : filtered ops (codes "default") page ≡ named (codes "b") ∷ []
unfolding trim
query-filtered = refl

toggle-off : chosen (toggle (codes "a") page) ≡ named (codes "b") ∷ []
toggle-off = refl

select_all-clears : (select_all ops (codes "default") page).selected ≡ []
unfolding trim
select_all-clears = refl

handle_delete_lem_example :
    let kept = keep (λ p. is_selected page.selected p && is_rejected (delete p.id)) list in
    let t =
      handle_delete ops message delete (answered (remaining delete page.selected list)) page in
    (chosen t ≡ kept)
    × ((id : Text) → in_set id t.selected ≡ in_set id (ids_of kept))
    × (length t.errors ≡ length page.errors + min 1 (length kept))
handle_delete_lem_example = handle_delete_lem ops message delete list page refl refl
