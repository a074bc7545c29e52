-- ===== src/Tester/ProfileList.antt =====
-- web/frontend/src/page/tester/TesterProfilesPage.tsx: the list of saved profiles, its selection and
-- the deletion of several. What the server answers is a parameter: `delete` for the deletion of each
-- profile, by its id, and a listing.
pub mod Delete
mod Tests
use fru_lab.Prelude.{
  ℕ, ◌-◌, Bool, true, false, ◌&&◌, ◌||◌, Option, none, some, List, [], ◌∷◌, ◌++◌, ltb, ◌==◌,
  if◌then◌else◌, length, map, every, keep,
}
use fru_lab.Js.Text.{Text, codes, text_eq, is_empty, trim}
use fru_lab.Js.Decimal.{decimal}
use fru_lab.Dashboard.Types.{Answer, answered, failed}
use fru_lab.Subscribers.Selection.{in_set, added, deleted, set_of}
use fru_lab.Tester.Profiles.{TesterStoredProfile, ProfileOps}

abbrev pub starts_with : Text → Text → Bool
starts_with [] s = true
starts_with (c ∷ q) [] = false
starts_with (c ∷ q) (d ∷ s) = c == d && starts_with q s

-- `s.includes(q)`.
abbrev pub includes : Text → Text → Bool
includes q [] = is_empty q
includes q (c ∷ s) = starts_with q (c ∷ s) || includes q s

pub record ProfileList (P : Type 0) : Type 0 where
  pub profiles : Option (List (TesterStoredProfile P))
  pub selected : List Text
  pub to_delete : Option (List (TesterStoredProfile P))
  pub is_deleting : Bool
  pub query : Text
  pub tester_filter : Text
  pub errors : List Text
  pub successes : List Text

-- `profiles ?? []`, and `toDelete ?? []`.
abbrev pub or_empty : {A : Type 0} → Option (List A) → List A
or_empty none = []
or_empty (some list) = list

abbrev pub ids_of : {P : Type 0} → List (TesterStoredProfile P) → List Text
ids_of list = map (λ (p : TesterStoredProfile _). p.id) list

abbrev pub is_selected : {P : Type 0} → List Text → TesterStoredProfile P → Bool
is_selected selected p = in_set p.id selected

abbrev pub chosen : {P : Type 0} → ProfileList P → List (TesterStoredProfile P)
chosen s = keep (is_selected s.selected) (or_empty s.profiles)

module _ {P : Type 0} (ops : ProfileOps P) (default_tester_id : Text) where
  -- `p.profile.testerId || DEFAULT_TESTER_ID`.
  abbrev pub tester_of : P → Text
  tester_of p = if is_empty (ops.tester_id p) then default_tester_id else ops.tester_id p

  abbrev pub matches : Text → Text → TesterStoredProfile P → Bool
  matches q tester p =
      (is_empty q || includes q (ops.to_lower_case (ops.name p.profile)))
      && (is_empty tester || text_eq (tester_of p.profile) tester)

  abbrev pub filtered : ProfileList P → List (TesterStoredProfile P)
  filtered s =
      keep (matches (ops.to_lower_case (trim s.query)) s.tester_filter) (or_empty s.profiles)

  abbrev pub all_selected : ProfileList P → Bool
  all_selected s = ltb 0 (length (filtered s)) && every (is_selected s.selected) (filtered s)

  -- The checkbox of the header: every profile that matches, on every page, or none.
  abbrev pub select_all : ProfileList P → ProfileList P
  select_all s = record s {
    selected = if all_selected s then [] else set_of (ids_of (filtered s)) [];
  }

abbrev pub toggle : {P : Type 0} → Text → ProfileList P → ProfileList P
toggle id s = record s {
  selected = if in_set id s.selected then deleted id s.selected else added id s.selected;
}

-- The targets whose result is a rejection.
abbrev pub failed_in :
    {P E : Type 0} → List (TesterStoredProfile P) → List (Option E) → List (TesterStoredProfile P)
failed_in [] results = []
failed_in (p ∷ ps) [] = []
failed_in (p ∷ ps) (none ∷ results) = failed_in ps results
failed_in (p ∷ ps) (some e ∷ results) = p ∷ failed_in ps results

-- `1 profile`, `2 profiles`.
abbrev pub deleted_profiles : ℕ → Text
deleted_profiles n =
    codes "Deleted " ++ decimal n ++ codes " profile" ++ (if n == 1 then [] else codes "s")

module _ {P E : Type 0} (ops : ProfileOps P) (message : E → Text → Text) where
  -- `refresh`, once its listing came: the selections of profiles that are gone are forgotten.
  abbrev pub on_profiles : Answer E (List (TesterStoredProfile P)) → ProfileList P → ProfileList P
  on_profiles (answered list) s = record s {
    profiles = some list;
    selected = set_of (ids_of (keep (is_selected s.selected) list)) [];
  }
  on_profiles (failed e) s = record s {
    errors = s.errors ++ message e (codes "Failed to load the saved profiles") ∷ [];
  }

  -- The reason of the first rejection.
  abbrev pub first_reason : List (Option E) → Text
  first_reason [] = []
  first_reason (none ∷ results) = first_reason results
  first_reason (some e ∷ results) = message e (codes "Failed to delete")

  abbrev pub could_not : List (TesterStoredProfile P) → List (Option E) → List Text
  could_not [] results = []
  could_not (p ∷ ps) results =
      (decimal (length (p ∷ ps))
        ++ codes " could not be deleted, e.g. \""
        ++ ops.name p.profile
        ++ codes "\": "
        ++ first_reason results)
      ∷ []

  abbrev pub tell_deleted :
      List (TesterStoredProfile P) → List (Option E) → ProfileList P → ProfileList P
  tell_deleted targets results s =
      let rejected = failed_in targets results in
      let gone = length targets - length rejected in
      record s {
        to_delete = none;
        is_deleting = false;
        successes = s.successes ++ (if ltb 0 gone then deleted_profiles gone ∷ [] else []);
        errors = s.errors ++ could_not rejected results;
      }

  unfoldable pub handle_delete :
      (Text → Option E) → Answer E (List (TesterStoredProfile P)) → ProfileList P → ProfileList P
  handle_delete delete listing s =
      let targets = or_empty s.to_delete in
      on_profiles listing
        (tell_deleted targets (map (λ (p : TesterStoredProfile P). delete p.id) targets) s)
