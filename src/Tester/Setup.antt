-- ===== src/Tester/Setup.antt =====
-- web/frontend/src/page/tester/TesterSetupPage.tsx: the profile in the form, the saved profiles, and
-- saving and starting. What the server and the user answer are parameters; an answer that the page
-- awaits is taken by an operation of its own (`on_created`, `on_updated`, `on_started`), so that
-- edits may come between. The calls, notices and page changes are kept in order.
pub mod Handlers
pub mod Save
pub mod Start
pub mod Validate
mod Tests
use fru_lab.Prelude.{
  Bool, true, false, ◌||◌, ◌&&◌, not, Option, none, some, List, [], ◌∷◌, ◌++◌, if◌then◌else◌, find,
  keep,
}
use fru_lab.Js.Text.{Text, codes, text_eq, is_empty, trim, or_else}
use fru_lab.Dashboard.Types.{Answer, answered, failed}
use fru_lab.Tester.Profiles.{
  TesterStoredProfile, ProfileOps, last_profile_id, remember_profile_id, differs, name_owner,
  free_name, by_name,
}

-- What a new profile is saved for.
pub data SaveFor : Type 0 where
  for_save for_start : SaveFor

pub record RenameRequest : Type 0 where
  pub name : Text
  pub next : SaveFor

pub data Place : Type 0 where
  profiles_page : Place
  run_page : Text → Place

pub data Effect (P : Type 0) : Type 0 where
  create_called : P → Effect P
  update_called : Text → P → Effect P
  run_called : Text → P → Effect P
  went_to : Place → Effect P
  told_success told_error : Text → Effect P

pub record Setup (P : Type 0) : Type 0 where
  pub profile : P
  pub profiles : Option (List (TesterStoredProfile P))
  pub current_id : Option Text
  pub saved_json : Text
  pub is_choosing_save : Bool
  pub rename : Option RenameRequest
  pub is_loading : Bool
  pub is_busy : Bool
  pub remembered : Option Text
  pub effects : List (Effect P)

-- What the server answers, and the text that an error is shown by (`extractErrorMessage`).
pub record SetupApi (P E : Type 0) : Type 0 where
  pub create : P → Answer E (TesterStoredProfile P)
  pub update : Text → P → Answer E (TesterStoredProfile P)
  pub run_start : Text → P → Option E
  pub extract_error_message : E → Text → Text

-- `list.find((p) => p.id === id)`, of an id or null.
abbrev pub with_id :
    {P : Type 0} → List (TesterStoredProfile P) → Option Text → Option (TesterStoredProfile P)
with_id list none = none
with_id {P} list (some id) = find (λ (p : TesterStoredProfile P). text_eq p.id id) list

abbrev pub first_of : {A : Type 0} → List A → Option A
first_of [] = none
first_of (a ∷ _) = some a

-- `a ?? b`.
abbrev pub either : {A : Type 0} → Option A → Option A → Option A
either none b = b
either (some a) b = some a

abbrev pub emit : {P : Type 0} → Effect P → Setup P → Setup P
emit e s = record s { effects = s.effects ++ e ∷ [] }

abbrev pub list_of : {P : Type 0} → Setup P → List (TesterStoredProfile P)
list_of s = elim s.profiles [ none ↦ [] | some list ↦ list ]

abbrev pub is_owned : {P : Type 0} → Option (TesterStoredProfile P) → Bool
is_owned none = false
is_owned (some _) = true

-- `storage` says whether the browser's storage works.
module _ {P : Type 0} (ops : ProfileOps P) (storage : Bool) where
  abbrev pub initial_setup : Option Text → Setup P
  initial_setup remembered = record {
    profile = ops.default_profile;
    profiles = none;
    current_id = none;
    saved_json = [];
    is_choosing_save = false;
    rename = none;
    is_loading = true;
    is_busy = false;
    remembered = remembered;
    effects = [];
  }

  abbrev pub open_profile : TesterStoredProfile P → Setup P → Setup P
  open_profile stored s = record s {
    profile = ops.normalize stored.profile;
    saved_json = ops.stringify (ops.normalize stored.profile);
    current_id = some stored.id;
    remembered = remember_profile_id storage stored.id s.remembered;
  }

  abbrev pub new_profile : List (TesterStoredProfile P) → P
  new_profile list =
      ops.with_name (free_name ops list (ops.name ops.default_profile)) ops.default_profile

  abbrev pub open_new : List (TesterStoredProfile P) → Setup P → Setup P
  open_new list s = record s {
    profile = new_profile list;
    saved_json = ops.stringify (new_profile list);
    current_id = none;
  }

  -- The profile to open on arrival: `?new`, `?profile=`, the one that was open last, the first one.
  abbrev pub wanted_profile :
      Bool
      → Option Text
      → Option Text
      → List (TesterStoredProfile P)
      → Option (TesterStoredProfile P)
  wanted_profile true in_url stored list = with_id list none
  wanted_profile false in_url stored list =
      either (with_id list (either in_url (last_profile_id storage stored))) (first_of list)

  abbrev pub open_found : Option (TesterStoredProfile P) → Setup P → Setup P
  open_found none s = open_new (list_of s) s
  open_found (some found) s = open_profile found s

  unfoldable pub on_listed :
      {E : Type 0}
      → (E → Text → Text)
      → Bool
      → Option Text
      → Answer E (List (TesterStoredProfile P))
      → Setup P
      → Setup P
  on_listed message is_new in_url (failed e) s =
      emit (told_error (message e (codes "Failed to load the saved profiles")))
        (record s { profiles = some []; is_loading = false })
  on_listed message is_new in_url (answered list) s =
      let found = wanted_profile is_new in_url s.remembered list in
      record (open_found found (record s { profiles = some list })) { is_loading = false }

  abbrev pub is_dirty : Setup P → Bool
  is_dirty s = not (text_eq (ops.stringify s.profile) s.saved_json)

  -- `window.confirm` is answered by the user.
  abbrev pub leave : Bool → Setup P → Bool
  leave confirmed s = not (is_dirty s) || confirmed

  abbrev pub back_to : Option (TesterStoredProfile P) → Setup P → Setup P
  back_to none s = emit (went_to profiles_page) s
  back_to (some previous) s = open_profile previous s

  unfoldable pub handle_cancel : Bool → Setup P → Setup P
  handle_cancel confirmed s =
      if leave confirmed s
      then back_to (with_id (list_of s) (last_profile_id storage s.remembered)) s
      else s

  -- `onPick` and `onNew` of the name field.
  unfoldable pub pick_profile : Bool → TesterStoredProfile P → Setup P → Setup P
  pick_profile confirmed p s =
      if differs p.id s.current_id && leave confirmed s then open_profile p s else s

  unfoldable pub pick_new : Bool → Setup P → Setup P
  pick_new confirmed s = if leave confirmed s then open_new (list_of s) s else s

  abbrev pub owned_message : Text → Option (TesterStoredProfile P) → Option Text
  owned_message message none = none
  owned_message message (some _) = some message

  abbrev pub name_error : Setup P → Option Text
  name_error s =
      if is_empty (trim (ops.name s.profile))
      then some (codes "Give the profile a name")
      else owned_message (codes "Another saved profile already has this name")
          (name_owner ops (list_of s) (ops.name s.profile) s.current_id)

  abbrev pub rename_error : RenameRequest → Setup P → Option Text
  rename_error r s =
      if is_empty (trim r.name)
      then some (codes "Give the profile a name")
      else owned_message (codes "A saved profile already has this name")
          (name_owner ops (list_of s) r.name none)

  -- `stored`.
  abbrev pub put_stored : TesterStoredProfile P → Setup P → Setup P
  put_stored p s =
      let others = keep (λ (x : TesterStoredProfile P). not (text_eq x.id p.id)) (list_of s) in
      open_profile p (record s { profiles = some (by_name ops (others ++ p ∷ [])) })

  -- A name that `saveNew` does not take.
  abbrev pub is_refused : Text → Setup P → Bool
  is_refused name s = is_empty (trim name) || is_owned (name_owner ops (list_of s) name none)

  abbrev pub proposed : Text → Setup P → Text
  proposed name s =
      free_name ops (list_of s)
        (if is_empty (trim name) then codes "profile" else trim name ++ codes " copy")

  -- `saveNew` up to its `await`.
  abbrev pub send_create : Text → Setup P → Setup P
  send_create name s =
      emit (create_called (ops.with_name (trim name) s.profile)) (record s { is_busy = true })
