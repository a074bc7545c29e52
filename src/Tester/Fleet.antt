-- ===== src/Tester/Fleet.antt =====
-- web/frontend/src/page/tester/useTesters.ts: the list of testers, and the answers that come in
-- any order. `none` is the list that is still loading.
use fru_lab.Prelude.{
  ℕ, ◌≡◌, refl, Bool, true, false, Option, none, some, List, [], ◌∷◌, if◌then◌else◌, map, any, find,
  Bool-cases, inl, inr,
}
use fru_lab.Js.Text.{Text, codes, text_eq, or_else}
use fru_lab.Tester.Api.{TesterEntry}

pub record TesterOption : Type 0 where
  pub id : Text
  pub url : Text
  pub built_in : Bool
  pub name : Text
  pub reachable : Option Bool

pub data Answered : Type 0 where
  list_answered : List TesterEntry → Answered
  list_failed : Answered
  status_answered : Text → Text → Answered
  status_failed : Text → Answered

abbrev pub option_of : TesterEntry → TesterOption
option_of t = record {
  id = t.id;
  url = t.url;
  built_in = t.built_in;
  name = t.url;
  reachable = none;
}

abbrev pub reached : Text → Text → TesterOption → TesterOption
reached id name x =
    if text_eq x.id id then record x { name = or_else name x.url; reachable = some true } else x

abbrev pub missed : Text → TesterOption → TesterOption
missed id x = if text_eq x.id id then record x { reachable = some false } else x

-- `cur?.map(…) ?? cur`.
abbrev pub update :
    (TesterOption → TesterOption) → Option (List TesterOption) → Option (List TesterOption)
update f none = none
update f (some testers) = some (map f testers)

-- What one answer of a `reload` that is not cancelled does to the state.
unfoldable pub on_answer : Answered → Option (List TesterOption) → Option (List TesterOption)
on_answer (list_answered entries) testers = some (map option_of entries)
on_answer list_failed testers = some []
on_answer (status_answered id name) testers = update (reached id name) testers
on_answer (status_failed id) testers = update (missed id) testers

abbrev pub name_or_removed : Option TesterOption → Text
name_or_removed none = codes "removed tester"
name_or_removed (some t) = t.name

unfoldable pub tester_label : Option (List TesterOption) → Text → Text
tester_label none id = 0x2026 ∷ []
tester_label (some testers) id =
    name_or_removed
      (find (λ (x : TesterOption). text_eq x.id (or_else id (codes "default"))) testers)

found_name :
    (c : ℕ) (id : Text) (k : ℕ) (name : Text) (testers : List TesterOption)
    → any (λ (x : TesterOption). text_eq x.id (k ∷ id)) testers ≡ true
    → name_or_removed (
        find
          (λ (x : TesterOption). text_eq x.id (k ∷ id))
          (map (reached (k ∷ id) (c ∷ name)) testers))
      ≡ c ∷ name
found_name c id k name [] h = absurd cc
found_name c id k name (x ∷ testers) h = elim (Bool-cases (text_eq x.id (k ∷ id))) [
  | inl e ↦ rw e (rw e refl)
  | inr e ↦ rw e (rw e (found_name c id k name testers (rw e at h)))
]

-- A tester of the list, by an id that is not empty, is labelled by the name that it answers, if
-- that is not empty.
pub tester_label-on_answer :
    (k : ℕ) (id : Text) (c : ℕ) (name : Text) (testers : List TesterOption)
    → any (λ (x : TesterOption). text_eq x.id (k ∷ id)) testers ≡ true
    → tester_label (on_answer (status_answered (k ∷ id) (c ∷ name)) (some testers)) (k ∷ id)
      ≡ c ∷ name
unfolding on_answer tester_label
tester_label-on_answer k id c name testers h = found_name c id k name testers h
