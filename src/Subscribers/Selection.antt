-- ===== src/Subscribers/Selection.antt =====
-- The selection of web/frontend/src/page/subscribers/SubscribersPage.tsx and its bulk delete. The
-- selection is a set of keys; a deletion runs in a pool of requests, whose schedule and answers are
-- parameters.
pub mod Laws
mod Tests
use fru_lab.Prelude.{
  ℕ, ◌+◌, ◌-◌, ◌≡◌, ◌<◌, ◌≤◌, refl, ap, sym, ◌∙◌, Bool, true, false, not, ◌&&◌, ◌||◌, Option, none,
  some, List, [], ◌∷◌, ◌++◌, arith, ltb, ◌==◌, if◌then◌else◌, length, map, any, every, keep,
  Bool-cases, inl, inr,
}
use mathlib.Core.Path.{ap₂}
use fru_lab.Js.Text.{Text, codes, text_eq, text_eq_iff, text_eq_refl}
use fru_lab.Js.Decimal.{decimal}
use fru_lab.Subscribers.RunLimited.{Failure, bulk_concurrency, result}
use fru_lab.Subscribers.RunLimited.Result.{after, failures_of, failures_from, run_limited_result}
use fru_lab.Subscribers.Webconsole.{Subscriber}

abbrev pub key_of : Subscriber → Text
key_of s = s.ue_id ++ b'|' ∷ s.plmn_id

abbrev pub in_set : Text → List Text → Bool
in_set k set = any (λ j. text_eq k j) set

-- `next.add(k)` and `next.delete(k)`.
abbrev pub added : Text → List Text → List Text
added k set = if in_set k set then set else set ++ k ∷ []

abbrev pub deleted : Text → List Text → List Text
deleted k set = keep (λ j. not (text_eq k j)) set

-- The new set of the keys of a list, `new Set(…)`.
abbrev pub set_of : List Text → List Text → List Text
set_of [] set = set
set_of (k ∷ ks) set = set_of ks (added k set)

unfoldable pub toggle : Subscriber → List Text → List Text
toggle s selected =
    if in_set (key_of s) selected then deleted (key_of s) selected else added (key_of s) selected

unfoldable pub set_many : List Subscriber → Bool → List Text → List Text
set_many [] on selected = selected
set_many (s ∷ list) true selected = set_many list true (added (key_of s) selected)
set_many (s ∷ list) false selected = set_many list false (deleted (key_of s) selected)

-- `selectedSubscribers`.
abbrev pub selected_of : List Subscriber → List Text → List Subscriber
selected_of subscribers selected = keep (λ (s : Subscriber). in_set (key_of s) selected) subscribers

-- `allMatchingSelected`.
abbrev pub all_matching_selected : List Subscriber → List Text → Bool
all_matching_selected filtered selected =
    ltb 0 (length filtered) && every (λ (s : Subscriber). in_set (key_of s) selected) filtered

-- The plural of `count` subscribers.
abbrev pub deleted_message : ℕ → Text
deleted_message n =
    codes "Deleted " ++ decimal n ++ codes " subscriber" ++ (if n == 1 then [] else codes "s")

module _ {E : Type 0} (extract_message : E → Text → Text) where
  abbrev pub failed_message : List (Failure Subscriber E) → Text
  failed_message [] = []
  failed_message (f ∷ fs) =
      decimal (length (f ∷ fs))
      ++ codes " could not be deleted (still selected), e.g. "
      ++ f.item.ue_id
      ++ codes ": "
      ++ extract_message f.error (codes "Failed to delete")

  -- `handleBulkDelete`, once the pool has returned `failed`: the selection, and the messages of
  -- success and of failure.
  unfoldable pub finish_bulk_delete :
      List Subscriber → List (Failure Subscriber E) → List Text × Option Text × Option Text
  finish_bulk_delete targets failed =
      let gone = length targets - length failed in
      (
        set_of (map (λ (f : Failure Subscriber E). key_of f.item) failed) [],
        (if ltb (length failed) (length targets) then some (deleted_message gone) else none),
        (if ltb 0 (length failed) then some (failed_message failed) else none),
      )

  -- `handleBulkDelete`, with the answers of the webconsole by the place of their target.
  unfoldable pub handle_bulk_delete :
      List Subscriber → List Text → (ℕ → Option E) → List ℕ → List Text × Option Text × Option Text
  handle_bulk_delete subscribers selected outcome schedule =
      let targets = selected_of subscribers selected in
      finish_bulk_delete targets (result (after targets outcome bulk_concurrency schedule))
