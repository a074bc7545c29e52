-- ===== src/Subscribers/Selection/Tests.antt =====
-- A selection of two subscribers, of which one cannot be deleted.
use fru_lab.Prelude.{ℕ, zero, suc, ◌≡◌, refl, Option, none, some, List, [], ◌∷◌, map}
use fru_lab.Js.Text.{Text, codes}
use fru_lab.Subscribers.Webconsole.{Subscriber}
use fru_lab.Subscribers.RunLimited.{
  Failure, bulk_concurrency, pick, failed_at, take_next, finish, settle, launch, start,
  run_schedule,
}
use fru_lab.Subscribers.RunLimited.Result.{after, failures_of}
use fru_lab.Subscribers.Selection.{key_of, in_set, selected_of, handle_bulk_delete}
use fru_lab.Subscribers.Selection.Laws.{bulk_delete_selection}

abbrev first : Subscriber
first = record { plmn_id = codes "20893"; ue_id = codes "imsi-1"; gpsi = [] }

abbrev second : Subscriber
second = record { plmn_id = codes "20893"; ue_id = codes "imsi-2"; gpsi = [] }

abbrev all : List Subscriber
all = first ∷ second ∷ []

abbrev selected : List Text
selected = key_of first ∷ key_of second ∷ []

-- The second deletion is rejected.
abbrev rejected : ℕ → Option Text
rejected zero = none
rejected (suc i) = some (codes "in use")

ended : (after (selected_of all selected) rejected bulk_concurrency (0 ∷ 0 ∷ [])).flying ≡ []
unfolding run_schedule start launch settle take_next finish pick failed_at
ended = refl

bulk_delete_selection_example :
    in_set
      (key_of second)
      (handle_bulk_delete (λ (e fallback : Text). e) all selected rejected (0 ∷ 0 ∷ [])).0
    ≡ in_set (key_of second) (
        map
          (λ (f : Failure Subscriber Text). key_of f.item)
          (failures_of (selected_of all selected) rejected))
bulk_delete_selection_example =
    bulk_delete_selection (λ (e fallback : Text). e) all selected rejected (0 ∷ 0 ∷ [])
      (key_of second) ended
