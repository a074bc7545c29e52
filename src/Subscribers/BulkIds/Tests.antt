-- ===== src/Subscribers/BulkIds/Tests.antt =====
-- Runs of `bulkUeIds`, and the theorems at concrete inputs.
use fru_lab.Prelude.{◌≡◌, refl, none, some, List, [], ◌∷◌, arith}
use fru_lab.Js.Text.{Text, codes, trim}
use fru_lab.Js.Decimal.{digits}
use fru_lab.Subscribers.BulkIds.{
  ids, message, match_imsi, supi, supis, run_past, bad_count, bulk_from, bulk_ue_ids,
}
use fru_lab.Subscribers.BulkIds.Laws.{Accepted, bulk_ue_ids_sound, bulk_ue_ids_complete}

two :
    bulk_ue_ids (codes " imsi-00999 ") (some 2) ≡ ids (codes "imsi-00999" ∷ codes "imsi-01000" ∷ [])
unfolding bulk_ue_ids bulk_from match_imsi supis supi trim digits
two = refl

no_room :
    bulk_ue_ids (codes "imsi-99999") (some 2)
    ≡ message (codes "2 UEs from imsi-99999 would run past 99999")
unfolding bulk_ue_ids bulk_from match_imsi run_past trim digits
no_room = refl

not_whole :
    bulk_ue_ids (codes "imsi-99999") none
    ≡ message (codes "Number of UEs must be between 1 and 10000")
unfolding bulk_ue_ids bulk_from match_imsi bad_count trim digits
not_whole = refl

matches : match_imsi (trim (codes "imsi-00999")) ≡ some (codes "00999")
unfolding match_imsi trim
matches = refl

bulk_ue_ids_sound_example :
    Accepted (codes " imsi-00999 ") 2 (codes "imsi-00999" ∷ codes "imsi-01000" ∷ [])
bulk_ue_ids_sound_example =
    bulk_ue_ids_sound (codes " imsi-00999 ") 2 (codes "imsi-00999" ∷ codes "imsi-01000" ∷ []) two

bulk_ue_ids_complete_example :
    (us : List Text) × (bulk_ue_ids (codes "imsi-00999") (some 2) ≡ ids us)
bulk_ue_ids_complete_example =
    bulk_ue_ids_complete (codes "imsi-00999") (codes "00999") 2 matches (omega arith) (omega arith)
      (omega arith)
