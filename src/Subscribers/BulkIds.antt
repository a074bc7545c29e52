-- ===== src/Subscribers/BulkIds.antt =====
-- `bulkUeIds` of web/frontend/src/page/subscribers/subscriberForm.ts: the SUPIs of a bulk create.
-- `count` is `some n` for a whole number that is at least 0 and `none` for any other number, which
-- the test refuses with the numbers above 10000 and 0 alike. `BigInt` is the natural numbers.
pub mod Laws
mod Tests
use fru_lab.Prelude.{
  ℕ, zero, suc, ◌+◌, ◌-◌, ◌≤◌, ◌<◌, ◌≡◌, ◌≢◌, refl, ap, sym, ◌∙◌, Bool, true, false, ◌&&◌, ◌||◌,
  not, Option, none, some, List, [], ◌∷◌, ◌++◌, arith, ltb, leb, if◌then◌else◌, length,
  length-append, replicate, length-replicate, get_elem?, every, map,
}
use fru_lab.Js.Text.{Text, codes, trim, after_prefix, is_digit, pad_start}
use fru_lab.Js.Decimal.{
  decimal, value, AreDigits, value-decimal, value-pad, length-decimal_mono, decimal-AreDigits,
}

abbrev pub max_bulk_subscribers : ℕ
max_bulk_subscribers = 10000

pub data BulkResult : Type 0 where
  ids : List Text → BulkResult
  message : Text → BulkResult

-- `/^imsi-(\d{5,15})$/.exec(text)`: the digits.
unfoldable pub match_imsi : Text → Option Text
match_imsi text = elim (after_prefix text (codes "imsi-")) [
  | none ↦ none
  | some digits ↦
      if every is_digit digits && leb 5 (length digits) && leb (length digits) 15
      then some digits
      else none
]

-- One SUPI: the number, with zeros in front to `width` digits.
unfoldable pub supi : ℕ → ℕ → Text
supi width n = codes "imsi-" ++ pad_start width b'0' (decimal n)

-- `Array.from({ length: count }, (_, i) => …)`, from `start + i`.
unfoldable pub supis : ℕ → ℕ → ℕ → List Text
supis width start zero = []
supis width start (suc count) = supi width start ∷ supis width (start + 1) count

pub run_past : ℕ → Text → Text → Text
run_past count first digits =
    decimal count
    ++ codes " UEs from "
    ++ first
    ++ codes " would run past "
    ++ replicate (length digits) b'9'

pub bad_count : Text
bad_count = codes "Number of UEs must be between 1 and " ++ decimal max_bulk_subscribers

-- What follows the match: the tests of the count and of the last number.
pub bulk_from : Text → Text → Option ℕ → BulkResult
bulk_from first digits none = message bad_count
bulk_from first digits (some count) =
    let start = value digits in
    let last = start + (count - 1) in
    if ltb count 1 || ltb max_bulk_subscribers count
    then message bad_count
    else if ltb (length digits) (length (decimal last))
    then message (run_past count (trim first) digits)
    else ids (supis (length digits) start count)

unfoldable pub bulk_ue_ids : Text → Option ℕ → BulkResult
bulk_ue_ids first count = elim (match_imsi (trim first)) [
  | none ↦ message (codes "SUPI must look like imsi-208930000000001")
  | some digits ↦ bulk_from first digits count
]
