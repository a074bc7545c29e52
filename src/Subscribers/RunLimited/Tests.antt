-- ===== src/Subscribers/RunLimited/Tests.antt =====
-- A run of three calls, two at a time, of which two are rejected; and the theorems on it.
use fru_lab.Prelude.{
  ℕ, zero, suc, ◌+◌, ◌≤◌, ◌≡◌, refl, Option, none, some, List, [], ◌∷◌, arith, length, count_up,
}
use fru_lab.Js.Text.{Text, codes}
use fru_lab.Subscribers.RunLimited.{
  pick, failed_at, take_next, finish, settle, launch, start, run_schedule, insert_failed,
  sort_failed, result,
}
use fru_lab.Subscribers.RunLimited.Result.{
  after, failures_of, run_limited_bounds, run_limited_result,
}
use fru_lab.Subscribers.RunLimited.Ends.{IsPossible, run_limited_ends}

abbrev three : List ℕ
three = 10 ∷ 20 ∷ 30 ∷ []

-- The calls for the first and the third item are rejected.
abbrev rejected : ℕ → Option Text
rejected zero = some (codes "busy")
rejected (suc zero) = none
rejected (suc (suc i)) = some (codes "gone")

-- The second call in flight settles twice, then the first.
abbrev order : List ℕ
order = 1 ∷ 1 ∷ 0 ∷ []

ended : (after three rejected 2 order).flying ≡ []
unfolding run_schedule start launch settle take_next finish pick failed_at
ended = refl

both :
    result (after three rejected 2 order)
    ≡ record { item = 10; error = codes "busy" } ∷ record { item = 30; error = codes "gone" } ∷ []
unfolding result sort_failed insert_failed run_schedule start launch settle take_next finish pick
    failed_at
both = refl

run_limited_bounds_example :
    (length (after three rejected 2 (1 ∷ [])).flying ≤ 2)
    × ((after three rejected 2 (1 ∷ [])).done + length (after three rejected 2 (1 ∷ [])).flying
        ≤ length three)
    × ((after three rejected 2 (1 ∷ [])).progress
        ≡ count_up (after three rejected 2 (1 ∷ [])).done 1)
run_limited_bounds_example = run_limited_bounds three rejected 2 (1 ∷ [])

run_limited_result_example :
    ((after three rejected 2 order).done ≡ length three)
    × (result (after three rejected 2 order) ≡ failures_of three rejected)
run_limited_result_example = run_limited_result three rejected 2 order (omega arith) ended

possible : IsPossible three rejected order (start three rejected 2)
unfolding start launch settle take_next finish pick failed_at
possible = omega arith

run_limited_ends_example :
    (length order ≤ length three)
    × (length order ≡ length three → (after three rejected 2 order).flying ≡ [])
run_limited_ends_example = run_limited_ends three rejected 2 order possible
