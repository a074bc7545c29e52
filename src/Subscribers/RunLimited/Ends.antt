-- ===== src/Subscribers/RunLimited/Ends.antt =====
-- A run of the pool ends.
use fru_lab.Prelude.{
  ℕ, zero, suc, ◌+◌, ◌≤◌, ◌<◌, min, ◌≡◌, refl, Option, some, List, [], ◌∷◌, arith, length,
}
use fru_lab.Subscribers.RunLimited.{
  Pool, pick, take_next, finish, settle, launch, empty_pool, start, run_schedule,
}
use fru_lab.Subscribers.RunLimited.Result.{after, run_limited_bounds}

-- Each settlement of the schedule names a call that is in flight.
abbrev pub IsPossible : {A E : Type 0} → List A → (ℕ → Option E) → List ℕ → Pool A E → Type 0
IsPossible items outcome [] p = Unit
IsPossible items outcome (pos ∷ schedule) p =
    (pos < length p.flying) × IsPossible items outcome schedule (settle items outcome pos p)

module _ {A E : Type 0} (items : List A) (outcome : ℕ → Option E) where
  pick-some :
      (pos : ℕ) (flying : List ℕ)
      → pos < length flying
      → (r : ℕ × List ℕ) × (pick pos flying ≡ some r)
  unfolding pick
  pick-some pos [] h = elim h [ ]
  pick-some zero (i ∷ flying) h = ((i, flying), refl)
  pick-some (suc pos) (i ∷ flying) h =
      let (r, e) = pick-some pos flying (omega arith) in ((r.0, i ∷ r.1), rw e)

  done-settle :
      (pos : ℕ) (p : Pool A E)
      → pos < length p.flying
      → (settle items outcome pos p).done ≡ p.done + 1
  unfolding settle take_next finish
  done-settle pos p h = let (r, e) = pick-some pos p.flying h in rw (e, settle) (ground arith)

  done-run_schedule :
      (schedule : List ℕ) (p : Pool A E)
      → IsPossible items outcome schedule p
      → (run_schedule items outcome schedule p).done ≡ p.done + length schedule
  unfolding run_schedule
  done-run_schedule [] p h = omega arith
  done-run_schedule (pos ∷ schedule) p (here, h) =
      omega
        (arith, done-settle pos p here, done-run_schedule schedule (settle items outcome pos p) h)

  done-launch : (n : ℕ) (p : Pool A E) → (launch items outcome n p).done ≡ p.done
  unfolding launch take_next
  done-launch zero p = refl
  done-launch (suc n) p = ground (arith, done-launch n (take_next items outcome p))

  done-start : (limit : ℕ) → (start items outcome limit).done ≡ 0
  unfolding start
  done-start limit = done-launch (min limit (length items)) empty_pool

nil_of_length : (xs : List ℕ) → length xs ≡ 0 → xs ≡ []
nil_of_length [] e = refl
nil_of_length (x ∷ xs) e = cc

-- A run ends: a schedule whose settlements are each of a call in flight is at most as long as the
-- list of items, and when it is as long, no call is in flight.
pub run_limited_ends :
    {A E : Type 0} (items : List A) (outcome : ℕ → Option E) (limit : ℕ) (schedule : List ℕ)
    → IsPossible items outcome schedule (start items outcome limit)
    → (length schedule ≤ length items)
      × (length schedule ≡ length items → (after items outcome limit schedule).flying ≡ [])
run_limited_ends items outcome limit schedule h =
    let count = done-run_schedule items outcome schedule (start items outcome limit) h in
    let (few, inside, told) = run_limited_bounds items outcome limit schedule in
    let begun = done-start items outcome limit in
    (omega arith, λ full. nil_of_length _ (omega arith))
