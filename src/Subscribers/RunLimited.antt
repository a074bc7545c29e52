-- ===== src/Subscribers/RunLimited.antt =====
-- `runLimited` of web/frontend/src/page/subscribers/bulk.ts. A worker runs without interruption
-- from one `await run(…)` to the next, so a run is a sequence of settlements, each of one of the
-- calls in flight; a schedule lists which one, by its place among them. What the call for an
-- index ends with is a parameter: `none` is success and `some e` is a rejection with the error `e`.
pub mod Invariant
pub mod Result
pub mod Ends
mod Tests
use fru_lab.Prelude.{
  ℕ, zero, suc, ◌+◌, min, Option, none, some, List, [], ◌∷◌, ◌++◌, ltb, leb, if◌then◌else◌, length,
  get_elem?, map, ◌>>=◌,
}

abbrev pub bulk_concurrency : ℕ
bulk_concurrency = 8

pub record Failure (A E : Type 0) : Type 0 where
  pub item : A
  pub error : E

pub record Failed (A E : Type 0) : Type 0 where
  pub index : ℕ
  pub failure : Failure A E

-- The variables of the closure, the indices of the calls in flight, and the reported progress.
pub record Pool (A E : Type 0) : Type 0 where
  pub next : ℕ
  pub done : ℕ
  pub failed : List (Failed A E)
  pub flying : List ℕ
  pub progress : List ℕ

-- Take the index at a place out of the calls in flight.
unfoldable pub pick : ℕ → List ℕ → Option (ℕ × List ℕ)
pick pos [] = none
pick zero (i ∷ flying) = some (i, flying)
pick (suc pos) (i ∷ flying) = do r ← pick pos flying; some (r.0, i ∷ r.1)

abbrev pub list_of {ℓ} : {A : Type ℓ} → Option A → List A
list_of none = []
list_of (some a) = a ∷ []

abbrev pub empty_pool : {A E : Type 0} → Pool A E
empty_pool = record { next = 0; done = 0; failed = []; flying = []; progress = [] }

module _ {A E : Type 0} (items : List A) (outcome : ℕ → Option E) where
  -- What a settled call pushes to `failed`, if it was rejected.
  unfoldable pub failed_at : ℕ → Option (Failed A E)
  failed_at i = do
    e ← outcome i
    a ← get_elem? items i
    some (record { index = i; failure = record { item = a; error = e } })

  -- The head of a worker's loop: take the next index and call `run`, or end.
  unfoldable pub take_next : Pool A E → Pool A E
  take_next p =
      if ltb p.next (length items)
      then record p { next = p.next + 1; flying = p.flying ++ p.next ∷ [] }
      else p

  -- A worker's loop behind the `await`: the failure, the count and the progress.
  unfoldable pub finish : ℕ → List ℕ → Pool A E → Pool A E
  finish i rest p = record p {
    done = p.done + 1;
    failed = p.failed ++ list_of (failed_at i);
    flying = rest;
    progress = p.progress ++ (p.done + 1) ∷ [];
  }

  -- The call at a place settles, and its worker goes on; at no place nothing happens.
  unfoldable pub settle : ℕ → Pool A E → Pool A E
  settle pos p = elim (pick pos p.flying) [
    | none ↦ p
    | some (i, rest) ↦ take_next (finish i rest p)
  ]

  -- Each worker runs to its first `await` when it is made.
  unfoldable pub launch : ℕ → Pool A E → Pool A E
  launch zero p = p
  launch (suc n) p = launch n (take_next p)

  unfoldable pub start : ℕ → Pool A E
  start limit = launch (min limit (length items)) empty_pool

  -- The pool after the settlements of a schedule.
  unfoldable pub run_schedule : List ℕ → Pool A E → Pool A E
  run_schedule [] p = p
  run_schedule (pos ∷ schedule) p = run_schedule schedule (settle pos p)

module _ {A E : Type 0} where
  pub insert_failed : Failed A E → List (Failed A E) → List (Failed A E)
  insert_failed f [] = f ∷ []
  insert_failed f (g ∷ gs) = if leb f.index g.index then f ∷ g ∷ gs else g ∷ insert_failed f gs

  -- `failed.sort((a, b) => a.index - b.index)`.
  pub sort_failed : List (Failed A E) → List (Failed A E)
  sort_failed [] = []
  sort_failed (f ∷ fs) = insert_failed f (sort_failed fs)

  -- What `runLimited` resolves to once every worker has ended.
  unfoldable pub result : Pool A E → List (Failure A E)
  result p = map (λ f. f.failure) (sort_failed p.failed)
