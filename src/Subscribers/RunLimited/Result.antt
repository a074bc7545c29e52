-- ===== src/Subscribers/RunLimited/Result.antt =====
-- What a run of the pool comes to: bounds at every moment, the result at the end, and that the
-- end is reached.
use fru_lab.Prelude.{
  ℕ, suc, ◌+◌, ◌≤◌, ◌<◌, min, ◌≡◌, refl, ap, sym, ◌∙◌, false, Option, none, some, List, [], ◌∷◌,
  ◌++◌, arith, ltb, leb, ltb→lt, length, get_elem?, map, Option-cases, >>=-eq-some, Bool-cases, inl,
  inr, count_up, IsAscending, IsAbove,
}
use fru_lab.Js.Sets.{
  has, sort, insert, IsUnique, has-sort, sort-IsAscending, ascending_ext, IsAbove-weaken,
  IsAbove-IsAscending, count_up-IsAscending, has-count_up,
}
use fru_lab.Subscribers.RunLimited.{
  Pool, list_of, failed_at, start, run_schedule, Failed, Failure, insert_failed, sort_failed,
  result,
}
use fru_lab.Subscribers.RunLimited.Invariant.{Inv, start-Inv, run_schedule-Inv, collect}

module _ {A E : Type 0} (f : ℕ → Option (Failed A E)) where
  -- Each failure stands at its own index.
  abbrev Keyed : Type 0
  Keyed = (i : ℕ) (e : Failed A E) → f i ≡ some e → e.index ≡ i

  insert-collect-none : (i : ℕ) (is : List ℕ) → f i ≡ none → collect f (insert i is) ≡ collect f is
  unfolding collect insert
  insert-collect-none i [] e = rw e
  insert-collect-none i (j ∷ is) e = elim (Bool-cases (leb i j)) [
    | inl le ↦ rw (le, e)
    | inr gt ↦ rw gt (ap (λ l. list_of (f j) ++ l) (insert-collect-none i is e))
  ]

  insert_front :
      (keyed : Keyed) (i : ℕ) (e : Failed A E) (is : List ℕ)
      → f i ≡ some e
      → IsAbove i is
      → insert_failed e (collect f is) ≡ e ∷ collect f is
  unfolding collect insert_failed
  insert_front keyed i e [] h up = refl
  insert_front keyed i e (j ∷ is) h (lt, up) = elim (Option-cases (f j)) [
    | inl g ↦ rw g (insert_front keyed i e is h (IsAbove-weaken i j is (omega arith) up))
    | inr (d, g) ↦ rw g (ground (arith, keyed i e h, keyed j d g))
  ]

  insert_behind :
      (keyed : Keyed) (i j : ℕ) (e : Failed A E) (is : List ℕ)
      → f i ≡ some e
      → j < i
      → insert_failed e (collect f is) ≡ collect f (insert i is)
      → insert_failed e (list_of (f j) ++ collect f is) ≡ list_of (f j) ++ collect f (insert i is)
  insert_behind keyed i j e is h lt later = elim (Option-cases (f j)) [
    | inl g ↦ rw g later
    | inr (d, g) ↦ unfold insert_failed in rw g (ground (arith, keyed i e h, keyed j d g))
  ]

  insert-collect-some :
      (keyed : Keyed) (i : ℕ) (e : Failed A E) (is : List ℕ)
      → f i ≡ some e
      → has i is ≡ false
      → IsAscending is
      → insert_failed e (collect f is) ≡ collect f (insert i is)
  unfolding collect insert
  insert-collect-some keyed i e [] h new up = unfold insert_failed in rw h
  insert-collect-some keyed i e (j ∷ is) h new up = elim (Bool-cases (leb i j)) [
    | inl le ↦ rw (le, h) (insert_front keyed i e (j ∷ is) h (ground arith, up))
    | inr gt ↦
        let later =
          insert-collect-some keyed i e is h (ground arith) (IsAbove-IsAscending j is up) in
        rw gt (insert_behind keyed i j e is h (ground arith) later)
  ]

  sort_step :
      (keyed : Keyed) (i : ℕ) (is : List ℕ)
      → has i is ≡ false
      → IsUnique is
      → sort_failed (collect f is) ≡ collect f (sort is)
      → sort_failed (collect f (i ∷ is)) ≡ collect f (insert i (sort is))
  unfolding collect sort_failed
  sort_step keyed i is new u rest = elim (Option-cases (f i)) [
    | inl e ↦ rw e (rest ∙ sym (insert-collect-none i (sort is) e))
    | inr (d, e) ↦ rw e (
        ap (insert_failed d) rest
        ∙ insert-collect-some keyed i d (sort is) e (has-sort i is ∙ new) (sort-IsAscending is u))
  ]

  -- Sorting the failures by index is collecting them in the order of the sorted indices.
  sort_failed-collect :
      (keyed : Keyed) (is : List ℕ) → IsUnique is → sort_failed (collect f is) ≡ collect f (sort is)
  unfolding sort
  sort_failed-collect keyed [] u = unfold collect sort_failed in refl
  sort_failed-collect keyed (i ∷ is) (new, u) =
      sort_step keyed i is new u (sort_failed-collect keyed is u)

some-eq {ℓ} : {A : Type ℓ} {a b : A} → some a ≡ some b → a ≡ b
some-eq e = cc

-- The failures in input order: the items whose call was rejected, from the index `i` up.
unfoldable pub failures_from : {A E : Type 0} → (ℕ → Option E) → ℕ → List A → List (Failure A E)
failures_from outcome i [] = []
failures_from outcome i (a ∷ later) =
    let rest = failures_from outcome (i + 1) later in
    elim (outcome i) [ none ↦ rest | some e ↦ record { item = a; error = e } ∷ rest ]

unfoldable pub failures_of : {A E : Type 0} → List A → (ℕ → Option E) → List (Failure A E)
failures_of items outcome = failures_from outcome 0 items

failed_at-Keyed :
    {A E : Type 0} (items : List A) (outcome : ℕ → Option E) (i : ℕ) (e : Failed A E)
    → failed_at items outcome i ≡ some e
    → e.index ≡ i
unfolding failed_at
failed_at-Keyed {A} {E} items outcome i e h =
    let (x, found, rest) = >>=-eq-some (outcome i) _ {b = e} h in
    let (a, here, made) = >>=-eq-some (get_elem? items i) _ {b = e} rest in
    sym (ap (λ (g : Failed A E). g.index) (some-eq made))

module _ {A E : Type 0} (outcome : ℕ → Option E) (items : List A) where
  collect-failures :
      (i : ℕ) (later : List A)
      → ((k : ℕ) → get_elem? items (i + k) ≡ get_elem? later k)
      → map
          (λ (g : Failed A E). g.failure)
          (collect (failed_at items outcome) (count_up (length later) i))
        ≡ failures_from outcome i later
  unfolding collect failures_from failed_at
  collect-failures i [] h = refl
  collect-failures i (a ∷ later) h =
      let step = λ (k : ℕ).
        let next : i + 1 + k ≡ i + suc k = omega arith in ap (get_elem? items) next ∙ h (suc k) in
      let rest = collect-failures (i + 1) later step in
      let zero_on : i + 0 ≡ i = omega arith in
      let here : get_elem? items i ≡ some a = ap (get_elem? items) (sym zero_on) ∙ h 0 in
      elim (Option-cases (outcome i)) [
        | inl e ↦ rw (e, failures_from) rest
        | inr (x, e) ↦
            rw (e, here, failures_from)
              (ap (λ (l : List (Failure A E)). record { item = a; error = x } ∷ l) rest)
      ]

module _ {A E : Type 0} (items : List A) (outcome : ℕ → Option E) (limit : ℕ)
    (schedule : List ℕ) where
  -- The pool after the settlements of the schedule.
  abbrev pub after : Pool A E
  after = run_schedule items outcome schedule (start items outcome limit)

  after-Inv : Inv items outcome (min limit (length items)) 0 after
  after-Inv =
      run_schedule-Inv items outcome (min limit (length items)) schedule (start items outcome limit)
        (start-Inv items outcome limit)

  -- At every moment at most `limit` calls are in flight, never more than there are items, and the
  -- progress reported is 1, 2, … up to the number of settled calls.
  pub run_limited_bounds :
      (length after.flying ≤ limit)
      × (after.done + length after.flying ≤ length items)
      × (after.progress ≡ count_up after.done 1)
  run_limited_bounds =
      let v = after-Inv in (omega (arith, v.few), omega (arith, v.total, v.inside), v.reported)

  all_settled :
      0 < limit → after.flying ≡ [] → (after.done ≡ length items) × (after.next ≡ length items)
  all_settled pos e =
      let v = after-Inv in
      let none_flying : length after.flying ≡ 0 = ap length e in
      elim (Bool-cases (ltb after.next (length items))) [
        | inl more ↦ absurd (omega (arith, v.busy (ltb→lt _ _ more), ltb→lt _ _ more))
        | inr over ↦
            let reached : length items ≤ after.next = ground arith in
            (omega (arith, v.total, v.inside), omega (arith, v.inside))
      ]

  settled_sorted :
      (v : Inv items outcome (min limit (length items)) 0 after)
      → after.flying ≡ []
      → after.next ≡ length items
      → sort v.settled ≡ count_up (length items) 0
  settled_sorted v e next =
      ascending_ext (sort v.settled) (count_up (length items) 0)
        (sort-IsAscending v.settled v.settled_unique) (count_up-IsAscending (length items) 0)
        (λ c.
          let none_flying : has c after.flying ≡ false = ap (has c) e in
          let below : ltb c after.next ≡ ltb c (length items) = ap (ltb c) next in
          ground (
            arith,
            has-sort c v.settled,
            has-count_up c (length items) 0,
            v.taken c,
            none_flying,
            below,
          ))

  -- With a limit above 0, once no call is in flight, every item has been run, and the result is the
  -- list of the rejected items with their errors, in input order, whatever order the calls settled in.
  pub run_limited_result :
      0 < limit
      → after.flying ≡ []
      → (after.done ≡ length items) × (result after ≡ failures_of items outcome)
  unfolding result failures_of
  run_limited_result pos e =
      let v = after-Inv in
      let (done, next) = all_settled pos e in
      let f = failed_at items outcome in
      let project = λ (l : List (Failed A E)). map (λ (g : Failed A E). g.failure) l in
      (
        done,
        ap (λ l. project (sort_failed l)) v.failed_are
            ∙ ap project
                (sort_failed-collect f (failed_at-Keyed items outcome) v.settled v.settled_unique)
            ∙ ap (λ l. project (collect f l)) (settled_sorted v e next)
            ∙ collect-failures outcome items 0 items
                (λ k. let same : 0 + k ≡ k = omega arith in ap (get_elem? items) same),
      )
