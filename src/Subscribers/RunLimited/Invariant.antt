-- ===== src/Subscribers/RunLimited/Invariant.antt =====
-- The invariant of the pool: what is in flight, what has settled, and how many of each.
use fru_lab.Prelude.{
  ℕ, zero, suc, ◌+◌, ◌≤◌, ◌<◌, min, ◌≡◌, refl, ap, sym, ◌∙◌, false, ◌&&◌, ◌||◌, Option, some, List,
  [], ◌∷◌, ◌++◌, arith, ltb, ◌==◌, length, length-append, >>=-eq-some, Option-cases, Bool-cases,
  inl, inr, count_up, count_up_snoc, append_assoc, append-nil,
}
use mathlib.Core.Path.{subst, subst₂}
use fru_lab.Js.Sets.{has, IsUnique, has-append, IsUnique-snoc}
use fru_lab.Subscribers.RunLimited.{
  Pool, pick, list_of, failed_at, take_next, finish, settle, launch, empty_pool, start,
  run_schedule, Failed,
}

-- The place of a call in flight: the index leaves the list, and nothing else does.
pub pick_lem :
    (pos : ℕ) (flying : List ℕ) (i : ℕ) (rest : List ℕ)
    → pick pos flying ≡ some (i, rest)
    → (length flying ≡ suc (length rest)) × ((j : ℕ) → has j flying ≡ (j == i || has j rest))
unfolding pick
pick_lem pos [] i rest e = cc
pick_lem zero (k ∷ flying) i rest e = (ground arith, λ j. ground arith)
pick_lem (suc pos) (k ∷ flying) i rest e =
    let (r, inner, made) =
      >>=-eq-some (pick pos flying) (λ r. some (r.0, k ∷ r.1)) {b = (i, rest)} e in
    let (len, holds) = pick_lem pos flying r.0 r.1 inner in
    (ground arith, λ j. ground (arith, holds j))

pick-IsUnique :
    (pos : ℕ) (flying : List ℕ) (i : ℕ) (rest : List ℕ)
    → pick pos flying ≡ some (i, rest)
    → IsUnique flying
    → IsUnique rest × (has i rest ≡ false)
unfolding pick
pick-IsUnique pos [] i rest e u = cc
pick-IsUnique zero (k ∷ flying) i rest e (new, u) =
    let same : flying ≡ rest = cc in
    let own : k ≡ i = cc in (subst IsUnique same u, subst₂ (λ a l. has a l ≡ false) own same new)
pick-IsUnique (suc pos) (k ∷ flying) i rest e (new, u) =
    let (r, inner, made) =
      >>=-eq-some (pick pos flying) (λ r. some (r.0, k ∷ r.1)) {b = (i, rest)} e in
    let (unique, gone) = pick-IsUnique pos flying r.0 r.1 inner u in
    let holds = (pick_lem pos flying r.0 r.1 inner).1 k in
    let same : k ∷ r.1 ≡ rest = cc in
    let own : r.0 ≡ i = cc in
    (
      subst IsUnique same (ground arith, unique),
      subst₂ (λ a l. has a l ≡ false) own same (ground arith),
    )

-- The failures that the indices of a list have left, in that order.
unfoldable pub collect : {A E : Type 0} → (ℕ → Option (Failed A E)) → List ℕ → List (Failed A E)
collect f [] = []
collect f (i ∷ is) = list_of (f i) ++ collect f is

collect_snoc :
    {A E : Type 0} (f : ℕ → Option (Failed A E)) (is : List ℕ) (i : ℕ)
    → collect f (is ++ i ∷ []) ≡ collect f is ++ list_of (f i)
unfolding collect
collect_snoc f [] i = append-nil (list_of (f i))
collect_snoc f (j ∷ is) i =
    rw (collect_snoc f is i) (sym (append_assoc (list_of (f j)) (collect f is) (list_of (f i))))

count_up_grow : (n : ℕ) → count_up n 1 ++ (n + 1) ∷ [] ≡ count_up (n + 1) 1
count_up_grow n =
    let last : n + 1 ≡ 1 + n = omega arith in
    let more : suc n ≡ n + 1 = omega arith in
    ap (λ k. count_up n 1 ++ k ∷ []) last ∙ sym (count_up_snoc n 1) ∙ ap (λ k. count_up k 1) more

module _ {A E : Type 0} (items : List A) (outcome : ℕ → Option E) (workers : ℕ) where
  -- `missing` workers have not taken an index yet; the settled indices stand in `settled`, in the
  -- order in which they settled.
  pub record Inv (missing : ℕ) (p : Pool A E) : Type 0 where
    pub settled : List ℕ
    pub settled_unique : IsUnique settled
    pub flying_unique : IsUnique p.flying
    pub apart : (i : ℕ) → (has i settled && has i p.flying) ≡ false
    pub taken : (i : ℕ) → (has i settled || has i p.flying) ≡ ltb i p.next
    pub failed_are : p.failed ≡ collect (failed_at items outcome) settled
    pub done_is : p.done ≡ length settled
    pub total : p.done + length p.flying ≡ p.next
    pub inside : p.next ≤ length items
    pub few : length p.flying + missing ≤ workers
    pub busy : p.next < length items → length p.flying + missing ≡ workers
    pub reported : p.progress ≡ count_up p.done 1

  empty_pool-Inv : Inv workers empty_pool
  empty_pool-Inv = record {
    settled = [];
    settled_unique = tt;
    flying_unique = tt;
    apart = λ i. refl;
    taken = λ i. ground arith;
    failed_are = unfold collect in refl;
    done_is = refl;
    total = omega arith;
    inside = omega arith;
    few = omega arith;
    busy = λ h. omega arith;
    reported = refl;
  }

  -- A worker that finds no index left ends.
  Inv-ended : (m : ℕ) (p : Pool A E) → Inv (suc m) p → length items ≤ p.next → Inv m p
  Inv-ended m p v h = record {
    settled = v.settled;
    settled_unique = v.settled_unique;
    flying_unique = v.flying_unique;
    apart = v.apart;
    taken = v.taken;
    failed_are = v.failed_are;
    done_is = v.done_is;
    total = v.total;
    inside = v.inside;
    few = omega (arith, v.few);
    busy = λ lt. absurd (omega arith);
    reported = v.reported;
  }

  take_next-Inv : (m : ℕ) (p : Pool A E) → Inv (suc m) p → Inv m (take_next items outcome p)
  unfolding take_next
  take_next-Inv m p v = elim (Bool-cases (ltb p.next (length items))) [
    | inl more ↦ rw more (record {
      settled = v.settled;
      settled_unique = v.settled_unique;
      flying_unique =
          IsUnique-snoc p.next p.flying v.flying_unique (ground (arith, v.taken p.next));
      apart = λ i. ground (arith, v.apart i, v.taken i, has-append i p.flying (p.next ∷ []));
      taken = λ i. ground (arith, v.taken i, has-append i p.flying (p.next ∷ []));
      failed_are = v.failed_are;
      done_is = v.done_is;
      total = omega (arith, v.total, length-append p.flying (p.next ∷ []));
      inside = ground arith;
      few = omega (arith, v.few, length-append p.flying (p.next ∷ []));
      busy = λ h. omega (arith, v.busy (ground arith), length-append p.flying (p.next ∷ []));
      reported = v.reported;
    })
    | inr none_left ↦ rw none_left (Inv-ended m p v (ground arith))
  ]

  launch-Inv : (n : ℕ) (p : Pool A E) → Inv n p → Inv 0 (launch items outcome n p)
  unfolding launch
  launch-Inv zero p v = v
  launch-Inv (suc n) p v = launch-Inv n (take_next items outcome p) (take_next-Inv n p v)

  finish-Inv :
      (pos : ℕ) (p : Pool A E) (i : ℕ) (rest : List ℕ)
      → pick pos p.flying ≡ some (i, rest)
      → Inv 0 p
      → Inv 1 (finish items outcome i rest p)
  unfolding finish
  finish-Inv pos p i rest e v =
      let (len, holds) = pick_lem pos p.flying i rest e in
      let (unique, gone) = pick-IsUnique pos p.flying i rest e v.flying_unique in
      record {
        settled = v.settled ++ i ∷ [];
        settled_unique =
            IsUnique-snoc i v.settled v.settled_unique (ground (arith, v.apart i, holds i));
        flying_unique = unique;
        apart = λ j. ground (arith, v.apart j, holds j, has-append j v.settled (i ∷ []));
        taken = λ j. ground (arith, v.taken j, holds j, has-append j v.settled (i ∷ []));
        failed_are =
            ap (λ l. l ++ list_of (failed_at items outcome i)) v.failed_are
            ∙ sym (collect_snoc (failed_at items outcome) v.settled i);
        done_is = omega (arith, v.done_is, length-append v.settled (i ∷ []));
        total = omega (arith, v.total, len);
        inside = v.inside;
        few = omega (arith, v.few, len);
        busy = λ h. omega (arith, v.busy h, len);
        reported = ap (λ l. l ++ (p.done + 1) ∷ []) v.reported ∙ count_up_grow p.done;
      }

  settle-Inv : (pos : ℕ) (p : Pool A E) → Inv 0 p → Inv 0 (settle items outcome pos p)
  unfolding settle
  settle-Inv pos p v = elim (Option-cases (pick pos p.flying)) [
    | inl e ↦ rw (e, settle) v
    | inr ((i, rest), e) ↦
        rw (e, settle)
          (take_next-Inv 0 (finish items outcome i rest p) (finish-Inv pos p i rest e v))
  ]

  pub run_schedule-Inv :
      (schedule : List ℕ) (p : Pool A E) → Inv 0 p → Inv 0 (run_schedule items outcome schedule p)
  unfolding run_schedule
  run_schedule-Inv [] p v = v
  run_schedule-Inv (pos ∷ schedule) p v =
      run_schedule-Inv schedule (settle items outcome pos p) (settle-Inv pos p v)

-- The invariant holds from the start, with as many workers as `Math.min(limit, items.length)`.
pub start-Inv :
    {A E : Type 0} (items : List A) (outcome : ℕ → Option E) (limit : ℕ)
    → Inv items outcome (min limit (length items)) 0 (start items outcome limit)
unfolding start
start-Inv items outcome limit =
    let w = min limit (length items) in
    launch-Inv items outcome w w empty_pool (empty_pool-Inv items outcome w)
