-- ===== src/Tester/Run/Causes.antt =====
-- `mergeCauses` and `failuresOf` of web/frontend/src/page/tester/TesterRunPage.tsx. The map of
-- causes is a list of pairs in the order of their first insertion; `locale_le a b` is
-- `a.localeCompare(b) <= 0`.
use fru_lab.Prelude.{
  ℕ, ◌+◌, ◌≤◌, ◌≡◌, inl, inr, refl, sym, ap, ◌∙◌, Bool, true, false, ◌&&◌, ◌||◌, List, [], ◌∷◌,
  ◌++◌, ltb, ◌==◌, arith, if◌then◌else◌, All, Bool-cases,
}
use fru_lab.Js.Text.{Text, text_eq, text_eq_iff}
use fru_lab.Tester.RunApi.{TesterCauseCount, TesterStageSnapshot}

abbrev pub failures_of : {N : Type 0} → TesterStageSnapshot N → ℕ
failures_of s = s.rejected + s.timed_out + s.failed

-- `m.set(c.cause, (m.get(c.cause) ?? 0) + c.count)`.
unfoldable pub add_cause : TesterCauseCount → List TesterCauseCount → List TesterCauseCount
add_cause c [] = c ∷ []
add_cause c (d ∷ m) =
    if text_eq d.cause c.cause
    then record d { count = d.count + c.count } ∷ m
    else d ∷ add_cause c m

unfoldable pub add_causes : List TesterCauseCount → List TesterCauseCount → List TesterCauseCount
add_causes [] m = m
add_causes (c ∷ cs) m = add_causes cs (add_cause c m)

abbrev pub causes_of : {N : Type 0} → List (TesterStageSnapshot N) → List TesterCauseCount
causes_of [] = []
causes_of (s ∷ stages) = s.causes ++ causes_of stages

module _ (locale_le : Text → Text → Bool) where
  -- `b.count - a.count || a.cause.localeCompare(b.cause)` is at most 0.
  abbrev pub goes_first : TesterCauseCount → TesterCauseCount → Bool
  goes_first a b = ltb b.count a.count || (a.count == b.count && locale_le a.cause b.cause)

  unfoldable pub insert_cause : TesterCauseCount → List TesterCauseCount → List TesterCauseCount
  insert_cause c [] = c ∷ []
  insert_cause c (d ∷ m) = if goes_first c d then c ∷ d ∷ m else d ∷ insert_cause c m

  unfoldable pub sort_causes : List TesterCauseCount → List TesterCauseCount
  sort_causes [] = []
  sort_causes (c ∷ m) = insert_cause c (sort_causes m)

  unfoldable pub merge_causes : {N : Type 0} → List (TesterStageSnapshot N) → List TesterCauseCount
  merge_causes stages = sort_causes (add_causes (causes_of stages) [])

-- The entries of one cause, each with a weight of its count.
abbrev pub weigh : (ℕ → ℕ) → Text → List TesterCauseCount → ℕ
weigh f k [] = 0
weigh f k (c ∷ m) = let rest = weigh f k m in if text_eq c.cause k then f c.count + rest else rest

-- The sum over the entries of one cause, and how many entries it has.
abbrev pub count_of : Text → List TesterCauseCount → ℕ
count_of = weigh (λ n. n)

abbrev pub entries_of : Text → List TesterCauseCount → ℕ
entries_of = weigh (λ _. 1)

-- Equal causes are equal to the same.
same_cause : (a b k : Text) → text_eq a b ≡ true → text_eq a k ≡ text_eq b k
same_cause a b k e = ap (λ t. text_eq t k) ((text_eq_iff a b).0 e)

count_of-add_cause :
    (k : Text) (c : TesterCauseCount) (m : List TesterCauseCount)
    → count_of k (add_cause c m) ≡ count_of k (c ∷ m)
unfolding add_cause
count_of-add_cause k c [] = refl
count_of-add_cause k c (d ∷ m) = elim (Bool-cases (text_eq d.cause c.cause)) [
  | inl e ↦
      let f = same_cause d.cause c.cause k e in
      elim (Bool-cases (text_eq c.cause k)) [
        | inl g ↦ let h = f ∙ g in rw (e) (rw (g, h) (omega arith))
        | inr g ↦ let h = f ∙ g in rw (e) (rw (g, h) refl)
      ]
  | inr e ↦
      let rest = count_of-add_cause k c m in
      elim (Bool-cases (text_eq d.cause k)) [
        | inl g ↦ elim (Bool-cases (text_eq c.cause k)) [
          | inl h ↦ let r = rw (h) at rest in rw (e) (rw (g, h) (omega (arith, r)))
          | inr h ↦ let r = rw (h) at rest in rw (e) (rw (g, h) (omega (arith, r)))
        ]
        | inr g ↦ rw (e) (rw (g) rest)
      ]
]

count_of-add_causes :
    (k : Text) (cs m : List TesterCauseCount)
    → count_of k (add_causes cs m) ≡ count_of k cs + count_of k m
unfolding add_causes
count_of-add_causes k [] m = omega arith
count_of-add_causes k (c ∷ cs) m =
    let rest =
      count_of-add_causes k cs (add_cause c m)
      ∙ ap (λ n. count_of k cs + n) (count_of-add_cause k c m) in
    elim (Bool-cases (text_eq c.cause k)) [
      | inl e ↦ let r = rw (e) at rest in rw (e) (omega (arith, r))
      | inr e ↦ let r = rw (e) at rest in rw (e) (omega (arith, r))
    ]

entries_of-other :
    (k : Text) (c : TesterCauseCount) (m : List TesterCauseCount)
    → text_eq c.cause k ≡ false
    → entries_of k (add_cause c m) ≡ entries_of k m
unfolding add_cause
entries_of-other k c [] h = rw (h) refl
entries_of-other k c (d ∷ m) h = elim (Bool-cases (text_eq d.cause c.cause)) [
  | inl e ↦ rw (e) refl
  | inr e ↦
      let rest = entries_of-other k c m h in
      elim (Bool-cases (text_eq d.cause k)) [
        | inl g ↦ rw (e) (rw (g) (ap (λ n. 1 + n) rest))
        | inr g ↦ rw (e) (rw (g) rest)
      ]
]

differs_too : (d c k : Text) → text_eq d c ≡ false → text_eq d k ≡ true → text_eq c k ≡ false
differs_too d c k ne e = elim (Bool-cases (text_eq c k)) [
  | inr f ↦ f
  | inl f ↦
      let same = (text_eq_iff d c).1 ((text_eq_iff d k).0 e ∙ sym ((text_eq_iff c k).0 f)) in
      absurd cc
]

entries_of-add_cause :
    (k : Text) (c : TesterCauseCount) (m : List TesterCauseCount)
    → entries_of k m ≤ 1
    → entries_of k (add_cause c m) ≤ 1
unfolding add_cause
entries_of-add_cause k c [] le = elim (Bool-cases (text_eq c.cause k)) [
  | inl e ↦ rw (e) (omega arith)
  | inr e ↦ rw (e) (omega arith)
]
entries_of-add_cause k c (d ∷ m) le = elim (Bool-cases (text_eq d.cause c.cause)) [
  | inl e ↦ rw (e) le
  | inr e ↦ elim (Bool-cases (text_eq d.cause k)) [
    | inl g ↦
        let same = entries_of-other k c m (differs_too d.cause c.cause k e g) in
        let few = rw (g) at le in rw (e) (rw (g) (omega (arith, same, few)))
    | inr g ↦ rw (e) (rw (g) (entries_of-add_cause k c m (rw (g) at le)))
  ]
]

entries_of-add_causes :
    (k : Text) (cs m : List TesterCauseCount)
    → entries_of k m ≤ 1
    → entries_of k (add_causes cs m) ≤ 1
unfolding add_causes
entries_of-add_causes k [] m le = le
entries_of-add_causes k (c ∷ cs) m le =
    entries_of-add_causes k cs (add_cause c m) (entries_of-add_cause k c m le)

-- Largest first.
abbrev pub IsDescending : List TesterCauseCount → Type 0
IsDescending [] = Unit
IsDescending (c ∷ m) = All (λ (d : TesterCauseCount). d.count ≤ c.count) m × IsDescending m

module _ (locale_le : Text → Text → Bool) where
  weigh-insert_cause :
      (f : ℕ → ℕ) (k : Text) (c : TesterCauseCount) (m : List TesterCauseCount)
      → weigh f k (insert_cause locale_le c m) ≡ weigh f k (c ∷ m)
  unfolding insert_cause
  weigh-insert_cause f k c [] = refl
  weigh-insert_cause f k c (d ∷ m) = elim (Bool-cases (goes_first locale_le c d)) [
    | inl e ↦ rw (e) refl
    | inr e ↦
        let rest = weigh-insert_cause f k c m in
        elim (Bool-cases (text_eq d.cause k)) [
          | inl g ↦ elim (Bool-cases (text_eq c.cause k)) [
            | inl h ↦ let r = rw (h) at rest in rw (e) (rw (g, h) (omega (arith, r)))
            | inr h ↦ let r = rw (h) at rest in rw (e) (rw (g, h) (omega (arith, r)))
          ]
          | inr g ↦ rw (e) (rw (g) rest)
        ]
  ]

  weigh-sort_causes :
      (f : ℕ → ℕ) (k : Text) (m : List TesterCauseCount)
      → weigh f k (sort_causes locale_le m) ≡ weigh f k m
  unfolding sort_causes
  weigh-sort_causes f k [] = refl
  weigh-sort_causes f k (c ∷ m) =
      let rest = weigh-sort_causes f k m in
      weigh-insert_cause f k c (sort_causes locale_le m)
      ∙ ap (λ n. if text_eq c.cause k then f c.count + n else n) rest

  All-insert_cause :
      (n : ℕ) (c : TesterCauseCount) (m : List TesterCauseCount)
      → c.count ≤ n
      → All (λ (d : TesterCauseCount). d.count ≤ n) m
      → All (λ (d : TesterCauseCount). d.count ≤ n) (insert_cause locale_le c m)
  unfolding insert_cause
  All-insert_cause n c [] le h = (le, tt)
  All-insert_cause n c (d ∷ m) le (here, h) = elim (Bool-cases (goes_first locale_le c d)) [
    | inl e ↦ rw (e) (le, (here, h))
    | inr e ↦ rw (e) (here, All-insert_cause n c m le h)
  ]

  All-weaken :
      (n k : ℕ) (m : List TesterCauseCount)
      → n ≤ k
      → All (λ (d : TesterCauseCount). d.count ≤ n) m
      → All (λ (d : TesterCauseCount). d.count ≤ k) m
  All-weaken n k [] le h = tt
  All-weaken n k (d ∷ m) le (here, h) = (omega arith, All-weaken n k m le h)

  goes_first-le : (c d : TesterCauseCount) → goes_first locale_le c d ≡ true → d.count ≤ c.count
  goes_first-le c d h = ground arith

  not_first-le : (c d : TesterCauseCount) → goes_first locale_le c d ≡ false → c.count ≤ d.count
  not_first-le c d h = ground arith

  insert_cause-IsDescending :
      (c : TesterCauseCount) (m : List TesterCauseCount)
      → IsDescending m
      → IsDescending (insert_cause locale_le c m)
  unfolding insert_cause
  insert_cause-IsDescending c [] h = (tt, tt)
  insert_cause-IsDescending c (d ∷ m) (bound, h) = elim (Bool-cases (goes_first locale_le c d)) [
    | inl e ↦
        let le = goes_first-le c d e in
        rw (e) ((le, All-weaken d.count c.count m le bound), (bound, h))
    | inr e ↦
        rw (e)
          (All-insert_cause d.count c m (not_first-le c d e) bound, insert_cause-IsDescending c m h)
  ]

  sort_causes-IsDescending : (m : List TesterCauseCount) → IsDescending (sort_causes locale_le m)
  unfolding sort_causes
  sort_causes-IsDescending [] = tt
  sort_causes-IsDescending (c ∷ m) =
      insert_cause-IsDescending c (sort_causes locale_le m) (sort_causes-IsDescending m)

  -- The merged causes are largest first, with at most one entry for each, whose count is the sum of
  -- that cause's counts over all the stages.
  pub merge_causes_lem :
      {N : Type 0} (stages : List (TesterStageSnapshot N))
      → IsDescending (merge_causes locale_le stages)
        × ((k : Text)
            → (entries_of k (merge_causes locale_le stages) ≤ 1)
              × (count_of k (merge_causes locale_le stages) ≡ count_of k (causes_of stages)))
  unfolding merge_causes
  merge_causes_lem stages = (
    sort_causes-IsDescending (add_causes (causes_of stages) []),
    λ k.
        let sorted_entries = weigh-sort_causes (λ _. 1) k (add_causes (causes_of stages) []) in
        let few = entries_of-add_causes k (causes_of stages) [] (omega arith) in
        let sorted_count = weigh-sort_causes (λ n. n) k (add_causes (causes_of stages) []) in
        let total = count_of-add_causes k (causes_of stages) [] in (omega arith, omega arith),
  )
