-- ===== src/Subscribers/FormPage/KeptIds.antt =====
-- Every edit of the form keeps its row ids apart.
use fru_lab.Prelude.{
  ℕ, ◌+◌, ◌*◌, ◌≤◌, ◌<◌, ◌≡◌, refl, ap, ◌∙◌, inl, inr, false, List, [], ◌∷◌, ◌++◌, arith, map,
  Bool-cases, All,
}
use fru_lab.Js.Text.{Text, text_eq, text_eq_iff, text_eq_ne}
use fru_lab.Subscribers.Form.{
  FlowRuleBundleRow, SessionFormRow, row_id, make_row_id, make_flow_rule_bundle, make_session_row,
}
use fru_lab.Subscribers.Form.Ids.{ids_of_row, ids_of, row_id-injective}
use fru_lab.Subscribers.FormPage.Edits.{
  update_rule, update_session, update_flow_rule, delete_session, without_rule, delete_rule,
  add_session, with_rule, add_rule,
}
use fru_lab.Subscribers.FormPage.RowIds.{
  occurrences, AreApart, occurrences-append, rows_with, rows_with_le, update_occurrences,
  update_occurrences_le, delete_session_le, without_rule_le, with_rule_more, Edit, changes_session,
  changes_rule, deletes_session, deletes_rule, adds_session, adds_rule, edit, edits, KeepsIds,
}

AreApart-fewer :
    (next last : ℕ) (xs ys : List Text)
    → next ≤ last
    → ((k : Text) → occurrences k ys ≤ occurrences k xs)
    → AreApart next xs
    → AreApart last ys
AreApart-fewer next last xs ys le fewer (once, unused) = (
  (λ k. omega (arith, fewer k, once k)),
  λ n lt. omega (arith, fewer (row_id n), unused n (omega arith)),
)

-- Two different counters name different ids.
later_id : (n m : ℕ) → n < m → text_eq (row_id n) (row_id m) ≡ false
later_id n m lt =
    text_eq_ne (row_id n) (row_id m)
      (λ e. let same = row_id-injective n m e in absurd (let bad : ⊥ = omega arith in bad))

-- A new id in at most one place.
AreApart-new :
    (next : ℕ) (times : ℕ) (xs ys : List Text)
    → times ≤ 1
    → ((k : Text)
        → occurrences k ys ≡ occurrences k xs + times * occurrences k (row_id (next + 1) ∷ []))
    → AreApart next xs
    → AreApart (next + 1) ys
AreApart-new next times xs ys one more (once, unused) = (
  (λ k. elim (Bool-cases (text_eq (row_id (next + 1)) k)) [
    | inl e ↦
        let same = ap (λ id. occurrences id xs) ((text_eq_iff (row_id (next + 1)) k).0 e) in
        let m = rw (e) at (more k) in omega (arith, m, same, unused (next + 1) (omega arith))
    | inr e ↦ let m = rw (e) at (more k) in omega (arith, m, once k)
  ]),
  λ n lt.
      let m = rw (later_id (next + 1) n lt) at (more (row_id n)) in
      omega (arith, m, unused n (omega arith)),
)

ids_of-snoc :
    (k : Text) (rows : List SessionFormRow) (s : SessionFormRow)
    → occurrences k (ids_of (rows ++ s ∷ []))
      ≡ occurrences k (ids_of rows) + occurrences k (ids_of_row s)
ids_of-snoc k [] s = occurrences-append k (ids_of_row s) [] ∙ omega arith
ids_of-snoc k (r ∷ rows) s =
    let rest = ids_of-snoc k rows s in
    let a = occurrences-append k (ids_of_row r) (ids_of (rows ++ s ∷ [])) in
    let b = occurrences-append k (ids_of_row r) (ids_of rows) in omega (arith, rest, a, b)

cons_more :
    (k x : Text) (xs : List Text)
    → occurrences k (x ∷ xs) ≡ occurrences k xs + 1 * occurrences k (x ∷ [])
cons_more k x xs = elim (Bool-cases (text_eq x k)) [
  | inl e ↦ rw (e) (omega arith)
  | inr e ↦ rw (e) (omega arith)
]

session_more :
    (k a b : Text) (rows : List SessionFormRow) (s : SessionFormRow)
    → ids_of_row s ≡ b ∷ a ∷ []
    → occurrences k (ids_of (rows ++ s ∷ []))
      ≡ occurrences k (a ∷ ids_of rows) + 1 * occurrences k (b ∷ [])
session_more k a b rows s e =
    let all = ids_of-snoc k rows s ∙ ap (λ l. occurrences k (ids_of rows) + occurrences k l) e in
    let two = cons_more k b (a ∷ []) in
    let more = cons_more k a (ids_of rows) in omega (arith, all, two, more)

rule_patch :
    (id : Text) (patch : FlowRuleBundleRow → FlowRuleBundleRow)
    → ((r : FlowRuleBundleRow) → (patch r).id ≡ r.id)
    → (rules : List FlowRuleBundleRow)
    → map (λ (b : FlowRuleBundleRow). b.id) (update_rule id patch rules)
      ≡ map (λ (b : FlowRuleBundleRow). b.id) rules
rule_patch id patch keeps [] = refl
rule_patch id patch keeps (r ∷ rules) =
    let rest = rule_patch id patch keeps rules in
    elim (Bool-cases (text_eq r.id id)) [
      | inl e ↦ rw (e, keeps r) (ap (λ l. r.id ∷ l) rest)
      | inr e ↦ rw (e) (ap (λ l. r.id ∷ l) rest)
    ]

AreApart-edit :
    (e : Edit) (next : ℕ) (rows : List SessionFormRow)
    → KeepsIds e
    → AreApart next (ids_of rows)
    → AreApart (edit e (next, rows)).0 (ids_of (edit e (next, rows)).1)
unfolding update_flow_rule delete_rule add_session add_rule make_session_row make_flow_rule_bundle
    make_row_id
AreApart-edit (changes_session id patch) next rows keeps h =
    AreApart-fewer next next (ids_of rows) (ids_of (update_session id patch rows)) (omega arith)
      (λ k.
        update_occurrences_le k id patch rows
          (λ s. let e = ap (occurrences k) (keeps s) in omega (arith, e)))
      h
AreApart-edit (changes_rule session_id id patch) next rows keeps h =
    let change = λ (s : SessionFormRow).
      (let r : SessionFormRow = record s { flow_rules = update_rule id patch s.flow_rules } in r) in
    AreApart-fewer next next (ids_of rows) (ids_of (update_session session_id change rows))
      (omega arith)
      (λ k. update_occurrences_le k session_id change rows (λ s.
        let e = ap (λ l. occurrences k (l ++ s.id ∷ [])) (rule_patch id patch keeps s.flow_rules) in
        omega (arith, e)))
      h
AreApart-edit (deletes_session id) next rows keeps h =
    AreApart-fewer next next (ids_of rows) (ids_of (delete_session id rows)) (omega arith)
      (λ k. delete_session_le k id rows) h
AreApart-edit (deletes_rule session_id id) next rows keeps h =
    AreApart-fewer next next (ids_of rows)
      (ids_of (update_session session_id (without_rule id) rows)) (omega arith)
      (λ k. update_occurrences_le k session_id (without_rule id) rows (without_rule_le k id)) h
AreApart-edit adds_session next rows keeps h =
    let row = (make_session_row next (λ r. r)).1 in
    let first =
      AreApart-new next 1 (ids_of rows) (row_id (next + 1) ∷ ids_of rows) (omega arith)
        (λ k. cons_more k (row_id (next + 1)) (ids_of rows)) h in
    AreApart-new (next + 1) 1 (row_id (next + 1) ∷ ids_of rows) (ids_of (rows ++ row ∷ []))
      (omega arith) (λ k. session_more k (row_id (next + 1)) (row_id (next + 1 + 1)) rows row refl)
      first
AreApart-edit (adds_rule session_id) next rows keeps h =
    let rule = (make_flow_rule_bundle next (λ r. r)).1 in
    AreApart-new next (rows_with session_id rows) (ids_of rows)
      (ids_of (update_session session_id (with_rule rule) rows))
      (omega (arith, rows_with_le session_id rows, h.0 session_id))
      (λ k.
        update_occurrences k session_id (occurrences k (row_id (next + 1) ∷ [])) (with_rule rule)
          rows (with_rule_more k rule))
      h

-- Whatever rows are changed, made and deleted, no two rows of the form, slices or flow rules, get
-- the same id, if there were no two before and no id of a counter that is still to come, and the
-- patches leave the ids.
pub edits-AreApart :
    (es : List Edit) (next : ℕ) (rows : List SessionFormRow)
    → All KeepsIds es
    → AreApart next (ids_of rows)
    → AreApart (edits es (next, rows)).0 (ids_of (edits es (next, rows)).1)
edits-AreApart [] next rows keeps h = h
edits-AreApart (e ∷ es) next rows (here, keeps) h =
    edits-AreApart es (edit e (next, rows)).0 (edit e (next, rows)).1 keeps
      (AreApart-edit e next rows here h)
