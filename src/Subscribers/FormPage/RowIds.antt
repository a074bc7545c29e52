-- ===== src/Subscribers/FormPage/RowIds.antt =====
-- The edits of the form keep its row ids apart.
use fru_lab.Prelude.{
  ℕ, suc, ◌+◌, ◌*◌, ◌≤◌, ◌<◌, ◌≡◌, ap, ◌∙◌, inl, inr, not, List, [], ◌∷◌, ◌++◌, arith,
  if◌then◌else◌, map, keep, map-append, Bool-cases,
}
use fru_lab.Js.Text.{Text, text_eq}
use fru_lab.Subscribers.Form.{FlowRuleBundleRow, SessionFormRow, row_id}
use fru_lab.Subscribers.Form.Ids.{ids_of_row, ids_of}
use fru_lab.Subscribers.FormPage.Edits.{
  update_session, update_flow_rule, delete_session, without_rule, delete_rule, add_session,
  with_rule, add_rule,
}

-- How often an id occurs.
abbrev pub occurrences : Text → List Text → ℕ
occurrences k [] = 0
occurrences k (id ∷ ids) = let rest = occurrences k ids in if text_eq id k then suc rest else rest

-- No id occurs twice, and none is of a counter that is still to come.
abbrev pub AreApart : ℕ → List Text → Type 0
AreApart next ids =
    ((k : Text) → occurrences k ids ≤ 1) × ((n : ℕ) → next < n → occurrences (row_id n) ids ≡ 0)

pub occurrences-append :
    (k : Text) (xs ys : List Text) → occurrences k (xs ++ ys) ≡ occurrences k xs + occurrences k ys
occurrences-append k [] ys = omega arith
occurrences-append k (x ∷ xs) ys = elim (Bool-cases (text_eq x k)) [
  | inl e ↦ rw (e) (omega (arith, occurrences-append k xs ys))
  | inr e ↦ rw (e) (occurrences-append k xs ys)
]

abbrev rule_ids : List FlowRuleBundleRow → List Text
rule_ids = map (λ (b : FlowRuleBundleRow). b.id)

-- The rows of an id.
abbrev pub rows_with : Text → List SessionFormRow → ℕ
rows_with id [] = 0
rows_with id (s ∷ rows) = let rest = rows_with id rows in if text_eq s.id id then suc rest else rest

-- A row's ids are those of its rules and its own.
row_occurrences :
    (k : Text) (s : SessionFormRow) (rows : List SessionFormRow)
    → occurrences k (ids_of (s ∷ rows))
      ≡ occurrences k (rule_ids s.flow_rules)
        + occurrences k (s.id ∷ [])
        + occurrences k (ids_of rows)
row_occurrences k s rows =
    occurrences-append k (ids_of_row s) (ids_of rows)
    ∙ ap (λ n. n + occurrences k (ids_of rows))
        (occurrences-append k (rule_ids s.flow_rules) (s.id ∷ []))

pub rows_with_le :
    (id : Text) (rows : List SessionFormRow) → rows_with id rows ≤ occurrences id (ids_of rows)
rows_with_le id [] = omega arith
rows_with_le id (s ∷ rows) =
    let e = row_occurrences id s rows in
    let rest = rows_with_le id rows in
    elim (Bool-cases (text_eq s.id id)) [
      | inl f ↦ let e₁ = rw (f) at e in rw (f) (omega (arith, e₁, rest))
      | inr f ↦ let e₁ = rw (f) at e in rw (f) (omega (arith, e₁, rest))
    ]

-- A change of the rows of an id that gives each of them `more` ids `k`.
pub update_occurrences :
    (k id : Text) (more : ℕ) (patch : SessionFormRow → SessionFormRow) (rows : List SessionFormRow)
    → ((s : SessionFormRow)
        → occurrences k (ids_of_row (patch s)) ≡ occurrences k (ids_of_row s) + more)
    → occurrences k (ids_of (update_session id patch rows))
      ≡ occurrences k (ids_of rows) + rows_with id rows * more
unfolding update_session
update_occurrences k id more patch [] h = omega arith
update_occurrences k id more patch (s ∷ rows) h =
    let rest = update_occurrences k id more patch rows h in
    let same = h s in
    elim (Bool-cases (text_eq s.id id)) [
      | inl e ↦
          let later =
            map (λ (row : SessionFormRow). if text_eq row.id id then patch row else row) rows in
          let a = occurrences-append k (ids_of_row (patch s)) (ids_of later) in
          let b = occurrences-append k (ids_of_row s) (ids_of rows) in
          rw (e) (grind (arith, a, b, rest, same))
      | inr e ↦
          let later =
            map (λ (row : SessionFormRow). if text_eq row.id id then patch row else row) rows in
          let a = occurrences-append k (ids_of_row s) (ids_of later) in
          let b = occurrences-append k (ids_of_row s) (ids_of rows) in
          rw (e) (omega (arith, a, b, rest))
    ]

pub update_occurrences_le :
    (k id : Text) (patch : SessionFormRow → SessionFormRow) (rows : List SessionFormRow)
    → ((s : SessionFormRow) → occurrences k (ids_of_row (patch s)) ≤ occurrences k (ids_of_row s))
    → occurrences k (ids_of (update_session id patch rows)) ≤ occurrences k (ids_of rows)
unfolding update_session
update_occurrences_le k id patch [] h = omega arith
update_occurrences_le k id patch (s ∷ rows) h =
    let rest = update_occurrences_le k id patch rows h in
    let less = h s in
    let later = map (λ (row : SessionFormRow). if text_eq row.id id then patch row else row) rows in
    let b = occurrences-append k (ids_of_row s) (ids_of rows) in
    elim (Bool-cases (text_eq s.id id)) [
      | inl e ↦
          let a = occurrences-append k (ids_of_row (patch s)) (ids_of later) in
          rw (e) (omega (arith, a, b, rest, less))
      | inr e ↦
          let a = occurrences-append k (ids_of_row s) (ids_of later) in
          rw (e) (omega (arith, a, b, rest))
    ]

pub delete_session_le :
    (k id : Text) (rows : List SessionFormRow)
    → occurrences k (ids_of (delete_session id rows)) ≤ occurrences k (ids_of rows)
unfolding delete_session
delete_session_le k id [] = omega arith
delete_session_le k id (s ∷ rows) =
    let rest = delete_session_le k id rows in
    let left = keep (λ (item : SessionFormRow). not (text_eq item.id id)) rows in
    let a = occurrences-append k (ids_of_row s) (ids_of left) in
    let b = occurrences-append k (ids_of_row s) (ids_of rows) in
    elim (Bool-cases (text_eq s.id id)) [
      | inl e ↦ rw (e) (omega (arith, b, rest))
      | inr e ↦ rw (e) (omega (arith, a, b, rest))
    ]

rules_le :
    (k id : Text) (rules : List FlowRuleBundleRow)
    → occurrences k (rule_ids (keep (λ (item : FlowRuleBundleRow). not (text_eq item.id id)) rules))
      ≤ occurrences k (rule_ids rules)
rules_le k id [] = omega arith
rules_le k id (rule ∷ rules) =
    let rest = rules_le k id rules in
    elim (Bool-cases (text_eq rule.id id)) [
      | inl e ↦ elim (Bool-cases (text_eq rule.id k)) [
        | inl f ↦ rw (e) (rw (f) (omega (arith, rest)))
        | inr f ↦ rw (e) (rw (f) rest)
      ]
      | inr e ↦ elim (Bool-cases (text_eq rule.id k)) [
        | inl f ↦ rw (e) (rw (f) (omega (arith, rest)))
        | inr f ↦ rw (e) (rw (f) rest)
      ]
    ]

pub without_rule_le :
    (k id : Text) (s : SessionFormRow)
    → occurrences k (ids_of_row (without_rule id s)) ≤ occurrences k (ids_of_row s)
without_rule_le k id s =
    let a = occurrences-append k (rule_ids s.flow_rules) (s.id ∷ []) in
    let b = occurrences-append k (rule_ids (without_rule id s).flow_rules) (s.id ∷ []) in
    omega (arith, a, b, rules_le k id s.flow_rules)

-- A row with one more rule.
pub with_rule_more :
    (k : Text) (rule : FlowRuleBundleRow) (s : SessionFormRow)
    → occurrences k (ids_of_row (with_rule rule s))
      ≡ occurrences k (ids_of_row s) + occurrences k (rule.id ∷ [])
with_rule_more k rule s =
    let a = occurrences-append k (rule_ids s.flow_rules) (s.id ∷ []) in
    let b = occurrences-append k (rule_ids (s.flow_rules ++ rule ∷ [])) (s.id ∷ []) in
    let c =
      ap (occurrences k) (map-append (λ (r : FlowRuleBundleRow). r.id) s.flow_rules (rule ∷ [])) in
    let d = occurrences-append k (rule_ids s.flow_rules) (rule.id ∷ []) in omega (arith, a, b, c, d)

-- The handlers of the form's rows. A patch leaves the ids of a row, and those of its rules.
pub data Edit : Type 0 where
  changes_session : Text → (SessionFormRow → SessionFormRow) → Edit
  changes_rule : Text → Text → (FlowRuleBundleRow → FlowRuleBundleRow) → Edit
  deletes_session : Text → Edit
  deletes_rule : Text → Text → Edit
  adds_session : Edit
  adds_rule : Text → Edit

abbrev pub edit : Edit → ℕ × List SessionFormRow → ℕ × List SessionFormRow
edit (changes_session id patch) (next, rows) = (next, update_session id patch rows)
edit (changes_rule session_id id patch) (next, rows) =
    (next, update_flow_rule session_id id patch rows)
edit (deletes_session id) (next, rows) = (next, delete_session id rows)
edit (deletes_rule session_id id) (next, rows) = (next, delete_rule session_id id rows)
edit adds_session (next, rows) = add_session next rows
edit (adds_rule session_id) (next, rows) = add_rule session_id next rows

abbrev pub edits : List Edit → ℕ × List SessionFormRow → ℕ × List SessionFormRow
edits [] s = s
edits (e ∷ es) s = edits es (edit e s)

abbrev pub KeepsIds : Edit → Type 0
KeepsIds (changes_session id patch) = (s : SessionFormRow) → ids_of_row (patch s) ≡ ids_of_row s
KeepsIds (changes_rule session_id id patch) = (r : FlowRuleBundleRow) → (patch r).id ≡ r.id
KeepsIds (deletes_session id) = Unit
KeepsIds (deletes_rule session_id id) = Unit
KeepsIds adds_session = Unit
KeepsIds (adds_rule session_id) = Unit
