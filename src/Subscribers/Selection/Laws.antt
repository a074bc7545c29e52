-- ===== src/Subscribers/Selection/Laws.antt =====
-- What the operations on the selection do.
use fru_lab.Prelude.{
  ℕ, ◌≡◌, refl, ap, sym, ◌∙◌, Bool, true, false, not, ◌&&◌, ◌||◌, Option, List, [], ◌∷◌, ◌++◌,
  arith, if◌then◌else◌, map, any, Bool-cases, inl, inr,
}
use fru_lab.Js.Text.{Text, text_eq, text_eq_iff, text_eq_refl}
use fru_lab.Subscribers.Webconsole.{Subscriber}
use fru_lab.Subscribers.RunLimited.{Failure, bulk_concurrency, result}
use fru_lab.Subscribers.RunLimited.Result.{after, failures_of, run_limited_result}
use fru_lab.Subscribers.Selection.{
  key_of, in_set, added, deleted, set_of, toggle, set_many, selected_of, finish_bulk_delete,
  handle_bulk_delete,
}

in_set-append : (k : Text) (xs ys : List Text) → in_set k (xs ++ ys) ≡ (in_set k xs || in_set k ys)
in_set-append k [] ys = refl
in_set-append k (x ∷ xs) ys = ground (arith, in_set-append k xs ys)

text_eq_sym : (s t : Text) → text_eq s t ≡ text_eq t s
text_eq_sym s t = elim (Bool-cases (text_eq s t)) [
  | inl e ↦
      let same = (text_eq_iff s t).0 e in
      e ∙ sym (ap (λ x. text_eq x s) (sym same) ∙ text_eq_refl s)
  | inr e ↦ elim (Bool-cases (text_eq t s)) [
    | inl f ↦
        let same = (text_eq_iff t s).0 f in
        absurd
          (let h : true ≡ false = sym (ap (λ x. text_eq x t) (sym same) ∙ text_eq_refl t) ∙ e in cc)
    | inr f ↦ e ∙ sym f
  ]
]

in_set-added :
    (k j : Text) (set : List Text) → in_set k (added j set) ≡ (text_eq k j || in_set k set)
in_set-added k j set = elim (Bool-cases (in_set j set)) [
  | inl e ↦ elim (Bool-cases (text_eq k j)) [
    | inl f ↦ rw (e, f) (ap (λ i. in_set i set) ((text_eq_iff k j).0 f) ∙ e)
    | inr f ↦ rw (e, f) refl
  ]
  | inr e ↦ rw e (ground (arith, in_set-append k set (j ∷ [])))
]

in_set-deleted :
    (k j : Text) (set : List Text) → in_set k (deleted j set) ≡ (not (text_eq k j) && in_set k set)
in_set-deleted k j [] = ground arith
in_set-deleted k j (i ∷ set) = elim (Bool-cases (text_eq j i)) [
  | inl e ↦
      let same = (text_eq_iff j i).0 e in
      let alike : text_eq k j ≡ text_eq k i = ap (text_eq k) same in
      ground (arith, e, alike, in_set-deleted k j set)
  | inr e ↦ elim (Bool-cases (text_eq k j)) [
    | inl f ↦
        let alike : text_eq k i ≡ text_eq j i = ap (λ x. text_eq x i) ((text_eq_iff k j).0 f) in
        ground (arith, e, f, alike, in_set-deleted k j set)
    | inr f ↦ ground (arith, e, f, in_set-deleted k j set)
  ]
]

-- A toggle changes whether its subscriber is selected, and nothing else.
pub toggle_one :
    (k : Text) (s : Subscriber) (selected : List Text)
    → in_set k (toggle s selected)
      ≡ (if text_eq k (key_of s) then not (in_set (key_of s) selected) else in_set k selected)
unfolding toggle
toggle_one k s selected = elim (Bool-cases (in_set (key_of s) selected)) [
  | inl e ↦
      rw e (
        in_set-deleted k (key_of s) selected ∙ and_cases (text_eq k (key_of s)) (in_set k selected))
  | inr e ↦
      let grown = in_set-added k (key_of s) selected in
      rw e ((rw e at grown) ∙ or_cases (text_eq k (key_of s)) (in_set k selected))
]
  where
    and_cases : (b x : Bool) → (not b && x) ≡ (if b then false else x)
    and_cases true x = refl
    and_cases false x = refl

    or_cases : (b x : Bool) → (b || x) ≡ (if b then true else x)
    or_cases true x = refl
    or_cases false x = refl

abbrev pub among : Text → List Subscriber → Bool
among k list = any (λ (s : Subscriber). text_eq k (key_of s)) list

-- Selecting or deselecting many sets exactly the subscribers of the list.
pub set_many_exact :
    (k : Text) (list : List Subscriber) (on : Bool) (selected : List Text)
    → in_set k (set_many list on selected) ≡ (if among k list then on else in_set k selected)
unfolding set_many
set_many_exact k [] on selected = refl
set_many_exact k (s ∷ list) true selected = ground (
  arith,
  set_many_exact k list true (added (key_of s) selected),
  in_set-added k (key_of s) selected,
)
set_many_exact k (s ∷ list) false selected = ground (
  arith,
  set_many_exact k list false (deleted (key_of s) selected),
  in_set-deleted k (key_of s) selected,
)

pub in_set-set_of :
    (k : Text) (ks set : List Text) → in_set k (set_of ks set) ≡ (in_set k ks || in_set k set)
in_set-set_of k [] set = refl
in_set-set_of k (j ∷ ks) set =
    ground (arith, in_set-set_of k ks (added j set), in_set-added k j set)

-- Once the bulk delete's requests have all ended, the selected keys are those of the targets whose
-- deletion was rejected.
pub bulk_delete_selection :
    {E : Type 0} (extract_message : E → Text → Text) (subscribers : List Subscriber)
    (selected : List Text) (outcome : ℕ → Option E) (schedule : List ℕ) (k : Text)
    → (after (selected_of subscribers selected) outcome bulk_concurrency schedule).flying ≡ []
    → in_set k (handle_bulk_delete extract_message subscribers selected outcome schedule).0
      ≡ in_set k (
          map
            (λ (f : Failure Subscriber E). key_of f.item)
            (failures_of (selected_of subscribers selected) outcome))
unfolding handle_bulk_delete finish_bulk_delete
bulk_delete_selection {E} extract_message subscribers selected outcome schedule k ended =
    let targets = selected_of subscribers selected in
    let (_, same) =
      run_limited_result targets outcome bulk_concurrency schedule (omega arith) ended in
    in_set-set_of k
      (map (λ (f : Failure Subscriber E). key_of f.item)
        (result (after targets outcome bulk_concurrency schedule)))
      []
    ∙ or_false _
    ∙ ap (λ l. in_set k (map (λ (f : Failure Subscriber E). key_of f.item) l)) same
  where
    or_false : (b : Bool) → (b || false) ≡ b
    or_false true = refl
    or_false false = refl
