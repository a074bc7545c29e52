-- ===== src/Subscribers/Form/Ids.antt =====
-- The row ids of a form that is loaded, by which the page tells its rows apart.
use fru_lab.Prelude.{
  ℕ, ◌+◌, ◌≤◌, ◌<◌, ◌≡◌, ◌≢◌, refl, ap, sym, ◌∙◌, List, [], ◌∷◌, ◌++◌, arith, map, drop, keep, All,
  map-append, append_assoc, IsAbove,
}
use mathlib.Core.Path.{ap₂, subst}
use fru_lab.Js.Text.{Text}
use fru_lab.Js.Decimal.{decimal-injective}
use fru_lab.Js.Numbers.{Numbers}
use fru_lab.Js.Objects.{Object}
use fru_lab.Subscribers.Webconsole.{
  Subscription, SessionManagementSubscriptionData, DnnConfiguration, FlowRules,
}
use fru_lab.Subscribers.Form.{
  FlowRuleBundleRow, SessionFormRow, row_id, make_row_id, make_flow_rule_bundle, make_session_row,
}
use fru_lab.Subscribers.Form.Save.{snssai_key}
use fru_lab.Subscribers.Form.Load.{
  bundle_of, load_rules, session_of, load_session, load_slice, load_slices, or_one_row,
  from_subscription, matching_rule, list_or, text_or,
}

-- The ids of a row's flow rules, then its own.
abbrev pub ids_of_row : SessionFormRow → List Text
ids_of_row row = map (λ (b : FlowRuleBundleRow). b.id) row.flow_rules ++ row.id ∷ []

abbrev pub ids_of : List SessionFormRow → List Text
ids_of [] = []
ids_of (row ∷ rows) = ids_of_row row ++ ids_of rows

-- The ids are those of ascending counters, all above the counter before and none above the one
-- after.
record Counted (next last : ℕ) (ids : List Text) : Type 0 where
  counters : List ℕ
  ascending : IsAbove next counters
  bounded : All (λ c. c ≤ last) counters
  grown : next ≤ last
  named : ids ≡ map row_id counters

IsAbove-append :
    (a b : ℕ) (xs ys : List ℕ)
    → a ≤ b
    → IsAbove a xs
    → All (λ c. c ≤ b) xs
    → IsAbove b ys
    → IsAbove a (xs ++ ys)
IsAbove-append a b [] [] ab hx small hy = tt
IsAbove-append a b [] (y ∷ ys) ab hx small (by, hy) = (omega arith, hy)
IsAbove-append a b (x ∷ xs) ys ab (ax, hx) (xb, small) hy =
    (ax, IsAbove-append x b xs ys xb hx small hy)

bounded-append :
    (b c : ℕ) (xs ys : List ℕ)
    → b ≤ c
    → All (λ i. i ≤ b) xs
    → All (λ i. i ≤ c) ys
    → All (λ i. i ≤ c) (xs ++ ys)
bounded-append b c [] ys bc hx hy = hy
bounded-append b c (x ∷ xs) ys bc (xb, hx) hy = (omega arith, bounded-append b c xs ys bc hx hy)

Counted-append :
    {a b c : ℕ} {xs ys : List Text} → Counted a b xs → Counted b c ys → Counted a c (xs ++ ys)
Counted-append {a} {b} {c} x y = record {
  counters = x.counters ++ y.counters;
  ascending = IsAbove-append a b x.counters y.counters x.grown x.ascending x.bounded y.ascending;
  bounded = bounded-append b c x.counters y.counters y.grown x.bounded y.bounded;
  grown = omega (arith, x.grown, y.grown);
  named = ap₂ (λ s t. s ++ t) x.named y.named ∙ sym (map-append row_id x.counters y.counters);
}

Counted-nil : (n : ℕ) → Counted n n []
Counted-nil n = record {
  counters = [];
  ascending = tt;
  bounded = tt;
  grown = omega arith;
  named = refl;
}

-- One id, of any counter between.
Counted-one : (a c b : ℕ) → a < c → c ≤ b → Counted a b (row_id c ∷ [])
Counted-one a c b h g = record {
  counters = c ∷ [];
  ascending = (h, tt);
  bounded = (g, tt);
  grown = omega arith;
  named = refl;
}

module _ {N : Type 0} (js : Numbers N) (sub : Subscription N) where
  load_rules-Counted :
      (key dnn : Text) (rules : List (FlowRules N)) (next : ℕ)
      → Counted next
          (load_rules js sub key dnn rules next).0
          (map (λ (b : FlowRuleBundleRow). b.id) (load_rules js sub key dnn rules next).1)
  unfolding load_rules make_flow_rule_bundle make_row_id bundle_of
  load_rules-Counted key dnn [] next = Counted-nil next
  load_rules-Counted key dnn (rule ∷ rules) next =
      Counted-append (Counted-one next (next + 1) (next + 1) (omega arith) (omega arith))
        (load_rules-Counted key dnn rules (next + 1))

  load_session-Counted :
      (sst sd : Text) (entry : Text × DnnConfiguration N) (next : ℕ)
      → Counted next
          (load_session js sub sst sd entry next).0
          (ids_of_row (load_session js sub sst sd entry next).1)
  unfolding load_session make_session_row make_flow_rule_bundle make_row_id session_of
  load_session-Counted sst sd (dnn, config) next =
      let key = snssai_key js sst sd in
      let rules = keep (matching_rule js key dnn) sub.flow_rules in
      let last = (load_rules js sub key dnn rules next).0 in
      Counted-append (load_rules-Counted key dnn rules next)
        (Counted-one last (last + 1) (last + 1 + 1) (omega arith) (omega arith))

  load_slice-Counted :
      (sst sd : Text) (entries : Object (DnnConfiguration N)) (next : ℕ)
      → Counted next
          (load_slice js sub sst sd entries next).0
          (ids_of (load_slice js sub sst sd entries next).1)
  unfolding load_slice
  load_slice-Counted sst sd [] next = Counted-nil next
  load_slice-Counted sst sd (entry ∷ entries) next =
      Counted-append (load_session-Counted sst sd entry next)
        (load_slice-Counted sst sd entries (load_session js sub sst sd entry next).0)

  ids_of-append : (xs ys : List SessionFormRow) → ids_of (xs ++ ys) ≡ ids_of xs ++ ids_of ys
  ids_of-append [] ys = refl
  ids_of-append (x ∷ xs) ys =
      ap (λ l. ids_of_row x ++ l) (ids_of-append xs ys) ∙ sym (append_assoc (ids_of_row x) _ _)

  load_slices-Counted :
      (slices : List (SessionManagementSubscriptionData N)) (next : ℕ)
      → Counted next (load_slices js sub slices next).0 (ids_of (load_slices js sub slices next).1)
  unfolding load_slices
  load_slices-Counted [] next = Counted-nil next
  load_slices-Counted (slice ∷ slices) next =
      let sst = js.show slice.single_nssai.sst in
      let sd = text_or slice.single_nssai.sd in
      let entries = list_or slice.dnn_configurations in
      let rows = load_slice js sub sst sd entries next in
      subst (Counted next (load_slices js sub slices rows.0).0)
        (sym (ids_of-append rows.1 (load_slices js sub slices rows.0).1))
        (Counted-append (load_slice-Counted sst sd entries next)
          (load_slices-Counted slices rows.0))

-- An id made after one counter and up to another.
abbrev pub IsNewId : ℕ → ℕ → Text → Type 0
IsNewId next last id = (c : ℕ) × (next < c) × (c ≤ last) × (id ≡ row_id c)

abbrev pub AreDistinct : List Text → Type 0
AreDistinct [] = Unit
AreDistinct (id ∷ ids) = All (λ other. id ≢ other) ids × AreDistinct ids

pub row_id-injective : (n m : ℕ) → row_id n ≡ row_id m → n ≡ m
row_id-injective n m e = decimal-injective n m (ap (drop 4) e)

others :
    (a n : ℕ) (cs : List ℕ) → n ≤ a → IsAbove a cs → All (λ other. row_id n ≢ other) (map row_id cs)
others a n [] le h = tt
others a n (c ∷ cs) le (lt, h) = (
  (λ e. let same = row_id-injective n c e in absurd (omega arith)),
  others c n cs (omega arith) h,
)

distinct : (a : ℕ) (cs : List ℕ) → IsAbove a cs → AreDistinct (map row_id cs)
distinct a [] h = tt
distinct a (c ∷ cs) (lt, h) = (others c c cs (omega arith) h, distinct c cs h)

news :
    (next a last : ℕ) (cs : List ℕ)
    → next ≤ a
    → IsAbove a cs
    → All (λ c. c ≤ last) cs
    → All (IsNewId next last) (map row_id cs)
news next a last [] le h b = tt
news next a last (c ∷ cs) le (lt, h) (cl, b) =
    ((c, omega arith, cl, refl), news next c last cs (omega arith) h b)

-- The ids are distinct and new.
abbrev pub AreFresh : ℕ → ℕ → List Text → Type 0
AreFresh next last ids = AreDistinct ids × All (IsNewId next last) ids

Counted-AreFresh :
    (next last : ℕ) (ids : List Text) → Counted next last ids → AreFresh next last ids
Counted-AreFresh next last ids x = subst (AreFresh next last) (sym x.named) (
  distinct next x.counters x.ascending,
  news next next last x.counters (omega arith) x.ascending x.bounded,
)

or_one_row-AreFresh :
    (next : ℕ) (loaded : ℕ × List SessionFormRow)
    → Counted next loaded.0 (ids_of loaded.1)
    → AreFresh next (or_one_row loaded).0 (ids_of (or_one_row loaded).1)
unfolding or_one_row make_session_row make_flow_rule_bundle make_row_id
or_one_row-AreFresh next (last, []) x =
    let grown = x.grown in
    let differ : row_id (last + 1 + 1) ≢ row_id (last + 1) =
      λ e. let same = row_id-injective (last + 1 + 1) (last + 1) e in absurd (omega arith) in
    (
      ((differ, tt), (tt, tt)),
      (
        (last + 1 + 1, omega arith, omega arith, refl),
        ((last + 1, omega arith, omega arith, refl), tt),
      ),
    )
or_one_row-AreFresh next (last, row ∷ rows) x = Counted-AreFresh next last (ids_of (row ∷ rows)) x

-- Loading a subscription gives all its rows, sessions and flow rules, ids that are distinct, and
-- made after those of the rows made before.
pub from_subscription-AreFresh :
    {N : Type 0} (js : Numbers N) (sub : Subscription N) (next : ℕ)
    → AreFresh next
        (from_subscription js sub next).0
        (ids_of (from_subscription js sub next).1.sessions)
unfolding from_subscription
from_subscription-AreFresh js sub next =
    let slices = sub.session_management_subscription_data in
    or_one_row-AreFresh next (load_slices js sub slices next)
      (load_slices-Counted js sub slices next)
