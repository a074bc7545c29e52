-- ===== src/Js/Objects.antt =====
-- An object used as a map by string, in the order of its keys: those that are array indices come
-- first and ascend, the others keep the order in which they were added. The key `__proto__`, whose
-- assignment sets no property, is not treated apart.
use fru_lab.Prelude.{
  ◌^◌, ◌-◌, ◌≡◌, refl, ap, sym, ◌∙◌, Bool, false, not, ◌&&◌, ◌||◌, Option, none, some, List, [],
  ◌∷◌, ltb, ◌==◌, if◌then◌else◌, map, every, Bool-cases, inl, inr,
}
use fru_lab.Js.Text.{Text, text_eq, text_eq_iff, text_eq_refl, is_empty, is_digit}
use fru_lab.Js.Decimal.{value}

abbrev pub Object {ℓ} : Type ℓ → Type ℓ
Object V = List (Text × V)

abbrev leads_zero : Text → Bool
leads_zero [] = false
leads_zero (c ∷ s) = c == b'0' && not (is_empty s)

-- A key that is an array index: a decimal numeral below 2 ^ 32 - 1 without leading zeros.
pub is_index : Text → Bool
is_index k =
    not (is_empty k) && not (leads_zero k) && every is_digit k && ltb (value k) (2 ^ 32 - 1)

-- A new key stands before an old one.
pub goes_before : Text → Text → Bool
goes_before k j = is_index k && (not (is_index j) || ltb (value k) (value j))

module _ {ℓ} {V : Type ℓ} where
  -- `o[k] = v`.
  unfoldable pub put : Text → V → Object V → Object V
  put k v [] = (k, v) ∷ []
  put k v ((j, w) ∷ o) =
      if text_eq k j
      then (k, v) ∷ o
      else if goes_before k j
      then (k, v) ∷ (j, w) ∷ o
      else (j, w) ∷ put k v o

  -- `o[k]`, or `m.get(k)`.
  unfoldable pub get : Text → List (Text × V) → Option V
  get k [] = none
  get k ((j, w) ∷ o) = if text_eq k j then some w else get k o

  -- `m.set(k, v)` of a `Map`, which keeps the order of insertion.
  unfoldable pub set : Text → V → List (Text × V) → List (Text × V)
  set k v [] = (k, v) ∷ []
  set k v ((j, w) ∷ o) = if text_eq k j then (k, v) ∷ o else (j, w) ∷ set k v o

  -- `Object.keys(o)`, and the values `m.values()`.
  abbrev pub keys : List (Text × V) → List Text
  keys = map (λ e. e.0)

  abbrev pub values : List (Text × V) → List V
  values = map (λ e. e.1)

  pub get-put : (k : Text) (v : V) (o : Object V) → get k (put k v o) ≡ some v
  unfolding get put
  get-put k v [] = rw (text_eq_refl k) refl
  get-put k v ((j, w) ∷ o) = elim (Bool-cases (text_eq k j)) [
    | inl e ↦ rw (e, text_eq_refl k) refl
    | inr e ↦ elim (Bool-cases (goes_before k j)) [
      | inl b ↦ rw (e, b, text_eq_refl k) refl
      | inr b ↦ rw (e, b) (unfold get in rw e (get-put k v o))
    ]
  ]

  pub get-put_other :
      (k j : Text) (v : V) (o : Object V) → text_eq j k ≡ false → get j (put k v o) ≡ get j o
  unfolding get put
  get-put_other k j v [] ne = rw ne refl
  get-put_other k j v ((i, w) ∷ o) ne = elim (Bool-cases (text_eq k i)) [
    | inl e ↦
        let same : text_eq j k ≡ text_eq j i = ap (text_eq j) ((text_eq_iff k i).0 e) in
        rw (e, ne) (rw (sym same ∙ ne) refl)
    | inr e ↦ elim (Bool-cases (goes_before k i)) [
      | inl b ↦ rw (e, b) (unfold get in rw ne refl)
      | inr b ↦
          rw (e, b)
            (unfold get in ap (λ r. if text_eq j i then some w else r) (get-put_other k j v o ne))
    ]
  ]

  pub get-set : (k : Text) (v : V) (o : List (Text × V)) → get k (set k v o) ≡ some v
  unfolding get set
  get-set k v [] = rw (text_eq_refl k) refl
  get-set k v ((j, w) ∷ o) = elim (Bool-cases (text_eq k j)) [
    | inl e ↦ rw (e, text_eq_refl k) refl
    | inr e ↦ rw e (unfold get in rw e (get-set k v o))
  ]

  pub get-set_other :
      (k j : Text) (v : V) (o : List (Text × V)) → text_eq j k ≡ false → get j (set k v o) ≡ get j o
  unfolding get set
  get-set_other k j v [] ne = rw ne refl
  get-set_other k j v ((i, w) ∷ o) ne = elim (Bool-cases (text_eq k i)) [
    | inl e ↦
        let same : text_eq j k ≡ text_eq j i = ap (text_eq j) ((text_eq_iff k i).0 e) in
        rw (e, ne) (rw (sym same ∙ ne) refl)
    | inr e ↦
        rw e (unfold get in ap (λ r. if text_eq j i then some w else r) (get-set_other k j v o ne))
  ]
