-- ===== src/Tester/Defaults/Merge.antt =====
-- What `mergeKnown` gives.
use fru_lab.Prelude.{◌≡◌, refl, ap, sym, ◌∙◌, true, Bool-cases, inl, inr}
use fru_lab.Js.Text.{Text, text_eq}
use fru_lab.Tester.Defaults.{
  Json, undefined, null, boolean, number, text, object, Fields, no_fields, field, TypeOf,
  undefined_type, boolean_type, number_type, string_type, object_type, type_of, same_type, lookup,
  fields_of, keep_or, merge_known, merge_fields, replace,
}

same_type_refl : (t : TypeOf) → same_type t t ≡ true
same_type_refl undefined_type = refl
same_type_refl boolean_type = refl
same_type_refl number_type = refl
same_type_refl string_type = refl
same_type_refl object_type = refl

module _ {N : Type 0} where
  abbrev mutual
    -- The same keys in the same order, down to values of the same types.
    pub Conforms : Json N → Json N → Type 0
    Conforms (object defaults) (object saved) = ConformFields defaults saved
    Conforms (object defaults) undefined = ⊥
    Conforms (object defaults) null = ⊥
    Conforms (object defaults) (boolean b) = ⊥
    Conforms (object defaults) (number n) = ⊥
    Conforms (object defaults) (text s) = ⊥
    Conforms undefined saved = same_type (type_of saved) (type_of {N = N} undefined) ≡ true
    Conforms null saved = same_type (type_of saved) (type_of {N = N} null) ≡ true
    Conforms (boolean b) saved = same_type (type_of saved) (type_of {N = N} (boolean b)) ≡ true
    Conforms (number n) saved = same_type (type_of saved) (type_of (number n)) ≡ true
    Conforms (text s) saved = same_type (type_of saved) (type_of {N = N} (text s)) ≡ true

    pub ConformFields : Fields N → Fields N → Type 0
    ConformFields no_fields no_fields = Unit
    ConformFields no_fields (field _ _ _) = ⊥
    ConformFields (field _ _ _) no_fields = ⊥
    ConformFields (field k v defaults) (field j w saved) =
        (k ≡ j) × Conforms v w × ConformFields defaults saved

  keep_or_same :
      (defaults saved : Json N)
      → same_type (type_of (keep_or defaults saved)) (type_of defaults) ≡ true
  keep_or_same defaults saved = elim (Bool-cases (same_type (type_of saved) (type_of defaults))) [
    | inl e ↦ rw e e
    | inr e ↦ rw e (same_type_refl (type_of defaults))
  ]

  mutual
    unfolding merge_known

    merge_known_lem : (defaults saved : Json N) → Conforms defaults (merge_known defaults saved)
    merge_known_lem (object entries) saved = merge_fields_lem entries (fields_of saved)
    merge_known_lem undefined saved = keep_or_same undefined saved
    merge_known_lem null saved = keep_or_same null saved
    merge_known_lem (boolean b) saved = keep_or_same (boolean b) saved
    merge_known_lem (number n) saved = keep_or_same (number n) saved
    merge_known_lem (text s) saved = keep_or_same (text s) saved

    merge_fields_lem :
        (defaults src : Fields N) → ConformFields defaults (merge_fields defaults src)
    merge_fields_lem no_fields src = tt
    merge_fields_lem (field k v rest) src =
        (refl, merge_known_lem v (lookup k src), merge_fields_lem rest src)

  -- Whatever was saved, the merged value has exactly the keys of the defaults, in their order,
  -- down to values of the types of the defaults.
  pub merge_known-Conforms :
      (defaults saved : Json N) → Conforms defaults (merge_known defaults saved)
  merge_known-Conforms defaults saved = merge_known_lem defaults saved

  pub lookup-Conforms :
      (k : Text) (defaults saved : Fields N)
      → ConformFields defaults saved
      → Conforms (lookup k defaults) (lookup k saved)
  lookup-Conforms k no_fields no_fields c = refl
  lookup-Conforms k no_fields (field _ _ _) c = elim c [ ]
  lookup-Conforms k (field _ _ _) no_fields c = elim c [ ]
  lookup-Conforms k (field i v defaults) (field j w saved) (same, c, rest) =
      elim (Bool-cases (text_eq k i)) [
        | inl e ↦ rw (e, sym (ap (text_eq k) same) ∙ e) c
        | inr e ↦ rw (e, sym (ap (text_eq k) same) ∙ e) (lookup-Conforms k defaults saved rest)
      ]

  pub replace-Conforms :
      (k : Text) (x : Json N) (defaults saved : Fields N)
      → ConformFields defaults saved
      → Conforms (lookup k defaults) x
      → ConformFields defaults (replace k x saved)
  replace-Conforms k x no_fields no_fields c h = tt
  replace-Conforms k x no_fields (field _ _ _) c h = elim c [ ]
  replace-Conforms k x (field _ _ _) no_fields c h = elim c [ ]
  replace-Conforms k x (field i v defaults) (field j w saved) (same, c, rest) h =
      elim (Bool-cases (text_eq k i)) [
        | inl e ↦ rw (sym (ap (text_eq k) same) ∙ e) (same, rw e at h, rest)
        | inr e ↦
            rw (sym (ap (text_eq k) same) ∙ e)
              (same, c, replace-Conforms k x defaults saved rest (rw e at h))
      ]
