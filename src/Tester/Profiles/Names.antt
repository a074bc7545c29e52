-- ===== src/Tester/Profiles/Names.antt =====
-- The search for a free name ends, and finds one.
use mathlib.Core.List.{append_cancel_left}
use fru_lab.Prelude.{
  ℕ, zero, suc, ◌+◌, ◌≤◌, ◌<◌, ◌≡◌, refl, sym, ap, ◌∙◌, ◌⊎◌, inl, inr, Bool, true, false, not, none,
  some, List, [], ◌∷◌, arith, length, find, any, keep, All, Bool-cases,
}
use fru_lab.Js.Text.{Text, text_eq_iff, is_empty, trim, trim_start, trim_of_IsSolid}
use fru_lab.Js.Trim.{
  IsTrimmed, trim-IsTrimmed, trim_idem, is_empty-append, digits-IsSolid, trim_end-append,
  trim_end_of_IsSolid, cons-ne-nil,
}
use fru_lab.Js.Decimal.{decimal, AreDigits, decimal-AreDigits, decimal-injective, decimal-ne-nil}
use fru_lab.Tester.Profiles.{
  TesterStoredProfile, ProfileOps, IsCaseMapping, is_plain, owns, name_key, name_owner, candidate,
  free_from, free_name,
}

digits_plain : (d : Text) → AreDigits d → All (λ c. is_plain c ≡ true) d
digits_plain [] h = tt
digits_plain (c ∷ d) (p, h) = (rw (p) refl, digits_plain d h)

-- A space and digits behind text that `trim` gave.
trim-candidate :
    (c : ℕ) (s : Text) (i : ℕ)
    → IsTrimmed (c ∷ s)
    → trim (candidate (c ∷ s) i) ≡ candidate (c ∷ s) i
unfolding trim trim_start
trim-candidate c s i h =
    let solid =
      trim_end_of_IsSolid (decimal i) (digits-IsSolid (decimal i) (decimal-AreDigits i)) in
    let spaced = trim_end-append (32 ∷ []) (decimal i) (decimal-ne-nil i) solid in
    rw (h) (trim_end-append (c ∷ s) (32 ∷ decimal i) (cons-ne-nil 32 (decimal i)) spaced)

trim-numeral : (i : ℕ) → trim (candidate [] i) ≡ decimal i
unfolding trim trim_start
trim-numeral i = trim_of_IsSolid (decimal i) (digits-IsSolid (decimal i) (decimal-AreDigits i))

module _ {A : Type 0} where
  find-none : (p : A → Bool) (xs : List A) → any p xs ≡ false → find p xs ≡ none
  find-none p [] h = refl
  find-none p (x ∷ xs) h = elim (Bool-cases (p x)) [
    | inl e ↦ absurd (let h₁ = rw (e) at h in cc)
    | inr e ↦ rw (e) (find-none p xs (rw (e) at h))
  ]

  find-some : (p : A → Bool) (xs : List A) → any p xs ≡ true → (x : A) × (find p xs ≡ some x)
  find-some p [] h = absurd cc
  find-some p (x ∷ xs) h = elim (Bool-cases (p x)) [
    | inl e ↦ (x, rw (e) refl)
    | inr e ↦ let (y, f) = find-some p xs (rw (e) at h) in (y, rw (e) f)
  ]

  -- What has one property and not the other stays when the others are dropped.
  any-keep :
      (q r : A → Bool) (xs : List A)
      → ((x : A) → r x ≡ true → q x ≡ false)
      → any r xs ≡ true
      → any r (keep (λ x. not (q x)) xs) ≡ true
  any-keep q r [] apart h = h
  any-keep q r (x ∷ xs) apart h = elim (Bool-cases (r x)) [
    | inl e ↦ let f = apart x e in rw (f) (rw (e) refl)
    | inr e ↦
        let h₁ : any r xs ≡ true = rw (e) at h in
        let later = any-keep q r xs apart h₁ in
        elim (Bool-cases (q x)) [ inl f ↦ rw (f) later | inr f ↦ rw (f) (rw (e) later) ]
  ]

  length-keep-le : (q : A → Bool) (xs : List A) → length (keep q xs) ≤ length xs
  length-keep-le q [] = omega arith
  length-keep-le q (x ∷ xs) = elim (Bool-cases (q x)) [
    | inl e ↦ rw (e) (omega (arith, length-keep-le q xs))
    | inr e ↦ rw (e) (omega (arith, length-keep-le q xs))
  ]

  length-keep-lt :
      (q : A → Bool) (xs : List A) → any q xs ≡ true → length (keep (λ x. not (q x)) xs) < length xs
  length-keep-lt q [] h = absurd cc
  length-keep-lt q (x ∷ xs) h = elim (Bool-cases (q x)) [
    | inl e ↦ rw (e) (omega (arith, length-keep-le (λ y. not (q y)) xs))
    | inr e ↦ rw (e) (omega (arith, length-keep-lt q xs (rw (e) at h)))
  ]

module _ {P : Type 0} (ops : ProfileOps P) (mapping : IsCaseMapping ops.to_lower_case) where
  -- Numbered names are different names.
  candidate-injective :
      (b : Text) (i j : ℕ)
      → IsTrimmed b
      → name_key ops (candidate b i) ≡ name_key ops (candidate b j)
      → i ≡ j
  candidate-injective [] i j h e =
      let e₁ : ops.to_lower_case (decimal i) ≡ ops.to_lower_case (decimal j) =
        ap ops.to_lower_case (sym (trim-numeral i)) ∙ e ∙ ap ops.to_lower_case (trim-numeral j) in
      decimal-injective i j (
        append_cancel_left (ops.to_lower_case []) (decimal i) (decimal j) (
          sym (mapping.keeps_plain [] (decimal i) (digits_plain _ (decimal-AreDigits i)))
          ∙ e₁
          ∙ mapping.keeps_plain [] (decimal j) (digits_plain _ (decimal-AreDigits j))))
  candidate-injective (c ∷ s) i j h e =
      let e₁ : ops.to_lower_case (candidate (c ∷ s) i) ≡ ops.to_lower_case (candidate (c ∷ s) j) =
        ap ops.to_lower_case (sym (trim-candidate c s i h))
        ∙ e
        ∙ ap ops.to_lower_case (trim-candidate c s j h) in
      decimal-injective i j (
        append_cancel_left (32 ∷ []) (decimal i) (decimal j) (
          append_cancel_left (ops.to_lower_case (c ∷ s)) (32 ∷ decimal i) (32 ∷ decimal j) (
            sym (
              mapping.keeps_plain (c ∷ s) (32 ∷ decimal i)
                (refl, digits_plain _ (decimal-AreDigits i)))
            ∙ e₁
            ∙ mapping.keeps_plain (c ∷ s) (32 ∷ decimal j)
                (refl, digits_plain _ (decimal-AreDigits j)))))

  -- A profile that has one numbered name has no other.
  owns-apart :
      (b : Text) (i j : ℕ) (p : TesterStoredProfile P)
      → IsTrimmed b
      → i < j
      → owns ops (candidate b j) none p ≡ true
      → owns ops (candidate b i) none p ≡ false
  owns-apart b i j p h lt e = elim (Bool-cases (owns ops (candidate b i) none p)) [
    | inr f ↦ f
    | inl f ↦
        let at_j =
          (text_eq_iff (name_key ops (ops.name p.profile)) (name_key ops (candidate b j))).0 e in
        let at_i =
          (text_eq_iff (name_key ops (ops.name p.profile)) (name_key ops (candidate b i))).0 f in
        let same = candidate-injective b i j h (sym at_i ∙ at_j) in
        absurd (let bad : ⊥ = omega arith in bad)
  ]

  -- The search from `i`, where every profile of the list that owns a name from `i` on is in a list
  -- that is no longer than the fuel.
  free_from-none :
      (f : ℕ) (list owners : List (TesterStoredProfile P)) (b : Text) (i : ℕ)
      → IsTrimmed b
      → ((j : ℕ)
          → i ≤ j
          → any (owns ops (candidate b j) none) list ≡ true
          → any (owns ops (candidate b j) none) owners ≡ true)
      → length owners ≤ f
      → (k : ℕ) × (i ≤ k)
        × (k ≤ i + length owners)
        × (free_from ops f list b i ≡ candidate b k)
        × (name_owner ops list (candidate b k) none ≡ none)
  unfolding free_from
  free_from-none zero list [] b i h sub le =
      elim (Bool-cases (any (owns ops (candidate b i) none) list)) [
        | inl e ↦ absurd (let bad = sub i (omega arith) e in cc)
        | inr e ↦ (i, omega arith, omega arith, refl, find-none _ list e)
      ]
  free_from-none zero list (p ∷ owners) b i h sub le = absurd (let bad : ⊥ = omega arith in bad)
  free_from-none (suc f) list owners b i h sub le =
      elim (Bool-cases (any (owns ops (candidate b i) none) list)) [
        | inr e ↦
            let free = find-none (owns ops (candidate b i) none) list e in
            (i, omega arith, omega arith, rw (free, free_from) refl, free)
        | inl e ↦
            let (p, owned) = find-some (owns ops (candidate b i) none) list e in
            let here = owns ops (candidate b i) none in
            let fewer = length-keep-lt here owners (sub i (omega arith) e) in
            let (k, lo, hi, same, free) =
              free_from-none f list (keep (λ p. not (here p)) owners) b (i + 1) h
                (λ j le_j in_list.
                  any-keep here (owns ops (candidate b j) none) owners
                    (λ p. owns-apart b i j p h (omega arith)) (sub j (omega arith) in_list))
                (omega arith) in
            (k, omega arith, omega arith, rw (owned, free_from) same, free)
      ]

  -- The name that `freeName` gives is free, whatever profiles are saved: it is the base without
  -- surrounding spaces, or that with a number of at most two more than the number of profiles.
  pub free_name_lem :
      (list : List (TesterStoredProfile P)) (base : Text)
      → (name_owner ops list (free_name ops list base) none ≡ none)
        × ((free_name ops list base ≡ trim base)
            ⊎ ((k : ℕ) × (2 ≤ k)
                × (k ≤ length list + 2)
                × (free_name ops list base ≡ candidate (trim base) k)))
  unfolding free_name
  free_name_lem list base = elim (Bool-cases (any (owns ops (trim base) none) list)) [
    | inr e ↦
        let free = find-none (owns ops (trim base) none) list e in
        (rw (free, free_name) free, inl (rw (free, free_name) refl))
    | inl e ↦
        let (p, owned) = find-some (owns ops (trim base) none) list e in
        let (k, lo, hi, same, free) =
          free_from-none (suc (length list)) list list (trim base) 2 (trim-IsTrimmed base)
            (λ _ _ h. h) (omega arith) in
        (
          rw (owned, free_name) (rw (same) free),
          inr (k, lo, omega arith, rw (owned, free_name) same),
        )
  ]

  is_empty-candidate : (b : Text) (k : ℕ) → IsTrimmed b → is_empty (trim (candidate b k)) ≡ false
  is_empty-candidate [] k h =
      ap is_empty (trim-numeral k) ∙ is_empty-append [] (decimal k) (decimal-ne-nil k)
  is_empty-candidate (c ∷ s) k h = ap is_empty (trim-candidate c s k h)

  -- A free name for a base that is not blank is not blank.
  pub free_name_not_blank :
      (list : List (TesterStoredProfile P)) (base : Text)
      → is_empty (trim base) ≡ false
      → is_empty (trim (free_name ops list base)) ≡ false
  free_name_not_blank list base h = elim (free_name_lem list base).1 [
    | inl e ↦ ap (λ n. is_empty (trim n)) e ∙ ap is_empty (trim_idem base) ∙ h
    | inr (k, _, _, e) ↦
        ap (λ n. is_empty (trim n)) e ∙ is_empty-candidate (trim base) k (trim-IsTrimmed base)
  ]
