-- ===== src/Tester/ProfileList/Delete.antt =====
-- What deleting the selected profiles leaves.
use fru_lab.Prelude.{
  ◌≡◌, refl, ap, ◌∙◌, inl, inr, Bool, true, false, not, ◌&&◌, ◌||◌, Option, none, some, List, [],
  ◌∷◌, ◌+◌, min, arith, length, length-append, map, keep, All, Bool-cases,
}
use fru_lab.Js.Text.{Text, text_eq, text_eq_iff, text_eq_refl}
use fru_lab.Dashboard.Types.{answered}
use fru_lab.Subscribers.Selection.{in_set, set_of}
use fru_lab.Subscribers.Selection.Laws.{in_set-set_of}
use fru_lab.Tester.Profiles.{TesterStoredProfile, ProfileOps}
use fru_lab.Tester.ProfileList.{
  ProfileList, ids_of, is_selected, chosen, or_empty, failed_in, could_not, handle_delete,
}

abbrev pub is_rejected : {E : Type 0} → Option E → Bool
is_rejected none = false
is_rejected (some e) = true

module _ {P : Type 0} where
  in_set-kept :
      (k : Text) (selected : List Text) (xs : List (TesterStoredProfile P))
      → in_set k (ids_of (keep (is_selected selected) xs))
        ≡ (in_set k selected && in_set k (ids_of xs))
  in_set-kept k selected [] = ground arith
  in_set-kept k selected (x ∷ xs) = elim (Bool-cases (in_set x.id selected)) [
    | inl e ↦ elim (Bool-cases (text_eq k x.id)) [
      | inl f ↦
          let same : in_set k selected ≡ true =
            ap (λ j. in_set j selected) ((text_eq_iff k x.id).0 f) ∙ e in
          rw (e, f, same) refl
      | inr f ↦ rw (e, f) (in_set-kept k selected xs)
    ]
    | inr e ↦ elim (Bool-cases (text_eq k x.id)) [
      | inl f ↦
          let same : in_set k selected ≡ false =
            ap (λ j. in_set j selected) ((text_eq_iff k x.id).0 f) ∙ e in
          let rest = in_set-kept k selected xs in ground (arith, e, f, same, rest)
      | inr f ↦ rw (e, f) (in_set-kept k selected xs)
    ]
  ]

  ids-All :
      (selected : List Text) (xs : List (TesterStoredProfile P))
      → ((k : Text) → in_set k (ids_of xs) ≡ true → in_set k selected ≡ true)
      → All (λ (p : TesterStoredProfile P). in_set p.id selected ≡ true) xs
  ids-All selected [] h = tt
  ids-All selected (x ∷ xs) h =
      (h x.id (rw (text_eq_refl x.id) refl), ids-All selected xs (λ k e. h k (ground (arith, e))))

  keep-same :
      (f g : TesterStoredProfile P → Bool) (xs : List (TesterStoredProfile P))
      → All (λ p. f p ≡ g p) xs
      → keep f xs ≡ keep g xs
  keep-same f g [] h = refl
  keep-same f g (x ∷ xs) (e, h) = rw (e, keep-same f g xs h) refl

  keep-keep :
      (f g : TesterStoredProfile P → Bool) (xs : List (TesterStoredProfile P))
      → keep f (keep (λ p. not (f p) || g p) xs) ≡ keep (λ p. f p && g p) xs
  keep-keep f g [] = refl
  keep-keep f g (x ∷ xs) = elim (Bool-cases (f x)) [
    | inl e ↦ elim (Bool-cases (g x)) [
      | inl d ↦ rw (e, d, e, keep-keep f g xs) refl
      | inr d ↦ rw (e, d, keep-keep f g xs) refl
    ]
    | inr e ↦ rw (e, e, keep-keep f g xs) refl
  ]

  All-map :
      {A B : TesterStoredProfile P → Type 0} (xs : List (TesterStoredProfile P))
      → ((p : TesterStoredProfile P) → A p → B p)
      → All A xs
      → All B xs
  All-map [] f h = tt
  All-map (x ∷ xs) f (a, h) = (f x a, All-map xs f h)

  -- The selection that a refresh keeps selects the same profiles of the new list.
  refresh-chosen :
      (selected : List Text) (new : List (TesterStoredProfile P))
      → keep (is_selected (set_of (ids_of (keep (is_selected selected) new)) [])) new
        ≡ keep (is_selected selected) new
  refresh-chosen selected new =
      keep-same (is_selected (set_of (ids_of (keep (is_selected selected) new)) []))
        (is_selected selected) new (All-map new same (ids-All (ids_of new) new (λ k e. e)))
    where
      same :
          (p : TesterStoredProfile P)
          → in_set p.id (ids_of new) ≡ true
          → is_selected (set_of (ids_of (keep (is_selected selected) new)) []) p
            ≡ is_selected selected p
      same p e = ground (
        arith,
        e,
        in_set-set_of p.id (ids_of (keep (is_selected selected) new)) [],
        in_set-kept p.id selected new,
      )

  failed_in-map :
      {E : Type 0} (delete : Text → Option E) (ps : List (TesterStoredProfile P))
      → failed_in ps (map (λ (p : TesterStoredProfile P). delete p.id) ps)
        ≡ keep (λ p. is_rejected (delete p.id)) ps
  failed_in-map delete [] = refl
  failed_in-map delete (p ∷ ps) = by_answer (delete p.id) refl (failed_in-map delete ps)
    where
      by_answer :
          (o : Option _)
          → delete p.id ≡ o
          → failed_in ps (map (λ (q : TesterStoredProfile P). delete q.id) ps)
            ≡ keep (λ q. is_rejected (delete q.id)) ps
          → failed_in (p ∷ ps) (map (λ (q : TesterStoredProfile P). delete q.id) (p ∷ ps))
            ≡ keep (λ q. is_rejected (delete q.id)) (p ∷ ps)
      by_answer none e rest = rw (e) rest
      by_answer (some x) e rest = rw (e) (ap (λ qs. p ∷ qs) rest)

  keep-both :
      (f g : TesterStoredProfile P → Bool) (xs : List (TesterStoredProfile P))
      → keep g (keep f xs) ≡ keep (λ p. f p && g p) xs
  keep-both f g [] = refl
  keep-both f g (x ∷ xs) = elim (Bool-cases (f x)) [
    | inl e ↦ rw (e, keep-both f g xs) refl
    | inr e ↦ rw (e) (keep-both f g xs)
  ]

  failed_selected :
      {E : Type 0} (delete : Text → Option E) (list : List (TesterStoredProfile P))
      (s : ProfileList P)
      → s.profiles ≡ some list
      → s.to_delete ≡ some (chosen s)
      → failed_in
          (or_empty s.to_delete)
          (map (λ (p : TesterStoredProfile P). delete p.id) (or_empty s.to_delete))
        ≡ keep (λ p. is_selected s.selected p && is_rejected (delete p.id)) list
  failed_selected delete list s listed asked =
      failed_in-map delete (or_empty s.to_delete)
      ∙ ap (λ ps. keep (λ (p : TesterStoredProfile P). is_rejected (delete p.id)) ps)
          (ap or_empty asked ∙ ap (λ o. keep (is_selected s.selected) (or_empty o)) listed)
      ∙ keep-both (is_selected s.selected) (λ p. is_rejected (delete p.id)) list

-- What the server has after the deletions of the selected profiles.
abbrev pub remaining :
    {P E : Type 0}
    → (Text → Option E)
    → List Text
    → List (TesterStoredProfile P)
    → List (TesterStoredProfile P)
remaining delete selected list =
    keep (λ p. not (is_selected selected p) || is_rejected (delete p.id)) list

module _ {P E : Type 0} (ops : ProfileOps P) (message : E → Text → Text) where
  length-could_not :
      (ps : List (TesterStoredProfile P)) (results : List (Option E))
      → length (could_not ops message ps results) ≡ min 1 (length ps)
  length-could_not [] results = refl
  length-could_not (p ∷ ps) results = omega arith

  -- When the selected profiles are deleted and the server then lists what its deletions left, the
  -- profiles that are selected are those whose deletion was rejected, no id of another profile, listed
  -- or gone, stays in the selection, and the number of errors grows by one exactly if there is one.
  pub handle_delete_lem :
      (delete : Text → Option E) (list : List (TesterStoredProfile P)) (s : ProfileList P)
      → s.profiles ≡ some list
      → s.to_delete ≡ some (chosen s)
      → let kept = keep (λ p. is_selected s.selected p && is_rejected (delete p.id)) list in
        let t = handle_delete ops message delete (answered (remaining delete s.selected list)) s in
        (chosen t ≡ kept)
        × ((id : Text) → in_set id t.selected ≡ in_set id (ids_of kept))
        × (length t.errors ≡ length s.errors + min 1 (length kept))
  unfolding handle_delete
  handle_delete_lem delete list s listed asked = (
    refresh-chosen s.selected (remaining delete s.selected list)
        ∙ keep-keep (is_selected s.selected) (λ p. is_rejected (delete p.id)) list,
    λ id. ground (
      arith,
      in_set-set_of id (ids_of (keep (is_selected s.selected) (remaining delete s.selected list)))
          [],
      ap (λ ps. in_set id (ids_of ps))
          (keep-keep (is_selected s.selected) (λ p. is_rejected (delete p.id)) list),
    ),
    length-append s.errors (could_not ops message rejected results)
        ∙ ap (λ n. length s.errors + n)
            (length-could_not rejected results
              ∙ ap (λ ps. min 1 (length ps)) (failed_selected delete list s listed asked)),
  )
    where
      results : List (Option E)
      results = map (λ (p : TesterStoredProfile P). delete p.id) (or_empty s.to_delete)

      rejected : List (TesterStoredProfile P)
      rejected = failed_in (or_empty s.to_delete) results
