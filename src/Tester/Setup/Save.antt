-- ===== src/Tester/Setup/Save.antt =====
-- Saving as a new profile keeps the names apart, and takes the name that it proposes.
use fru_lab.Prelude.{
  ◌≡◌, ◌≢◌, refl, sym, ap, ◌∙◌, inl, inr, Bool, true, false, not, Option, none, some, List, [], ◌∷◌,
  ◌++◌, keep, All, All-append, Bool-cases,
}
use mathlib.Core.Path.{subst}
use fru_lab.Js.Text.{Text, codes, text_eq, text_eq_iff, is_empty, trim, trim_start}
use fru_lab.Js.Trim.{IsTrimmed, trim-IsTrimmed, trim_idem}
use fru_lab.Tester.Profiles.Names.{free_name_lem, free_name_not_blank}
use fru_lab.Dashboard.Types.{Answer, answered, failed}
use fru_lab.Tester.Profiles.{
  TesterStoredProfile, ProfileOps, ProfileLaws, name_key, name_owner, before, by_name,
  insert_by_name,
}
use fru_lab.Tester.Setup.{
  Setup, SetupApi, run_called, emit, SaveFor, for_save, for_start, list_of, put_stored, is_refused,
  is_owned, proposed, send_create,
}
use fru_lab.Tester.Setup.Handlers.{run_id, on_created, on_started, save_new, handle_rename, start}

module _ {P : Type 0} (ops : ProfileOps P) where
  abbrev pub key : TesterStoredProfile P → Text
  key p = name_key ops (ops.name p.profile)

  abbrev pub IsApart : Text → List (TesterStoredProfile P) → Type 0
  IsApart k = All (λ q. key q ≢ k)

  -- No two saved profiles have the same name, but for case and surrounding spaces.
  abbrev pub AreDistinct : List (TesterStoredProfile P) → Type 0
  AreDistinct [] = Unit
  AreDistinct (p ∷ ps) = IsApart (key p) ps × AreDistinct ps

  IsApart-keep :
      (k : Text) (f : TesterStoredProfile P → Bool) (list : List (TesterStoredProfile P))
      → IsApart k list
      → IsApart k (keep f list)
  IsApart-keep k f [] h = tt
  IsApart-keep k f (p ∷ list) (ne, h) = elim (Bool-cases (f p)) [
    | inl e ↦ rw (e) (ne, IsApart-keep k f list h)
    | inr e ↦ rw (e) (IsApart-keep k f list h)
  ]

  AreDistinct-keep :
      (f : TesterStoredProfile P → Bool) (list : List (TesterStoredProfile P))
      → AreDistinct list
      → AreDistinct (keep f list)
  AreDistinct-keep f [] h = tt
  AreDistinct-keep f (p ∷ list) (apart, h) = elim (Bool-cases (f p)) [
    | inl e ↦ rw (e) (IsApart-keep (key p) f list apart, AreDistinct-keep f list h)
    | inr e ↦ rw (e) (AreDistinct-keep f list h)
  ]

  AreDistinct-append :
      (p : TesterStoredProfile P) (list : List (TesterStoredProfile P))
      → AreDistinct list
      → IsApart (key p) list
      → AreDistinct (list ++ p ∷ [])
  AreDistinct-append p [] h apart = (tt, tt)
  AreDistinct-append p (q ∷ list) (here, h) (ne, apart) = (
    All-append (λ r. key r ≢ key q) list (p ∷ []) here ((λ e. ne (sym e)), tt),
    AreDistinct-append p list h apart,
  )

  IsApart-insert :
      (k : Text) (p : TesterStoredProfile P) (list : List (TesterStoredProfile P))
      → key p ≢ k
      → IsApart k list
      → IsApart k (insert_by_name ops p list)
  unfolding insert_by_name
  IsApart-insert k p [] ne h = (ne, tt)
  IsApart-insert k p (q ∷ list) ne (here, h) = elim (Bool-cases (before ops p q)) [
    | inl e ↦ rw (e) (ne, (here, h))
    | inr e ↦ rw (e) (here, IsApart-insert k p list ne h)
  ]

  AreDistinct-insert :
      (p : TesterStoredProfile P) (list : List (TesterStoredProfile P))
      → AreDistinct list
      → IsApart (key p) list
      → AreDistinct (insert_by_name ops p list)
  unfolding insert_by_name
  AreDistinct-insert p [] h apart = (tt, tt)
  AreDistinct-insert p (q ∷ list) (here, h) (ne, apart) = elim (Bool-cases (before ops p q)) [
    | inl e ↦ rw (e) ((ne, apart), (here, h))
    | inr e ↦
        rw (e)
          (IsApart-insert (key q) p list (λ f. ne (sym f)) here, AreDistinct-insert p list h apart)
  ]

  IsApart-by_name :
      (k : Text) (list : List (TesterStoredProfile P))
      → IsApart k list
      → IsApart k (by_name ops list)
  unfolding by_name
  IsApart-by_name k [] h = tt
  IsApart-by_name k (p ∷ list) (ne, h) =
      IsApart-insert k p (by_name ops list) ne (IsApart-by_name k list h)

  AreDistinct-by_name :
      (list : List (TesterStoredProfile P)) → AreDistinct list → AreDistinct (by_name ops list)
  unfolding by_name
  AreDistinct-by_name [] h = tt
  AreDistinct-by_name (p ∷ list) (apart, h) =
      AreDistinct-insert p (by_name ops list) (AreDistinct-by_name list h)
        (IsApart-by_name (key p) list apart)

  -- A name without an owner is apart from the saved ones.
  IsApart-of_name_owner :
      (name : Text) (list : List (TesterStoredProfile P))
      → name_owner ops list name none ≡ none
      → IsApart (name_key ops name) list
  IsApart-of_name_owner name [] h = tt
  IsApart-of_name_owner name (p ∷ list) h =
      elim (Bool-cases (text_eq (key p) (name_key ops name))) [
        | inl e ↦ absurd (let h₁ = rw (e) at h in cc)
        | inr e ↦ (
          (λ same. let f = (text_eq_iff (key p) (name_key ops name)).1 same in cc),
          IsApart-of_name_owner name list (rw (e) at h),
        )
      ]

  AreDistinct-put_stored :
      (storage : Bool) (p : TesterStoredProfile P) (s : Setup P)
      → AreDistinct (list_of s)
      → IsApart (key p) (list_of s)
      → AreDistinct (list_of (put_stored ops storage p s))
  AreDistinct-put_stored storage p s h apart =
      let other = λ (x : TesterStoredProfile P). not (text_eq x.id p.id) in
      AreDistinct-by_name (keep other (list_of s) ++ p ∷ []) (
        AreDistinct-append p (keep other (list_of s)) (AreDistinct-keep other (list_of s) h)
          (IsApart-keep (key p) other (list_of s) apart))

  not_refused :
      (storage : Bool) (name : Text) (s : Setup P)
      → is_refused ops storage name s ≡ false
      → name_owner ops (list_of s) name none ≡ none
  not_refused storage name s h = elim (Bool-cases (is_empty (trim name))) [
    | inl e ↦ absurd (let h₁ = rw (e) at h in cc)
    | inr e ↦ owner (name_owner ops (list_of s) name none) (rw (e) at h)
  ]
    where
      owner : (o : Option (TesterStoredProfile P)) → is_owned o ≡ false → o ≡ none
      owner none _ = refl
      owner (some _) f = cc

module _ {P E : Type 0} (ops : ProfileOps P) (laws : ProfileLaws ops) (storage : Bool)
    (api : SetupApi P E) where
  -- The server stores a new profile under the name that it was sent.
  abbrev pub KeepsName : Type 0
  KeepsName =
      (p : P) (q : TesterStoredProfile P)
      → api.create p ≡ answered q
      → key ops q ≡ name_key ops (ops.name p)

  list-start : (p : P) (s : Setup P) → list_of (start ops storage api p s) ≡ list_of s
  unfolding start
  list-start p s =
      elim (api.run_start (run_id ops storage api p) (ops.for_tester p))
        as (λ o.
          list_of (
            on_started ops storage api (run_id ops storage api p) o
              (emit (run_called (run_id ops storage api p) (ops.for_tester p)) s))
          ≡ list_of s) [ none ↦ refl | some _ ↦ refl ]

  AreDistinct-on_created :
      (name : Text) (next : SaveFor) (a : Answer E (TesterStoredProfile P)) (s : Setup P)
      → ((q : TesterStoredProfile P) → a ≡ answered q → IsApart ops (key ops q) (list_of s))
      → AreDistinct ops (list_of s)
      → AreDistinct ops (list_of (on_created ops storage api name next a s))
  unfolding on_created
  AreDistinct-on_created name for_save (failed e) s apart h = h
  AreDistinct-on_created name for_start (failed e) s apart h = h
  AreDistinct-on_created name for_save (answered q) s apart h =
      AreDistinct-put_stored ops storage q s h (apart q refl)
  AreDistinct-on_created name for_start (answered q) s apart h =
      subst (AreDistinct ops)
        (sym (list-start (ops.normalize q.profile) (put_stored ops storage q s)))
        (AreDistinct-put_stored ops storage q s h (apart q refl))

  -- Saving a new profile leaves no two saved profiles with the same name, whatever the server
  -- answers, if there were none before and the server keeps the name that it is sent.
  pub save_new-AreDistinct :
      KeepsName
      → (name : Text) (next : SaveFor) (s : Setup P) → AreDistinct ops (list_of s)
      → AreDistinct ops (list_of (save_new ops storage api name next s))
  unfolding save_new
  save_new-AreDistinct keeps name next s h = elim (Bool-cases (is_refused ops storage name s)) [
    | inl e ↦ rw (e, save_new) h
    | inr e ↦
        let sent = ops.with_name (trim name) s.profile in
        let free = IsApart-of_name_owner ops name (list_of s) (not_refused ops storage name s e) in
        let same : name_key ops (ops.name sent) ≡ name_key ops name =
          ap (name_key ops) (laws.name-with_name (trim name) s.profile)
          ∙ ap ops.to_lower_case (trim_idem name) in
        rw (e, save_new)
          (AreDistinct-on_created name next (api.create sent) (send_create ops storage name s)
            (λ q made. subst (λ k. IsApart ops k (list_of s)) (sym (keeps sent q made ∙ same)) free)
            h)
  ]

  is_empty-copy :
      (t : Text) → is_empty t ≡ false → IsTrimmed t → is_empty (trim (t ++ codes " copy")) ≡ false
  unfolding trim trim_start
  is_empty-copy [] e h = absurd cc
  is_empty-copy (c ∷ t) e h = rw (h) (rw (h) refl)

  proposed_not_blank :
      (name : Text) (s : Setup P) → is_empty (trim (proposed ops storage name s)) ≡ false
  proposed_not_blank name s = elim (Bool-cases (is_empty (trim name))) [
    | inl e ↦ rw (e) (
        free_name_not_blank ops laws.case_mapping (list_of s) (codes "profile")
          (unfold trim trim_start in refl))
    | inr e ↦ rw (e) (
        free_name_not_blank ops laws.case_mapping (list_of s) (trim name ++ codes " copy")
          (is_empty-copy (trim name) e (trim-IsTrimmed name)))
  ]

  proposed-is_owned :
      (name : Text) (s : Setup P)
      → name_owner ops (list_of s) (proposed ops storage name s) none ≡ none
  proposed-is_owned name s = (free_name_lem ops laws.case_mapping (list_of s) _).0

  proposed_taken :
      (name : Text) (s : Setup P) → is_refused ops storage (proposed ops storage name s) s ≡ false
  proposed_taken name s = rw (proposed_not_blank name s, proposed-is_owned name s) refl

  -- A name that is refused leads to a proposal; confirming it as it is sends the profile to the
  -- server under the proposed name.
  pub handle_rename-save_new :
      (name : Text) (next : SaveFor) (s : Setup P)
      → is_refused ops storage name s ≡ true
      → handle_rename ops storage api (save_new ops storage api name next s)
        ≡ on_created ops storage api
            (proposed ops storage name s)
            next
            (api.create (ops.with_name (trim (proposed ops storage name s)) s.profile))
            (send_create ops storage (proposed ops storage name s) (record s { rename = none }))
  unfolding save_new handle_rename
  handle_rename-save_new name next s h =
      let taken = proposed_taken name s in rw (h, save_new) (rw (taken, save_new) refl)
