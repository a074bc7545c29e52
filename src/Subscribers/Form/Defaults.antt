-- ===== src/Subscribers/Form/Defaults.antt =====
-- Whether a slice is a default slice, through saving and loading.
use fru_lab.Prelude.{
  ℕ, suc, ◌≡◌, ◌<◌, refl, ap, sym, true, false, some, List, [], ◌∷◌, arith, length, length-append,
  keep, map, All, All-append, Bool-cases, Option-cases, inl, inr,
}
use mathlib.Core.Path.{subst}
use fru_lab.Js.Text.{Text, text_eq}
use fru_lab.Js.Numbers.{Numbers}
use fru_lab.Js.Objects.{Object, put, get, set, values}
use fru_lab.Subscribers.Webconsole.{
  Subscription, SessionManagementSubscriptionData, DnnConfiguration,
}
use fru_lab.Subscribers.Form.{SessionFormRow, SubscriberFormState, make_session_row}
use fru_lab.Subscribers.Form.Save.{
  Loop, SliceAccumulator, empty_loop, slice_map_key, slice_for, set_slice, add_session,
  add_sessions, nssai_of, snssai_key, to_subscription,
}
use fru_lab.Subscribers.Form.Slices.{slice_map-add_session}
use fru_lab.Subscribers.Form.Load.{
  or_one_row, load_slices, load_slice, load_session, default_snssai_keys, from_subscription,
  session_of, text_or,
}

some-eq : {V : Type 0} {v w : V} → some v ≡ some w → v ≡ w
some-eq e = cc

module _ {V : Type 0} (P : V → Type 0) where
  set-All :
      (k : Text) (v : V) (m : List (Text × V))
      → P v
      → All (λ (e : Text × V). P e.1) m
      → All (λ (e : Text × V). P e.1) (set k v m)
  unfolding set
  set-All k v [] p h = (p, tt)
  set-All k v ((j, w) ∷ m) p (q, h) = elim (Bool-cases (text_eq k j)) [
    | inl e ↦ rw e (p, h)
    | inr e ↦ rw e (q, set-All k v m p h)
  ]

  get-All :
      (k : Text) (v : V) (m : List (Text × V))
      → All (λ (e : Text × V). P e.1) m
      → get k m ≡ some v
      → P v
  unfolding get
  get-All k v [] h e = absurd cc
  get-All k v ((j, w) ∷ m) (q, h) e = elim (Bool-cases (text_eq k j)) [
    | inl t ↦ subst P (some-eq (rw t at e)) q
    | inr t ↦ get-All k v m h (rw t at e)
  ]

length-put_pos : {V : Type 0} (k : Text) (v : V) (o : Object V) → 0 < length (put k v o)
unfolding put
length-put_pos k v [] = omega arith
length-put_pos k v ((j, w) ∷ o) = ground arith

length-set_pos : {V : Type 0} (k : Text) (v : V) (m : List (Text × V)) → 0 < length (set k v m)
unfolding set
length-set_pos k v [] = omega arith
length-set_pos k v ((j, w) ∷ o) = ground arith

module _ {N : Type 0} (js : Numbers N) where
  -- A slice that is not a default one, and has a DNN.
  IsOrdinary : SliceAccumulator N → Type 0
  IsOrdinary slice = (slice.is_default_slice ≡ false) × (0 < length slice.dnn_configurations)

  OrdinaryMap : List (Text × SliceAccumulator N) → Type 0
  OrdinaryMap = All (λ (e : Text × SliceAccumulator N). IsOrdinary e.1)

  slice_for-ordinary :
      (row : SessionFormRow) (m : List (Text × SliceAccumulator N))
      → row.is_default_slice ≡ false
      → OrdinaryMap m
      → (slice_for js row m).is_default_slice ≡ false
  unfolding slice_for IsOrdinary OrdinaryMap
  slice_for-ordinary row m h o = elim (Option-cases (get (slice_map_key row) m)) [
    | inl e ↦ rw (e, slice_for) h
    | inr (slice, e) ↦ rw (e, slice_for) (get-All IsOrdinary (slice_map_key row) slice m o e).0
  ]

  set_slice-ordinary :
      (row : SessionFormRow) (m : List (Text × SliceAccumulator N))
      → row.is_default_slice ≡ false
      → OrdinaryMap m
      → OrdinaryMap (set_slice js row m)
  unfolding set_slice IsOrdinary OrdinaryMap
  set_slice-ordinary row m h o =
      set-All IsOrdinary (slice_map_key row) _ m
        (slice_for-ordinary row m h o, length-put_pos row.dnn _ _) o

  add_sessions-ordinary :
      (rows : List SessionFormRow) (s : Loop N)
      → All (λ (r : SessionFormRow). r.is_default_slice ≡ false) rows
      → OrdinaryMap s.slice_map
      → OrdinaryMap (add_sessions js rows s).slice_map
  unfolding add_sessions
  add_sessions-ordinary [] s h o = o
  add_sessions-ordinary (row ∷ rows) s (hr, h) o =
      add_sessions-ordinary rows (add_session js row s) h (
        subst OrdinaryMap (sym (slice_map-add_session js row s))
          (set_slice-ordinary row s.slice_map hr o))

  no_defaults :
      (m : List (Text × SliceAccumulator N))
      → OrdinaryMap m
      → keep (λ (s : SliceAccumulator N). s.is_default_slice) (values m) ≡ []
  unfolding IsOrdinary OrdinaryMap
  no_defaults [] o = refl
  no_defaults ((k, slice) ∷ m) ((d, _), o) = rw d (no_defaults m o)

  -- What is saved of the slices.
  abbrev saved : SliceAccumulator N → SessionManagementSubscriptionData N
  saved slice = record {
    single_nssai = nssai_of js slice;
    dnn_configurations = some slice.dnn_configurations;
  }

  module _ (sub : Subscription N) where
    abbrev AllDefault : List SessionFormRow → Type 0
    AllDefault = All (λ (r : SessionFormRow). r.is_default_slice ≡ true)

    load_slice-AllDefault :
        (sst sd : Text) (entries : Object (DnnConfiguration N)) (next : ℕ)
        → default_snssai_keys js sub ≡ []
        → AllDefault (load_slice js sub sst sd entries next).1
          × (length (load_slice js sub sst sd entries next).1 ≡ length entries)
    unfolding load_slice load_session make_session_row session_of
    load_slice-AllDefault sst sd [] next e = (tt, refl)
    load_slice-AllDefault sst sd ((dnn, config) ∷ entries) next e =
        let rest =
          load_slice-AllDefault sst sd entries (load_session js sub sst sd (dnn, config) next).0
            e in
        ((rw e refl, rest.0), ap suc rest.1)

    load_slices-AllDefault :
        (slices : List (SessionManagementSubscriptionData N)) (next : ℕ)
        → default_snssai_keys js sub ≡ []
        → AllDefault (load_slices js sub slices next).1
    unfolding load_slices
    load_slices-AllDefault [] next e = tt
    load_slices-AllDefault (slice ∷ slices) next e =
        All-append (λ (r : SessionFormRow). r.is_default_slice ≡ true) _ _
          (load_slice-AllDefault _ _ _ next e).0 (load_slices-AllDefault slices _ e)

    length-load_slices_pos :
        (slices : List (SliceAccumulator N)) (next : ℕ)
        → default_snssai_keys js sub ≡ []
        → All IsOrdinary slices
        → 0 < length slices
        → 0 < length (load_slices js sub (map saved slices) next).1
    unfolding load_slices IsOrdinary
    length-load_slices_pos [] next e o h = h
    length-load_slices_pos (slice ∷ slices) next e ((_, more), o) h =
        let (_, same) =
          load_slice-AllDefault (js.show (nssai_of js slice).sst) slice.sd slice.dnn_configurations
            next e in
        omega (
          arith,
          more,
          same,
          length-append
              (load_slice js sub (js.show (nssai_of js slice).sst) slice.sd slice.dnn_configurations
                next).1
              (load_slices js sub (map saved slices)
                (load_slice js sub (js.show (nssai_of js slice).sst) slice.sd
                  slice.dnn_configurations next).0).1,
        )

    or_one_row-AllDefault :
        (loaded : ℕ × List SessionFormRow)
        → 0 < length loaded.1
        → AllDefault loaded.1
        → AllDefault (or_one_row loaded).1
    unfolding or_one_row
    or_one_row-AllDefault (next, []) h d = elim h [ ]
    or_one_row-AllDefault (next, row ∷ rows) h d = d

  length-add_session_pos :
      (row : SessionFormRow) (s : Loop N) → 0 < length (add_session js row s).slice_map
  unfolding set_slice
  length-add_session_pos row s =
      subst (λ m. 0 < length m) (sym (slice_map-add_session js row s))
        (length-set_pos (slice_map_key row) _ s.slice_map)

  length-add_sessions_pos :
      (rows : List SessionFormRow) (s : Loop N)
      → 0 < length s.slice_map
      → 0 < length (add_sessions js rows s).slice_map
  unfolding add_sessions
  length-add_sessions_pos [] s h = h
  length-add_sessions_pos (row ∷ rows) s h =
      length-add_sessions_pos rows (add_session js row s) (length-add_session_pos row s)

  slices_pos :
      (rows : List SessionFormRow)
      → 0 < length rows
      → 0 < length (add_sessions js rows empty_loop).slice_map
  unfolding add_sessions
  slices_pos [] h = elim h [ ]
  slices_pos (row ∷ rows) h =
      length-add_sessions_pos rows (add_session js row empty_loop)
        (length-add_session_pos row empty_loop)

  values-All :
      (m : List (Text × SliceAccumulator N))
      → OrdinaryMap m
      → All IsOrdinary (values m) × (length (values m) ≡ length m)
  unfolding OrdinaryMap
  values-All [] o = (tt, refl)
  values-All ((k, slice) ∷ m) (p, o) = let rest = values-All m o in ((p, rest.0), ap suc rest.1)

  -- A form with sessions, of which none is of a default slice, loads after saving with every
  -- session of a default slice.
  pub from-to_no_default :
      (form : SubscriberFormState) (next : ℕ)
      → 0 < length form.sessions
      → All (λ (r : SessionFormRow). r.is_default_slice ≡ false) form.sessions
      → All
          (λ (r : SessionFormRow). r.is_default_slice ≡ true)
          (from_subscription js (to_subscription js form) next).1.sessions
  unfolding from_subscription to_subscription default_snssai_keys OrdinaryMap
  from-to_no_default form next h none_default =
      let sub = to_subscription js form in
      let slices = values (add_sessions js form.sessions empty_loop).slice_map in
      let o = add_sessions-ordinary form.sessions empty_loop none_default tt in
      let (ordinary, same) = values-All (add_sessions js form.sessions empty_loop).slice_map o in
      let no_keys : default_snssai_keys js sub ≡ [] =
        ap
          (λ (l : List (SliceAccumulator N)).
            map (λ n. snssai_key js (js.show n.sst) (text_or n.sd)) (map (nssai_of js) l))
          (no_defaults (add_sessions js form.sessions empty_loop).slice_map o) in
      or_one_row-AllDefault sub (load_slices js sub (map saved slices) next)
        (length-load_slices_pos sub slices next no_keys ordinary
          (omega (arith, same, slices_pos form.sessions h)))
        (load_slices-AllDefault sub (map saved slices) next no_keys)
