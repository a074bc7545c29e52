-- ===== src/Tester/Defaults/Normalize.antt =====
-- What `normalizeProfile` gives.
use fru_lab.Prelude.{◌≡◌, refl, sym, Bool-cases, inl, inr}
use mathlib.Core.Path.{subst}
use fru_lab.Js.Text.{Text, codes}
use fru_lab.Js.Numbers.{Numbers}
use fru_lab.Tester.Defaults.{
  Json, undefined, null, boolean, number, text, object, Fields, lookup, fields_of, merge_known,
  member, is_number, replace_in, replace_at, default_tester_profile, fix_scale, fix_traffic,
  normalize_profile,
}
use fru_lab.Tester.Defaults.Merge.{
  Conforms, merge_known-Conforms, lookup-Conforms, replace-Conforms,
}

module _ {N : Type 0} where
  member-Conforms :
      (k : Text) (defaults : Fields N) (saved : Json N)
      → Conforms (object defaults) saved
      → Conforms (lookup k defaults) (member k saved)
  member-Conforms k defaults (object entries) c = lookup-Conforms k defaults entries c
  member-Conforms k defaults undefined c = elim c [ ]
  member-Conforms k defaults null c = elim c [ ]
  member-Conforms k defaults (boolean b) c = elim c [ ]
  member-Conforms k defaults (number n) c = elim c [ ]
  member-Conforms k defaults (text s) c = elim c [ ]

  replace_in-Conforms :
      (k : Text) (x : Json N) (defaults : Fields N) (saved : Json N)
      → Conforms (object defaults) saved
      → Conforms (lookup k defaults) x
      → Conforms (object defaults) (replace_in k x saved)
  replace_in-Conforms k x defaults (object entries) c h = replace-Conforms k x defaults entries c h
  replace_in-Conforms k x defaults undefined c h = elim c [ ]
  replace_in-Conforms k x defaults null c h = elim c [ ]
  replace_in-Conforms k x defaults (boolean b) c h = elim c [ ]
  replace_in-Conforms k x defaults (number n) c h = elim c [ ]
  replace_in-Conforms k x defaults (text s) c h = elim c [ ]

  replace_at-Conforms :
      (a k : Text) (x : Json N) (defaults inner : Fields N) (saved : Json N)
      → lookup a defaults ≡ object inner
      → Conforms (object defaults) saved
      → Conforms (lookup k inner) x
      → Conforms (object defaults) (replace_at a k x saved)
  replace_at-Conforms a k x defaults inner saved at_a c h =
      let part =
        subst (λ d. Conforms d (member a saved)) at_a (member-Conforms a defaults saved c) in
      let made = replace_in-Conforms k x inner (member a saved) part h in
      replace_in-Conforms a (replace_in k x (member a saved)) defaults saved c
        (subst (λ d. Conforms d (replace_in k x (member a saved))) (sym at_a) made)

module _ {N : Type 0} (js : Numbers N) where
  defaults : Fields N
  defaults = fields_of (default_tester_profile js)

  scale_part : Fields N
  scale_part = fields_of (member (codes "scale") (default_tester_profile js))

  traffic_part : Fields N
  traffic_part = fields_of (member (codes "traffic") (default_tester_profile js))

  fix_scale-Conforms :
      (saved p : Json N)
      → Conforms (default_tester_profile js) p
      → Conforms (default_tester_profile js) (fix_scale js saved p)
  unfolding defaults scale_part
  fix_scale-Conforms saved p c =
      elim (Bool-cases
        (is_number (member (codes "throughputUeCount") (member (codes "scale") saved)))) [
          | inl e ↦ rw (e, fix_scale) c
          | inr e ↦
              let part = member-Conforms (codes "scale") defaults p c in
              let count =
                member-Conforms (codes "ueCount") scale_part (member (codes "scale") p) part in
              rw (e, fix_scale)
                (replace_at-Conforms (codes "scale") (codes "throughputUeCount")
                  (member (codes "ueCount") (member (codes "scale") p)) defaults scale_part p refl c
                  count)
        ]

  -- A normalised profile has exactly the keys of the default profile, in its order, down to values
  -- of the same types, whatever was saved.
  pub normalize_profile-Conforms :
      (saved : Json N) → Conforms (default_tester_profile js) (normalize_profile js saved)
  unfolding normalize_profile defaults traffic_part
  normalize_profile-Conforms saved =
      let p = merge_known (default_tester_profile js) saved in
      let q = fix_scale js saved p in
      let c = fix_scale-Conforms saved p (merge_known-Conforms (default_tester_profile js) saved) in
      let traffic = member (codes "traffic") saved in
      let size = member (codes "packetSize") traffic in
      elim (Bool-cases (is_number size)) [
        | inr e ↦ rw (e, fix_traffic) c
        | inl e ↦ elim (Bool-cases (is_number (member (codes "ulPacketSize") traffic))) [
          | inl f ↦ rw (e, f, fix_traffic) c
          | inr f ↦
              rw (e, f, fix_traffic)
                (replace_at-Conforms (codes "traffic") (codes "dlPacketSize") size defaults
                  traffic_part (replace_at (codes "traffic") (codes "ulPacketSize") size q) refl
                  (replace_at-Conforms (codes "traffic") (codes "ulPacketSize") size defaults
                    traffic_part q refl c e)
                  e)
        ]
      ]
