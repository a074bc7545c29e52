-- ===== src/Tester/Fields.antt =====
-- `setPath`, `getPath` and `handleChange` of web/frontend/src/page/tester/TesterSetupPage.tsx, on a
-- profile as JSON. A path names a field that the profile has.
use fru_lab.Prelude.{
  ◌≡◌, refl, Bool, true, false, ◌&&◌, ◌||◌, List, [], ◌∷◌, if◌then◌else◌, Bool-cases, inl, inr,
}
use fru_lab.Js.Text.{Text, codes, text_eq}
use fru_lab.Js.Split.{split}
use fru_lab.Js.Numbers.{Numbers}
use fru_lab.Tester.Defaults.{
  Json, number, Fields, no_fields, field, lookup, fields_of, member, replace, replace_in,
  replace_at,
}

module _ {N : Type 0} where
  -- The loop of `setPath` over the keys; `split` gives at least one.
  abbrev pub set_keys : List Text → Json N → Json N → Json N
  set_keys [] w v = v
  set_keys (k ∷ []) w v = replace_in k w v
  set_keys (k ∷ j ∷ ks) w v = replace_in k (set_keys (j ∷ ks) w (member k v)) v

  abbrev pub get_keys : List Text → Json N → Json N
  get_keys [] v = v
  get_keys (k ∷ ks) v = get_keys ks (member k v)

  unfoldable pub set_path : Json N → Text → Json N → Json N
  set_path profile path w = set_keys (split b'.' path) w profile

  unfoldable pub get_path : Json N → Text → Json N
  get_path profile path = get_keys (split b'.' path) profile

  abbrev pub has_key : Text → Fields N → Bool
  has_key k no_fields = false
  has_key k (field j v rest) = text_eq k j || has_key k rest

  -- Each key of a path is there, and there is at least one.
  abbrev pub IsPath : List Text → Json N → Type 0
  IsPath [] v = ⊥
  IsPath (k ∷ []) v = has_key k (fields_of v) ≡ true
  IsPath (k ∷ j ∷ ks) v = (has_key k (fields_of v) ≡ true) × IsPath (j ∷ ks) (member k v)

  lookup-replace :
      (k : Text) (w : Json N) (o : Fields N) → has_key k o ≡ true → lookup k (replace k w o) ≡ w
  lookup-replace k w no_fields h = absurd cc
  lookup-replace k w (field j v rest) h = elim (Bool-cases (text_eq k j)) [
    | inl e ↦ rw (e) (rw e refl)
    | inr e ↦ rw (e) (rw e (lookup-replace k w rest (rw e at h)))
  ]

  get_keys-set_keys :
      (ks : List Text) (w v : Json N) → IsPath ks v → get_keys ks (set_keys ks w v) ≡ w
  get_keys-set_keys [] w v h = elim h [ ]
  get_keys-set_keys (k ∷ []) w v h = lookup-replace k w (fields_of v) h
  get_keys-set_keys (k ∷ j ∷ ks) w v (h, later) =
      rw (lookup-replace k (set_keys (j ∷ ks) w (member k v)) (fields_of v) h)
        (get_keys-set_keys (j ∷ ks) w (member k v) later)

  -- A field holds the value that was set at its path.
  pub get_path-set_path :
      (profile : Json N) (path : Text) (w : Json N)
      → IsPath (split b'.' path) profile
      → get_path (set_path profile path w) path ≡ w
  unfolding get_path set_path
  get_path-set_path profile path w h = get_keys-set_keys (split b'.' path) w profile h

module _ {N : Type 0} (js : Numbers N) where
  -- `a === b`, of two numbers.
  abbrev pub same_number : Json N → Json N → Bool
  same_number (number a) (number b) = js.same a b
  same_number _ _ = false

  unfoldable pub handle_change : Text → Json N → Json N → Json N
  handle_change path w prev =
      let next = set_path prev path w in
      let scale = member (codes "scale") prev in
      if text_eq path (codes "scale.ueCount")
        && same_number (member (codes "throughputUeCount") scale) (member (codes "ueCount") scale)
      then replace_at (codes "scale") (codes "throughputUeCount")
          (member (codes "ueCount") (member (codes "scale") next)) next
      else next
