-- ===== src/Tester/Profiles/OfJson.antt =====
-- Profiles as JSON fill the interface of the pages: the spread `{ ...profile, name }`,
-- `normalizeProfile` and `forTester` of web/frontend/src/page/tester/testerDefaults.ts.
-- `JSON.stringify`, `toLowerCase` and `localeCompare` are parameters.
use fru_lab.Prelude.{
  ℕ, ◌+◌, ◌≡◌, refl, ap, ◌∙◌, inl, inr, Bool, true, [], ◌∷◌, ◌++◌, leb, ◌&&◌, arith, if◌then◌else◌,
  map, map-append, All, Bool-cases,
}
use fru_lab.Js.Text.{Text, codes, text_eq, text_eq_refl, is_empty}
use fru_lab.Js.Numbers.{Numbers}
use fru_lab.Tester.Defaults.{
  Json, undefined, null, boolean, number, text, object, Fields, no_fields, field, lookup, fields_of,
  member, replace_at, default_tester_profile, normalize_profile,
}
use fru_lab.Tester.Profiles.{ProfileOps, ProfileLaws, IsCaseMapping, is_plain}

module _ {N : Type 0} where
  -- A field of text.
  abbrev pub text_of : Json N → Text
  text_of (text s) = s
  text_of undefined = []
  text_of null = []
  text_of (boolean b) = []
  text_of (number n) = []
  text_of (object entries) = []

  -- `{ ...o, [k]: w }`.
  unfoldable pub put_field : Text → Json N → Fields N → Fields N
  put_field k w no_fields = field k w no_fields
  put_field k w (field j v rest) =
      if text_eq k j then field j w rest else field j v (put_field k w rest)

  -- `const { [k]: _, ...rest } = o`.
  unfoldable pub drop_field : Text → Fields N → Fields N
  drop_field k no_fields = no_fields
  drop_field k (field j v rest) = if text_eq k j then rest else field j v (drop_field k rest)

  lookup-put_field : (k : Text) (w : Json N) (o : Fields N) → lookup k (put_field k w o) ≡ w
  unfolding put_field
  lookup-put_field k w no_fields = rw (text_eq_refl k) refl
  lookup-put_field k w (field j v rest) = elim (Bool-cases (text_eq k j)) [
    | inl e ↦ rw (e) (rw (e) refl)
    | inr e ↦ rw (e) (rw (e) (lookup-put_field k w rest))
  ]

module _ {N : Type 0} (js : Numbers N) where
  -- A limit of 0, or none, is not sent.
  abbrev pub drop_falsy : Text → Json N → Fields N → Fields N
  drop_falsy k (number n) o = if js.is_truthy n then o else drop_field k o
  drop_falsy k undefined o = drop_field k o
  drop_falsy k null o = drop_field k o
  drop_falsy k (boolean b) o = if b then o else drop_field k o
  drop_falsy k (text s) o = if is_empty s then drop_field k o else o
  drop_falsy k (object entries) o = o

  abbrev pub without_limits : Fields N → Fields N
  without_limits n2 =
      drop_falsy (codes "maxInFlight") (lookup (codes "maxInFlight") n2)
        (drop_falsy (codes "ratePerSec") (lookup (codes "ratePerSec") n2) n2)

  unfoldable pub for_tester_json : Json N → Json N
  for_tester_json p =
      replace_at (codes "rates") (codes "n2")
        (object (without_limits (fields_of (member (codes "n2") (member (codes "rates") p)))))
        (object (drop_field (codes "testerId") (fields_of p)))

  abbrev pub json_profiles :
      (Json N → Text) → (Text → Text) → (Text → Text → Bool) → ProfileOps (Json N)
  json_profiles stringify to_lower_case locale_le = record {
    name = λ p. text_of (member (codes "name") p);
    with_name = λ n p. object (put_field (codes "name") (text n) (fields_of p));
    tester_id = λ p. text_of (member (codes "testerId") p);
    normalize = normalize_profile js;
    stringify = stringify;
    for_tester = for_tester_json;
    default_profile = default_tester_profile js;
    to_lower_case = to_lower_case;
    locale_le = locale_le;
  }

  pub json_profiles-ProfileLaws :
      (stringify : Json N → Text) (lower : Text → Text) (locale_le : Text → Text → Bool)
      → IsCaseMapping lower
      → ProfileLaws (json_profiles stringify lower locale_le)
  json_profiles-ProfileLaws stringify lower locale_le mapping = record {
    name-with_name = λ n p. ap text_of (lookup-put_field (codes "name") (text n) (fields_of p));
    case_mapping = mapping;
  }

-- `toLowerCase` of the letters A to Z, a case mapping that can be run.
abbrev pub lower_letter : ℕ → ℕ
lower_letter c = if leb b'A' c && leb c b'Z' then c + 32 else c

abbrev pub ascii_lower : Text → Text
ascii_lower = map lower_letter

plain_letter : (c : ℕ) → is_plain c ≡ true → lower_letter c ≡ c
plain_letter c h = ground arith

plain_text : (d : Text) → All (λ c. is_plain c ≡ true) d → ascii_lower d ≡ d
plain_text [] h = refl
plain_text (c ∷ d) (p, h) = rw (plain_letter c p, plain_text d h) refl

pub ascii_lower-IsCaseMapping : IsCaseMapping ascii_lower
ascii_lower-IsCaseMapping = record {
  keeps_plain =
      λ s d h. map-append lower_letter s d ∙ ap (λ r. ascii_lower s ++ r) (plain_text d h);
}
