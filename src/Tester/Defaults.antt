-- ===== src/Tester/Defaults.antt =====
-- web/frontend/src/page/tester/testerDefaults.ts: completing a saved profile. A profile is JSON, as
-- it was saved. An array counts as the object of its indices; its `length`, which no default has,
-- is not a key of it.
pub mod Merge
pub mod Normalize
mod Tests
use fru_lab.Prelude.{ℕ, Bool, true, false, ◌&&◌, not, List, [], ◌∷◌, if◌then◌else◌}
use fru_lab.Js.Text.{Text, codes, text_eq}
use fru_lab.Js.Numbers.{Numbers}

mutual
  pub data Json (N : Type 0) : Type 0 where
    undefined null : Json N
    boolean : Bool → Json N
    number : N → Json N
    text : Text → Json N
    object : Fields N → Json N

  pub data Fields (N : Type 0) : Type 0 where
    no_fields : Fields N
    field : Text → Json N → Fields N → Fields N

pub data TypeOf : Type 0 where
  undefined_type boolean_type number_type string_type object_type : TypeOf

abbrev pub type_of : {N : Type 0} → Json N → TypeOf
type_of undefined = undefined_type
type_of null = object_type
type_of (boolean b) = boolean_type
type_of (number n) = number_type
type_of (text s) = string_type
type_of (object entries) = object_type

abbrev pub same_type : TypeOf → TypeOf → Bool
same_type undefined_type undefined_type = true
same_type boolean_type boolean_type = true
same_type number_type number_type = true
same_type string_type string_type = true
same_type object_type object_type = true
same_type _ _ = false

-- `o[k]`.
abbrev pub lookup : {N : Type 0} → Text → Fields N → Json N
lookup k no_fields = undefined
lookup k (field j v rest) = if text_eq k j then v else lookup k rest

-- `typeof saved === 'object' && saved !== null ? saved : {}`.
abbrev pub fields_of : {N : Type 0} → Json N → Fields N
fields_of (object entries) = entries
fields_of _ = no_fields

-- `typeof saved === typeof defaults ? saved : defaults`.
abbrev pub keep_or : {N : Type 0} → Json N → Json N → Json N
keep_or defaults saved = if same_type (type_of saved) (type_of defaults) then saved else defaults

unfoldable mutual
  pub merge_known : {N : Type 0} → Json N → Json N → Json N
  merge_known (object entries) saved = object (merge_fields entries (fields_of saved))
  merge_known undefined saved = keep_or undefined saved
  merge_known null saved = keep_or null saved
  merge_known (boolean b) saved = keep_or (boolean b) saved
  merge_known (number n) saved = keep_or (number n) saved
  merge_known (text s) saved = keep_or (text s) saved

  pub merge_fields : {N : Type 0} → Fields N → Fields N → Fields N
  merge_fields no_fields src = no_fields
  merge_fields (field k v rest) src = field k (merge_known v (lookup k src)) (merge_fields rest src)

abbrev pub fields_from : {N : Type 0} → List (Text × Json N) → Fields N
fields_from [] = no_fields
fields_from ((k, v) ∷ rest) = field k v (fields_from rest)

-- `{ … }`.
abbrev pub obj : {N : Type 0} → List (Text × Json N) → Json N
obj entries = object (fields_from entries)

-- `v?.[k]`.
abbrev pub member : {N : Type 0} → Text → Json N → Json N
member k v = lookup k (fields_of v)

abbrev pub is_number : {N : Type 0} → Json N → Bool
is_number v = same_type (type_of v) number_type

-- `o[k] = w`, for a key of `o`.
abbrev pub replace : {N : Type 0} → Text → Json N → Fields N → Fields N
replace k w no_fields = no_fields
replace k w (field j v rest) = if text_eq k j then field j w rest else field j v (replace k w rest)

abbrev pub replace_in : {N : Type 0} → Text → Json N → Json N → Json N
replace_in k w v = object (replace k w (fields_of v))

-- `p.a.k = w`.
abbrev pub replace_at : {N : Type 0} → Text → Text → Json N → Json N → Json N
replace_at a k w p = replace_in a (replace_in k w (member a p)) p

module _ {N : Type 0} (js : Numbers N) where
  abbrev pub str : Text → Json N
  str s = text s

  abbrev pub num : ℕ → Json N
  num n = number (js.of_count n)

  -- `DEFAULT_TESTER_PROFILE`.
  abbrev pub default_tester_profile : Json N
  default_tester_profile = obj (
      (codes "name", str (codes "basic"))
      ∷ (codes "testerId", str (codes "default"))
      ∷ (
        codes "scale",
        obj (
            (codes "gnbCount", num 10)
            ∷ (codes "ueCount", num 1000)
            ∷ (codes "throughputUeCount", num 1000)
            ∷ []),
      )
      ∷ (
        codes "gnb",
        obj (
            (codes "gnbIdStart", str (codes "000314"))
            ∷ (codes "namePattern", str (codes "gNB-{i}"))
            ∷ (codes "mcc", str (codes "208"))
            ∷ (codes "mnc", str (codes "93"))
            ∷ (codes "tac", str (codes "000001"))
            ∷ (codes "sst", num 1)
            ∷ (codes "sd", str (codes "010203"))
            ∷ []),
      )
      ∷ (
        codes "ue",
        obj (
            (codes "msinStart", str (codes "0000000001"))
            ∷ (codes "key", str (codes "8baf473f2f8fd09487cccbd7097c6862"))
            ∷ (codes "opc", str (codes "8e27b6af0e692e750f32667a3b14605d"))
            ∷ (codes "amf", str (codes "8000"))
            ∷ (codes "sqn", str (codes "000000000023"))
            ∷ (codes "integrity", str (codes "nia2"))
            ∷ (codes "ciphering", str (codes "nea0"))
            ∷ (codes "dnn", str (codes "internet"))
            ∷ (codes "sst", num 1)
            ∷ (codes "sd", str (codes "010203"))
            ∷ []),
      )
      ∷ (
        codes "traffic",
        obj (
            (codes "ulMbps", num 1)
            ∷ (codes "dlMbps", num 1)
            ∷ (codes "ulPacketSize", num 1400)
            ∷ (codes "dlPacketSize", num 1400)
            ∷ (codes "port", num 9200)
            ∷ (codes "maxDurationMin", num 0)
            ∷ (codes "dlBatchMs", num 1)
            ∷ (codes "engine", str (codes "auto"))
            ∷ []),
      )
      ∷ (
        codes "network",
        obj (
            (
              codes "n2",
              obj (
                  (codes "interface", str (codes "docker-cn-ran"))
                  ∷ (codes "cidr", str (codes "10.0.1.0/24"))
                  ∷ (codes "startIp", str (codes "10.0.1.100"))
                  ∷ (codes "amfIp", str (codes "10.0.1.3"))
                  ∷ (codes "amfPort", num 38412)
                  ∷ []),
            )
            ∷ (
              codes "n3",
              obj (
                  (codes "interface", str (codes "docker-cn-ran"))
                  ∷ (codes "cidr", str (codes "10.0.1.0/24"))
                  ∷ (codes "startIp", str (codes "10.0.1.100"))
                  ∷ (codes "upfIp", str (codes "10.0.1.5"))
                  ∷ (codes "upfPort", num 2152)
                  ∷ []),
            )
            ∷ (
              codes "n6",
              obj (
                  (codes "interface", str (codes "docker-cn-ran"))
                  ∷ (codes "sinkIp", str (codes "10.0.1.1/24"))
                  ∷ (codes "upfIp", str (codes "10.0.1.5"))
                  ∷ (codes "uePool", str (codes "10.60.0.0/16"))
                  ∷ []),
            )
            ∷ []),
      )
      ∷ (
        codes "rates",
        obj (
            (
              codes "n2",
              obj (
                  (codes "ratePerSec", num 0)
                  ∷ (codes "maxInFlight", num 0)
                  ∷ (codes "timeoutMs", num 5000)
                  ∷ (codes "retries", num 1)
                  ∷ []),
            )
            ∷ (
              codes "registration",
              obj (
                  (codes "ratePerSec", num 50)
                  ∷ (codes "maxInFlight", num 200)
                  ∷ (codes "timeoutMs", num 10000)
                  ∷ (codes "retries", num 1)
                  ∷ []),
            )
            ∷ (
              codes "pdu",
              obj (
                  (codes "ratePerSec", num 50)
                  ∷ (codes "maxInFlight", num 200)
                  ∷ (codes "timeoutMs", num 10000)
                  ∷ (codes "retries", num 1)
                  ∷ []),
            )
            ∷ (
              codes "deregistration",
              obj (
                  (codes "ratePerSec", num 50)
                  ∷ (codes "maxInFlight", num 200)
                  ∷ (codes "timeoutMs", num 5000)
                  ∷ (codes "retries", num 1)
                  ∷ []),
            )
            ∷ (
              codes "cpLoop",
              obj (
                  (codes "ratePerSec", num 50)
                  ∷ (codes "maxInFlight", num 200)
                  ∷ (codes "timeoutMs", num 10000)
                  ∷ (codes "holdMs", num 1000)
                  ∷ []),
            )
            ∷ []),
      )
      ∷ [])

  -- The two corrections of `normalizeProfile` after the merge.
  abbrev pub fix_scale : Json N → Json N → Json N
  fix_scale saved p =
      if is_number (member (codes "throughputUeCount") (member (codes "scale") saved))
      then p
      else replace_at (codes "scale") (codes "throughputUeCount")
          (member (codes "ueCount") (member (codes "scale") p)) p

  abbrev pub fix_traffic : Json N → Json N → Json N
  fix_traffic saved p =
      let traffic = member (codes "traffic") saved in
      let size = member (codes "packetSize") traffic in
      if is_number size && not (is_number (member (codes "ulPacketSize") traffic))
      then replace_at (codes "traffic") (codes "dlPacketSize") size
          (replace_at (codes "traffic") (codes "ulPacketSize") size p)
      else p

  unfoldable pub normalize_profile : Json N → Json N
  normalize_profile saved =
      fix_traffic saved (fix_scale saved (merge_known default_tester_profile saved))
