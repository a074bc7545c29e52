-- ===== src/Tester/Defaults/Tests.antt =====
-- A profile saved by an earlier version, and the theorems on it.
use fru_lab.Prelude.{ℕ, ◌≡◌, refl, [], ◌∷◌}
use fru_lab.Js.Text.{codes}
use fru_lab.Js.Numbers.{whole}
use fru_lab.Tester.Defaults.{
  Json, number, text, obj, member, merge_known, default_tester_profile, normalize_profile,
}
use fru_lab.Tester.Defaults.Merge.{Conforms}
use fru_lab.Tester.Defaults.Normalize.{normalize_profile-Conforms}

-- It has no throughput UEs, one packet size, and a key that is not known.
abbrev saved : Json ℕ
saved = obj (
    (codes "name", text (codes "old"))
    ∷ (codes "scale", obj ((codes "ueCount", number 50) ∷ []))
    ∷ (codes "traffic", obj ((codes "packetSize", number 900) ∷ []))
    ∷ (codes "extra", number 1)
    ∷ [])

throughput :
    member (codes "throughputUeCount") (member (codes "scale") (normalize_profile whole saved))
    ≡ number 50
unfolding normalize_profile merge_known
throughput = refl

packet_size :
    member (codes "dlPacketSize") (member (codes "traffic") (normalize_profile whole saved))
    ≡ number 900
unfolding normalize_profile merge_known
packet_size = refl

normalize_profile-Conforms_example :
    Conforms (default_tester_profile whole) (normalize_profile whole saved)
normalize_profile-Conforms_example = normalize_profile-Conforms whole saved
