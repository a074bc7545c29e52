-- ===== src/Tester/Cpus/Panel.antt =====
-- web/frontend/src/page/tester/TesterStatusPage.tsx: the form of the CPU allocation, a click on the
-- CPU map, and the test for changes. A list that does not parse counts as empty (`cp ?? []`).
use fru_lab.Prelude.{
  ℕ, ◌≤◌, ◌≡◌, refl, ◌∙◌, Bool, true, false, ◌&&◌, ◌||◌, not, Option, none, some, List, [], ◌∷◌,
  ◌++◌, arith, ◌==◌, if◌then◌else◌, keep, Bool-cases, inl, inr, Option-cases, ap,
}
use mathlib.Core.Path.{subst}
use fru_lab.Js.Text.{Text, text_eq}
use fru_lab.Tester.Cpus.{max_cpu, parse_cpus, format_cpus}
use fru_lab.Js.Sets.{has, has-append}
use fru_lab.Tester.Cpus.RoundTrip.{parse_cpus-format_cpus, parse_cpus_le, All-of_has}

pub record CpuAllocation : Type 0 where
  pub cp_cpus : Text
  pub dp_cpus : Text

-- The side that a click moves a CPU to; `none` of the sides is `unpinned`.
pub data Side : Type 0 where
  cp dp unpinned : Side

abbrev or_nil : Option (List ℕ) → List ℕ
or_nil none = []
or_nil (some xs) = xs

-- `parseCpus(s) ?? []`.
unfoldable pub cpus_of : Text → List ℕ
cpus_of s = or_nil (parse_cpus s)

unfoldable pub next_side : ℕ → List ℕ → List ℕ → Side
next_side c a b = if has c a then dp else if has c b then unpinned else cp

abbrev without : ℕ → List ℕ → List ℕ
without c = keep (λ x. not (x == c))

cp_after : ℕ → Side → List ℕ → List ℕ
cp_after c cp a = a ++ c ∷ []
cp_after c _ a = without c a

dp_after : ℕ → Side → List ℕ → List ℕ
dp_after c dp b = b ++ c ∷ []
dp_after c _ b = without c b

unfoldable pub toggle : ℕ → CpuAllocation → CpuAllocation
unfolding cp_after dp_after
toggle c form =
    let a = cpus_of form.cp_cpus in
    let b = cpus_of form.dp_cpus in
    let next = next_side c a b in
    record { cp_cpus = format_cpus (cp_after c next a); dp_cpus = format_cpus (dp_after c next b) }

unfoldable pub is_dirty : CpuAllocation → CpuAllocation → Bool
is_dirty form saved =
    not (text_eq form.cp_cpus saved.cp_cpus) || not (text_eq form.dp_cpus saved.dp_cpus)

-- The CPUs that both lists hold.
unfoldable pub overlap : CpuAllocation → List ℕ
overlap form = keep (λ c. has c (cpus_of form.dp_cpus)) (cpus_of form.cp_cpus)

has-keep : (p : ℕ → Bool) (d : ℕ) (xs : List ℕ) → has d (keep p xs) ≡ (has d xs && p d)
has-keep p d [] = refl
has-keep p d (x ∷ xs) = elim (Bool-cases (d == x)) [
  | inl same ↦
      let e : d ≡ x = ground arith in
      subst (λ y. has d (keep p (y ∷ xs)) ≡ (has d (y ∷ xs) && p d)) e
        (ground (arith, has-keep p d xs))
  | inr other ↦ ground (arith, has-keep p d xs)
]

cpus_of_le : (s : Text) (c : ℕ) → has c (cpus_of s) ≡ true → c ≤ max_cpu
unfolding cpus_of
cpus_of_le s c h = elim (Option-cases (parse_cpus s)) [
  | inl e ↦ cc (rw e at h)
  | inr (xs, e) ↦ parse_cpus_le s xs e c (rw e at h)
]

-- A list of CPUs in range, written and read back, holds the same CPUs.
has-cpus_of-format_cpus :
    (d : ℕ) (xs : List ℕ)
    → ((c : ℕ) → has c xs ≡ true → c ≤ max_cpu)
    → has d (cpus_of (format_cpus xs)) ≡ has d xs
unfolding cpus_of
has-cpus_of-format_cpus d xs tops =
    let (ys, e, up, same) = parse_cpus-format_cpus xs (All-of_has max_cpu xs tops) in
    ap (λ o. has d (or_nil o)) e ∙ same d

is_cp : Side → Bool
is_cp cp = true
is_cp _ = false

is_dp : Side → Bool
is_dp dp = true
is_dp _ = false

has-cp_after :
    (c d : ℕ) (side : Side) (a : List ℕ)
    → has d (cp_after c side a) ≡ (if d == c then is_cp side else has d a)
unfolding cp_after is_cp
has-cp_after c d cp a = ground (arith, has-append d a (c ∷ []))
has-cp_after c d dp a = ground (arith, has-keep (λ x. not (x == c)) d a)
has-cp_after c d unpinned a = ground (arith, has-keep (λ x. not (x == c)) d a)

has-dp_after :
    (c d : ℕ) (side : Side) (b : List ℕ)
    → has d (dp_after c side b) ≡ (if d == c then is_dp side else has d b)
unfolding dp_after is_dp
has-dp_after c d dp b = ground (arith, has-append d b (c ∷ []))
has-dp_after c d cp b = ground (arith, has-keep (λ x. not (x == c)) d b)
has-dp_after c d unpinned b = ground (arith, has-keep (λ x. not (x == c)) d b)

cp_after_le :
    (c : ℕ) (side : Side) (a : List ℕ)
    → c ≤ max_cpu
    → ((d : ℕ) → has d a ≡ true → d ≤ max_cpu)
    → (d : ℕ) → has d (cp_after c side a) ≡ true
    → d ≤ max_cpu
cp_after_le c side a top tops d h = ground (arith, has-cp_after c d side a, tops d)

dp_after_le :
    (c : ℕ) (side : Side) (b : List ℕ)
    → c ≤ max_cpu
    → ((d : ℕ) → has d b ≡ true → d ≤ max_cpu)
    → (d : ℕ) → has d (dp_after c side b) ≡ true
    → d ≤ max_cpu
dp_after_le c side b top tops d h = ground (arith, has-dp_after c d side b, tops d)

has-toggle_cp :
    (c d : ℕ) (form : CpuAllocation)
    → c ≤ max_cpu
    → has d (cpus_of (toggle c form).cp_cpus) ≡ (
        if d == c
        then is_cp (next_side c (cpus_of form.cp_cpus) (cpus_of form.dp_cpus))
        else has d (cpus_of form.cp_cpus))
unfolding toggle
has-toggle_cp c d form top =
    let a = cpus_of form.cp_cpus in
    let side = next_side c a (cpus_of form.dp_cpus) in
    has-cpus_of-format_cpus d (cp_after c side a)
      (cp_after_le c side a top (cpus_of_le form.cp_cpus))
    ∙ has-cp_after c d side a

has-toggle_dp :
    (c d : ℕ) (form : CpuAllocation)
    → c ≤ max_cpu
    → has d (cpus_of (toggle c form).dp_cpus) ≡ (
        if d == c
        then is_dp (next_side c (cpus_of form.cp_cpus) (cpus_of form.dp_cpus))
        else has d (cpus_of form.dp_cpus))
unfolding toggle
has-toggle_dp c d form top =
    let b = cpus_of form.dp_cpus in
    let side = next_side c (cpus_of form.cp_cpus) b in
    has-cpus_of-format_cpus d (dp_after c side b)
      (dp_after_le c side b top (cpus_of_le form.dp_cpus))
    ∙ has-dp_after c d side b

-- After a click on the CPU `c` of the map, at most 4095, the control plane's list holds `c` exactly if neither
-- list held it, the data plane's exactly if the control plane's held it, and every other CPU is
-- where it was.
pub toggle_lem :
    (c d : ℕ) (form : CpuAllocation)
    → c ≤ max_cpu
    → (has d (cpus_of (toggle c form).cp_cpus) ≡ (
        if d == c
        then not (has c (cpus_of form.cp_cpus)) && not (has c (cpus_of form.dp_cpus))
        else has d (cpus_of form.cp_cpus)))
      × (has d (cpus_of (toggle c form).dp_cpus)
          ≡ (if d == c then has c (cpus_of form.cp_cpus) else has d (cpus_of form.dp_cpus)))
unfolding next_side is_cp is_dp
toggle_lem c d form top =
    (ground (arith, has-toggle_cp c d form top), ground (arith, has-toggle_dp c d form top))

-- Three clicks on a CPU, at most 4095, that is not in both lists leave every CPU where it was.
pub toggle_three_times :
    (c d : ℕ) (form : CpuAllocation)
    → c ≤ max_cpu
    → (has c (cpus_of form.cp_cpus) && has c (cpus_of form.dp_cpus)) ≡ false
    → (has d (cpus_of (toggle c (toggle c (toggle c form))).cp_cpus) ≡ has d (cpus_of form.cp_cpus))
      × (has d (cpus_of (toggle c (toggle c (toggle c form))).dp_cpus)
          ≡ has d (cpus_of form.dp_cpus))
toggle_three_times c d form top apart =
    let once = toggle c form in
    let twice = toggle c once in
    ground (
      arith,
      toggle_lem c d form top,
      toggle_lem c c form top,
      toggle_lem c d once top,
      toggle_lem c c once top,
      toggle_lem c d twice top,
      toggle_lem c c twice top,
    )

-- A CPU is reported to be in both lists exactly if both hold it.
has-overlap :
    (c : ℕ) (form : CpuAllocation)
    → has c (overlap form) ≡ (has c (cpus_of form.cp_cpus) && has c (cpus_of form.dp_cpus))
unfolding overlap
has-overlap c form = has-keep (λ x. has x (cpus_of form.dp_cpus)) c (cpus_of form.cp_cpus)

-- After a click on a CPU that is at most 4095 no new CPU is in both lists, and the clicked one
-- is not.
pub overlap-toggle :
    (c d : ℕ) (form : CpuAllocation)
    → c ≤ max_cpu
    → has d (overlap (toggle c form)) ≡ (not (d == c) && has d (overlap form))
overlap-toggle c d form top =
    ground (arith, has-overlap d (toggle c form), has-overlap d form, toggle_lem c d form top)
