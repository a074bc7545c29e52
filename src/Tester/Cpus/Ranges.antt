-- ===== src/Tester/Cpus/Ranges.antt =====
-- The ranges that `formatCpus` writes, read back one by one by the loop of `parseCpus`.
use fru_lab.Prelude.{
  ℕ, zero, suc, ◌+◌, ◌-◌, ◌≤◌, ◌<◌, ◌≡◌, ◌≢◌, refl, ap, sym, ◌∙◌, true, false, some, List, [], ◌∷◌,
  ◌++◌, arith, ◌==◌, IsAbove, All, All-append, Bool-cases, append-nil, append_assoc, count_up,
  count_up_snoc, inl, inr,
}
use mathlib.Core.Path.{subst, subst₂}
use fru_lab.Js.Text.{Text, is_empty, IsSolid, trim_of_IsSolid, is_space, trim_start}
use fru_lab.Js.Split.{Lacks}
use fru_lab.Js.Decimal.{decimal, value, decimal-AreDigits, AreDigits, value-decimal, decimal-ne-nil}
use fru_lab.Js.Numeral.{span_digits-append, span_digits_all}
use fru_lab.Tester.Cpus.{
  max_cpu, match_end, match_range, add_range, add_found, add_part, add_parts, show_run, runs,
}
use fru_lab.Js.Sets.{set_add_above, All-weaken, All-snoc}

-- Digits and ranges hold no white space and no comma.
abbrev pub IsPlain : Text → Type 0
IsPlain = All (λ c. (is_space c ≡ false) × ((c == b',') ≡ false))

AreDigits-IsPlain : (s : Text) → AreDigits s → IsPlain s
AreDigits-IsPlain [] h = tt
AreDigits-IsPlain (c ∷ s) (hc, h) = ((ground arith, ground arith), AreDigits-IsPlain s h)

pub show_run-IsPlain : (i j : ℕ) → IsPlain (show_run i j)
unfolding show_run
show_run-IsPlain i j = elim (Bool-cases (j == i)) [
  | inl same ↦ rw same (AreDigits-IsPlain (decimal i) (decimal-AreDigits i))
  | inr more ↦ rw more (
      All-append _ (decimal i) (b'-' ∷ decimal j)
        (AreDigits-IsPlain (decimal i) (decimal-AreDigits i))
        ((refl, refl), AreDigits-IsPlain (decimal j) (decimal-AreDigits j)))
]

pub is_empty_of_ne : (s : Text) → s ≢ [] → is_empty s ≡ false
is_empty_of_ne [] h = absurd (h refl)
is_empty_of_ne (c ∷ s) h = refl

trim_start-AreDigits : (s : Text) → AreDigits s → trim_start s ≡ s
unfolding trim_start
trim_start-AreDigits [] h = refl
trim_start-AreDigits (c ∷ s) (hc, h) = let e : is_space c ≡ false = ground arith in rw e

match_range_one : (ds : Text) → AreDigits ds → ds ≢ [] → match_range ds ≡ some (value ds, value ds)
unfolding match_range
match_range_one ds h ne = rw (span_digits_all ds h, is_empty_of_ne ds ne)

match_end_lem :
    (a : ℕ) (es : Text) → AreDigits es → es ≢ [] → match_end a (b'-' ∷ es) ≡ some (a, value es)
unfolding match_end
match_end_lem a es h ne = rw (trim_start-AreDigits es h, span_digits_all es h, is_empty_of_ne es ne)

match_range_two :
    (ds es : Text)
    → AreDigits ds
    → ds ≢ []
    → AreDigits es
    → es ≢ []
    → match_range (ds ++ b'-' ∷ es) ≡ some (value ds, value es)
unfolding match_range trim_start
match_range_two ds es hd nd he ne =
    rw (span_digits-append ds (b'-' ∷ es) hd refl, is_empty_of_ne ds nd)
      (match_end_lem (value ds) es he ne)

-- A range is read as its ends.
match_range-show_run : (i j : ℕ) → match_range (show_run i j) ≡ some (i, j)
unfolding show_run
match_range-show_run i j = elim (Bool-cases (j == i)) [
  | inl same ↦ rw same (
      rw (match_range_one (decimal i) (decimal-AreDigits i) (decimal-ne-nil i), value-decimal i)
        (ground arith))
  | inr more ↦ rw more (
      rw (
        match_range_two (decimal i) (decimal j) (decimal-AreDigits i) (decimal-ne-nil i)
            (decimal-AreDigits j) (decimal-ne-nil j),
        value-decimal i,
        value-decimal j,
      ))
]

pub IsPlain-IsSolid : (s : Text) → IsPlain s → IsSolid s
IsPlain-IsSolid [] h = tt
IsPlain-IsSolid (c ∷ s) ((p, _), h) = (p, IsPlain-IsSolid s h)

pub IsPlain-Lacks : (s : Text) → IsPlain s → Lacks b',' s
IsPlain-Lacks [] h = tt
IsPlain-Lacks (c ∷ s) ((_, p), h) = (p, IsPlain-Lacks s h)

-- A range above all that was added is appended.
add_range_above :
    (n c : ℕ) (out : List ℕ) → All (λ x. x < c) out → add_range n c out ≡ out ++ count_up n c
unfolding add_range
add_range_above zero c out h = sym (append-nil out)
add_range_above (suc n) c out h = rw (
  set_add_above c out h,
  add_range_above n (c + 1) (out ++ c ∷ []) (All-snoc c out h),
  append_assoc,
)

count_up_below :
    (n c : ℕ) (out : List ℕ) → All (λ x. x < c) out → All (λ x. x < c + n) (out ++ count_up n c)
count_up_below zero c out h =
    let e : c ≡ c + 0 = omega arith in rw append-nil (subst (λ b. All (λ x. x < b) out) e h)
count_up_below (suc n) c out h =
    let e : c + 1 + n ≡ c + suc n = omega arith in
    let regroup = append_assoc out (c ∷ []) (count_up n (c + 1)) in
    let up = count_up_below n (c + 1) (out ++ c ∷ []) (All-snoc c out h) in
    subst₂ (λ b l. All (λ x. x < b) l) e regroup up

add_found_run :
    (i j : ℕ) (out : List ℕ)
    → i ≤ j
    → j ≤ max_cpu
    → All (λ x. x < i) out
    → add_found (i, j) out ≡ some (out ++ count_up (j + 1 - i) i)
unfolding add_found
add_found_run i j out le top h = rw (← add_range_above (j + 1 - i) i out h) (ground arith)

add_part_run :
    (i j : ℕ) (out : List ℕ)
    → i ≤ j
    → j ≤ max_cpu
    → All (λ x. x < i) out
    → add_part (show_run i j) out ≡ some (out ++ count_up (j + 1 - i) i)
unfolding add_part
add_part_run i j out le top h =
    rw
      (
        trim_of_IsSolid (show_run i j) (IsPlain-IsSolid _ (show_run-IsPlain i j)),
        match_range-show_run i j,
      )
      (add_found_run i j out le top h)

count_up_next :
    (i j x : ℕ) → i ≤ j → x ≡ j + 1 → count_up (x + 1 - i) i ≡ count_up (j + 1 - i) i ++ x ∷ []
count_up_next i j x le e =
    let steps : x + 1 - i ≡ suc (j + 1 - i) = omega arith in
    let last : i + (j + 1 - i) ≡ x = omega arith in
    ap (λ n. count_up n i) steps
    ∙ count_up_snoc (j + 1 - i) i
    ∙ ap (λ k. count_up (j + 1 - i) i ++ k ∷ []) last

pub count_up_one : (x : ℕ) → count_up (x + 1 - x) x ≡ x ∷ []
count_up_one x = let e : x + 1 - x ≡ 1 = omega arith in ap (λ n. count_up n x) e

pub runs_joined : (i j x : ℕ) (xs : List ℕ) → (x == j + 1) ≡ true → runs i j (x ∷ xs) ≡ runs i x xs
unfolding runs
runs_joined i j x xs e = rw (e, runs)

pub runs_apart :
    (i j x : ℕ) (xs : List ℕ)
    → (x == j + 1) ≡ false
    → runs i j (x ∷ xs) ≡ show_run i j ∷ runs x x xs
unfolding runs
runs_apart i j x xs e = rw (e, runs)

add_parts_one :
    (p : Text) (ps : List Text) (out next : List ℕ)
    → add_part p out ≡ some next
    → add_parts (p ∷ ps) out ≡ add_parts ps next
unfolding add_parts
add_parts_one p ps out next e = rw e

add_parts_last :
    (i j : ℕ) (out : List ℕ) {next : List ℕ}
    → add_part (show_run i j) out ≡ some next
    → add_parts (runs i j []) out ≡ some (next ++ [])
unfolding add_parts runs
add_parts_last i j out {next} e = rw (e, append-nil)

-- The ranges that `runs` writes, read back, add the CPUs from `i` to `j` and then the others.
pub add_parts-runs :
    (i j : ℕ) (xs out : List ℕ)
    → i ≤ j
    → All (λ x. x ≤ max_cpu) (j ∷ xs)
    → IsAbove j xs
    → All (λ x. x < i) out
    → add_parts (runs i j xs) out ≡ some (out ++ count_up (j + 1 - i) i ++ xs)
add_parts-runs i j [] out le (top, _) _ h = add_parts_last i j out (add_part_run i j out le top h)
add_parts-runs i j (x ∷ xs) out le (top, tops) (lt, up) h = elim (Bool-cases (x == j + 1)) [
  | inl joined ↦
      let e : x ≡ j + 1 = ground arith in
      ap (λ ps. add_parts ps out) (runs_joined i j x xs joined)
      ∙ add_parts-runs i x xs out (omega arith) tops up h
      ∙ rw (count_up_next i j x le e) (simp append_assoc)
  | inr apart ↦
      let done = out ++ count_up (j + 1 - i) i in
      let below =
        All-weaken (i + (j + 1 - i)) x done (omega arith) (count_up_below (j + 1 - i) i out h) in
      ap (λ ps. add_parts ps out) (runs_apart i j x xs apart)
      ∙ add_parts_one (show_run i j) (runs x x xs) out done (add_part_run i j out le top h)
      ∙ add_parts-runs x x xs done (omega arith) tops up below
      ∙ rw (count_up_one x) (simp append_assoc)
]
