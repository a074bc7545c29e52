-- ===== src/Subscribers/BulkIds/Laws.antt =====
-- What `bulkUeIds` returns: the numbers, their width, and when it refuses.
use fru_lab.Prelude.{
  ℕ, zero, suc, ◌+◌, ◌-◌, ◌^◌, ◌≤◌, ◌<◌, ◌≡◌, ◌↔◌, refl, ap, sym, ◌∙◌, true, some, List, [], ◌∷◌,
  ◌++◌, arith, length, length-append, replicate, length-replicate, get_elem?, every, Option-cases,
  inl, inr, All-append,
}
use fru_lab.Js.Text.{Text, codes, trim, is_digit, pad_start}
use fru_lab.Js.Decimal.{
  decimal, value, AreDigits, value-decimal, value-pad, length-decimal_iff, decimal-AreDigits,
}
use fru_lab.Subscribers.BulkIds.{
  max_bulk_subscribers, ids, match_imsi, supi, supis, bulk_from, bulk_ue_ids,
}

-- `u` is "imsi-" and exactly `width` digits that stand for `n`.
pub record IsSupi (width n : ℕ) (u : Text) : Type 0 where
  pub digits : Text
  pub spelled : u ≡ codes "imsi-" ++ digits
  pub numeral : AreDigits digits
  pub wide : length digits ≡ width
  pub stands : value digits ≡ n

replicate-AreDigits : (k : ℕ) → AreDigits (replicate k b'0')
replicate-AreDigits zero = tt
replicate-AreDigits (suc k) = (refl, replicate-AreDigits k)

supi-IsSupi : (width n : ℕ) → length (decimal n) ≤ width → IsSupi width n (supi width n)
unfolding supi
supi-IsSupi width n h =
    let zeros = width - length (decimal n) in
    record {
      digits = pad_start width b'0' (decimal n);
      spelled = refl;
      numeral =
          All-append _ (replicate zeros b'0') (decimal n) (replicate-AreDigits zeros)
            (decimal-AreDigits n);
      wide = omega (
        arith,
        length-append (replicate zeros b'0') (decimal n),
        length-replicate {A = ℕ} zeros b'0',
      );
      stands = value-pad zeros (decimal n) ∙ value-decimal n;
    }

length-supis : (width start count : ℕ) → length (supis width start count) ≡ count
unfolding supis
length-supis width start zero = refl
length-supis width start (suc count) = ap suc (length-supis width (start + 1) count)

get_elem?-supis :
    (width start count i : ℕ)
    → i < count
    → get_elem? (supis width start count) i ≡ some (supi width (start + i))
unfolding supis
get_elem?-supis width start zero i h = elim h [ ]
get_elem?-supis width start (suc count) zero h =
    let e : start ≡ start + 0 = omega arith in ap (λ n. some (supi width n)) e
get_elem?-supis width start (suc count) (suc i) h =
    let e : start + 1 + i ≡ start + suc i = omega arith in
    get_elem?-supis width (start + 1) count i (omega arith) ∙ ap (λ n. some (supi width n)) e

every-AreDigits : (s : Text) → every is_digit s ≡ true → AreDigits s
every-AreDigits [] h = tt
every-AreDigits (c ∷ s) h = (ground arith, every-AreDigits s (ground arith))

-- What the match of the pattern gives: 5 to 15 digits behind "imsi-".
match_imsi_lem :
    (text digits : Text)
    → match_imsi text ≡ some digits
    → AreDigits digits × (5 ≤ length digits) × (length digits ≤ 15)
unfolding match_imsi
match_imsi_lem text digits e = (every-AreDigits digits (ground arith), ground arith, ground arith)

fits_iff : (n k : ℕ) → 0 < k → (length (decimal n) ≤ k) ↔ (n < 10 ^ k)
fits_iff n zero h = elim h [ ]
fits_iff n (suc k) h = length-decimal_iff n k

-- The text and the count are accepted: the pattern matches, the count is between 1 and 10000,
-- the last number still fits in the digits of the first, and the SUPIs number up from it.
pub record Accepted (first : Text) (count : ℕ) (us : List Text) : Type 0 where
  pub digits : Text
  pub matched : match_imsi (trim first) ≡ some digits
  pub at_least : 1 ≤ count
  pub at_most : count ≤ max_bulk_subscribers
  pub room : value digits + count ≤ 10 ^ length digits
  pub as_many : length us ≡ count
  pub each :
      (i : ℕ)
      → i < count
      → (u : Text) × (get_elem? us i ≡ some u) × IsSupi (length digits) (value digits + i) u

-- The tests of the count and of the last number, passed.
bulk_from_passed :
    (first digits : Text) (count : ℕ) (us : List Text)
    → bulk_from first digits (some count) ≡ ids us
    → (1 ≤ count)
      × (count ≤ max_bulk_subscribers)
      × (length (decimal (value digits + (count - 1))) ≤ length digits)
      × (us ≡ supis (length digits) (value digits) count)
unfolding bulk_from
bulk_from_passed first digits count us e = (ground arith, ground arith, ground arith, ground arith)

supis-each :
    (width start count : ℕ) (us : List Text)
    → us ≡ supis width start count
    → ((i : ℕ) → i < count → length (decimal (start + i)) ≤ width)
    → (i : ℕ) → i < count
    → (u : Text) × (get_elem? us i ≡ some u) × IsSupi width (start + i) u
supis-each width start count us e narrow i h = (
  supi width (start + i),
  ap (λ l. get_elem? l i) e ∙ get_elem?-supis width start count i h,
  supi-IsSupi width (start + i) (narrow i h),
)

bulk_from-Accepted :
    (first digits : Text) (count : ℕ) (us : List Text)
    → match_imsi (trim first) ≡ some digits
    → bulk_from first digits (some count) ≡ ids us
    → Accepted first count us
bulk_from-Accepted first digits count us m e =
    let (at_least, at_most, narrow, listed) = bulk_from_passed first digits count us e in
    let (numeral, long, short) = match_imsi_lem (trim first) digits m in
    let last = value digits + (count - 1) in
    let below = (fits_iff last (length digits) (omega arith)).0 narrow in
    record {
      digits = digits;
      matched = m;
      at_least = at_least;
      at_most = at_most;
      room = omega arith;
      as_many = ap length listed ∙ length-supis (length digits) (value digits) count;
      each =
          supis-each (length digits) (value digits) count us listed
            (λ i h. (fits_iff (value digits + i) (length digits) (omega arith)).1 (omega arith));
    }

-- Created SUPIs: the trimmed text is "imsi-" and 5 to 15 digits, the count is between 1 and 10000, and the
-- i-th of as many SUPIs is "imsi-" and exactly as many digits, which stand for the first number
-- plus i.
pub bulk_ue_ids_sound :
    (first : Text) (count : ℕ) (us : List Text)
    → bulk_ue_ids first (some count) ≡ ids us
    → Accepted first count us
unfolding bulk_ue_ids
bulk_ue_ids_sound first count us e = elim (Option-cases (match_imsi (trim first))) [
  | inl bad ↦ cc (rw (bad, bulk_ue_ids) at e)
  | inr (digits, m) ↦ bulk_from-Accepted first digits count us m (rw (m, bulk_ue_ids) at e)
]

IsSupi-injective :
    (start i j : ℕ) {width : ℕ} {u v : Text}
    → IsSupi width (start + i) u
    → IsSupi width (start + j) v
    → u ≡ v
    → i ≡ j
IsSupi-injective start i j {width} {u} {v} p q e =
    let spelled : codes "imsi-" ++ p.digits ≡ codes "imsi-" ++ q.digits =
      sym p.spelled ∙ e ∙ q.spelled in
    let same : p.digits ≡ q.digits = cc spelled in
    let equal : start + i ≡ start + j = sym p.stands ∙ ap value same ∙ q.stands in omega arith

-- When SUPIs are created, those at different places below the count differ.
pub bulk_ue_ids_distinct :
    (first : Text) (count : ℕ) (us : List Text) (i j : ℕ)
    → bulk_ue_ids first (some count) ≡ ids us
    → i < count
    → j < count
    → get_elem? us i ≡ get_elem? us j
    → i ≡ j
bulk_ue_ids_distinct first count us i j e hi hj same =
    let made = bulk_ue_ids_sound first count us e in
    let (u, at_i, is_u) = made.each i hi in
    let (v, at_j, is_v) = made.each j hj in
    let both : some u ≡ some v = sym at_i ∙ same ∙ at_j in
    IsSupi-injective (value made.digits) i j is_u is_v (cc both)

-- Nothing that fits is refused: with a trimmed text that matches, a count between 1 and 10000 and room for
-- the last number in the digits of the first, SUPIs are created.
pub bulk_ue_ids_complete :
    (first digits : Text) (count : ℕ)
    → match_imsi (trim first) ≡ some digits
    → 1 ≤ count
    → count ≤ max_bulk_subscribers
    → value digits + count ≤ 10 ^ length digits
    → (us : List Text) × (bulk_ue_ids first (some count) ≡ ids us)
unfolding bulk_ue_ids bulk_from
bulk_ue_ids_complete first digits count m at_least at_most room =
    let (numeral, long, short) = match_imsi_lem (trim first) digits m in
    let last = value digits + (count - 1) in
    let narrow = (fits_iff last (length digits) (omega arith)).1 (omega arith) in
    (supis (length digits) (value digits) count, rw (m, bulk_ue_ids) (ground arith))
