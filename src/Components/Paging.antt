-- ===== src/Components/Paging.antt =====
-- web/frontend/src/components/pager/paging.ts: the pages of a long table. `page` is a whole number
-- that is at least 0, and `size` one that is at least 1.
use mathlib.Core.Path.{subst, ap₂}
use fru_lab.Prelude.{
  ℕ, zero, suc, ◌+◌, ◌-◌, ◌*◌, ◌/◌, ◌≤◌, ◌<◌, min, max, ◌≡◌, refl, ap, ◌∙◌, List, [], ◌∷◌, ◌++◌,
  arith, if◌then◌else◌, length, take, drop, length-take, length-drop, ◌==◌, sym,
}

pub record Page {ℓ} (A : Type ℓ) : Type ℓ where
  pub items : List A
  pub page : ℕ
  pub pages : ℕ
  pub from : ℕ
  pub to : ℕ

-- `Math.ceil(n / size)`.
abbrev pub ceil_div : ℕ → ℕ → ℕ
ceil_div n size = (n + size - 1) / size

-- `Math.max(1, Math.ceil(items.length / size))`.
abbrev pub pages_of : ℕ → ℕ → ℕ
pages_of n size = max 1 (ceil_div n size)

-- All pages together have room for every item, and each begins at an item.
pages_cover : (n size : ℕ) → 0 < size → n ≤ pages_of n size * size
pages_cover n size h = grind arith

start_lt : (n size cur : ℕ) → 0 < size → 0 < n → cur ≤ pages_of n size → (cur - 1) * size < n
start_lt n size cur h pos le = grind arith

pages_empty : (size : ℕ) → 0 < size → pages_of 0 size ≡ 1
pages_empty size h = grind arith

-- What a page's numbers come to, once its first item is known to exist.
numbers :
    (n size start len : ℕ)
    → 0 < size
    → (0 < n → start < n)
    → (n ≡ 0 → start ≡ 0)
    → len ≡ min size (n - start)
    → (len ≤ size)
      × (start + len ≤ n)
      × ((if len == 0 then 0 else start + 1) + len ≡ start + len + (if n == 0 then 0 else 1))
      × ((len ≡ 0) → n ≡ 0)
numbers zero size start len h first none_first e = ground arith
numbers (suc n) size start len h first none_first e = ground arith

empty_start : (page size : ℕ) → 0 < size → (min (max 1 page) (pages_of 0 size) - 1) * size ≡ 0
empty_start page size h = rw (pages_empty size h) (grind arith)

module _ {ℓ} {A : Type ℓ} where
  -- `items.slice(start, start + size)`.
  abbrev pub slice : List A → ℕ → ℕ → List A
  slice items start size = take size (drop start items)

  unfoldable pub page_of : List A → ℕ → ℕ → Page A
  page_of items page size =
      let pages = pages_of (length items) size in
      let current = min (max 1 page) pages in
      let start = (current - 1) * size in
      let shown = slice items start size in
      record {
        items = shown;
        page = current;
        pages = pages;
        from = (if length shown == 0 then 0 else start + 1);
        to = start + length shown;
      }

  length-page_of :
      (items : List A) (page size : ℕ)
      → length (page_of items page size).items
        ≡ min size (length items - ((page_of items page size).page - 1) * size)
  unfolding page_of
  length-page_of items page size =
      let start = (min (max 1 page) (pages_of (length items) size) - 1) * size in
      length-take size (drop start items) ∙ ap (min size) (length-drop start items)

  -- With a page size above 0 the page shown exists, it holds at most `size` items, and `from` and `to` number its items
  -- within the list; it is empty only if the list is.
  pub page_of_bounds :
      (items : List A) (page size : ℕ)
      → 0 < size
      → (1 ≤ (page_of items page size).page)
        × ((page_of items page size).page ≤ (page_of items page size).pages)
        × (length (page_of items page size).items ≤ size)
        × ((page_of items page size).to ≤ length items)
        × ((page_of items page size).from + length (page_of items page size).items
            ≡ (page_of items page size).to + (if length items == 0 then 0 else 1))
        × ((length (page_of items page size).items ≡ 0) → length items ≡ 0)
  unfolding page_of
  page_of_bounds items page size h =
      let n = length items in
      let cur = min (max 1 page) (pages_of n size) in
      let start = (cur - 1) * size in
      let len = length (slice items start size) in
      let (small, inside, numbered, filled) =
        numbers n size start len h (λ pos. start_lt n size cur h pos (omega arith))
          (λ e.
            subst (λ k. (min (max 1 page) (pages_of k size) - 1) * size ≡ 0) (sym e)
              (empty_start page size h))
          (length-page_of items page size) in
      (omega arith, omega arith, small, inside, numbered, filled)

  -- A page number that exists is the one shown.
  page_of_exact :
      (items : List A) (k size : ℕ)
      → suc k ≤ pages_of (length items) size
      → (page_of items (suc k) size).items ≡ take size (drop (k * size) items)
  unfolding page_of
  page_of_exact items k size h =
      let e : min (max 1 (suc k)) (pages_of (length items) size) - 1 ≡ k = omega arith in
      ap (λ i. take size (drop (i * size) items)) e

  take-nil : (n : ℕ) → take {A = A} n [] ≡ []
  take-nil zero = refl
  take-nil (suc n) = refl

  take_add : (a b : ℕ) (xs : List A) → take a xs ++ take b (drop a xs) ≡ take (a + b) xs
  take_add zero b xs = let e : b ≡ 0 + b = omega arith in ap (λ n. take n xs) e
  take_add (suc a) b [] = take-nil b ∙ sym (take-nil (suc a + b))
  take_add (suc a) b (x ∷ xs) =
      let e : suc (a + b) ≡ suc a + b = omega arith in
      ap (λ t. x ∷ t) (take_add a b xs) ∙ ap (λ n. take n (x ∷ xs)) e

  take_all : (m : ℕ) (xs : List A) → length xs ≤ m → take m xs ≡ xs
  take_all zero [] h = refl
  take_all zero (x ∷ xs) h = elim h [ ]
  take_all (suc m) [] h = refl
  take_all (suc m) (x ∷ xs) h = ap (λ t. x ∷ t) (take_all m xs (omega arith))

  -- The items of the pages 1 to `k`, one page after the other.
  abbrev pub first_pages : List A → ℕ → ℕ → List A
  first_pages items size zero = []
  first_pages items size (suc k) = first_pages items size k ++ (page_of items (suc k) size).items

  first_pages-take :
      (items : List A) (size k : ℕ)
      → k ≤ pages_of (length items) size
      → first_pages items size k ≡ take (k * size) items
  first_pages-take items size zero h =
      let e : 0 ≡ 0 * size = omega arith in ap (λ m. take m items) e
  first_pages-take items size (suc k) h =
      let e : k * size + size ≡ suc k * size = omega arith in
      ap₂ (λ a b. a ++ b) (first_pages-take items size k (omega arith))
        (page_of_exact items k size h)
      ∙ take_add (k * size) size items
      ∙ ap (λ m. take m items) e

  -- With a page size above 0, going through the pages from the first to the last shows every item once, in order.
  pub first_pages_all :
      (items : List A) (size : ℕ)
      → 0 < size
      → first_pages items size (pages_of (length items) size) ≡ items
  first_pages_all items size h =
      first_pages-take items size (pages_of (length items) size) (omega arith)
      ∙ take_all (pages_of (length items) size * size) items (pages_cover (length items) size h)
