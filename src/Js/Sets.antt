-- ===== src/Js/Sets.antt =====
-- A `Set` of numbers in order of insertion, and `sort((x, y) => x - y)`.
use mathlib.Core.Path.{subst, ap₂}
use fru_lab.Prelude.{
  ℕ, ◌<◌, ◌≤◌, ◌≡◌, refl, ◌↔◌, inl, inr, Bool, true, false, ◌||◌, List, [], ◌∷◌, ◌++◌, arith, ltb,
  leb, ◌==◌, ◌&&◌, zero, suc, count_up, All-append, sym, ap, append-nil, append_assoc, ◌∙◌, ◌+◌,
  if◌then◌else◌, All, Has, IsAbove, IsAscending, Bool-cases,
}

abbrev pub has : ℕ → List ℕ → Bool
has c [] = false
has c (x ∷ xs) = c == x || has c xs

-- `set.add(c)`.
unfoldable pub set_add : ℕ → List ℕ → List ℕ
set_add c out = if has c out then out else out ++ c ∷ []

add_all : List ℕ → List ℕ → List ℕ
unfolding set_add
add_all [] out = out
add_all (c ∷ cs) out = add_all cs (set_add c out)

-- `[...new Set(cpus)]`.
unfoldable pub unique : List ℕ → List ℕ
unfolding add_all
unique cs = add_all cs []

unfoldable pub insert : ℕ → List ℕ → List ℕ
insert c [] = c ∷ []
insert c (x ∷ xs) = if leb c x then c ∷ x ∷ xs else x ∷ insert c xs

unfoldable pub sort : List ℕ → List ℕ
unfolding insert
sort [] = []
sort (x ∷ xs) = insert x (sort xs)

pub has_iff : (c : ℕ) (xs : List ℕ) → (has c xs ≡ true) ↔ Has c xs
has_iff c [] = ((λ h. cc), (λ h. absurd h))
has_iff c (x ∷ xs) = ((λ h. ground (arith, has_iff c xs)), (λ h. ground (arith, has_iff c xs)))

-- No number twice.
abbrev pub IsUnique : List ℕ → Type 0
IsUnique [] = Unit
IsUnique (x ∷ xs) = (has x xs ≡ false) × IsUnique xs

pub has-append : (c : ℕ) (xs ys : List ℕ) → has c (xs ++ ys) ≡ (has c xs || has c ys)
has-append c [] ys = refl
has-append c (x ∷ xs) ys = ground (arith, has-append c xs ys)

pub has-set_add : (c d : ℕ) (xs : List ℕ) → has c (set_add d xs) ≡ (c == d || has c xs)
unfolding set_add
has-set_add c d xs = ground (arith, has-append c xs (d ∷ []))

pub IsUnique-snoc : (d : ℕ) (xs : List ℕ) → IsUnique xs → has d xs ≡ false → IsUnique (xs ++ d ∷ [])
IsUnique-snoc d [] u h = (refl, tt)
IsUnique-snoc d (x ∷ xs) (hx, u) h =
    (ground (arith, has-append x xs (d ∷ [])), IsUnique-snoc d xs u (ground arith))

pub set_add-IsUnique : (d : ℕ) (xs : List ℕ) → IsUnique xs → IsUnique (set_add d xs)
unfolding set_add
set_add-IsUnique d xs u = elim (Bool-cases (has d xs)) [
  | inl old ↦ rw old u
  | inr new ↦ rw new (IsUnique-snoc d xs u new)
]

has-add_all : (c : ℕ) (cs out : List ℕ) → has c (add_all cs out) ≡ (has c cs || has c out)
unfolding add_all
has-add_all c [] out = refl
has-add_all c (d ∷ cs) out = ground (arith, has-add_all c cs (set_add d out), has-set_add c d out)

pub has-unique : (c : ℕ) (cs : List ℕ) → has c (unique cs) ≡ has c cs
unfolding unique
has-unique c cs = ground (arith, has-add_all c cs [])

add_all-IsUnique : (cs out : List ℕ) → IsUnique out → IsUnique (add_all cs out)
unfolding add_all
add_all-IsUnique [] out u = u
add_all-IsUnique (c ∷ cs) out u = add_all-IsUnique cs (set_add c out) (set_add-IsUnique c out u)

pub unique-IsUnique : (cs : List ℕ) → IsUnique (unique cs)
unfolding unique
unique-IsUnique cs = add_all-IsUnique cs [] tt

has-insert : (c d : ℕ) (xs : List ℕ) → has c (insert d xs) ≡ (c == d || has c xs)
unfolding insert
has-insert c d [] = refl
has-insert c d (x ∷ xs) = ground (arith, has-insert c d xs)

pub has-sort : (c : ℕ) (xs : List ℕ) → has c (sort xs) ≡ has c xs
unfolding sort
has-sort c [] = refl
has-sort c (x ∷ xs) = ground (arith, has-insert c x (sort xs), has-sort c xs)

insert-IsAbove :
    (b d : ℕ) (xs : List ℕ) → b < d → has d xs ≡ false → IsAbove b xs → IsAbove b (insert d xs)
unfolding insert
insert-IsAbove b d [] h new a = (h, tt)
insert-IsAbove b d (x ∷ xs) h new (hx, a) = ground (arith, insert-IsAbove x d xs)

insert-IsAscending :
    (d : ℕ) (xs : List ℕ) → has d xs ≡ false → IsAscending xs → IsAscending (insert d xs)
unfolding insert
insert-IsAscending d [] new a = tt
insert-IsAscending d (x ∷ xs) new a = ground (arith, insert-IsAbove x d xs)

-- Sorting a list without repeats gives a strictly ascending one.
pub sort-IsAscending : (xs : List ℕ) → IsUnique xs → IsAscending (sort xs)
unfolding sort
sort-IsAscending [] u = tt
sort-IsAscending (x ∷ xs) (new, u) =
    insert-IsAscending x (sort xs) (ground (arith, has-sort x xs)) (sort-IsAscending xs u)

insert_below : (b : ℕ) (xs : List ℕ) → IsAbove b xs → insert b xs ≡ b ∷ xs
unfolding insert
insert_below b [] h = refl
insert_below b (x ∷ xs) (lt, h) = ground arith

sort_of_IsAbove : (b : ℕ) (xs : List ℕ) → IsAbove b xs → sort xs ≡ xs
unfolding sort
sort_of_IsAbove b [] h = refl
sort_of_IsAbove b (x ∷ xs) (lt, h) = rw (sort_of_IsAbove x xs h, insert_below x xs h)

-- A strictly ascending list is sorted already, and has no repeats.
pub sort_of_IsAscending : (xs : List ℕ) → IsAscending xs → sort xs ≡ xs
sort_of_IsAscending [] h = unfold sort in refl
sort_of_IsAscending (x ∷ xs) h = unfold sort in rw (sort_of_IsAbove x xs h, insert_below x xs h)

-- All members lie below a number: adding it appends it.
has_of_below : (c : ℕ) (out : List ℕ) → All (λ x. x < c) out → has c out ≡ false
has_of_below c [] h = refl
has_of_below c (x ∷ out) (p, h) = ground (arith, has_of_below c out h)

pub set_add_above : (c : ℕ) (out : List ℕ) → All (λ x. x < c) out → set_add c out ≡ out ++ c ∷ []
unfolding set_add
set_add_above c out h = rw (has_of_below c out h)

pub All-weaken : (b c : ℕ) (out : List ℕ) → b ≤ c → All (λ x. x < b) out → All (λ x. x < c) out
All-weaken b c [] le h = tt
All-weaken b c (x ∷ out) le (p, h) = (omega arith, All-weaken b c out le h)

pub All-snoc : (c : ℕ) (out : List ℕ) → All (λ x. x < c) out → All (λ x. x < c + 1) (out ++ c ∷ [])
All-snoc c out h =
    All-append (λ x. x < c + 1) out (c ∷ []) (All-weaken c (c + 1) out (omega arith) h)
      (omega arith, tt)

add_all_above :
    (b : ℕ) (xs out : List ℕ) → IsAbove b xs → All (λ x. x < b + 1) out → add_all xs out ≡ out ++ xs
unfolding add_all
add_all_above b [] out up h = sym (append-nil out)
add_all_above b (x ∷ xs) out (lt, up) h =
    let below = All-weaken (b + 1) x out (omega arith) h in
    ap (add_all xs) (set_add_above x out below)
    ∙ add_all_above x xs (out ++ x ∷ []) up (All-snoc x out below)
    ∙ append_assoc out (x ∷ []) xs

pub unique_of_IsAscending : (xs : List ℕ) → IsAscending xs → unique xs ≡ xs
unfolding unique
unique_of_IsAscending [] h = unfold add_all in refl
unique_of_IsAscending (x ∷ xs) h =
    unfold add_all in
    ap (add_all xs) (set_add_above x [] tt) ∙ add_all_above x xs (x ∷ []) h (omega arith, tt)

has_of_IsAbove : (b c : ℕ) (xs : List ℕ) → IsAbove b xs → c ≤ b → has c xs ≡ false
has_of_IsAbove b c [] h le = refl
has_of_IsAbove b c (x ∷ xs) (lt, h) le = ground (arith, has_of_IsAbove x c xs)

ext_tail :
    (x c : ℕ) (xs ys : List ℕ)
    → IsAbove x xs
    → IsAbove x ys
    → has c (x ∷ xs) ≡ has c (x ∷ ys)
    → has c xs ≡ has c ys
ext_tail x c xs ys hx hy e = ground (arith, has_of_IsAbove x c xs hx, has_of_IsAbove x c ys hy)

ext_head :
    (x y : ℕ) (xs ys : List ℕ)
    → IsAbove x xs
    → IsAbove y ys
    → has x (x ∷ xs) ≡ has x (y ∷ ys)
    → has y (x ∷ xs) ≡ has y (y ∷ ys)
    → x ≡ y
ext_head x y xs ys hx hy e f = ground (arith, has_of_IsAbove x y xs hx, has_of_IsAbove y x ys hy)

pub IsAbove-weaken : (b c : ℕ) (xs : List ℕ) → b ≤ c → IsAbove c xs → IsAbove b xs
IsAbove-weaken b c [] le h = tt
IsAbove-weaken b c (x ∷ xs) le (lt, h) = (omega arith, h)

pub IsAbove-IsAscending : (b : ℕ) (xs : List ℕ) → IsAbove b xs → IsAscending xs
IsAbove-IsAscending b [] h = tt
IsAbove-IsAscending b (x ∷ xs) (lt, h) = h

-- Strictly ascending lists with the same members are equal.
pub ascending_ext :
    (xs ys : List ℕ) → IsAscending xs → IsAscending ys → ((c : ℕ) → has c xs ≡ has c ys) → xs ≡ ys
ascending_ext [] [] hx hy e = refl
ascending_ext [] (y ∷ ys) hx hy e = ground (arith, e y)
ascending_ext (x ∷ xs) [] hx hy e = ground (arith, e x)
ascending_ext (x ∷ xs) (y ∷ ys) hx hy e =
    let same = ext_head x y xs ys hx hy (e x) (e y) in
    let hy' : IsAbove x ys = subst (λ b. IsAbove b ys) (sym same) hy in
    ap₂ (λ a l. a ∷ l) same
      (ascending_ext xs ys (IsAbove-IsAscending x xs hx) (IsAbove-IsAscending x ys hy') (λ c.
        ext_tail x c xs ys hx hy' (subst (λ b. has c (x ∷ xs) ≡ has c (b ∷ ys)) (sym same) (e c))))

count_up-IsAbove : (n b i : ℕ) → b < i → IsAbove b (count_up n i)
count_up-IsAbove zero b i h = tt
count_up-IsAbove (suc n) b i h = (h, count_up-IsAbove n i (i + 1) (omega arith))

pub count_up-IsAscending : (n i : ℕ) → IsAscending (count_up n i)
count_up-IsAscending zero i = tt
count_up-IsAscending (suc n) i = count_up-IsAbove n i (i + 1) (omega arith)

pub has-count_up : (c n i : ℕ) → has c (count_up n i) ≡ (leb i c && ltb c (i + n))
has-count_up c zero i = ground arith
has-count_up c (suc n) i = ground (arith, has-count_up c n (i + 1))
