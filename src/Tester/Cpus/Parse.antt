-- ===== src/Tester/Cpus/Parse.antt =====
-- What `parseCpus` accepts, and which CPUs it returns.
use fru_lab.Prelude.{
  ℕ, zero, suc, ◌+◌, ◌-◌, ◌≡◌, refl, ◌↔◌, Bool, true, false, ◌&&◌, ◌||◌, Option, none, some, List,
  [], ◌∷◌, arith, ltb, leb, if◌then◌else◌, IsAscending, every, Bool-cases, any, inl, inr,
  Option-cases, ◌>>=◌, >>=-eq-some,
}
use mathlib.Core.Path.{subst}
use fru_lab.Js.Text.{Text, is_empty, trim}
use fru_lab.Js.Split.{split}
use fru_lab.Tester.Cpus.{match_range, add_range, add_found, add_part, add_parts, parse_cpus}
use fru_lab.Js.Sets.{
  has, set_add, sort, has-set_add, has-sort, IsUnique, set_add-IsUnique, sort-IsAscending,
}

-- The parts that the text is read as: none of an empty text.
abbrev pub parts_of : Text → List Text
parts_of s = if is_empty (trim s) then [] else split b',' (trim s)

abbrev pub good_range : Option (ℕ × ℕ) → Bool
good_range none = false
good_range (some r) = leb r.0 r.1 && leb r.1 4095

abbrev pub in_range : ℕ → Option (ℕ × ℕ) → Bool
in_range c none = false
in_range c (some r) = leb r.0 c && leb c r.1

-- A part is a number or a range, in order and not above the largest CPU; and it holds a CPU.
abbrev pub good_part : Text → Bool
good_part raw = good_range (match_range (trim raw))

abbrev pub in_part : ℕ → Text → Bool
in_part c raw = in_range c (match_range (trim raw))

has-add_range :
    (c n a : ℕ) (out : List ℕ)
    → has c (add_range n a out) ≡ ((leb a c && ltb c (a + n)) || has c out)
unfolding add_range
has-add_range c zero a out = ground arith
has-add_range c (suc n) a out =
    ground (arith, has-add_range c n (a + 1) (set_add a out), has-set_add c a out)

add_range-IsUnique : (n a : ℕ) (out : List ℕ) → IsUnique out → IsUnique (add_range n a out)
unfolding add_range
add_range-IsUnique zero a out u = u
add_range-IsUnique (suc n) a out u =
    add_range-IsUnique n (a + 1) (set_add a out) (set_add-IsUnique a out u)

-- What one part adds, if it is good.
record Added (raw : Text) (out next : List ℕ) : Type 0 where
  good : good_part raw ≡ true
  unique : IsUnique out → IsUnique next
  holds : (c : ℕ) → has c next ≡ (in_part c raw || has c out)

found-Added :
    (raw : Text) (out next : List ℕ) (m : Option (ℕ × ℕ))
    → match_range (trim raw) ≡ m
    → (m >>= λ r. add_found r out) ≡ some next
    → Added raw out next
unfolding add_found
found-Added raw out next none e h = cc
found-Added raw out next (some (a, b)) e h = record {
  good = ground arith;
  unique = λ u. ground (arith, add_range-IsUnique (b + 1 - a) a out u);
  holds = λ c. ground (arith, has-add_range c (b + 1 - a) a out);
}

add_part-Added :
    (raw : Text) (out next : List ℕ) → add_part raw out ≡ some next → Added raw out next
unfolding add_part
add_part-Added raw out next e = found-Added raw out next (match_range (trim raw)) refl e

add_part_bad : (raw : Text) (out : List ℕ) → (add_part raw out ≡ none) ↔ (good_part raw ≡ false)
unfolding add_part add_found
add_part_bad raw out = ground arith

add_parts-IsUnique :
    (ps : List Text) (out xs : List ℕ) → add_parts ps out ≡ some xs → IsUnique out → IsUnique xs
unfolding add_parts
add_parts-IsUnique [] out xs e u = let same : out ≡ xs = cc in subst IsUnique same u
add_parts-IsUnique (p ∷ ps) out xs e u =
    let (next, first, later) = >>=-eq-some (add_part p out) (add_parts ps) e in
    add_parts-IsUnique ps next xs later ((add_part-Added p out next first).unique u)

has-add_parts :
    (c : ℕ) (ps : List Text) (out xs : List ℕ)
    → add_parts ps out ≡ some xs
    → has c xs ≡ (any (in_part c) ps || has c out)
unfolding add_parts
has-add_parts c [] out xs e = ground arith
has-add_parts c (p ∷ ps) out xs e =
    let (next, first, later) = >>=-eq-some (add_part p out) (add_parts ps) e in
    ground (arith, has-add_parts c ps next xs later, (add_part-Added p out next first).holds c)

add_parts_bad :
    (ps : List Text) (out : List ℕ) → (add_parts ps out ≡ none) ↔ (every good_part ps ≡ false)
unfolding add_parts
add_parts_bad [] out = ground arith
add_parts_bad (p ∷ ps) out = elim (Option-cases (add_part p out)) [
  | inl bad ↦ ground (arith, add_part_bad p out)
  | inr (next, e) ↦
      ground (arith, add_part_bad p out, add_parts_bad ps next, (add_part-Added p out next e).good)
]

-- A text is refused exactly when one of its parts is not a number or a range "a-b" with
-- a ≤ b ≤ 4095.
pub parse_cpus-eq-none_iff :
    (s : Text) → (parse_cpus s ≡ none) ↔ (every good_part (parts_of s) ≡ false)
unfolding parse_cpus
parse_cpus-eq-none_iff s = ground (arith, add_parts_bad (split b',' (trim s)) [])

-- An accepted text gives a strictly ascending list of exactly the CPUs in its parts.
pub parse_cpus_sound :
    (s : Text) (xs : List ℕ)
    → parse_cpus s ≡ some xs
    → IsAscending xs × ((c : ℕ) → has c xs ≡ any (in_part c) (parts_of s))
unfolding parse_cpus
parse_cpus_sound s xs e = elim (Bool-cases (is_empty (trim s))) [
  | inl blank ↦
      let empty : [] ≡ xs = ground arith in (subst IsAscending empty tt, λ c. ground arith)
  | inr full ↦
      let (out, added, sorted) =
        >>=-eq-some (add_parts (split b',' (trim s)) []) (λ out. some (sort out)) {b = xs}
          (ground arith) in
      let same : sort out ≡ xs = cc in
      (
        subst IsAscending same
            (sort-IsAscending out (add_parts-IsUnique (split b',' (trim s)) [] out added tt)),
        λ c. ground (arith, has-sort c out, has-add_parts c (split b',' (trim s)) [] out added),
      )
]
