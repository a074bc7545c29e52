-- ===== src/Tester/Run/Gnbs.antt =====
-- The gNB table of `RunBody` in web/frontend/src/page/tester/TesterRunPage.tsx. A tester older than
-- paging sends every gNB, and the page is cut here.
use fru_lab.Prelude.{
  ℕ, zero, suc, ◌+◌, ◌-◌, ◌*◌, ◌≤◌, ◌≡◌, refl, sym, ap, ◌∙◌, inl, inr, Bool, true, false, ◌&&◌,
  Option, none, some, List, [], ◌∷◌, if◌then◌else◌, length, get_elem?, take, drop, map, keep, any,
  ltb, ◌==◌, min, max, arith, length-map, Bool-cases,
}
use fru_lab.Js.Text.{Text, codes, text_eq, text_eq_iff}
use fru_lab.Js.Split.{split}
use fru_lab.Js.Objects.{Object, put, get, get-put, get-put_other}
use fru_lab.Components.Paging.{Page, pages_of, slice, page_of}
use fru_lab.Tester.RunApi.{TesterGnbStatus, TesterGnbTraffic, TesterRunSnapshot}
use fru_lab.Tester.Run.Stream.{Stream, gnb_page_size, show_gnbs}

-- `GNB_FILTERS`, by label and states.
abbrev pub gnb_filters : List (Text × Text)
gnb_filters =
    (codes "All", [])
    ∷ (codes "Not up", codes "pending,connecting,failed,lost")
    ∷ (codes "Failed or lost", codes "failed,lost")
    ∷ []

abbrev pub is_some : {A : Type 0} → Option A → Bool
is_some none = false
is_some (some _) = true

pub record GnbRow (N : Type 0) : Type 0 where
  pub g : TesterGnbStatus N
  pub traffic : Option TesterGnbTraffic

-- `list[i - 1]`.
abbrev pub at_index : List TesterGnbTraffic → ℕ → Option TesterGnbTraffic
at_index traffic zero = none
at_index traffic (suc i) = get_elem? traffic i

abbrev pub start_of : Option ℕ → ℕ → ℕ → ℕ
start_of (some total) offset current = offset
start_of none offset current = (current - 1) * gnb_page_size

-- `m[k] ?? 0`.
abbrev pub or_zero : Option ℕ → ℕ
or_zero none = 0
or_zero (some n) = n

module _ {N : Type 0} where
  abbrev pub is_wanted : Text → TesterGnbStatus N → Bool
  is_wanted [] g = true
  is_wanted (c ∷ states) g = any (λ w. text_eq w g.state) (split b',' (c ∷ states))

  -- `matching`, by whether the tester sent a page.
  abbrev pub matching : Option ℕ → Text → List (TesterGnbStatus N) → List (TesterGnbStatus N)
  matching (some total) states gnbs = gnbs
  matching none states gnbs = keep (is_wanted states) gnbs

  abbrev pub gnb_total_of : Option ℕ → List (TesterGnbStatus N) → ℕ
  gnb_total_of (some total) found = total
  gnb_total_of none found = length found

  -- A page from the tester has the traffic in the same order.
  abbrev pub rows_from : ℕ → List TesterGnbTraffic → List (TesterGnbStatus N) → List (GnbRow N)
  rows_from i traffic [] = []
  rows_from i traffic (g ∷ gnbs) =
      record { g = g; traffic = get_elem? traffic i } ∷ rows_from (i + 1) traffic gnbs

  abbrev pub row_of : List TesterGnbTraffic → TesterGnbStatus N → GnbRow N
  row_of traffic g = record { g = g; traffic = at_index traffic g.index }

  abbrev pub gnb_rows :
      Option ℕ → ℕ → List TesterGnbTraffic → List (TesterGnbStatus N) → List (GnbRow N)
  gnb_rows (some total) start traffic found = rows_from 0 traffic found
  gnb_rows none start traffic found = map (row_of traffic) (slice found start gnb_page_size)

  unfoldable pub gnb_pages : Text → TesterRunSnapshot N → ℕ
  gnb_pages states s =
      pages_of (gnb_total_of s.gnb_total (matching s.gnb_total states s.gnbs)) gnb_page_size

  unfoldable pub pager : ℕ → Text → TesterRunSnapshot N → Page (GnbRow N)
  unfolding gnb_pages
  pager gnb_page states s =
      let found = matching s.gnb_total states s.gnbs in
      let pages = gnb_pages states s in
      let current = min gnb_page pages in
      let start = start_of s.gnb_total s.gnb_offset current in
      let rows = gnb_rows s.gnb_total start s.dataplane.gnbs found in
      record {
        items = rows;
        page = current;
        pages = pages;
        from = if length rows == 0 then 0 else start + 1;
        to = start + length rows;
      }

  -- `counts` of an old tester, from `m` on.
  unfoldable pub tally : List (TesterGnbStatus N) → Object ℕ → Object ℕ
  tally [] m = m
  tally (g ∷ gnbs) m = tally gnbs (put g.state (or_zero (get g.state m) + 1) m)

  abbrev pub counts_of : Option ℕ → TesterRunSnapshot N → Object ℕ
  counts_of (some total) s = s.gnb_counts
  counts_of none s = tally s.gnbs []

  -- The effect: a filter can leave fewer pages than the one shown.
  unfoldable pub keep_page : Text → TesterRunSnapshot N → {S : Type 0} → Stream S → Stream S
  keep_page states s stream =
      if is_some s.gnb_total && ltb (gnb_pages states s) stream.gnb_page
      then show_gnbs (gnb_pages states s) states stream
      else stream

module _ {A B : Type 0} (f : A → B) where
  map-take : (n : ℕ) (xs : List A) → take n (map f xs) ≡ map f (take n xs)
  map-take zero xs = refl
  map-take (suc n) [] = refl
  map-take (suc n) (x ∷ xs) = ap (λ r. f x ∷ r) (map-take n xs)

  map-drop : (n : ℕ) (xs : List A) → drop n (map f xs) ≡ map f (drop n xs)
  map-drop zero xs = refl
  map-drop (suc n) [] = refl
  map-drop (suc n) (x ∷ xs) = map-drop n xs

  map-slice :
      (xs : List A) (start size : ℕ) → slice (map f xs) start size ≡ map f (slice xs start size)
  map-slice xs start size = ap (take size) (map-drop start xs) ∙ map-take size (drop start xs)

module _ {N : Type 0} where
  -- A gNB with its traffic: the traffic of the first gNB is that of index 1.
  abbrev pub with_traffic : List TesterGnbTraffic → TesterGnbStatus N → GnbRow N
  with_traffic traffic g = record {
    g = g;
    traffic = if g.index == 0 then none else get_elem? traffic (g.index - 1);
  }

  row_of-with_traffic :
      (traffic : List TesterGnbTraffic) (gnbs : List (TesterGnbStatus N))
      → map (row_of traffic) gnbs ≡ map (with_traffic traffic) gnbs
  row_of-with_traffic traffic [] = refl
  row_of-with_traffic traffic (g ∷ gnbs) =
      rw (at g.index refl, row_of-with_traffic traffic gnbs) refl
    where
      at :
          (i : ℕ)
          → g.index ≡ i
          → at_index traffic g.index
            ≡ (if g.index == 0 then none else get_elem? traffic (g.index - 1))
      at zero e = rw (e) refl
      at (suc i) e =
          let more : (suc i == 0) ≡ false = ground arith in
          let back : suc i - 1 ≡ i = omega arith in rw (e, more, back) refl

  -- Of a tester that sends every gNB, the table is the page of the gNBs with a wanted state that
  -- the other tables of the frontend would show, each with the traffic of its index,
  -- counted from 1.
  pub pager-page_of :
      (gnb_page : ℕ) (states : Text) (s : TesterRunSnapshot N)
      → s.gnb_total ≡ none
      → 1 ≤ gnb_page
      → pager gnb_page states s
        ≡ page_of
            (map (with_traffic s.dataplane.gnbs) (keep (is_wanted states) s.gnbs))
            gnb_page
            gnb_page_size
  unfolding pager gnb_pages page_of
  pager-page_of gnb_page states s old pos =
      let f = row_of s.dataplane.gnbs in
      let xs = keep (is_wanted states) s.gnbs in
      let e₁ : length (map f xs) ≡ length xs = length-map xs f in
      let e₂ : max 1 gnb_page ≡ gnb_page = omega arith in
      let e₃ = map-slice f xs in
      let rows = row_of-with_traffic s.dataplane.gnbs xs in rw (old) (rw (← rows, e₁, e₂, e₃) refl)

  -- How many of the gNBs are in a state.
  abbrev pub in_state : Text → List (TesterGnbStatus N) → ℕ
  in_state k [] = 0
  in_state k (g ∷ gnbs) = let rest = in_state k gnbs in if text_eq k g.state then suc rest else rest

  or_zero-tally :
      (k : Text) (gnbs : List (TesterGnbStatus N)) (m : Object ℕ)
      → or_zero (get k (tally gnbs m)) ≡ in_state k gnbs + or_zero (get k m)
  unfolding tally
  or_zero-tally k [] m = omega arith
  or_zero-tally k (g ∷ gnbs) m =
      let n = or_zero (get g.state m) + 1 in
      let rest = or_zero-tally k gnbs (put g.state n m) in
      elim (Bool-cases (text_eq k g.state)) [
        | inl e ↦
            let same : k ≡ g.state = (text_eq_iff k g.state).0 e in
            let here : or_zero (get k (put g.state n m)) ≡ or_zero (get k m) + 1 =
              ap (λ j. or_zero (get j (put g.state n m))) same
              ∙ ap or_zero (get-put g.state n m)
              ∙ ap (λ j. or_zero (get j m) + 1) (sym same) in
            rw (e) (omega (arith, rest, here))
        | inr e ↦
            let here = ap or_zero (get-put_other g.state k n m e) in
            rw (e) (omega (arith, rest, here))
      ]

  -- Of a tester that sends every gNB, the count of a state is the number of gNBs in it.
  pub counts_of_lem :
      (s : TesterRunSnapshot N) (k : Text) → or_zero (get k (counts_of none s)) ≡ in_state k s.gnbs
  counts_of_lem s k =
      let e = or_zero-tally k s.gnbs [] in
      let none_yet : or_zero (get k []) ≡ 0 = unfold get in refl in omega arith

  -- The page that is asked for exists, once the effect has run on a paged snapshot.
  pub keep_page_le :
      (S : Type 0) (states : Text) (s : TesterRunSnapshot N) (stream : Stream S)
      → is_some s.gnb_total ≡ true
      → (keep_page states s stream).gnb_page ≤ gnb_pages states s
  unfolding keep_page show_gnbs
  keep_page_le S states s stream paged =
      elim (Bool-cases (ltb (gnb_pages states s) stream.gnb_page)) [
        | inl e ↦ rw (paged, e) (omega arith)
        | inr e ↦ let le : stream.gnb_page ≤ gnb_pages states s = ground arith in rw (paged, e) le
      ]
