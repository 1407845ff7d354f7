-- ===== src/Nav/Adjacent.antt =====
-- The neighbours of a page in a table of contents whose targets are distinct.
use kube_cell.Common.{
  ℕ, zero, suc, ◌+◌, ◌-◌, ◌<◌, ◌≤◌, Bool, true, false, not, ◌&&◌, List, [], ◌∷◌, ◌++◌, none, some,
  ◌≡◌, refl, sym, ◌∙◌, arith, Text, text_eq, text_eq_refl, length, length-append, all, any,
  get_elem?, ltb, lt→ltb, and-true, Bool-cases, inl, inr, ◌⊎◌, ◌↔◌, append_assoc,
}
use kube_cell.Nav.{DocLink, find_index, neighbors_at, neighbors_in, docs_flat}

abbrev pub has_distinct_hrefs : List DocLink → Bool
has_distinct_hrefs [] = true
has_distinct_hrefs (x ∷ xs) =
    all (λ (y : DocLink). not (text_eq x.href y.href)) xs && has_distinct_hrefs xs

all_at {ℓ} :
    {A : Type ℓ} (p : A → Bool) (xs : List A) (x : A) (ys : List A)
    → all p (xs ++ x ∷ ys) ≡ true
    → p x ≡ true
all_at p [] x ys h = (and-true _ _ h).0
all_at p (z ∷ xs) x ys h = all_at p xs x ys (and-true _ _ h).1

-- The search passes the pages before the one that it finds.
pub find_index-at :
    (before : List DocLink) (a : DocLink) (after : List DocLink)
    → has_distinct_hrefs (before ++ a ∷ after) ≡ true
    → find_index a.href (before ++ a ∷ after) ≡ some (length before)
unfolding find_index
find_index-at [] a after h = rw (text_eq_refl a.href) refl
find_index-at (x ∷ before) a after h =
    let (apart, rest) = and-true _ _ h in
    let differs = all_at (λ (y : DocLink). not (text_eq x.href y.href)) before a after apart in
    ground (arith, find_index-at before a after rest)

get_elem?-at {ℓ} :
    {A : Type ℓ} (before : List A) (a : A) (after : List A)
    → get_elem? (before ++ a ∷ after) (length before) ≡ some a
get_elem?-at [] a after = refl
get_elem?-at (x ∷ before) a after = get_elem?-at before a after

module _ (before after : List DocLink) (a b : DocLink) where
  split_before : before ++ a ∷ b ∷ after ≡ (before ++ a ∷ []) ++ b ∷ after
  split_before = sym (append_assoc before (a ∷ []) (b ∷ after))

  next_elem : get_elem? (before ++ a ∷ b ∷ after) (length before + 1) ≡ some b
  next_elem =
      let index : length before + 1 ≡ length (before ++ a ∷ []) =
        omega (arith, length-append before (a ∷ [])) in
      rw (index, split_before) (get_elem?-at (before ++ a ∷ []) b after)

  not_last : ltb (length before) (length (before ++ a ∷ b ∷ after) - 1) ≡ true
  not_last = lt→ltb _ _ (omega (arith, length-append before (a ∷ b ∷ after)))

  next_of :
      has_distinct_hrefs (before ++ a ∷ b ∷ after) ≡ true
      → (neighbors_in (before ++ a ∷ b ∷ after) a.href).next ≡ some b
  unfolding neighbors_in
  next_of h = rw (find_index-at before a (b ∷ after) h, not_last) next_elem

  previous_of :
      has_distinct_hrefs (before ++ a ∷ b ∷ after) ≡ true
      → (neighbors_in (before ++ a ∷ b ∷ after) b.href).previous ≡ some a
  unfolding neighbors_in
  previous_of h =
      let index : length (before ++ a ∷ []) ≡ length before + 1 =
        omega (arith, length-append before (a ∷ [])) in
      let found : find_index b.href (before ++ a ∷ b ∷ after) ≡ some (length before + 1) =
        rw (← index, split_before)
          (find_index-at (before ++ a ∷ []) b after (rw split_before at h)) in
      let later : ltb 0 (length before + 1) ≡ true = lt→ltb _ _ (omega arith) in
      let one_back : length before + 1 - 1 ≡ length before = omega arith in
      rw (found, later, one_back) (get_elem?-at before a (b ∷ after))

-- Two pages that follow one another in a table of contents with distinct targets link to one
-- another: the second is the next page of the first, and the first the previous page of the second.
pub neighbors_in_adjacent :
    (before after : List DocLink) (a b : DocLink)
    → has_distinct_hrefs (before ++ a ∷ b ∷ after) ≡ true
    → ((neighbors_in (before ++ a ∷ b ∷ after) a.href).next ≡ some b)
      × ((neighbors_in (before ++ a ∷ b ∷ after) b.href).previous ≡ some a)
neighbors_in_adjacent before after a b h =
    (next_of before after a b h, previous_of before after a b h)

-- A page of the table.
abbrev pub lists : List DocLink → Text → Bool
lists docs pathname = any (λ (item : DocLink). text_eq item.href pathname) docs

find_index-cases :
    (docs : List DocLink) (pathname : Text)
    → ((find_index pathname docs ≡ none) × (lists docs pathname ≡ false))
      ⊎ ((i : ℕ) × (find_index pathname docs ≡ some i)
          × (lists docs pathname ≡ true)
          × (i < length docs))
unfolding find_index
find_index-cases [] pathname = inl (refl, refl)
find_index-cases (x ∷ docs) pathname = elim (Bool-cases (text_eq x.href pathname)) [
  | inl here ↦ inr (0, rw here refl, rw here refl, omega arith)
  | inr there ↦ elim (find_index-cases docs pathname) [
    | inl (missed, none_is) ↦ inl (rw (there, missed) refl, rw there none_is)
    | inr (i, hit, is, short) ↦ inr (suc i, rw (there, hit) refl, rw there is, omega arith)
  ]
]

get_elem?-some {ℓ} :
    {A : Type ℓ} (xs : List A) (i : ℕ) → i < length xs → (a : A) × (get_elem? xs i ≡ some a)
get_elem?-some [] i h = absurd (omega arith)
get_elem?-some (x ∷ xs) zero h = (x, refl)
get_elem?-some (x ∷ xs) (suc i) h = get_elem?-some xs i (omega arith)

-- A page of a table of two or more has a neighbour.
some_neighbor :
    (docs : List DocLink) (i : ℕ)
    → 2 ≤ length docs
    → i < length docs
    → (neighbors_at docs (some i)).previous ≡ none
    → (neighbors_at docs (some i)).next ≡ none
    → ⊥
some_neighbor docs zero two short p n =
    let (d, found) = get_elem?-some docs 1 two in
    let more : ltb 0 (length docs - 1) ≡ true = lt→ltb _ _ (omega arith) in
    let n' : get_elem? docs (0 + 1) ≡ none = rw more at n in let bad = sym n' ∙ found in cc
some_neighbor docs (suc i) two short p n =
    let (d, found) = get_elem?-some docs i (omega arith) in
    let later : ltb 0 (suc i) ≡ true = lt→ltb _ _ (omega arith) in
    let index : suc i - 1 ≡ i = omega arith in
    let p' : get_elem? docs i ≡ none = rw (later, index) at p in let bad = sym p' ∙ found in cc

-- In a table of at least two pages a path has no neighbour exactly if it is none of the pages.
pub neighbors_in-eq-none_iff :
    (docs : List DocLink) (pathname : Text)
    → 2 ≤ length docs
    → (((neighbors_in docs pathname).previous ≡ none) × ((neighbors_in docs pathname).next ≡ none))
      ↔ (lists docs pathname ≡ false)
unfolding neighbors_in
neighbors_in-eq-none_iff docs pathname two = elim (find_index-cases docs pathname) [
  | inl (missed, none_is) ↦ (λ _. none_is, λ _. rw missed (refl, refl))
  | inr (i, hit, is, short) ↦ (
    λ alone. absurd (some_neighbor docs i two short (rw hit at alone.0) (rw hit at alone.1)),
    λ none_is. let bad = sym is ∙ none_is in cc,
  )
]

-- The targets of the documentation's pages are distinct.
pub docs_flat_distinct : has_distinct_hrefs docs_flat ≡ true
unfolding docs_flat
docs_flat_distinct = refl
