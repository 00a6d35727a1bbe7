-- ===== src/Context/Budget/Sums.antt =====
-- What the segments that the budget keeps and drops weigh, by any weight of a segment.
use eidolon_agent.Base.{
  ℕ, suc, ◌+◌, ◌<◌, ◌≡◌, refl, sym, ap, ◌∙◌, false, ◌||◌, List, [], ◌∷◌, arith, ◌==◌, ==_iff,
  if◌then◌else◌, Bool-cases, inl, inr,
}
use eidolon_agent.Context.{ContextSegment, is_mandatory}
use eidolon_agent.Context.Budget.{
  Item, enumerate_from, mandatory_of, optional_of, comes_first, place, by_priority, admit,
  has_index, kept_items,
}

-- No index stands twice.
abbrev pub Distinct : List Item → Type 0
Distinct [] = Unit
Distinct ((i, s) ∷ xs) = (has_index i xs ≡ false) × Distinct xs

has_index-place :
    (j : ℕ) (x : Item) (ys : List Item) → has_index j (place x ys) ≡ (j == x.0 || has_index j ys)
unfolding place
has_index-place j x [] = refl
has_index-place j x (y ∷ ys) = ground (arith, has_index-place j x ys)

place-Distinct :
    (x : Item) (ys : List Item) → has_index x.0 ys ≡ false → Distinct ys → Distinct (place x ys)
unfolding place
place-Distinct x [] h d = (refl, tt)
place-Distinct x (y ∷ ys) h (e, d) = elim (Bool-cases (comes_first x y)) [
  | inl t ↦ rw t (h, (e, d))
  | inr t ↦ rw t (
    has_index-place y.0 x ys ∙ ground (arith, ==_iff x.0 y.0, ==_iff y.0 x.0),
    place-Distinct x ys (ground arith) d,
  )
]

has_index-by_priority : (j : ℕ) (xs : List Item) → has_index j (by_priority xs) ≡ has_index j xs
unfolding by_priority
has_index-by_priority j [] = refl
has_index-by_priority j (x ∷ xs) =
    has_index-place j x (by_priority xs) ∙ ap (λ b. j == x.0 || b) (has_index-by_priority j xs)

pub by_priority-Distinct : (xs : List Item) → Distinct xs → Distinct (by_priority xs)
unfolding by_priority
by_priority-Distinct [] d = tt
by_priority-Distinct (x ∷ xs) (h, d) =
    place-Distinct x (by_priority xs) (has_index-by_priority x.0 xs ∙ h) (by_priority-Distinct xs d)

has_index-optional_of :
    (j : ℕ) (xs : List Item) → has_index j xs ≡ false → has_index j (optional_of xs) ≡ false
has_index-optional_of j [] h = refl
has_index-optional_of j ((i, s) ∷ xs) h = ground (arith, has_index-optional_of j xs)

pub optional_of-Distinct : (xs : List Item) → Distinct xs → Distinct (optional_of xs)
optional_of-Distinct [] d = tt
optional_of-Distinct ((i, s) ∷ xs) (h, d) = elim (Bool-cases (is_mandatory s)) [
  | inl t ↦ rw t (optional_of-Distinct xs d)
  | inr t ↦ rw t (has_index-optional_of i xs h, optional_of-Distinct xs d)
]

has_index-enumerate_from :
    (j i : ℕ) (ss : List ContextSegment) → j < i → has_index j (enumerate_from i ss) ≡ false
unfolding enumerate_from
has_index-enumerate_from j i [] h = refl
has_index-enumerate_from j i (s ∷ ss) h =
    ground (arith, ==_iff j i, has_index-enumerate_from j (suc i) ss (omega arith))

pub enumerate_from-Distinct : (i : ℕ) (ss : List ContextSegment) → Distinct (enumerate_from i ss)
unfolding enumerate_from
enumerate_from-Distinct i [] = tt
enumerate_from-Distinct i (s ∷ ss) =
    (has_index-enumerate_from i (suc i) ss (omega arith), enumerate_from-Distinct (suc i) ss)

module _ (weight : ContextSegment → ℕ) where
  abbrev pub weigh : List Item → ℕ
  weigh [] = 0
  weigh ((i, s) ∷ xs) = weight s + weigh xs

  -- The weight of those of the items that have an index among the admitted ones.
  abbrev weigh_in : List Item → List Item → ℕ
  weigh_in admitted [] = 0
  weigh_in admitted ((i, s) ∷ xs) =
      let rest = weigh_in admitted xs in if has_index i admitted then weight s + rest else rest

  weigh_in-place :
      (ad : List Item) (x : Item) (ys : List Item) → weigh_in ad (place x ys) ≡ weigh_in ad (x ∷ ys)
  unfolding place
  weigh_in-place ad x [] = refl
  weigh_in-place ad x (y ∷ ys) = ground (arith, weigh_in-place ad x ys)

  weigh_in-by_priority : (ad xs : List Item) → weigh_in ad (by_priority xs) ≡ weigh_in ad xs
  unfolding by_priority
  weigh_in-by_priority ad [] = refl
  weigh_in-by_priority ad (x ∷ xs) =
      weigh_in-place ad x (by_priority xs) ∙ ground (arith, weigh_in-by_priority ad xs)

  weigh-place : (x : Item) (ys : List Item) → weigh (place x ys) ≡ weight x.1 + weigh ys
  unfolding place
  weigh-place x [] = refl
  weigh-place x (y ∷ ys) = ground (arith, weigh-place x ys)

  pub weigh-by_priority : (xs : List Item) → weigh (by_priority xs) ≡ weigh xs
  unfolding by_priority
  weigh-by_priority [] = refl
  weigh-by_priority (x ∷ xs) =
      weigh-place x (by_priority xs) ∙ ap (λ n. weight x.1 + n) (weigh-by_priority xs)

  pub weigh-mandatory :
      (xs : List Item) → weigh (mandatory_of xs) + weigh (optional_of xs) ≡ weigh xs
  weigh-mandatory [] = omega arith
  weigh-mandatory ((i, s) ∷ xs) = ground (arith, weigh-mandatory xs)

  weigh-kept :
      (ad xs : List Item)
      → weigh (kept_items ad xs) ≡ weigh (mandatory_of xs) + weigh_in ad (optional_of xs)
  weigh-kept ad [] = omega arith
  weigh-kept ad ((i, s) ∷ xs) = ground (arith, weigh-kept ad xs)

  weigh_in_other :
      (ad xs : List Item) (i : ℕ) (s : ContextSegment)
      → has_index i xs ≡ false
      → weigh_in ((i, s) ∷ ad) xs ≡ weigh_in ad xs
  weigh_in_other ad [] i s h = refl
  weigh_in_other ad ((j, t) ∷ xs) i s h =
      ground (arith, ==_iff i j, ==_iff j i, weigh_in_other ad xs i s)

  has_index-admitted :
      (max used j : ℕ) (xs : List Item)
      → has_index j xs ≡ false
      → has_index j (admit max used xs).admitted ≡ false
  unfolding admit
  has_index-admitted max used j [] h = refl
  has_index-admitted max used j ((i, s) ∷ xs) h = ground (
    arith,
    has_index-admitted max (used + s.token_estimate) j xs,
    has_index-admitted max used j xs,
  )

  weigh_in-admitted :
      (max used : ℕ) (xs : List Item)
      → Distinct xs
      → weigh_in (admit max used xs).admitted xs ≡ weigh (admit max used xs).admitted
  unfolding admit
  weigh_in-admitted max used [] d = refl
  weigh_in-admitted max used ((i, s) ∷ xs) (h, d) =
      let more = used + s.token_estimate in
      ground (
        arith,
        ==_iff i i,
        weigh_in_other (admit max more xs).admitted xs i s h,
        has_index-admitted max used i xs h,
        weigh_in-admitted max more xs d,
        weigh_in-admitted max used xs d,
      )

  pub weigh-admit :
      (max used : ℕ) (xs : List Item)
      → weigh (admit max used xs).admitted + weigh (admit max used xs).rejected ≡ weigh xs
  unfolding admit
  weigh-admit max used [] = omega arith
  weigh-admit max used ((i, s) ∷ xs) =
      ground (arith, weigh-admit max (used + s.token_estimate) xs, weigh-admit max used xs)

  -- The kept segments weigh as much as the mandatory and the admitted ones.
  pub weigh-kept_items :
      (max used : ℕ) (ss : List ContextSegment)
      → let items = enumerate_from 0 ss in
        let sorted = by_priority (optional_of items) in
        weigh (kept_items (admit max used sorted).admitted items)
        ≡ weigh (mandatory_of items) + weigh (admit max used sorted).admitted
  weigh-kept_items max used ss =
      let items = enumerate_from 0 ss in
      let optional = optional_of items in
      let ad = (admit max used (by_priority optional)).admitted in
      weigh-kept ad items
      ∙ ap (λ n. weigh (mandatory_of items) + n)
          (sym (weigh_in-by_priority ad optional)
            ∙ weigh_in-admitted max used (by_priority optional) (
                by_priority-Distinct optional
                  (optional_of-Distinct items (enumerate_from-Distinct 0 ss))))
