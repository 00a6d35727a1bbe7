-- ===== src/Context/Budget/Fits.antt =====
-- A prompt that is pruned fits its budget as far as the mandatory segments let it, and no segment
-- was dropped that there is room for.
use eidolon_agent.Base.{
  ℕ, suc, ◌+◌, ◌-◌, ◌≤◌, ◌<◌, ◌≡◌, refl, sym, ap, ◌∙◌, subst, List, [], ◌∷◌, map, arith, length,
  length-map, All,
}
use eidolon_agent.Context.{ContextSegment, DroppedSegment}
use eidolon_agent.Context.Budget.{
  Item, total_tokens, total_token_estimate, enumerate_from, mandatory_of, optional_of, by_priority,
  dropped_of, admit, admission, segments_of, kept_items, prune, protected_token_estimate,
}
use eidolon_agent.Context.Budget.Sums.{
  weigh, weigh-by_priority, weigh-mandatory, weigh-admit, weigh-kept_items,
}

abbrev tokens : ContextSegment → ℕ
tokens s = s.token_estimate

abbrev one : ContextSegment → ℕ
one s = 1

total_tokens-segments_of : (xs : List Item) → total_tokens (segments_of xs) ≡ weigh tokens xs
total_tokens-segments_of [] = refl
total_tokens-segments_of ((i, s) ∷ xs) =
    ap (λ n. s.token_estimate + n) (total_tokens-segments_of xs)

length-segments_of : (xs : List Item) → length (segments_of xs) ≡ weigh one xs
length-segments_of [] = refl
length-segments_of ((i, s) ∷ xs) = omega (arith, length-segments_of xs)

weigh-enumerate_from :
    (i : ℕ) (ss : List ContextSegment) → weigh one (enumerate_from i ss) ≡ length ss
unfolding enumerate_from
weigh-enumerate_from i [] = refl
weigh-enumerate_from i (s ∷ ss) = omega (arith, weigh-enumerate_from (suc i) ss)

weigh-protected :
    (i : ℕ) (ss : List ContextSegment)
    → weigh tokens (mandatory_of (enumerate_from i ss)) ≡ protected_token_estimate ss
unfolding enumerate_from
weigh-protected i [] = refl
weigh-protected i (s ∷ ss) = ground (arith, weigh-protected (suc i) ss)

used-admitted :
    (max used : ℕ) (xs : List Item)
    → (admit max used xs).used ≡ used + weigh tokens (admit max used xs).admitted
unfolding admit
used-admitted max used [] = omega arith
used-admitted max used ((i, s) ∷ xs) =
    ground (arith, used-admitted max (used + s.token_estimate) xs, used-admitted max used xs)

used_grows : (max used : ℕ) (xs : List Item) → used ≤ (admit max used xs).used
used_grows max used xs = omega (arith, used-admitted max used xs)

used_bound : (max used : ℕ) (xs : List Item) → (admit max used xs).used ≤ max + (used - max)
unfolding admit
used_bound max used [] = omega arith
used_bound max used ((i, s) ∷ xs) =
    ground (arith, used_bound max (used + s.token_estimate) xs, used_bound max used xs)

-- No room for the segment, in a prompt of that size.
abbrev pub HasNoRoom : ℕ → ℕ → DroppedSegment → Type 0
HasNoRoom max used d = max < used + d.token_estimate

rejected_no_room :
    (max used : ℕ) (xs : List Item)
    → All
        (HasNoRoom max (admit max used xs).used)
        (map dropped_of (segments_of (admit max used xs).rejected))
unfolding admit
rejected_no_room max used [] = tt
rejected_no_room max used ((i, s) ∷ xs) = ground (
  arith,
  used_grows max used xs,
  rejected_no_room max (used + s.token_estimate) xs,
  rejected_no_room max used xs,
)

kept_total :
    (max : ℕ) (ss : List ContextSegment)
    → total_token_estimate (prune max ss) ≡ (admission max ss).used
unfolding prune
kept_total max ss =
    let items = enumerate_from 0 ss in
    let used = total_tokens (segments_of (mandatory_of items)) in
    let sorted = by_priority (optional_of items) in
    total_tokens-segments_of (kept_items (admit max used sorted).admitted items)
    ∙ weigh-kept_items tokens max used ss
    ∙ ap (λ n. n + weigh tokens (admit max used sorted).admitted)
        (sym (total_tokens-segments_of (mandatory_of items)))
    ∙ sym (used-admitted max used sorted)

-- The tokens of the kept segments are at most the budget and the overflow that the ledger reports,
-- and that overflow is what the mandatory segments take beyond the budget; so a prompt over its
-- budget is over it by those alone.
pub prune_fits :
    (max : ℕ) (ss : List ContextSegment)
    → (total_token_estimate (prune max ss) ≤ max + (prune max ss).budget_overflow_tokens)
      × ((prune max ss).budget_overflow_tokens ≡ protected_token_estimate ss - max)
unfolding prune
prune_fits max ss =
    let items = enumerate_from 0 ss in
    let used = total_tokens (segments_of (mandatory_of items)) in
    (
      omega (arith, kept_total max ss, used_bound max used (by_priority (optional_of items))),
      ap (λ n. n - max) (total_tokens-segments_of (mandatory_of items) ∙ weigh-protected 0 ss),
    )

-- Each segment is kept or dropped, by number, and no dropped one would fit into the budget beside
-- those that were kept.
pub prune_is_maximal :
    (max : ℕ) (ss : List ContextSegment)
    → (length (prune max ss).kept_segments + length (prune max ss).dropped_segments ≡ length ss)
      × All (HasNoRoom max (total_token_estimate (prune max ss))) (prune max ss).dropped_segments
unfolding prune
prune_is_maximal max ss =
    let items = enumerate_from 0 ss in
    let used = total_tokens (segments_of (mandatory_of items)) in
    let optional = optional_of items in
    let sorted = by_priority optional in
    let result = admit max used sorted in
    (
      omega (
        arith,
        length-segments_of (kept_items result.admitted items),
        length-map (segments_of result.rejected) dropped_of,
        length-segments_of result.rejected,
        weigh-kept_items one max used ss,
        weigh-admit one max used sorted,
        weigh-by_priority one optional,
        weigh-mandatory one items,
        weigh-enumerate_from 0 ss,
      ),
      subst (λ n. All (HasNoRoom max n) (map dropped_of (segments_of result.rejected)))
          (sym (kept_total max ss)) (rejected_no_room max used sorted),
    )
