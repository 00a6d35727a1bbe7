-- ===== src/Context/Assemble/Prefix.antt =====
-- The part of the prompt that a later turn can reuse: what is stable, then what only grows.
use eidolon_agent.Base.{
  ℕ, zero, suc, ◌≤◌, ◌≡◌, refl, ap, ◌∙◌, Bool, true, false, Option, none, some, List, [], ◌∷◌, ◌++◌,
  String, map, arith, leb, ◌==◌, if◌then◌else◌, All, Bool-cases, inl, inr,
}
use eidolon_agent.Context.{
  ContextSegment, SegmentKind, Volatility, stable, append_only, volatile, current,
  segment_volatility, volatility_rank,
}
use eidolon_agent.Context.Assemble.{Part, ranked_parts, put_part, by_rank, system_parts}

-- The texts of the parts of this rank, in the order in which they were made.
abbrev pub of_rank : ℕ → List Part → List String
of_rank k [] = []
of_rank k ((r, t) ∷ ps) = let rest = of_rank k ps in if r == k then t ∷ rest else rest

abbrev texts : List Part → List String
texts ps = map (λ (p : Part). p.1) ps

-- The texts by their ranks, from this rank on.
abbrev classes_of : List Part → List String
classes_of ps = (of_rank 0 ps ++ of_rank 1 ps) ++ (of_rank 2 ps ++ of_rank 3 ps)

abbrev IsRanked : List Part → Type 0
IsRanked = All (λ (p : Part). p.0 ≤ 3)

-- A sorted list, by the ranks that may stand in it from this one on.
abbrev IsFrom : ℕ → List Part → Type 0
IsFrom k [] = Unit
IsFrom k (p ∷ ps) = (k ≤ p.0) × IsFrom p.0 ps

IsFrom-weaken : (j k : ℕ) (ps : List Part) → j ≤ k → IsFrom k ps → IsFrom j ps
IsFrom-weaken j k [] h w = tt
IsFrom-weaken j k (p ∷ ps) h (a, w) = (omega arith, w)

put_part-IsFrom :
    (k : ℕ) (p : Part) (ps : List Part) → k ≤ p.0 → IsFrom k ps → IsFrom k (put_part p ps)
unfolding put_part
put_part-IsFrom k p [] h w = (h, tt)
put_part-IsFrom k p (q ∷ qs) h (a, w) = elim (Bool-cases (leb p.0 q.0)) [
  | inl t ↦ rw t (h, (ground arith, w))
  | inr t ↦ rw t (a, put_part-IsFrom q.0 p qs (ground arith) w)
]

of_rank-put_part :
    (k : ℕ) (p : Part) (ps : List Part) → of_rank k (put_part p ps) ≡ of_rank k (p ∷ ps)
unfolding put_part
of_rank-put_part k p [] = refl
of_rank-put_part k p (q ∷ qs) = ground (arith, of_rank-put_part k p qs)

of_rank-by_rank : (k : ℕ) (ps : List Part) → of_rank k (by_rank ps) ≡ of_rank k ps
unfolding by_rank
of_rank-by_rank k [] = refl
of_rank-by_rank k (p ∷ ps) =
    of_rank-put_part k p (by_rank ps) ∙ ground (arith, of_rank-by_rank k ps)

by_rank-IsFrom : (ps : List Part) → IsFrom 0 (by_rank ps)
unfolding by_rank
by_rank-IsFrom [] = tt
by_rank-IsFrom (p ∷ ps) = put_part-IsFrom 0 p (by_rank ps) (omega arith) (by_rank-IsFrom ps)

put_part-IsRanked : (p : Part) (ps : List Part) → p.0 ≤ 3 → IsRanked ps → IsRanked (put_part p ps)
unfolding put_part
put_part-IsRanked p [] h w = (h, tt)
put_part-IsRanked p (q ∷ qs) h (a, w) = elim (Bool-cases (leb p.0 q.0)) [
  | inl t ↦ rw t (h, (a, w))
  | inr t ↦ rw t (a, put_part-IsRanked p qs h w)
]

by_rank-IsRanked : (ps : List Part) → IsRanked ps → IsRanked (by_rank ps)
unfolding by_rank
by_rank-IsRanked [] w = tt
by_rank-IsRanked (p ∷ ps) (h, w) = put_part-IsRanked p (by_rank ps) h (by_rank-IsRanked ps w)

none_below : (j k : ℕ) (ps : List Part) → suc j ≤ k → IsFrom k ps → of_rank j ps ≡ []
none_below j k [] h w = refl
none_below j k (p ∷ ps) h (a, w) = ground (arith, none_below j p.0 ps (omega arith) w)

class_of_first :
    (r : ℕ) (t : String) (ps : List Part)
    → r ≤ 3
    → IsFrom r ps
    → t ∷ classes_of ps ≡ classes_of ((r, t) ∷ ps)
class_of_first zero t ps h w = refl
class_of_first (suc zero) t ps h w = rw (none_below 0 1 ps (omega arith) w) refl
class_of_first (suc (suc zero)) t ps h w =
    rw (none_below 0 2 ps (omega arith) w, none_below 1 2 ps (omega arith) w) refl
class_of_first (suc (suc (suc zero))) t ps h w =
    rw
      (
        none_below 0 3 ps (omega arith) w,
        none_below 1 3 ps (omega arith) w,
        none_below 2 3 ps (omega arith) w,
      )
      refl
class_of_first (suc (suc (suc (suc r)))) t ps h w = absurd (omega arith)

texts-classes_of : (k : ℕ) (ps : List Part) → IsFrom k ps → IsRanked ps → texts ps ≡ classes_of ps
texts-classes_of k [] w v = refl
texts-classes_of k (p ∷ ps) (a, w) (h, v) =
    ap (λ z. p.1 ∷ z) (texts-classes_of p.0 ps w v) ∙ class_of_first p.0 p.1 ps h w

rank_bound : (kind : SegmentKind) → volatility_rank kind ≤ 3
rank_bound kind = ground arith

abbrev pub same_class : Volatility → Volatility → Bool
same_class stable stable = true
same_class append_only append_only = true
same_class volatile volatile = true
same_class current current = true
same_class _ _ = false

-- The texts of the kept segments of this class, in their order.
abbrev pub class_texts : Volatility → List (ContextSegment × Option String) → List String
class_texts v [] = []
class_texts v ((seg, none) ∷ ss) = class_texts v ss
class_texts v ((seg, some t) ∷ ss) =
    let rest = class_texts v ss in
    if same_class v (segment_volatility seg.kind) then t ∷ rest else rest

abbrev block_text : Option String → List String
block_text none = []
block_text (some t) = t ∷ []

rank_of_class :
    (kind : SegmentKind)
    → ((volatility_rank kind == 0) ≡ same_class stable (segment_volatility kind))
      × ((volatility_rank kind == 1) ≡ same_class append_only (segment_volatility kind))
      × ((volatility_rank kind == 2) ≡ same_class volatile (segment_volatility kind))
      × ((volatility_rank kind == 3) ≡ same_class current (segment_volatility kind))
rank_of_class kind = ground arith

-- One more part, of the class or not.
abbrev with_text : Bool → String → List String → List String
with_text b t ts = if b then t ∷ ts else ts

with_text-append :
    (b : Bool) (t : String) (ts us : List String)
    → with_text b t (ts ++ us) ≡ with_text b t ts ++ us
with_text-append true t ts us = refl
with_text-append false t ts us = refl

of_rank-ranked_parts :
    (kept : List (ContextSegment × Option String)) (block : Option String)
    → (of_rank 0 (ranked_parts kept block) ≡ class_texts stable kept)
      × (of_rank 1 (ranked_parts kept block) ≡ class_texts append_only kept ++ block_text block)
      × (of_rank 2 (ranked_parts kept block) ≡ class_texts volatile kept)
      × (of_rank 3 (ranked_parts kept block) ≡ class_texts current kept)
unfolding ranked_parts
of_rank-ranked_parts [] none = (refl, refl, refl, refl)
of_rank-ranked_parts [] (some t) = (refl, refl, refl, refl)
of_rank-ranked_parts ((seg, none) ∷ ss) block = of_rank-ranked_parts ss block
of_rank-ranked_parts ((seg, some t) ∷ ss) block =
    let (a, b, c, d) = of_rank-ranked_parts ss block in
    let (i, j, k, l) = rank_of_class seg.kind in
    (
      ap (λ z. with_text (volatility_rank seg.kind == 0) t z) a
          ∙ ap (λ z. with_text z t (class_texts stable ss)) i,
      ap (λ z. with_text (volatility_rank seg.kind == 1) t z) b
          ∙ with_text-append (volatility_rank seg.kind == 1) t (class_texts append_only ss)
              (block_text block)
          ∙ ap (λ z. with_text z t (class_texts append_only ss) ++ block_text block) j,
      ap (λ z. with_text (volatility_rank seg.kind == 2) t z) c
          ∙ ap (λ z. with_text z t (class_texts volatile ss)) k,
      ap (λ z. with_text (volatility_rank seg.kind == 3) t z) d
          ∙ ap (λ z. with_text z t (class_texts current ss)) l,
    )

ranked_parts-IsRanked :
    (kept : List (ContextSegment × Option String)) (block : Option String)
    → IsRanked (ranked_parts kept block)
unfolding ranked_parts
ranked_parts-IsRanked [] none = tt
ranked_parts-IsRanked [] (some t) = (omega arith, tt)
ranked_parts-IsRanked ((seg, none) ∷ ss) block = ranked_parts-IsRanked ss block
ranked_parts-IsRanked ((seg, some t) ∷ ss) block =
    (rank_bound seg.kind, ranked_parts-IsRanked ss block)

-- The system parts are the stable ones, those that only grow with the block of the history last,
-- the volatile ones and the current ones, each class in the order in which its parts were made:
-- no volatile part stands before one that a later turn can reuse.
pub system_parts_by_class :
    (kept : List (ContextSegment × Option String)) (block : Option String)
    → system_parts kept block
      ≡ (class_texts stable kept ++ (class_texts append_only kept ++ block_text block))
        ++ (class_texts volatile kept ++ class_texts current kept)
unfolding system_parts
system_parts_by_class kept block =
    let ps = ranked_parts kept block in
    let (a, b, c, d) = of_rank-ranked_parts kept block in
    texts-classes_of 0 (by_rank ps) (by_rank-IsFrom ps)
      (by_rank-IsRanked ps (ranked_parts-IsRanked kept block))
    ∙ rw
        (
          of_rank-by_rank 0 ps,
          of_rank-by_rank 1 ps,
          of_rank-by_rank 2 ps,
          of_rank-by_rank 3 ps,
          a,
          b,
          c,
          d,
        )
        refl
