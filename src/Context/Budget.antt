-- ===== src/Context/Budget.antt =====
-- `ContextBudget.prune` and `ContextLedger` of eidolon_agent/domain/context/types.py, and
-- `_apply_budget` of eidolon_agent/domain/context/compiler.py. A segment's identity is its index:
-- the segments of a compilation are distinct objects.
pub mod Sums
pub mod Fits
use eidolon_agent.Base.{
  ℕ, suc, ◌+◌, ◌-◌, Bool, true, false, not, ◌||◌, Option, none, some, List, [], ◌∷◌, ◌++◌, String,
  map, leb, ltb, ◌==◌, if◌then◌else◌, any, length, str_mem,
}
use eidolon_agent.Context.{ContextSegment, SegmentKind, DroppedSegment, is_mandatory}

pub record Ledger : Type 0 where
  pub kept_segments : List ContextSegment
  pub dropped_segments : List DroppedSegment
  pub degraded_sources : List String
  pub budget_overflow_tokens : ℕ

-- `sum(s.token_estimate for s in segments)`
abbrev pub total_tokens : List ContextSegment → ℕ
total_tokens [] = 0
total_tokens (s ∷ ss) = s.token_estimate + total_tokens ss

-- `total_token_estimate`
abbrev pub total_token_estimate : Ledger → ℕ
total_token_estimate l = total_tokens l.kept_segments

abbrev pub mark_degraded : String → Ledger → Ledger
mark_degraded source l =
    if str_mem source l.degraded_sources
    then l
    else record l { degraded_sources = l.degraded_sources ++ (source ∷ []) }

abbrev pub Item : Type 0
Item = ℕ × ContextSegment

unfoldable pub enumerate_from : ℕ → List ContextSegment → List Item
enumerate_from i [] = []
enumerate_from i (s ∷ ss) = (i, s) ∷ enumerate_from (suc i) ss

abbrev pub mandatory_of : List Item → List Item
mandatory_of [] = []
mandatory_of ((i, s) ∷ xs) = if is_mandatory s then (i, s) ∷ mandatory_of xs else mandatory_of xs

abbrev pub optional_of : List Item → List Item
optional_of [] = []
optional_of ((i, s) ∷ xs) = if is_mandatory s then optional_of xs else (i, s) ∷ optional_of xs

-- Does the item sort before the other, by the key `(-priority, idx)`?
abbrev pub comes_first : Item → Item → Bool
comes_first (i, s) (j, t) =
    if ltb t.priority s.priority
    then true
    else (if s.priority == t.priority then leb i j else false)

unfoldable pub place : Item → List Item → List Item
place x [] = x ∷ []
place x (y ∷ ys) = let rest = place x ys in if comes_first x y then x ∷ y ∷ ys else y ∷ rest

-- `optional.sort(key=…)`
unfoldable pub by_priority : List Item → List Item
unfolding place
by_priority [] = []
by_priority (x ∷ xs) = place x (by_priority xs)

abbrev pub dropped_of : ContextSegment → DroppedSegment
dropped_of s = record {
  kind = s.kind;
  source = s.source;
  token_estimate = s.token_estimate;
  reason = "token_budget_exceeded";
}

-- The state of the loop: the tokens used, and the items that were admitted and that were dropped.
pub record Admission : Type 0 where
  pub used : ℕ
  pub admitted : List Item
  pub rejected : List Item

-- `for _idx, seg in optional`
unfoldable pub admit : ℕ → ℕ → List Item → Admission
admit max_tokens used [] = record { used = used; admitted = []; rejected = [] }
admit max_tokens used ((i, s) ∷ xs) =
    let fitting = admit max_tokens (used + s.token_estimate) xs in
    let skipping = admit max_tokens used xs in
    if leb (used + s.token_estimate) max_tokens
    then record fitting { admitted = (i, s) ∷ fitting.admitted }
    else record skipping { rejected = (i, s) ∷ skipping.rejected }

abbrev pub segments_of : List Item → List ContextSegment
segments_of [] = []
segments_of ((i, s) ∷ xs) = s ∷ segments_of xs

-- `id(s) in kept_ids`, of a segment that is mandatory or has been admitted
abbrev pub has_index : ℕ → List Item → Bool
has_index i [] = false
has_index i ((j, s) ∷ xs) = i == j || has_index i xs

abbrev pub kept_items : List Item → List Item → List Item
kept_items admitted [] = []
kept_items admitted ((i, s) ∷ xs) =
    if is_mandatory s || has_index i admitted
    then (i, s) ∷ kept_items admitted xs
    else kept_items admitted xs

abbrev pub admission : ℕ → List ContextSegment → Admission
admission max_tokens segments =
    let items = enumerate_from 0 segments in
    admit max_tokens (total_tokens (segments_of (mandatory_of items)))
      (by_priority (optional_of items))

-- The segments that are kept, as the ledger has them too.
unfoldable pub prune : ℕ → List ContextSegment → Ledger
unfolding enumerate_from by_priority admit
prune max_tokens segments =
    let items = enumerate_from 0 segments in
    let result = admission max_tokens segments in
    record {
      kept_segments = segments_of (kept_items result.admitted items);
      dropped_segments = map dropped_of (segments_of result.rejected);
      degraded_sources = [];
      budget_overflow_tokens = total_tokens (segments_of (mandatory_of items)) - max_tokens;
    }

-- `_budget_totals`
abbrev pub protected_token_estimate : List ContextSegment → ℕ
protected_token_estimate [] = 0
protected_token_estimate (s ∷ ss) =
    let rest = protected_token_estimate ss in
    if is_mandatory s then s.token_estimate + rest else rest

abbrev pub optional_token_estimate : List ContextSegment → ℕ
optional_token_estimate segments = total_tokens segments - protected_token_estimate segments

-- What the guard of `_apply_budget` reports.
pub record Guard : Type 0 where
  pub configured : Bool
  pub applied : Bool
  pub max_tokens : Option ℕ
  pub kept_token_estimate : ℕ
  pub protected : ℕ
  pub optional : ℕ
  pub dropped_count : ℕ
  pub shadow_dropped_count : ℕ
  pub shadow_dropped_kinds : List SegmentKind

abbrev pub unbudgeted : List ContextSegment → Ledger
unbudgeted segments = record {
  kept_segments = segments;
  dropped_segments = [];
  degraded_sources = [];
  budget_overflow_tokens = 0;
}

-- With the budget's tokens, if it is configured, and whether its mode is `enabled`; none for the
-- ValueError of a budget of no tokens.
unfoldable pub apply_budget :
    Option ℕ → Bool → List ContextSegment → Option (List ContextSegment × Ledger × Guard)
unfolding prune
apply_budget none enabled segments = some (
  segments,
  unbudgeted segments,
  record {
    configured = false;
    applied = false;
    max_tokens = none;
    kept_token_estimate = total_token_estimate (unbudgeted segments);
    protected = protected_token_estimate segments;
    optional = optional_token_estimate segments;
    dropped_count = 0;
    shadow_dropped_count = 0;
    shadow_dropped_kinds = [];
  },
)
apply_budget (some max_tokens) enabled segments =
    let pruned = prune max_tokens segments in
    let ledger = if enabled then pruned else unbudgeted segments in
    if ltb max_tokens 1
    then none
    else some (
      if enabled then pruned.kept_segments else segments,
      ledger,
      record {
        configured = true;
        applied = enabled;
        max_tokens = some max_tokens;
        kept_token_estimate = total_token_estimate ledger;
        protected = protected_token_estimate segments;
        optional = optional_token_estimate segments;
        dropped_count = if enabled then length pruned.dropped_segments else 0;
        shadow_dropped_count = length pruned.dropped_segments;
        shadow_dropped_kinds = map (λ (d : DroppedSegment). d.kind) pruned.dropped_segments;
      },
    )
