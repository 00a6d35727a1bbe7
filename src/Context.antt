-- ===== src/Context.antt =====
-- The segments of a turn's context, of eidolon_agent/domain/context/types.py.
pub mod Budget
pub mod Assemble
mod Tests
use eidolon_agent.Base.{ℕ, Bool, true, false, ◌||◌, not, List, String}
use eidolon_agent.Base.Json.{Json}

-- `ContextSegmentKind`
pub data SegmentKind : Type 0 where
  persona harness_policy response_policy persona_state realtime memory commitment summary history
        coordination current_user :
      SegmentKind

-- The classes of `SEGMENT_ORDER`.
pub data Volatility : Type 0 where
  stable append_only volatile current : Volatility

-- `segment_volatility`, with its table
abbrev pub segment_volatility : SegmentKind → Volatility
segment_volatility persona = stable
segment_volatility harness_policy = stable
segment_volatility history = append_only
segment_volatility current_user = current
segment_volatility _ = volatile

-- `SEGMENT_ORDER.index`
abbrev order_index : Volatility → ℕ
order_index stable = 0
order_index append_only = 1
order_index volatile = 2
order_index current = 3

abbrev pub volatility_rank : SegmentKind → ℕ
volatility_rank kind = order_index (segment_volatility kind)

-- `ContextSegment`
pub record ContextSegment : Type 0 where
  pub kind : SegmentKind
  pub content : String
  pub source : String
  pub token_estimate : ℕ
  pub priority : ℕ
  pub droppable : Bool
  pub metadata : Json

-- `DroppedContextSegment`
pub record DroppedSegment : Type 0 where
  pub kind : SegmentKind
  pub source : String
  pub token_estimate : ℕ
  pub reason : String

-- `mandatory_kinds` of the budget, `protected_kinds` of its totals
abbrev pub is_mandatory_kind : SegmentKind → Bool
is_mandatory_kind persona = true
is_mandatory_kind harness_policy = true
is_mandatory_kind current_user = true
is_mandatory_kind _ = false

abbrev pub is_mandatory : ContextSegment → Bool
is_mandatory seg = is_mandatory_kind seg.kind || not seg.droppable
