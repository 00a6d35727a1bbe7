-- ===== src/Context/Assemble.antt =====
-- How the compiler assembles the messages from the kept segments: the section "Assemble messages"
-- of `compile` in eidolon_agent/domain/context/compiler.py. The text of a segment's system part, the
-- block of the background history and the current request are arguments.
pub mod Prefix
use eidolon_agent.Base.{
  ℕ, Bool, true, false, Option, none, some, List, [], ◌∷◌, ◌++◌, String, map, leb, if◌then◌else◌,
  join, is_some,
}
use eidolon_agent.Context.{ContextSegment, SegmentKind, history, volatility_rank}

abbrev pub Part : Type 0
Part = ℕ × String

-- A kept segment with its system part, if it has one.
abbrev pub ranked_of : List (ContextSegment × Option String) → List Part
ranked_of [] = []
ranked_of ((seg, none) ∷ ss) = ranked_of ss
ranked_of ((seg, some text) ∷ ss) = (volatility_rank seg.kind, text) ∷ ranked_of ss

abbrev history_part : Option String → List Part
history_part none = []
history_part (some block) = (volatility_rank history, block) ∷ []

-- `ranked_parts` before its sort, with the block of the kept history, if there is any.
unfoldable pub ranked_parts : List (ContextSegment × Option String) → Option String → List Part
ranked_parts kept block = ranked_of kept ++ history_part block

unfoldable pub put_part : Part → List Part → List Part
put_part p [] = p ∷ []
put_part p (q ∷ qs) = let rest = put_part p qs in if leb p.0 q.0 then p ∷ q ∷ qs else q ∷ rest

-- `ranked_parts.sort(key=lambda item: item[0])`, which is stable
unfoldable pub by_rank : List Part → List Part
unfolding put_part
by_rank [] = []
by_rank (p ∷ ps) = put_part p (by_rank ps)

-- `system_parts`
unfoldable pub system_parts : List (ContextSegment × Option String) → Option String → List String
unfolding by_rank ranked_parts
system_parts kept block = map (λ (p : Part). p.1) (by_rank (ranked_parts kept block))

pub data Role : Type 0 where
  system user : Role

abbrev pub ContextMessage : Type 0
ContextMessage = Role × String

abbrev user_message : Option String → List ContextMessage
user_message none = []
user_message (some text) = (user, text) ∷ []

-- `out`, with the text of the current request, if its segment is kept.
pub context_messages :
    List (ContextSegment × Option String) → Option String → Option String → List ContextMessage
unfolding system_parts
context_messages kept block request =
    (system, join "\n\n" (system_parts kept block)) ∷ user_message request
