-- ===== src/Context/Tests.antt =====
-- The context budget and the assembly of a prompt on concrete segments.
use eidolon_agent.Base.{
  ℕ, ◌+◌, ◌-◌, ◌≤◌, ◌≡◌, refl, true, Option, some, List, [], ◌∷◌, ◌++◌, String, length, All,
}
use eidolon_agent.Base.Json.{null}
use eidolon_agent.Context.{
  ContextSegment, SegmentKind, persona, history, memory, realtime, current_user, stable,
  append_only, volatile, current,
}
use eidolon_agent.Context.Budget.{
  prune, total_token_estimate, enumerate_from, by_priority, place, admit,
}
use eidolon_agent.Context.Budget.Fits.{HasNoRoom, prune_fits, prune_is_maximal}
use eidolon_agent.Context.Assemble.{system_parts, by_rank, put_part, ranked_parts}
use eidolon_agent.Context.Assemble.Prefix.{class_texts, system_parts_by_class}

abbrev segment : SegmentKind → ℕ → ℕ → ContextSegment
segment kind tokens priority = record {
  kind = kind;
  content = "";
  source = "";
  token_estimate = tokens;
  priority = priority;
  droppable = true;
  metadata = null;
}

abbrev turn : List ContextSegment
turn =
    segment persona 50 100
    ∷ segment realtime 20 70
    ∷ segment memory 40 80
    ∷ segment history 30 60
    ∷ segment current_user 10 100
    ∷ []

-- The memory does not fit beside the persona and the request, the two others do.
realtime_and_history : total_token_estimate (prune 110 turn) ≡ 100
unfolding prune enumerate_from by_priority place admit
realtime_and_history = refl

abbrev bloated : List ContextSegment
bloated = segment persona 50 100 ∷ segment memory 0 80 ∷ []

only_mandatory : (prune 40 bloated).budget_overflow_tokens ≡ 10
unfolding prune enumerate_from by_priority place admit
only_mandatory = refl

prune_fits_example :
    (total_token_estimate (prune 40 turn) ≤ 40 + (prune 40 turn).budget_overflow_tokens)
    × ((prune 40 turn).budget_overflow_tokens ≡ 60 - 40)
prune_fits_example = prune_fits 40 turn

prune_is_maximal_example :
    (length (prune 110 turn).kept_segments + length (prune 110 turn).dropped_segments ≡ 5)
    × All (HasNoRoom 110 (total_token_estimate (prune 110 turn))) (prune 110 turn).dropped_segments
prune_is_maximal_example = prune_is_maximal 110 turn

abbrev kept : List (ContextSegment × Option String)
kept =
    (segment realtime 20 70, some "mood")
    ∷ (segment persona 50 100, some "persona")
    ∷ (segment current_user 10 100, some "request")
    ∷ []

prompt : system_parts kept (some "history") ≡ "persona" ∷ "history" ∷ "mood" ∷ "request" ∷ []
unfolding system_parts by_rank put_part ranked_parts
prompt = refl

system_parts_by_class_example :
    system_parts kept (some "history")
    ≡ (class_texts stable kept ++ (class_texts append_only kept ++ ("history" ∷ [])))
      ++ (class_texts volatile kept ++ class_texts current kept)
system_parts_by_class_example = system_parts_by_class kept (some "history")
