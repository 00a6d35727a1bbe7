-- ===== src/History/Tests.antt =====
-- The history windows on concrete messages.
use eidolon_agent.Base.{
  ℕ, ◌≡◌, refl, true, false, none, some, List, [], ◌∷◌, String, arith, map, strip,
}
use eidolon_agent.Base.Dict.{lookup, insert}
use eidolon_agent.History.{
  HistoryMessage, Ordering, History, cached_window, place_message, sort_messages, keyed_messages,
  merge_tail, replace_turn, recent_window,
}
use eidolon_agent.History.Window.{IsShown, recent_window-IsShown}
use eidolon_agent.History.Replaced.{IsReplaced, replace_turn-IsReplaced}

abbrev message : String → String → ℕ → ℕ → HistoryMessage
message id turn_id seq now = record {
  id = id;
  role = "user";
  content = id;
  created_at = now;
  turn_id = some turn_id;
  seq_in_turn = some seq;
  turn_started_at = none;
  is_private = false;
}

abbrev python : Ordering
python = record { text_before = λ _ _. true; int_text = λ _. "0"; read_time = λ _. none }

abbrev empty : History
empty = record { windows = []; window_size = 2 }

abbrev started : History
started = replace_turn python "c" "t1" (message "a" "t1" 0 5 ∷ []) empty

abbrev ids : List HistoryMessage → List String
ids ms = map (λ (m : HistoryMessage). m.id) ms

-- The message that only the database has comes first, by its time.
hydrated_first :
    ids
      (recent_window python "c" 3 none (some (some (message "old" "t0" 0 1 ∷ []))) started started)
    ≡ "old" ∷ "a" ∷ []
unfolding recent_window cached_window merge_tail keyed_messages sort_messages place_message
    replace_turn insert lookup strip
hydrated_first = refl

-- An answer that was cut off before it was heard is taken back.
taken_back : ids (cached_window "c" 3 none (replace_turn python "c" "t1" [] started)) ≡ []
unfolding recent_window cached_window merge_tail keyed_messages sort_messages place_message
    replace_turn insert lookup strip
taken_back = refl

recent_window-IsShown_example :
    IsShown 3 (some "t1") (recent_window python "c" 3 (some "t1") (some none) started started)
recent_window-IsShown_example =
    recent_window-IsShown python "c" 3 (some "t1") (some none) started started (omega arith)

replace_turn-IsReplaced_example :
    IsReplaced python "c" "t1" [] started (replace_turn python "c" "t1" [] started) "other"
replace_turn-IsReplaced_example = replace_turn-IsReplaced python "c" "t1" [] started "other"
