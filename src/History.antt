-- ===== src/History.antt =====
-- `HistoryManager` of eidolon_agent/domain/history/manager.py. A time is its microseconds in UTC, a
-- message's metadata the fields that the manager reads. The order of turn ids, the texts of sequence
-- numbers and the reading of a time are parameters; so is what the hydration comes to, none standing
-- for a timeout or an error.
pub mod Window
pub mod Replaced
mod Tests
use eidolon_agent.Base.{
  ℕ, ◌-◌, ◌+◌, Bool, true, false, not, ◌&&◌, ◌||◌, Option, none, some, List, [], ◌∷◌, ◌++◌, String,
  map, ltb, leb, ◌==◌, if◌then◌else◌, or_else, is_some, str_eq, strip, length, drop, keep_if,
}
use Prim.Native.String.{◌++◌ as ◌+++◌}
use eidolon_agent.Base.Dict.{Dict, lookup, insert, erase}

-- `ChatMessage`, with what the manager reads of its metadata.
pub record HistoryMessage : Type 0 where
  pub id : String
  pub role : String
  pub content : String
  pub created_at : ℕ
  pub turn_id : Option String
  pub seq_in_turn : Option ℕ
  pub turn_started_at : Option String
  pub is_private : Bool

-- What the sort key needs of Python.
pub record Ordering : Type 0 where
  pub text_before : String → String → Bool
  pub int_text : ℕ → String
  pub read_time : String → Option ℕ

pub record History : Type 0 where
  pub windows : Dict (List HistoryMessage)
  pub window_size : ℕ

-- The rightmost messages, as a deque of this length keeps them.
abbrev pub last_of : ℕ → List HistoryMessage → List HistoryMessage
last_of n ms = drop (length ms - n) ms

-- `messages[-window:]`, which is the whole list for a window of 0
abbrev pub last_slice : ℕ → List HistoryMessage → List HistoryMessage
last_slice window ms = if window == 0 then ms else last_of window ms

-- `self._windows.get(conversation_id, ())`
abbrev pub window_of : String → History → List HistoryMessage
window_of conversation_id h = or_else (lookup conversation_id h.windows) []

unfoldable pub append : String → HistoryMessage → History → History
append conversation_id message h =
    let w = window_of conversation_id h ++ (message ∷ []) in
    record h { windows = insert conversation_id (last_of h.window_size w) h.windows }

-- `_belongs_to_turn`
abbrev pub belongs_to_turn : HistoryMessage → Option String → Bool
belongs_to_turn m none = false
belongs_to_turn m (some turn_id) = elim m.turn_id [ none ↦ false | some t ↦ str_eq t turn_id ]

-- `_public_messages`
abbrev pub public_messages : List HistoryMessage → List HistoryMessage
public_messages = keep_if (λ (m : HistoryMessage). not m.is_private)

-- `_cached_window`
unfoldable pub cached_window : String → ℕ → Option String → History → List HistoryMessage
cached_window conversation_id window exclude h = last_slice window (
    keep_if (λ (m : HistoryMessage). not m.is_private && not (belongs_to_turn m exclude))
      (window_of conversation_id h))

unfoldable pub drop_session : String → History → History
drop_session conversation_id h = record h { windows = erase conversation_id h.windows }

module _ (py : Ordering) where
  -- `_stable_message_key`
  abbrev pub stable_message_key : HistoryMessage → String
  stable_message_key m =
      let turn_id = strip (or_else m.turn_id "") in
      let message_key = "message:" +++ m.id in
      if str_eq turn_id "" then message_key else elim m.seq_in_turn [
        | none ↦ message_key
        | some seq ↦ "turn:" +++ turn_id +++ ":" +++ py.int_text seq
      ]

  -- `_message_order`
  abbrev pub parsed_start : Option String → Option ℕ
  parsed_start none = none
  parsed_start (some t) = py.read_time t

  abbrev pub time_of : HistoryMessage → ℕ
  time_of m = or_else (parsed_start m.turn_started_at) m.created_at

  -- Does the first sort before the second, or stand level with it?
  abbrev pub ordered : HistoryMessage → HistoryMessage → Bool
  ordered a b =
      let s = or_else a.turn_id "" in
      let t = or_else b.turn_id "" in
      if ltb (time_of a) (time_of b)
      then true
      else (if ltb (time_of b) (time_of a)
          then false
          else (if str_eq s t
              then leb (or_else a.seq_in_turn 0) (or_else b.seq_in_turn 0)
              else py.text_before s t))

  unfoldable pub place_message : HistoryMessage → List HistoryMessage → List HistoryMessage
  place_message m [] = m ∷ []
  place_message m (n ∷ ns) =
      let rest = place_message m ns in if ordered m n then m ∷ n ∷ ns else n ∷ rest

  unfoldable pub sort_messages : List HistoryMessage → List HistoryMessage
  unfolding place_message
  sort_messages [] = []
  sort_messages (m ∷ ms) = place_message m (sort_messages ms)

  unfoldable pub keyed_messages : List HistoryMessage → Dict HistoryMessage → Dict HistoryMessage
  unfolding strip
  keyed_messages [] d = d
  keyed_messages (m ∷ ms) d = keyed_messages ms (insert (stable_message_key m) m d)

  -- `dict.values()`
  abbrev pub values_of : Dict HistoryMessage → List HistoryMessage
  values_of [] = []
  values_of ((k, m) ∷ d) = m ∷ values_of d

  -- `_merge_tail`
  unfoldable pub merge_tail : List HistoryMessage → List HistoryMessage → ℕ → List HistoryMessage
  unfolding keyed_messages sort_messages
  merge_tail hydrated cached window =
      last_slice window (sort_messages (values_of (keyed_messages (hydrated ++ cached) [])))

  abbrev pub is_of_turn : String → HistoryMessage → Bool
  is_of_turn turn_id m = belongs_to_turn m (some turn_id)

  -- The messages of other turns.
  abbrev pub retained : String → List HistoryMessage → List HistoryMessage
  retained turn_id = keep_if (λ m. not (is_of_turn turn_id m))

  unfoldable pub replace_turn : String → String → List HistoryMessage → History → History
  unfolding merge_tail
  replace_turn conversation_id turn_id messages h =
      let previous = retained turn_id (window_of conversation_id h) in
      let merged = merge_tail previous messages h.window_size in
      record h { windows = insert conversation_id (last_of h.window_size merged) h.windows }

  abbrev pub merged_with :
      Option String → ℕ → Option (List HistoryMessage) → List HistoryMessage → List HistoryMessage
  merged_with exclude window none cached = cached
  merged_with exclude window (some hydrated) cached =
      merge_tail (keep_if (λ m. not (belongs_to_turn m exclude)) (public_messages hydrated)) cached
        window

  -- The answer, with the history when the database has been read.
  abbrev pub hydrated_window :
      String
      → ℕ
      → Option String
      → Option (Option (List HistoryMessage))
      → History
      → List HistoryMessage
      → List HistoryMessage
  hydrated_window conversation_id window exclude none later cached = cached
  hydrated_window conversation_id window exclude (some hydration) later cached =
      if leb window (length cached)
      then cached
      else merged_with exclude window hydration (cached_window conversation_id window exclude later)

  -- `recent_window`, from a cache that may have changed while the database was read. The hydration
  -- is none if no hydrator is wired.
  unfoldable pub recent_window :
      String
      → ℕ
      → Option String
      → Option (Option (List HistoryMessage))
      → History
      → History
      → List HistoryMessage
  unfolding cached_window merge_tail
  recent_window conversation_id window exclude hydration now later =
      hydrated_window conversation_id window exclude hydration later
        (cached_window conversation_id window exclude now)
