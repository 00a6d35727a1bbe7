-- ===== src/History/Window.antt =====
-- What a read of the history shows.
use eidolon_agent.Base.{
  ℕ, zero, suc, ◌-◌, ◌≤◌, ◌<◌, ◌≡◌, true, not, ◌&&◌, Option, none, some, List, [], ◌∷◌, ◌++◌,
  String, arith, leb, ◌==◌, ==_iff, length, drop, length-drop, keep_if, keep_if-All, All,
  All-append, if-elim, Bool-cases, inl, inr, str_eq,
}
use eidolon_agent.Base.Dict.{Dict, insert}
use eidolon_agent.History.{
  HistoryMessage, Ordering, History, last_of, last_slice, window_of, belongs_to_turn,
  public_messages, cached_window, stable_message_key, ordered, place_message, sort_messages,
  keyed_messages, values_of, merge_tail, merged_with, recent_window,
}

module _ {κ} (P : HistoryMessage → Type κ) where
  All-drop : (n : ℕ) (ms : List HistoryMessage) → All P ms → All P (drop n ms)
  All-drop zero ms a = a
  All-drop (suc n) [] a = a
  All-drop (suc n) (m ∷ ms) (h, a) = All-drop n ms a

  pub All-last_slice : (n : ℕ) (ms : List HistoryMessage) → All P ms → All P (last_slice n ms)
  All-last_slice n ms a = if-elim (All P) (n == 0) _ _ (λ _. a) (λ _. All-drop (length ms - n) ms a)

  pub All-last_of : (n : ℕ) (ms : List HistoryMessage) → All P ms → All P (last_of n ms)
  All-last_of n ms a = All-drop (length ms - n) ms a

  All-place_message :
      (py : Ordering) (m : HistoryMessage) (ms : List HistoryMessage)
      → P m
      → All P ms
      → All P (place_message py m ms)
  unfolding place_message
  All-place_message py m [] h a = (h, tt)
  All-place_message py m (n ∷ ns) h (k, a) =
      if-elim (All P) (ordered py m n) _ _ (λ _. (h, (k, a)))
        (λ _. (k, All-place_message py m ns h a))

  All-sort_messages :
      (py : Ordering) (ms : List HistoryMessage) → All P ms → All P (sort_messages py ms)
  unfolding sort_messages
  All-sort_messages py [] a = tt
  All-sort_messages py (m ∷ ms) (h, a) =
      All-place_message py m (sort_messages py ms) h (All-sort_messages py ms a)

  All-insert :
      (py : Ordering) (k : String) (m : HistoryMessage) (d : Dict HistoryMessage)
      → P m
      → All P (values_of py d)
      → All P (values_of py (insert k m d))
  unfolding insert
  All-insert py k m [] h a = (h, tt)
  All-insert py k m ((j, n) ∷ d) h (b, a) = elim (Bool-cases (str_eq j k)) [
    | inl t ↦ rw t (h, a)
    | inr t ↦ rw t (b, All-insert py k m d h a)
  ]

  All-keyed_messages :
      (py : Ordering) (ms : List HistoryMessage) (d : Dict HistoryMessage)
      → All P ms
      → All P (values_of py d)
      → All P (values_of py (keyed_messages py ms d))
  unfolding keyed_messages
  All-keyed_messages py [] d a b = b
  All-keyed_messages py (m ∷ ms) d (h, a) b =
      All-keyed_messages py ms (insert (stable_message_key py m) m d) a
        (All-insert py (stable_message_key py m) m d h b)

  pub All-merge_tail :
      (py : Ordering) (hydrated cached : List HistoryMessage) (window : ℕ)
      → All P hydrated
      → All P cached
      → All P (merge_tail py hydrated cached window)
  unfolding merge_tail
  All-merge_tail py hydrated cached window a b = All-last_slice window _ (
      All-sort_messages py _
        (All-keyed_messages py (hydrated ++ cached) [] (All-append P hydrated cached a b) tt))

pub length-last_slice : (n : ℕ) (ms : List HistoryMessage) → 0 < n → length (last_slice n ms) ≤ n
length-last_slice n ms h =
    if-elim (λ (z : List HistoryMessage). length z ≤ n) (n == 0) _ _
      (λ t. absurd (positive ((==_iff n 0).0 t)))
      (λ _. omega (arith, length-drop (length ms - n) ms))
  where
    positive : n ≡ 0 → ⊥
    positive e = omega arith

length-merge_tail :
    (py : Ordering) (hydrated cached : List HistoryMessage) (n : ℕ)
    → 0 < n
    → length (merge_tail py hydrated cached n) ≤ n
unfolding merge_tail
length-merge_tail py hydrated cached n h = length-last_slice n _ h

-- A public message, of no turn that is excluded.
abbrev pub IsVisible : Option String → HistoryMessage → Type 0
IsVisible exclude m = (not m.is_private && not (belongs_to_turn m exclude)) ≡ true

-- At most so many messages, and those visible.
abbrev pub IsShown : ℕ → Option String → List HistoryMessage → Type 0
IsShown window exclude ms = All (IsVisible exclude) ms × (length ms ≤ window)

public-IsVisible :
    (exclude : Option String) (ms : List HistoryMessage)
    → All
        (IsVisible exclude)
        (keep_if (λ (m : HistoryMessage). not (belongs_to_turn m exclude)) (public_messages ms))
public-IsVisible exclude [] = tt
public-IsVisible exclude (m ∷ ms) = ground (arith, public-IsVisible exclude ms)

cached_window-IsShown :
    (c : String) (window : ℕ) (exclude : Option String) (h : History)
    → 0 < window
    → IsShown window exclude (cached_window c window exclude h)
unfolding cached_window
cached_window-IsShown c window exclude h p = (
  All-last_slice (IsVisible exclude) window _ (keep_if-All _ (window_of c h)),
  length-last_slice window _ p,
)

-- A read with a window of one or more shows at most so many messages, each of them public and none
-- of the excluded turn, whatever the database and the cache hold, and however the cache has changed
-- while the database was read.
pub recent_window-IsShown :
    (py : Ordering) (c : String) (window : ℕ) (exclude : Option String)
    (hydration : Option (Option (List HistoryMessage))) (now later : History)
    → 0 < window
    → IsShown window exclude (recent_window py c window exclude hydration now later)
unfolding recent_window
recent_window-IsShown py c window exclude none now later p =
    cached_window-IsShown c window exclude now p
recent_window-IsShown py c window exclude (some hydration) now later p =
    if-elim (IsShown window exclude) (leb window (length (cached_window c window exclude now))) _ _
      (λ _. cached_window-IsShown c window exclude now p) (λ _. by_hydration hydration)
  where
    cached : List HistoryMessage
    cached = cached_window c window exclude later

    by_hydration :
        (o : Option (List HistoryMessage))
        → IsShown window exclude (merged_with py exclude window o cached)
    by_hydration none = cached_window-IsShown c window exclude later p
    by_hydration (some hydrated) =
        let read : List HistoryMessage =
          keep_if (λ (m : HistoryMessage). not (belongs_to_turn m exclude))
            (public_messages hydrated) in
        (
          All-merge_tail (IsVisible exclude) py read cached window
              (public-IsVisible exclude hydrated)
              (cached_window-IsShown c window exclude later p).0,
          length-merge_tail py read cached window p,
        )
