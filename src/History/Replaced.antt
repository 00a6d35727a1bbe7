-- ===== src/History/Replaced.antt =====
-- What the update of a turn leaves in its window.
use eidolon_agent.Base.{
  ◌-◌, ◌≤◌, ◌≡◌, ◌⊎◌, inl, inr, refl, sym, ap, ◌∙◌, subst, false, List, [], ◌∷◌, String, arith,
  if◌then◌else◌, or_else, length, length-drop, All, Bool-cases, str_eq, eq_refl,
}
use eidolon_agent.Base.Dict.{lookup-insert}
use eidolon_agent.History.{
  HistoryMessage, Ordering, History, last_of, window_of, is_of_turn, retained, merge_tail,
  replace_turn,
}
use eidolon_agent.History.Window.{All-last_of, All-merge_tail}

abbrev pub IsIn : HistoryMessage → List HistoryMessage → Type 0
IsIn m [] = ⊥
IsIn m (x ∷ xs) = (m ≡ x) ⊎ IsIn m xs

-- A message of another turn that was there before, or one of those given.
abbrev pub IsKept :
    Ordering → String → List HistoryMessage → List HistoryMessage → HistoryMessage → Type 0
IsKept py turn_id before given m =
    ((is_of_turn py turn_id m ≡ false) × IsIn m before) ⊎ IsIn m given

-- The window of the updated conversation, and that of any other one.
abbrev pub IsReplaced :
    Ordering → String → String → List HistoryMessage → History → History → String → Type 0
IsReplaced py c turn_id given h h' other =
    All (IsKept py turn_id (window_of c h) given) (window_of c h')
    × (length (window_of c h') ≤ h.window_size)
    × (window_of other h' ≡ (if str_eq c other then window_of c h' else window_of other h))

one_more_before :
    (py : Ordering) (t : String) (x : HistoryMessage) (before given ms : List HistoryMessage)
    → All (IsKept py t before given) ms
    → All (IsKept py t (x ∷ before) given) ms
one_more_before py t x before given [] a = tt
one_more_before py t x before given (m ∷ ms) (inl (e, i), a) =
    (inl (e, inr i), one_more_before py t x before given ms a)
one_more_before py t x before given (m ∷ ms) (inr i, a) =
    (inr i, one_more_before py t x before given ms a)

retained-IsKept :
    (py : Ordering) (t : String) (before given : List HistoryMessage)
    → All (IsKept py t before given) (retained py t before)
retained-IsKept py t [] given = tt
retained-IsKept py t (m ∷ ms) given = elim (Bool-cases (is_of_turn py t m)) [
  | inl e ↦
      rw e (one_more_before py t m ms given (retained py t ms) (retained-IsKept py t ms given))
  | inr e ↦ rw e (
    inl (e, inl refl),
    one_more_before py t m ms given (retained py t ms) (retained-IsKept py t ms given),
  )
]

given-IsKept :
    (py : Ordering) (t : String) (before given : List HistoryMessage)
    → All (IsKept py t before given) given
given-IsKept py t before given = among given (λ m i. i)
  where
    among :
        (ms : List HistoryMessage)
        → ((m : HistoryMessage) → IsIn m ms → IsIn m given)
        → All (IsKept py t before given) ms
    among [] f = tt
    among (m ∷ ms) f = (inr (f m (inl refl)), among ms (λ x i. f x (inr i)))

-- After the update of a turn its conversation's window holds no more messages than it may, each of
-- them one of those given or one of another turn that was there before, so that nothing of an
-- earlier update of the turn is left; the windows of other conversations are as they were.
pub replace_turn-IsReplaced :
    (py : Ordering) (c turn_id : String) (given : List HistoryMessage) (h : History)
    (other : String)
    → IsReplaced py c turn_id given h (replace_turn py c turn_id given h) other
unfolding replace_turn
replace_turn-IsReplaced py c turn_id given h other =
    let before = window_of c h in
    let merged = merge_tail py (retained py turn_id before) given h.window_size in
    let w = last_of h.window_size merged in
    let e : window_of c (replace_turn py c turn_id given h) ≡ w =
      ap (λ o. or_else o []) (lookup-insert c c w h.windows) ∙ rw (eq_refl c) refl in
    (
      subst (All (IsKept py turn_id before given)) (sym e) (
          All-last_of (IsKept py turn_id before given) h.window_size merged (
            All-merge_tail (IsKept py turn_id before given) py (retained py turn_id before) given
              h.window_size (retained-IsKept py turn_id before given)
              (given-IsKept py turn_id before given))),
      subst (λ z. length z ≤ h.window_size) (sym e)
          (omega (arith, length-drop (length merged - h.window_size) merged)),
      ap (λ o. or_else o []) (lookup-insert c other w h.windows)
          ∙ elim (Bool-cases (str_eq c other)) [ inl t ↦ rw t (sym e) | inr t ↦ rw t refl ],
    )
