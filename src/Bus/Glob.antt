-- ===== src/Bus/Glob.antt =====
-- Subject patterns: `_matches` of eidolon_agent/infra/events/adapters/inmem.py with the standard
-- library's `fnmatch.fnmatchcase`, whose pattern is first cut into pieces, as `translate` does.
pub mod Fuel
mod Tests
use eidolon_agent.Base.{
  ℕ, zero, suc, ◌≡◌, refl, Bool, true, false, not, ◌&&◌, ◌||◌, Option, none, some, List, [], ◌∷◌,
  ◌++◌, String, code, leb, ◌==◌, if◌then◌else◌, any, length, arith, starts_with, ==_iff,
}

abbrev pub codes : String → List ℕ
codes String.[] = []
codes (String.◌∷◌ c s) = code c ∷ codes s

-- `*`, or one character: a class is negated or not, and lists ranges. A literal is one range, and
-- `?` is the negated empty class.
pub data Piece : Type 0 where
  star : Piece
  one_of : Bool → List (ℕ × ℕ) → Piece

abbrev pub literal : ℕ → Piece
literal c = one_of false ((c, c) ∷ [])

-- The ranges that the text between the brackets lists: `a-z` is a range, anything else itself.
abbrev pub ranges : List ℕ → List (ℕ × ℕ)
ranges (a ∷ dash ∷ b ∷ rest) =
    if dash == b'-' then (a, b) ∷ ranges rest else (a, a) ∷ ranges (dash ∷ b ∷ rest)
ranges (a ∷ rest) = (a, a) ∷ ranges rest
ranges [] = []

-- The text up to the next `]`, and what follows it.
pub until_bracket : List ℕ → Option (List ℕ × List ℕ)
until_bracket [] = none
until_bracket (c ∷ s) =
    if c == b']'
    then some ([], s)
    else elim (until_bracket s) [ none ↦ none | some (body, rest) ↦ some (c ∷ body, rest) ]

-- A `]` that stands first belongs to the class.
pub class_body : List ℕ → Option (List ℕ × List ℕ)
unfolding until_bracket
class_body [] = none
class_body (c ∷ s) = elim (until_bracket s) [
  | none ↦ if c == b']' then none else until_bracket (c ∷ s)
  | some (body, rest) ↦ if c == b']' then some (c ∷ body, rest) else until_bracket (c ∷ s)
]

-- What follows `[`: negation, the class and the rest; `none` if no bracket closes it.
pub class_of : List ℕ → Option (Bool × List ℕ × List ℕ)
unfolding class_body
class_of [] = none
class_of (c ∷ s) =
    if c == b'!'
    then elim (class_body s) [ none ↦ none | some (body, rest) ↦ some (true, body, rest) ]
    else elim (class_body (c ∷ s)) [ none ↦ none | some (body, rest) ↦ some (false, body, rest) ]

-- `fnmatch.translate`, on fuel: the length of the pattern is enough.
pub pieces_fuel : ℕ → List ℕ → List Piece
unfolding class_of
pieces_fuel zero s = []
pieces_fuel (suc n) [] = []
pieces_fuel (suc n) (c ∷ s) =
    let rest = pieces_fuel n s in
    if c == b'*'
    then star ∷ rest
    else if c == b'?'
    then one_of true [] ∷ rest
    else if c == b'['
    then elim (class_of s) [
      | none ↦ literal c ∷ pieces_fuel n s
      | some (negated, body, after) ↦ one_of negated (ranges body) ∷ pieces_fuel n after
    ]
    else literal c ∷ rest

pub pieces : List ℕ → List Piece
unfolding pieces_fuel
pieces s = pieces_fuel (length s) s

abbrev pub in_range : ℕ → ℕ × ℕ → Bool
in_range c (lo, hi) = leb lo c && leb c hi

abbrev pub in_class : Bool → List (ℕ × ℕ) → ℕ → Bool
in_class true rs c = not (any (in_range c) rs)
in_class false rs c = any (in_range c) rs

abbrev some_suffix : (List ℕ → Bool) → List ℕ → Bool
some_suffix f [] = f []
some_suffix f (c ∷ s) = f (c ∷ s) || some_suffix f s

pub glob : List Piece → List ℕ → Bool
glob [] [] = true
glob [] (c ∷ s) = false
glob (star ∷ ps) s = some_suffix (glob ps) s
glob (one_of n rs ∷ ps) [] = false
glob (one_of n rs ∷ ps) (c ∷ s) = in_class n rs c && glob ps s

pub fnmatchcase : String → String → Bool
unfolding glob pieces
fnmatchcase subject pattern = glob (pieces (codes pattern)) (codes subject)

-- `pattern[:-1]`, if the pattern ends in `>`.
abbrev tail_head : String → Option String
tail_head String.[] = none
tail_head (String.◌∷◌ c String.[]) = if code c == b'>' then some "" else none
tail_head (String.◌∷◌ c (String.◌∷◌ d s)) = elim (tail_head (String.◌∷◌ d s)) [
  | none ↦ none
  | some head ↦ some (String.◌∷◌ c head)
]

unfoldable pub matches : String → String → Bool
unfolding fnmatchcase
matches pattern subject = elim (tail_head pattern) [
  | none ↦ fnmatchcase subject pattern
  | some head ↦ starts_with subject head
]
