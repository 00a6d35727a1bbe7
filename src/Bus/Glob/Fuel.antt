-- ===== src/Bus/Glob/Fuel.antt =====
-- The translation of a pattern has enough fuel.
use eidolon_agent.Base.{
  ℕ, zero, suc, ◌≤◌, ◌≡◌, refl, sym, ap, ◌∙◌, Bool, true, false, Option, none, some, List, [], ◌∷◌,
  arith, if◌then◌else◌, ◌==◌, length, Bool-cases, inl, inr, leb, ◌⊎◌,
}
use eidolon_agent.Bus.Glob.{
  star, one_of, literal, ranges, until_bracket, class_body, class_of, pieces_fuel, pieces,
}

-- What follows a class is no longer than the text after the bracket.
abbrev Shrinks : List ℕ → Option (List ℕ × List ℕ) → Type 0
Shrinks s none = Unit
Shrinks s (some (body, rest)) = length rest ≤ length s

until_bracket-Shrinks : (s : List ℕ) → Shrinks s (until_bracket s)
unfolding until_bracket
until_bracket-Shrinks [] = tt
until_bracket-Shrinks (c ∷ s) = elim (Bool-cases (c == b']')) [
  | inl closed ↦ rw closed (omega arith)
  | inr other ↦ rw other (longer (until_bracket s) (until_bracket-Shrinks s))
]
  where
    longer :
        (o : Option (List ℕ × List ℕ))
        → Shrinks s o
        → Shrinks (c ∷ s) (elim o [ none ↦ none | some (body, rest) ↦ some (c ∷ body, rest) ])
    longer none h = tt
    longer (some (body, rest)) h = omega arith

if-Shrinks :
    (b : Bool) (s : List ℕ) (x y : Option (List ℕ × List ℕ))
    → Shrinks s x
    → Shrinks s y
    → Shrinks s (if b then x else y)
if-Shrinks true s x y h k = h
if-Shrinks false s x y h k = k

class_body-Shrinks : (s : List ℕ) → Shrinks s (class_body s)
unfolding class_body
class_body-Shrinks [] = tt
class_body-Shrinks (c ∷ s) = by_body (until_bracket s) (until_bracket-Shrinks s)
  where
    by_body :
        (o : Option (List ℕ × List ℕ))
        → Shrinks s o
        → Shrinks (c ∷ s) (elim o [
          | none ↦ if c == b']' then none else until_bracket (c ∷ s)
          | some (body, rest) ↦ if c == b']' then some (c ∷ body, rest) else until_bracket (c ∷ s)
        ])
    by_body none h =
        if-Shrinks (c == b']') (c ∷ s) none (until_bracket (c ∷ s)) tt
          (until_bracket-Shrinks (c ∷ s))
    by_body (some (body, rest)) h =
        if-Shrinks (c == b']') (c ∷ s) (some (c ∷ body, rest)) (until_bracket (c ∷ s)) (omega arith)
          (until_bracket-Shrinks (c ∷ s))

abbrev ShrinksClass : List ℕ → Option (Bool × List ℕ × List ℕ) → Type 0
ShrinksClass s none = Unit
ShrinksClass s (some (negated, body, rest)) = length rest ≤ length s

class_of-ShrinksClass : (s : List ℕ) → ShrinksClass s (class_of s)
unfolding class_of
class_of-ShrinksClass [] = tt
class_of-ShrinksClass (c ∷ s) = elim (Bool-cases (c == b'!')) [
  | inl negated ↦
      rw negated (with_sign true (class_body s) (shorter (class_body s) (class_body-Shrinks s)))
  | inr plain ↦ rw plain (with_sign false (class_body (c ∷ s)) (class_body-Shrinks (c ∷ s)))
]
  where
    shorter : (o : Option (List ℕ × List ℕ)) → Shrinks s o → Shrinks (c ∷ s) o
    shorter none h = tt
    shorter (some (body, rest)) h = omega arith

    with_sign :
        (negated : Bool) (o : Option (List ℕ × List ℕ))
        → Shrinks (c ∷ s) o
        → ShrinksClass
            (c ∷ s)
            (elim o [ none ↦ none | some (body, rest) ↦ some (negated, body, rest) ])
    with_sign negated none h = tt
    with_sign negated (some (body, rest)) h = h

-- One more round changes nothing where the fuel is at least the length.
one_more : (n : ℕ) (s : List ℕ) → length s ≤ n → pieces_fuel (suc n) s ≡ pieces_fuel n s
unfolding pieces_fuel
one_more zero [] h = refl
one_more zero (c ∷ s) h = absurd (omega arith)
one_more (suc n) [] h = refl
one_more (suc n) (c ∷ s) h =
    let rest : pieces_fuel (suc n) s ≡ pieces_fuel n s = one_more n s (omega arith) in
    by_class (class_of s) (class_of-ShrinksClass s) rest
      (λ after shorter. one_more n after (omega arith))
  where
    by_class :
        (o : Option (Bool × List ℕ × List ℕ))
        → ShrinksClass s o
        → pieces_fuel (suc n) s ≡ pieces_fuel n s
        → ((after : List ℕ)
            → length after ≤ length s
            → pieces_fuel (suc n) after ≡ pieces_fuel n after)
        → (let rest = pieces_fuel (suc n) s in
            if c == b'*'
            then star ∷ rest
            else if c == b'?'
            then one_of true [] ∷ rest
            else if c == b'['
            then elim o [
              | none ↦ literal c ∷ pieces_fuel (suc n) s
              | some (negated, body, after) ↦
                  one_of negated (ranges body) ∷ pieces_fuel (suc n) after
            ]
            else literal c ∷ rest)
          ≡ (let rest = pieces_fuel n s in
              if c == b'*'
              then star ∷ rest
              else if c == b'?'
              then one_of true [] ∷ rest
              else if c == b'['
              then elim o [
                | none ↦ literal c ∷ pieces_fuel n s
                | some (negated, body, after) ↦ one_of negated (ranges body) ∷ pieces_fuel n after
              ]
              else literal c ∷ rest)
    by_class none h rest others = ground (arith, rest)
    by_class (some (negated, body, after)) h rest others = ground (arith, rest, others after h)

le_split : (n : ℕ) (s : List ℕ) → length s ≤ suc n → (length s ≤ n) ⊎ (length s ≡ suc n)
le_split n s h = elim (Bool-cases (leb (length s) n)) [
  | inl below ↦ inl (ground (arith, below))
  | inr above ↦ inr (ground (arith, above))
]

-- Any fuel from the pattern's length on gives the same pieces: the translation never stops early.
pub pieces_enough : (n : ℕ) (s : List ℕ) → length s ≤ n → pieces_fuel n s ≡ pieces s
unfolding pieces
pieces_enough zero [] h = refl
pieces_enough zero (c ∷ s) h = absurd (omega arith)
pieces_enough (suc n) s h = elim (le_split n s h) [
  | inl below ↦ one_more n s below ∙ pieces_enough n s below
  | inr same ↦ ap (λ k. pieces_fuel k s) (sym same)
]
