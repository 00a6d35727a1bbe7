-- ===== src/Conversations/Numbered.antt =====
-- The numbers of a conversation's turns, under the attempts of the persister.
use eidolon_agent.Base.{
  ℕ, zero, suc, ◌<◌, ◌≡◌, refl, sym, ap, ◌∙◌, true, false, ◌||◌, Option, none, some, List, [], ◌∷◌,
  ◌++◌, String, arith, str_eq, eq_iff, length, length-append, if◌then◌else◌, is_some, Bool-cases,
  inl, inr, if-elim, append-nil,
}
use eidolon_agent.Base.Dict.{Dict, lookup, insert}
use eidolon_agent.Conversations.{TurnInput, ConversationRow, TurnRow, Tables}
use eidolon_agent.Conversations.Guard.{Refusal, present, commit, guard}
use eidolon_agent.Conversations.Rows.{FinishedTurn, persisted_row, new_turn, rewritten_turn}
use eidolon_agent.Conversations.Calls.{Call, guards, persists, perform, perform_all}
use eidolon_agent.Conversations.Persist.{
  turn_seqs, number_mem, next_turn_seq, write_turn, finish_attempt, persist_once,
}

-- The numbers below one, in order.
abbrev pub upto : ℕ → List ℕ
upto zero = []
upto (suc n) = upto n ++ (n ∷ [])

-- The turns of a conversation are numbered from 0 on, in the order in which they were stored.
abbrev pub IsNumbered : String → Dict TurnRow → Type 0
IsNumbered c turns = turn_seqs c turns ≡ upto (next_turn_seq c turns)

number_mem-append :
    (k : ℕ) (xs ys : List ℕ) → number_mem k (xs ++ ys) ≡ (number_mem k xs || number_mem k ys)
number_mem-append k [] ys = refl
number_mem-append k (x ∷ xs) ys = ground (arith, number_mem-append k xs ys)

upto_below : (n k : ℕ) → number_mem k (upto n) ≡ true → k < n
upto_below zero k h = absurd (cc)
upto_below (suc n) k h = ground (arith, number_mem-append k (upto n) (n ∷ []), upto_below n k)

upto_fresh : (n : ℕ) → number_mem n (upto n) ≡ false
upto_fresh n = ground (arith, upto_below n n)

pub next_is_free :
    (c : String) (turns : Dict TurnRow)
    → IsNumbered c turns
    → number_mem (next_turn_seq c turns) (turn_seqs c turns) ≡ false
next_is_free c turns h =
    ap (number_mem (next_turn_seq c turns)) h ∙ upto_fresh (next_turn_seq c turns)

abbrev one_seq : String → TurnRow → List ℕ
one_seq c r = if str_eq r.conversation_id c then r.seq ∷ [] else []

turn_seqs-insert_new :
    (c k : String) (r : TurnRow) (d : Dict TurnRow)
    → lookup k d ≡ none
    → turn_seqs c (insert k r d) ≡ turn_seqs c d ++ one_seq c r
unfolding insert lookup
turn_seqs-insert_new c k r [] h = refl
turn_seqs-insert_new c k r ((j, x) ∷ d) h = ground (arith, turn_seqs-insert_new c k r d)

turn_seqs-insert_old :
    (c k : String) (r old : TurnRow) (d : Dict TurnRow)
    → lookup k d ≡ some old
    → r.conversation_id ≡ old.conversation_id
    → r.seq ≡ old.seq
    → turn_seqs c (insert k r d) ≡ turn_seqs c d
unfolding insert lookup
turn_seqs-insert_old c k r old [] h e q = absurd (cc)
turn_seqs-insert_old c k r old ((j, x) ∷ d) h e q = ground (arith, turn_seqs-insert_old c k r old d)

one_more :
    (xs : List ℕ)
    → xs ≡ upto (length xs)
    → xs ++ (length xs ∷ []) ≡ upto (length (xs ++ (length xs ∷ [])))
one_more xs h =
    let e : length (xs ++ (length xs ∷ [])) ≡ suc (length xs) =
      omega (arith, length-append xs (length xs ∷ [])) in
    ap (λ z. z ++ (length xs ∷ [])) h ∙ sym (ap upto e)

same_seqs-IsNumbered :
    (c : String) (turns new : Dict TurnRow)
    → turn_seqs c new ≡ turn_seqs c turns
    → IsNumbered c turns
    → IsNumbered c new
same_seqs-IsNumbered c turns new e h = e ∙ h ∙ ap (λ z. upto (length z)) (sym e)

module _ (c : String) (p : FinishedTurn) (model_id : Option String) (turns : Dict TurnRow) where
  abbrev fresh_turn : TurnRow
  fresh_turn = new_turn p model_id (next_turn_seq p.ti.conversation_id turns)

  insert-IsNumbered :
      lookup p.ti.turn_id turns ≡ none
      → IsNumbered c turns
      → IsNumbered c (insert p.ti.turn_id fresh_turn turns)
  insert-IsNumbered e h =
      let k = turn_seqs-insert_new c p.ti.turn_id fresh_turn turns e in
      elim (Bool-cases (str_eq p.ti.conversation_id c)) [
        | inl t ↦
            let same : p.ti.conversation_id ≡ c = (eq_iff _ _).0 t in
            let k' : turn_seqs c (insert p.ti.turn_id fresh_turn turns)
                ≡ turn_seqs c turns ++ (next_turn_seq c turns ∷ []) =
              k
              ∙ ap (λ z. turn_seqs c turns ++ z)
                  (rw t (ap (λ z. next_turn_seq z turns ∷ []) same)) in
            k' ∙ one_more (turn_seqs c turns) h ∙ ap (λ z. upto (length z)) (sym k')
        | inr t ↦ same_seqs-IsNumbered c turns _ (k ∙ rw t (append-nil (turn_seqs c turns))) h
      ]

  -- A write of the turn that is there, or of a new one, keeps the numbers.
  write_turn-IsNumbered :
      (old : Option TurnRow)
      → lookup p.ti.turn_id turns ≡ old
      → IsNumbered c turns
      → IsNumbered c (write_turn p model_id old turns).1
  write_turn-IsNumbered none e h =
      if-elim (λ (x : Option Refusal × Dict TurnRow). IsNumbered c x.1) _ _ _ (λ t. h)
        (λ t. insert-IsNumbered e h)
  write_turn-IsNumbered (some row) e h =
      same_seqs-IsNumbered c turns _
        (turn_seqs-insert_old c p.ti.turn_id (rewritten_turn p model_id row) row turns e refl refl)
        h

module _ (c : String) (p : FinishedTurn) (model_id : Option String) (now : ℕ) (s : Tables) where
  finish-IsNumbered :
      (row : ConversationRow) (o : Option Refusal) (old : Option TurnRow)
      → lookup p.ti.turn_id s.turns ≡ old
      → IsNumbered c s.turns
      → IsNumbered c (finish_attempt p model_id now row o old s).1.turns
  finish-IsNumbered row (some e) old q h = h
  finish-IsNumbered row none old q h =
      if-elim (λ (x : Option Refusal × Tables). IsNumbered c x.1.turns)
        (is_some (write_turn p model_id old s.turns).0) _ _ (λ t. h)
        (λ t. write_turn-IsNumbered c p model_id s.turns old q h)

  persist_once-IsNumbered :
      IsNumbered c s.turns → IsNumbered c (persist_once p model_id now s).1.turns
  unfolding persist_once
  persist_once-IsNumbered h =
      if-elim (λ (x : Option Refusal × Tables). IsNumbered c x.1.turns) (str_eq p.ti.session_id "")
        _ _ (λ t. h)
        (λ t.
          finish-IsNumbered
            (present (persisted_row p) (lookup p.ti.conversation_id s.conversations)) _
            (lookup p.ti.turn_id s.turns) refl h)

guard-turns : (ti : TurnInput) (now : ℕ) (s : Tables) → (guard ti now s).1.turns ≡ s.turns
unfolding guard
guard-turns ti now s =
    if-elim (λ (x : Option Refusal × Tables). x.1.turns ≡ s.turns) (str_eq ti.session_id "") _ _
      (λ t. refl) (λ t. by_verdict _ _)
  where
    by_verdict :
        (v : Option Refusal)
        → (d : Dict ConversationRow)
        → (commit v (record s { conversations = d }) s).1.turns ≡ s.turns
    by_verdict none d = refl
    by_verdict (some e) d = refl

perform-IsNumbered :
    (c : String) (o : Call) (s : Tables) → IsNumbered c s.turns → IsNumbered c (perform o s).1.turns
unfolding perform
perform-IsNumbered c (guards ti now) s h =
    same_seqs-IsNumbered c s.turns _ (ap (turn_seqs c) (guard-turns ti now s)) h
perform-IsNumbered c (persists p model_id now) s h = persist_once-IsNumbered c p model_id now s h

-- Whatever transactions of the guard and the persister follow one another, admitted or refused: a
-- conversation whose turns are numbered 0, 1, 2 and so on, in the order in which they were stored,
-- stays so; there is no gap and no number twice.
pub perform_all-IsNumbered :
    (c : String) (os : List Call) (s : Tables)
    → IsNumbered c s.turns
    → IsNumbered c (perform_all os s).turns
unfolding perform_all
perform_all-IsNumbered c [] s h = h
perform_all-IsNumbered c (o ∷ os) s h =
    perform_all-IsNumbered c os (perform o s).1 (perform-IsNumbered c o s h)
