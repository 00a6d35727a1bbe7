-- ===== src/Store/Delete/Integrity.antt =====
-- What a deletion leaves: no row of its scope, no dangling reference, true counts, and every other
-- owner's rows.
use eidolon_agent.Base.{
  ◌+◌, ◌≡◌, refl, sym, ap, ◌∙◌, Bool, true, false, ◌&&◌, Option, none, some, List, [], ◌∷◌, String,
  arith, map, str_eq, keep_if, any, length, length-map, All, Bool-cases, inl, inr,
}
use eidolon_agent.Store.Rows.{Session, Conversation, StoredTurn, Message, Tables}
use eidolon_agent.Store.Delete.{
  Scope, Counts, without, is_session, unlinked, conversation_goes, session_goes, outbox_goes,
  job_goes, turn_goes, message_goes, counts, delete_outbox, delete_jobs, delete_conversations,
  delete_sessions, delete_scope,
}

abbrev pub is_conversation : String → Conversation → Bool
is_conversation id c = str_eq c.conversation_id id

abbrev pub is_turn : String → StoredTurn → Bool
is_turn id t = str_eq t.turn_id id

-- A reference to a session is empty or finds one.
abbrev pub Finds : List Session → Option String → Type 0
Finds sessions none = Unit
Finds sessions (some id) = any (is_session id) sessions ≡ true

-- Every foreign key finds its row.
pub record IsLinked (t : Tables) : Type 0 where
  pub turns_linked :
      All
        (λ (x : StoredTurn). any (is_conversation x.conversation_id) t.conversations ≡ true)
        t.turns
  pub messages_linked : All (λ (m : Message). any (is_turn m.turn_id) t.turns ≡ true) t.messages
  pub conversations_at :
      All (λ (c : Conversation). Finds t.sessions c.runtime_session_id) t.conversations
  pub turns_at : All (λ (x : StoredTurn). Finds t.sessions x.runtime_session_id) t.turns

module _ {ℓ} {A : Type ℓ} where
  -- What is found, and is not among those that go, is found among those that stay.
  any-without :
      (p q : A → Bool) (xs : List A)
      → any p xs ≡ true
      → any (λ x. p x && q x) xs ≡ false
      → any p (without q xs) ≡ true
  any-without p q [] h k = h
  any-without p q (x ∷ xs) h k = ground (arith, any-without p q xs)

  any-map :
      (p : A → Bool) (f : A → A) (xs : List A)
      → ((x : A) → p (f x) ≡ p x)
      → any p (map f xs) ≡ any p xs
  any-map p f [] h = refl
  any-map p f (x ∷ xs) h = ground (arith, h x, any-map p f xs h)

  any-split :
      (p q : A → Bool) (xs : List A)
      → any p xs ≡ true
      → any p (keep_if q xs) ≡ false
      → any p (without q xs) ≡ true
  any-split p q [] h k = h
  any-split p q (x ∷ xs) h k = ground (arith, any-split p q xs)

  length-without :
      (p : A → Bool) (xs : List A) → length xs ≡ length (without p xs) + length (keep_if p xs)
  length-without p [] = refl
  length-without p (x ∷ xs) = ground (arith, length-without p xs)

  without-All : (p : A → Bool) (xs : List A) → All (λ x. p x ≡ false) (without p xs)
  without-All p [] = tt
  without-All p (x ∷ xs) = ground (arith, without-All p xs)

module _ {ℓ} {A : Type ℓ} (P : A → Type 0) (Q : A → Type 0) where
  -- A property that those that stay get.
  All-without :
      (p : A → Bool) (xs : List A)
      → ((x : A) → P x → p x ≡ false → Q x)
      → All P xs
      → All Q (without p xs)
  All-without p [] h a = tt
  All-without p (x ∷ xs) h a = elim (Bool-cases (p x)) [
    | inl goes ↦ rw goes (All-without p xs h a.1)
    | inr stays ↦ rw stays (h x a.0 stays, All-without p xs h a.1)
  ]

  All-map : (f : A → A) (xs : List A) → ((x : A) → P x → Q (f x)) → All P xs → All Q (map f xs)
  All-map f [] h a = tt
  All-map f (x ∷ xs) h a = (h x a.0, All-map f xs h a.1)

  All-imply : (xs : List A) → ((x : A) → P x → Q x) → All P xs → All Q xs
  All-imply [] h a = tt
  All-imply (x ∷ xs) h a = (h x a.0, All-imply xs h a.1)

module _ (scope : Scope) where
  delete_conversations-IsLinked :
      (t : Tables) → IsLinked t → IsLinked (delete_conversations scope t)
  unfolding delete_conversations
  delete_conversations-IsLinked t l = record {
    turns_linked =
        All-without _ _ (turn_goes scope t.conversations) t.turns
          (λ x found stays.
            any-without (is_conversation x.conversation_id) (conversation_goes scope)
              t.conversations found stays)
          l.turns_linked;
    messages_linked =
        All-without _ _ (message_goes scope t.conversations t.turns) t.messages
          (λ m found stays.
            any-without (is_turn m.turn_id) (turn_goes scope t.conversations) t.turns found stays)
          l.messages_linked;
    conversations_at =
        All-without _ _ (conversation_goes scope) t.conversations (λ c at stays. at)
          l.conversations_at;
    turns_at =
        All-without _ _ (turn_goes scope t.conversations) t.turns (λ x at stays. at) l.turns_at;
  }

  unlinked-Finds :
      (sessions : List Session) (o : Option String)
      → Finds sessions o
      → Finds
          (without (session_goes scope) sessions)
          (unlinked (keep_if (session_goes scope) sessions) o)
  unlinked-Finds sessions none h = tt
  unlinked-Finds sessions (some id) h =
      elim (Bool-cases (any (is_session id) (keep_if (session_goes scope) sessions))) [
        | inl goes ↦ rw goes tt
        | inr stays ↦ rw stays (any-split (is_session id) (session_goes scope) sessions h stays)
      ]

  delete_sessions-IsLinked : (t : Tables) → IsLinked t → IsLinked (delete_sessions scope t)
  unfolding delete_sessions
  delete_sessions-IsLinked t l = record {
    turns_linked =
        All-map _ _ _ t.turns
          (λ x found.
            any-map (is_conversation x.conversation_id) _ t.conversations (λ c. refl) ∙ found)
          l.turns_linked;
    messages_linked =
        All-imply _ _ t.messages
          (λ m found. any-map (is_turn m.turn_id) _ t.turns (λ x. refl) ∙ found) l.messages_linked;
    conversations_at =
        All-map _ _ _ t.conversations (λ c at. unlinked-Finds t.sessions c.runtime_session_id at)
          l.conversations_at;
    turns_at =
        All-map _ _ _ t.turns (λ x at. unlinked-Finds t.sessions x.runtime_session_id at)
          l.turns_at;
  }

  -- A deletion leaves no dangling reference: where every turn, message and session reference finds
  -- its row, it still does afterwards.
  pub delete_scope-IsLinked : (t : Tables) → IsLinked t → IsLinked (delete_scope scope t).1
  unfolding delete_scope delete_outbox delete_jobs
  delete_scope-IsLinked t l =
      let jobless = record t {
        outbox = without (outbox_goes scope) t.outbox;
        jobs = without (job_goes scope) t.jobs;
      } in
      delete_sessions-IsLinked (delete_conversations scope jobless) (
        delete_conversations-IsLinked jobless (record {
          turns_linked = l.turns_linked;
          messages_linked = l.messages_linked;
          conversations_at = l.conversations_at;
          turns_at = l.turns_at;
        }))

  -- What is left of the tables, and what the counts say of it.
  pub record IsDeleted (before after : Tables) (n : Counts) : Type 0 where
    pub sessions_gone : All (λ s. session_goes scope s ≡ false) after.sessions
    pub conversations_gone : All (λ c. conversation_goes scope c ≡ false) after.conversations
    pub jobs_gone : All (λ j. job_goes scope j ≡ false) after.jobs
    pub outbox_gone : All (λ r. outbox_goes scope r ≡ false) after.outbox
    pub counted_sessions : length before.sessions ≡ length after.sessions + n.runtime_sessions
    pub counted_conversations :
        length before.conversations ≡ length after.conversations + n.conversations
    pub counted_turns : length before.turns ≡ length after.turns + n.turns
    pub counted_messages : length before.messages ≡ length after.messages + n.messages
    pub counted_jobs : length before.jobs ≡ length after.jobs + n.jobs
    pub counted_outbox : length before.outbox ≡ length after.outbox + n.memory_turn_outbox

  -- A deletion leaves no session, conversation, job or outbox row of its scope, and its counts are,
  -- for each table, the rows that went, those that went by a cascade included.
  pub delete_scope-IsDeleted :
      (t : Tables) → IsDeleted t (delete_scope scope t).1 (delete_scope scope t).0
  unfolding delete_scope delete_outbox delete_jobs delete_conversations delete_sessions counts
  delete_scope-IsDeleted t = record {
    sessions_gone = without-All (session_goes scope) t.sessions;
    conversations_gone =
        All-map _ _ _ (without (conversation_goes scope) t.conversations) (λ c gone. gone)
          (without-All (conversation_goes scope) t.conversations);
    jobs_gone = without-All (job_goes scope) t.jobs;
    outbox_gone = without-All (outbox_goes scope) t.outbox;
    counted_sessions = length-without (session_goes scope) t.sessions;
    counted_conversations =
        length-without (conversation_goes scope) t.conversations
        ∙ ap (λ n. n + length (keep_if (conversation_goes scope) t.conversations))
            (sym (length-map (without (conversation_goes scope) t.conversations) _));
    counted_turns =
        length-without (turn_goes scope t.conversations) t.turns
        ∙ ap (λ n. n + length (keep_if (turn_goes scope t.conversations) t.turns))
            (sym (length-map (without (turn_goes scope t.conversations) t.turns) _));
    counted_messages = length-without (message_goes scope t.conversations t.turns) t.messages;
    counted_jobs = length-without (job_goes scope) t.jobs;
    counted_outbox = length-without (outbox_goes scope) t.outbox;
  }
