-- ===== src/Store/Delete/Others.antt =====
-- What a deletion leaves to other owners.
use eidolon_agent.Base.{
  ◌≡◌, refl, ap, ◌∙◌, false, List, [], ◌∷◌, String, arith, str_eq, eq_iff, keep_if, map,
}
use eidolon_agent.Outbox.Memory.{Row}
use eidolon_agent.Store.Rows.{Session, Conversation, Job, Tables}
use eidolon_agent.Store.Delete.{
  without, unlinked, delete_outbox, delete_jobs, delete_conversations, delete_sessions,
  delete_scope, delete_owner_runtime,
}

module _ {ℓ} {A : Type ℓ} (owner : A → String) (deleted other : String)
    (apart : str_eq other deleted ≡ false) where
  keep_if-without :
      (xs : List A)
      → keep_if (λ x. str_eq (owner x) other) (without (λ x. str_eq (owner x) deleted) xs)
        ≡ keep_if (λ x. str_eq (owner x) other) xs
  keep_if-without [] = refl
  keep_if-without (x ∷ xs) = ground (
    arith,
    keep_if-without xs,
    apart,
    eq_iff (owner x) other,
    eq_iff (owner x) deleted,
    eq_iff other deleted,
  )

abbrev pub conversation_ids : String → List Conversation → List String
conversation_ids o cs =
    map (λ (c : Conversation). c.conversation_id)
      (keep_if (λ (c : Conversation). str_eq c.owner_id o) cs)

conversation_ids-map :
    (o : String) (gone : List Session) (cs : List Conversation)
    → conversation_ids o (
        map
          (λ (c : Conversation). record c {
            runtime_session_id = unlinked gone c.runtime_session_id;
          })
          cs)
      ≡ conversation_ids o cs
conversation_ids-map o gone [] = refl
conversation_ids-map o gone (c ∷ cs) = ground (arith, conversation_ids-map o gone cs)

-- Deleting an owner's runtime keeps every other owner's sessions, jobs, waiting memory turns and
-- conversations.
pub delete_owner_runtime-others :
    (owner other : String) (t : Tables)
    → str_eq other owner ≡ false
    → let after = (delete_owner_runtime owner t).1 in
      (keep_if (λ (s : Session). str_eq s.owner_id other) after.sessions
        ≡ keep_if (λ (s : Session). str_eq s.owner_id other) t.sessions)
      × (keep_if (λ (j : Job). str_eq j.owner_id other) after.jobs
          ≡ keep_if (λ (j : Job). str_eq j.owner_id other) t.jobs)
      × (keep_if (λ (r : Row). str_eq r.owner_id other) after.outbox
          ≡ keep_if (λ (r : Row). str_eq r.owner_id other) t.outbox)
      × (conversation_ids other after.conversations ≡ conversation_ids other t.conversations)
unfolding delete_owner_runtime delete_scope delete_outbox delete_jobs delete_conversations
    delete_sessions
delete_owner_runtime-others owner other t apart = (
  keep_if-without (λ (s : Session). s.owner_id) owner other apart t.sessions,
  keep_if-without (λ (j : Job). j.owner_id) owner other apart t.jobs,
  keep_if-without (λ (r : Row). r.owner_id) owner other apart t.outbox,
  conversation_ids-map other _ _
      ∙ ap (map (λ (c : Conversation). c.conversation_id))
          (keep_if-without (λ (c : Conversation). c.owner_id) owner other apart t.conversations),
)
