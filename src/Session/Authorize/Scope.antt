-- ===== src/Session/Authorize/Scope.antt =====
-- What a session that `authorize` lets through is entitled to.
use eidolon_agent.Base.{
  zero, suc, ◌≡◌, true, false, not, ◌&&◌, ◌||◌, Option, none, some, String, str_eq, str_mem, opt_eq,
  strip, is_some, All,
}
use eidolon_agent.Session.Authorize.{
  Claim, natural, improper, MemoryMode, personal, provisional, Facts, Binding, Claims, Authority,
  Authorized, or_blank, is_provisional, is_unsupported, differ, bad_person, bad_revision,
  revision_of, Memory, denied_to_sessions, normalize_device,
}

-- A person comes with an epoch and a revision above 0, and nothing comes without a person.
abbrev pub PersonBound : Option String → Option Claim → Option Claim → Type 0
PersonBound (some p) (some (natural n)) (some (natural (suc r))) = str_eq (strip p) "" ≡ false
PersonBound none none none = Unit
PersonBound _ _ _ = ⊥

-- The binding is the authority's answer for this owner, person, revision and session, and it says
-- so of itself; it permits to save or to recall.
pub record IsBinding (a : Authority) (c : Claims) (person session : String) (b : Binding)
    : Type 0 where
  pub answered :
      a.resolve_provisional_memory c.owner_id person (revision_of c.person_revision) session
      ≡ some b
  pub owner : b.owner_id ≡ c.owner_id
  pub bound_person : b.person_id ≡ person
  pub bound_revision : b.person_revision ≡ revision_of c.person_revision
  pub bound_session : b.session_id ≡ session
  pub allows : b.save_allowed || b.session_recall_allowed ≡ true

-- Where a session's memory is: in the realm of its provisional binding, in the realm of its
-- person, or in that of the companion; only a provisional session may save and recall there.
abbrev pub MemoryScope :
    Authority → Claims → Facts → String → MemoryMode → Option String → Memory → Type 0
MemoryScope a c facts session provisional (some person) m =
    (b : Binding) × IsBinding a c person session b
    × (m ≡ record {
      realm_id = b.realm_id;
      save = b.save_allowed;
      recall = b.session_recall_allowed;
    })
MemoryScope a c facts session personal (some person) m =
    (a.resolve_person_memory c.owner_id person (revision_of c.person_revision) ≡ some m.realm_id)
    × (str_eq m.realm_id "" ≡ false)
    × (m.save ≡ false)
    × (m.recall ≡ false)
MemoryScope a c facts session personal none m =
    m ≡ record { realm_id = facts.memory_realm_id; save = false; recall = false }
MemoryScope a c facts session _ _ m = ⊥

-- The memory part of a session.
abbrev pub session_memory : Authorized → Memory
session_memory s = record {
  realm_id = s.runtime.memory_realm_id;
  save = s.provisional_memory_save;
  recall = s.provisional_memory_recall;
}

pub record IsEntitled (a : Authority) (c : Claims) (s : Authorized) : Type 0 where
  pub facts : Facts
  pub resolved : a.resolve c.owner_id c.companion_id ≡ some facts
  pub owner : s.runtime.owner_id ≡ c.owner_id
  pub companion : s.runtime.companion_id ≡ c.companion_id
  pub session_named : str_eq s.session_id "" ≡ false
  pub same_session : s.session_id ≡ strip (or_blank c.session_id)
  pub same_device : s.device_id ≡ normalize_device c.device_id
  pub same_person : s.person_id ≡ c.person_id
  pub same_epoch : s.identity_epoch ≡ c.identity_epoch
  pub same_revision : s.person_revision ≡ c.person_revision
  pub same_source : s.source_session_id ≡ c.source_session_id
  pub same_mode : s.memory_mode ≡ c.memory_mode
  pub sourced : is_provisional s.memory_mode ≡ true → s.source_session_id ≡ some s.session_id
  pub person_bound : PersonBound s.person_id s.identity_epoch s.person_revision
  pub memory_scope : MemoryScope a c facts s.session_id s.memory_mode s.person_id (session_memory s)
  pub tools_denied : All (λ t. str_mem t s.config.tool_deny ≡ true) denied_to_sessions

person_bound :
    (p : Option String) (e r : Option Claim)
    → differ (is_some p) (is_some e) ≡ false
    → bad_person p e ≡ false
    → bad_revision p r ≡ false
    → not (is_some p) && is_some r ≡ false
    → PersonBound p e r
person_bound (some p) (some (natural n)) (some (natural (suc m))) h₁ h₂ h₃ h₄ = h₂
person_bound (some p) (some (natural n)) (some (natural zero)) h₁ h₂ h₃ h₄ = cc h₃
person_bound (some p) (some (natural n)) (some improper) h₁ h₂ h₃ h₄ = cc h₃
person_bound (some p) (some (natural n)) none h₁ h₂ h₃ h₄ = cc h₃
person_bound (some p) (some improper) r h₁ h₂ h₃ h₄ = cc h₂
person_bound (some p) none r h₁ h₂ h₃ h₄ = cc h₁
person_bound none (some e) r h₁ h₂ h₃ h₄ = cc h₁
person_bound none none (some r) h₁ h₂ h₃ h₄ = cc h₄
person_bound none none none h₁ h₂ h₃ h₄ = tt

-- The claims that pass the first checks.
record IsChecked (c : Claims) (session : String) : Type 0 where
  stripped : session ≡ strip (or_blank c.session_id)
  named : str_eq session "" ≡ false
  bound : PersonBound c.person_id c.identity_epoch c.person_revision
  supported : is_unsupported c.memory_mode ≡ false
  sourced :
      is_provisional c.memory_mode
        && (not (is_some c.person_id) || not (opt_eq c.source_session_id (some session)))
      ≡ false
