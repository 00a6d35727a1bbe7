-- ===== src/Session/Authorize.antt =====
-- `RuntimeSessionAuthorizer.authorize` of eidolon_agent/domain/runtime_session.py. The authority is
-- a port: its answers, or that it raised, are an argument.
pub mod Scope
mod Tests
use eidolon_agent.Base.{
  ℕ, zero, suc, ◌≡◌, Bool, true, false, not, ◌&&◌, ◌||◌, Option, none, some, List, [], ◌∷◌, ◌++◌,
  String, str_eq, opt_eq, ◌==◌, if◌then◌else◌, strip, is_some, or_else,
}
use eidolon_agent.Base.Json.{Json}
use eidolon_agent.Session.Config.{Config, from_authority}

-- A claim that should be an integer: one of 0 or more, or anything else.
pub data Claim : Type 0 where
  natural : ℕ → Claim
  improper : Claim

pub data MemoryMode : Type 0 where
  personal provisional unsupported : MemoryMode

-- `CompanionRuntimeFacts`, but for the genome's fields, which are only handed on.
pub record Facts : Type 0 where
  pub owner_id : String
  pub companion_id : String
  pub memory_realm_id : String
  pub runtime_config : Json

-- What `resolve_provisional_memory` answers.
pub record Binding : Type 0 where
  pub owner_id : String
  pub person_id : String
  pub person_revision : ℕ
  pub session_id : String
  pub realm_id : String
  pub save_allowed : Bool
  pub session_recall_allowed : Bool

-- The arguments of `authorize`.
pub record Claims : Type 0 where
  pub owner_id : String
  pub companion_id : String
  pub device_id : Option String
  pub session_id : Option String
  pub person_id : Option String
  pub identity_epoch : Option Claim
  pub person_revision : Option Claim
  pub source_session_id : Option String
  pub memory_mode : MemoryMode

-- `CompanionRuntimeAuthority`; none is a raised error.
pub record Authority : Type 0 where
  pub resolve : String → String → Option Facts
  pub resolve_provisional_memory : String → String → ℕ → String → Option Binding
  pub resolve_person_memory : String → String → ℕ → Option String

pub record Authorized : Type 0 where
  pub runtime : Facts
  pub device_id : Option String
  pub session_id : String
  pub config : Config
  pub person_id : Option String
  pub source_session_id : Option String
  pub person_revision : Option Claim
  pub identity_epoch : Option Claim
  pub memory_mode : MemoryMode
  pub provisional_memory_save : Bool
  pub provisional_memory_recall : Bool

-- Why `authorize` raises: one PermissionDeniedError for each of its messages, the ValidationError
-- of the configuration, and what the authority raises.
pub data Denied : Type 0 where
  incomplete_binding invalid_binding requires_revision revision_without_person no_session : Denied
  unsupported_mode requires_source_session outside_scope provisional_outside_scope : Denied
  provisional_not_permitted no_memory_realm invalid_config authority_failed : Denied

pub data Result (A : Type 0) : Type 0 where
  granted : A → Result A
  denied : Denied → Result A

infixl 5 ◌>>=◌ ◌>>◌
abbrev pub ◌>>=◌ : {A B : Type 0} (r : Result A) (next : A → Result B) → Result B
denied reason >>= next = denied reason
granted a >>= next = next a

-- A check, and what follows it.
abbrev pub ◌>>◌ : {B : Type 0} (check : Result (Unit {0})) (next : Result B) → Result B
check >> next = check >>= λ passed. next

abbrev pub deny_if : Bool → Denied → Result (Unit {0})
deny_if true e = denied e
deny_if false e = granted tt

abbrev pub or_failed : {A : Type 0} → Option A → Denied → Result A
or_failed none e = denied e
or_failed (some a) e = granted a

abbrev pub or_blank : Option String → String
or_blank none = ""
or_blank (some s) = s

abbrev pub is_provisional : MemoryMode → Bool
is_provisional provisional = true
is_provisional _ = false

abbrev pub is_unsupported : MemoryMode → Bool
is_unsupported unsupported = true
is_unsupported _ = false

abbrev pub differ : Bool → Bool → Bool
differ true b = not b
differ false b = b

-- `not person_id.strip() or type(identity_epoch) is not int or identity_epoch < 0`
abbrev pub bad_person : Option String → Option Claim → Bool
bad_person (some p) (some (natural n)) = str_eq (strip p) ""
bad_person (some p) _ = true
bad_person none _ = false

-- `type(person_revision) is not int or person_revision < 1`
abbrev pub bad_revision : Option String → Option Claim → Bool
bad_revision none r = false
bad_revision (some p) (some (natural (suc n))) = false
bad_revision (some p) _ = true

abbrev pub revision_of : Option Claim → ℕ
revision_of (some (natural n)) = n
revision_of _ = 0

-- The checks before the authority is asked; the session id, stripped.
pub check_claims : Claims → Result String
check_claims c = do
  deny_if (differ (is_some c.person_id) (is_some c.identity_epoch)) incomplete_binding
  deny_if (bad_person c.person_id c.identity_epoch) invalid_binding
  deny_if (bad_revision c.person_id c.person_revision) requires_revision
  deny_if (not (is_some c.person_id) && is_some c.person_revision) revision_without_person
  let session = strip (or_blank c.session_id)
  deny_if (str_eq session "") no_session
  deny_if (is_unsupported c.memory_mode) unsupported_mode
  deny_if
      (is_provisional c.memory_mode
        && (not (is_some c.person_id) || not (opt_eq c.source_session_id (some session))))
      requires_source_session
  granted session

-- What the memory part of `authorize` settles: the realm, and what a provisional session may do.
pub record Memory : Type 0 where
  pub realm_id : String
  pub save : Bool
  pub recall : Bool

-- The binding's owner, person, revision and session are those that were asked for.
abbrev pub same_scope : Binding → Claims → String → String → Bool
same_scope b c person session =
    str_eq b.owner_id c.owner_id
    && str_eq b.person_id person
    && b.person_revision == revision_of c.person_revision
    && str_eq b.session_id session

pub provisional_memory : Authority → Claims → String → String → Result Memory
provisional_memory a c person session = do
  b ←
      or_failed
        (a.resolve_provisional_memory c.owner_id person (revision_of c.person_revision) session)
        authority_failed
  deny_if (not (same_scope b c person session)) provisional_outside_scope
  deny_if (not (b.save_allowed || b.session_recall_allowed)) provisional_not_permitted
  granted
      (record { realm_id = b.realm_id; save = b.save_allowed; recall = b.session_recall_allowed })

pub person_memory : Authority → Claims → String → Result Memory
person_memory a c person = do
  realm ←
      or_failed (a.resolve_person_memory c.owner_id person (revision_of c.person_revision))
        authority_failed
  deny_if (str_eq realm "") no_memory_realm
  granted (record { realm_id = realm; save = false; recall = false })

-- The branches on the mode and on the person.
pub memory_of : Authority → Claims → Facts → MemoryMode → Option String → String → Result Memory
memory_of a c facts provisional person session = provisional_memory a c (or_blank person) session
memory_of a c facts _ (some person) session = person_memory a c person
memory_of a c facts _ none session =
    granted (record { realm_id = facts.memory_realm_id; save = false; recall = false })

-- The tools that no interactive session may use.
abbrev pub denied_to_sessions : List String
denied_to_sessions = "delegate_to_coworker" ∷ "emit_event" ∷ []

-- `(device_id or "").strip() or None`
pub normalize_device : Option String → Option String
normalize_device device = let id = strip (or_blank device) in if str_eq id "" then none else some id

pub resolve_runtime : Authority → Claims → Result Facts
resolve_runtime a c = do
  facts ← or_failed (a.resolve c.owner_id c.companion_id) authority_failed
  deny_if (not (str_eq facts.owner_id c.owner_id && str_eq facts.companion_id c.companion_id))
      outside_scope
  granted facts

-- The `AuthorizedRuntimeSession` that is returned.
abbrev pub session_of : Claims → String → Facts → Memory → Config → Authorized
session_of c session facts memory config = record {
  runtime = record facts { memory_realm_id = memory.realm_id };
  device_id = normalize_device c.device_id;
  session_id = session;
  config = record config { tool_deny = config.tool_deny ++ denied_to_sessions };
  person_id = c.person_id;
  source_session_id = c.source_session_id;
  person_revision = c.person_revision;
  identity_epoch = c.identity_epoch;
  memory_mode = c.memory_mode;
  provisional_memory_save = memory.save;
  provisional_memory_recall = memory.recall;
}

pub authorize : Authority → Claims → Result Authorized
authorize a c = do
  session ← check_claims c
  facts ← resolve_runtime a c
  memory ← memory_of a c facts c.memory_mode c.person_id session
  config ← or_failed (from_authority facts.runtime_config) invalid_config
  granted (session_of c session facts memory config)
