-- ===== src/Session/Authorize/Tests.antt =====
-- Sessions of concrete claims.
use eidolon_agent.Base.{◌≡◌, refl, true, false, none, some, [], ◌∷◌, strip}
use eidolon_agent.Base.Json.{Json, object, no_fields, array, item, no_items, str, field, int}
use eidolon_agent.Session.Config.{
  Config, from_authority, read_config, read_model, read_temperature, read_tools, identifier_set,
  read_identifiers, read_flag, read_limit,
}
use eidolon_agent.Session.Authorize.{
  natural, provisional, Facts, Binding, Claims, Authority, Authorized, Result, denied, check_claims,
  provisional_memory, memory_of, resolve_runtime, normalize_device, authorize, incomplete_binding,
  provisional_outside_scope, no_session, session_of, requires_source_session,
}

abbrev raw : Json
raw = object (
    field "model" (str " large ") (
      field "tools" (object (field "deny" (array (item (str "shell ") no_items)) no_fields))
        (field "max_tool_iters" (int 4) no_fields)))

abbrev config : Config
config = record {
  model = some "large";
  temperature = Json.float "0.7";
  tool_allow = [];
  tool_deny = "shell" ∷ [];
  allow_body_control = true;
  max_tool_iters = some 4;
  max_output_tokens = none;
}

accepted : from_authority raw ≡ some config
unfolding from_authority read_config read_model read_temperature read_tools identifier_set
    read_identifiers read_flag read_limit strip
accepted = refl

abbrev facts : Facts
facts = record {
  owner_id = "o";
  companion_id = "c";
  memory_realm_id = "home";
  runtime_config = raw;
}

abbrev binding : Binding
binding = record {
  owner_id = "o";
  person_id = "p";
  person_revision = 3;
  session_id = "s";
  realm_id = "guest";
  save_allowed = true;
  session_recall_allowed = false;
}

abbrev authority : Authority
authority = record {
  resolve = λ owner companion. some facts;
  resolve_provisional_memory = λ owner person revision session. some binding;
  resolve_person_memory = λ owner person revision. some "person";
}

abbrev claims : Claims
claims = record {
  owner_id = "o";
  companion_id = "c";
  device_id = some " d ";
  session_id = some " s ";
  person_id = some "p";
  identity_epoch = some (natural 0);
  person_revision = some (natural 3);
  source_session_id = some "s";
  memory_mode = provisional;
}

abbrev session : Authorized
session =
    session_of claims "s" facts (record { realm_id = "guest"; save = true; recall = false }) config

abbrev denial : Claims → Result Authorized
denial c = authorize authority c

refused :
    (denial (record claims { identity_epoch = none }) ≡ denied incomplete_binding)
    × (denial (record claims { session_id = some " " }) ≡ denied no_session)
    × (denial (record claims { source_session_id = some "t" }) ≡ denied requires_source_session)
    × (denial (record claims { person_revision = some (natural 4) })
        ≡ denied provisional_outside_scope)
unfolding authorize check_claims resolve_runtime memory_of provisional_memory strip
refused = (refl, refl, refl, refl)

devices : (session.device_id ≡ some "d") × (normalize_device (some " ") ≡ none)
unfolding normalize_device strip
devices = (refl, refl)
