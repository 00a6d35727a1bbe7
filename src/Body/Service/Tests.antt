-- ===== src/Body/Service/Tests.antt =====
-- Commands to concrete devices.
use eidolon_agent.Base.{◌≡◌, refl, false, none, some, List, [], ◌∷◌, String, strip, split}
use eidolon_agent.Base.Json.{null, object, no_fields}
use eidolon_agent.Body.Resolver.{
  Capability, Device, online, device_ambiguous, command_rejected, capability_unsupported, found,
  resolve_body_device, normalize, device_keys, matches_partial, is_exact, is_current_alias,
}
use eidolon_agent.Body.Resolver.Selection.{Selected, resolve-Selected}
use eidolon_agent.Body.Service.{
  Sdk, Request, Command, sent, error, send_command, send_qualified, send_prioritized, send_resolved,
  send_to, validate_choice, list_devices, send_companion_capability, send_to_companion,
  send_to_provider, is_companion, normalize_companion_name, provides, visible_status,
}
use eidolon_agent.Body.Service.Checked.{IsChecked, send_command-IsChecked}
use eidolon_agent.Body.Service.Companion.{IsProvider, send_companion-IsProvider}

abbrev lamp : Capability
lamp = record { name = "lamp.on"; version = 2; input_schema = null }

abbrev device : String → String → List Capability → Device
device id name capabilities = record {
  device_id = id;
  name = name;
  aliases = [];
  status = online;
  is_current_device = false;
  provider_companion_id = "ada";
  provider_companion_name = "Ada";
  capabilities = capabilities;
}

-- Names are lower case here.
abbrev sdk : Sdk
sdk = record {
  lower = λ s. s;
  casefold = λ s. s;
  capability = λ d op version. elim d.capabilities [ [] ↦ none | c ∷ cs ↦ some c ];
  argument_error = λ schema payload. none;
}

abbrev desk : Device
desk = device "d1" "desk lamp" (lamp ∷ [])

abbrev devices : List Device
devices = desk ∷ device "d2" "door" [] ∷ []

abbrev request : Request
request = record {
  owner_id = "o";
  companion_id = "c";
  source_device_id = none;
  op = "lamp.on";
  capability_version = none;
  payload = object no_fields;
  qos = "ack";
  ttl_ms = 5_000;
  priority = "normal";
  idempotency_key = none;
}

abbrev command : Command
command = record {
  owner_id = "o";
  companion_id = "c";
  device_id = "d1";
  source_device_id = none;
  op = "lamp.on";
  capability_version = 2;
  payload = object no_fields;
  qos = "ack";
  ttl_ms = 5_000;
  priority = "normal";
  idempotency_key = none;
}

resolves : resolve_body_device sdk.lower devices "desk" none ≡ found desk
unfolding resolve_body_device normalize device_keys matches_partial is_exact is_current_alias strip
    split
resolves = refl

resolve-Selected_example : Selected sdk.lower devices none "desk" desk
resolve-Selected_example = resolve-Selected sdk.lower devices none "desk" desk resolves

is_sent : send_command sdk devices "desk" request ≡ sent command
unfolding send_command send_qualified send_prioritized send_resolved send_to validate_choice
    list_devices resolve_body_device normalize device_keys matches_partial is_exact is_current_alias
    strip split
is_sent = refl

send_command-IsChecked_example : IsChecked sdk devices "desk" request command
send_command-IsChecked_example = send_command-IsChecked sdk devices "desk" request command is_sent

rejected :
    (send_command sdk devices "door" request ≡ error capability_unsupported)
    × (send_command sdk devices "d" request ≡ error (device_ambiguous ("d1" ∷ "d2" ∷ [])))
    × (send_command sdk devices "desk" (record request { ttl_ms = 999 }) ≡ error command_rejected)
unfolding send_command send_qualified send_prioritized send_resolved send_to validate_choice
    list_devices resolve_body_device normalize device_keys matches_partial is_exact is_current_alias
    strip split
rejected = (refl, refl, refl)

to_companion : send_companion_capability sdk devices devices "Ada" 2 request ≡ sent command
unfolding send_companion_capability send_to_companion send_to_provider is_companion
    normalize_companion_name provides send_command send_qualified send_prioritized send_resolved
    send_to validate_choice list_devices resolve_body_device normalize device_keys matches_partial
    is_exact is_current_alias strip split
to_companion = refl

send_companion-IsProvider_example :
    (p : Device) × IsProvider sdk devices "Ada" "lamp.on" 2 p
    × IsChecked sdk devices p.device_id (record request { capability_version = some 2 }) command
send_companion-IsProvider_example =
    send_companion-IsProvider sdk devices devices "Ada" 2 request command to_companion

visible :
    (visible_status devices "d2" ≡ none) × (visible_status devices "d3" ≡ some command_rejected)
unfolding visible_status list_devices
visible = (refl, refl)
