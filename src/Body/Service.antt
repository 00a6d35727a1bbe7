-- ===== src/Body/Service.antt =====
-- `BodyControlService`: the checks between a request and the command port. The directory's answers
-- are arguments, a later read being another one; so is what the SDK does (`Device.capability`,
-- `validate_capability_arguments`). A command port that is called is the result `sent`.
pub mod Checked
pub mod Companion
mod Tests
use eidolon_agent.Base.{
  ℕ, ◌≡◌, Bool, true, false, not, ◌&&◌, ◌||◌, Option, none, some, List, [], ◌∷◌, String, map,
  str_eq, str_mem, ltb, ◌==◌, if◌then◌else◌, keep_if, any, strip, split, join,
}
use eidolon_agent.Base.Json.{Json}
use eidolon_agent.Body.Resolver.{
  Capability, Device, DeviceState, online, offline, unknown, BodyError, companion_not_found,
  device_offline, capability_unsupported, command_rejected, device_ambiguous, companion_ambiguous,
  Resolved, found, refused, device_ids, resolve_body_device,
}

-- What the service uses of the SDK and of Python's Unicode case tables.
pub record Sdk : Type 0 where
  pub lower : String → String
  pub casefold : String → String
  pub capability : Device → String → Option ℕ → Option Capability
  pub argument_error : Json → Json → Option String

-- The arguments of `send_command`, but for the target and the runtime ids that it only hands on.
pub record Request : Type 0 where
  pub owner_id : String
  pub companion_id : String
  pub source_device_id : Option String
  pub op : String
  pub capability_version : Option ℕ
  pub payload : Json
  pub qos : String
  pub ttl_ms : ℕ
  pub priority : String
  pub idempotency_key : Option String

-- What the command port is called with.
pub record Command : Type 0 where
  pub owner_id : String
  pub companion_id : String
  pub device_id : String
  pub source_device_id : Option String
  pub op : String
  pub capability_version : ℕ
  pub payload : Json
  pub qos : String
  pub ttl_ms : ℕ
  pub priority : String
  pub idempotency_key : Option String

pub data Sent : Type 0 where
  sent : Command → Sent
  error : BodyError → Sent

abbrev pub is_offline : DeviceState → Bool
is_offline offline = true
is_offline _ = false

abbrev pub is_unreachable : DeviceState → Bool
is_unreachable online = false
is_unreachable _ = true

-- `list_devices`, of what the directory answered.
pub list_devices : Bool → List Device → List Device
list_devices include_offline devices =
    if include_offline then devices else keep_if (λ (d : Device). not (is_offline d.status)) devices

abbrev pub qos_choices : List String
qos_choices = "fire_and_forget" ∷ "ack" ∷ "result" ∷ []

abbrev pub priority_choices : List String
priority_choices = "low" ∷ "normal" ∷ "high" ∷ "urgent" ∷ []

-- `_validate_choice`; none is its BodyCommandRejected.
pub validate_choice : String → List String → Option String
validate_choice value allowed =
    let normalized = strip value in if str_mem normalized allowed then some normalized else none

module _ (sdk : Sdk) where
  -- The part of `send_command` behind the resolution of its device.
  pub send_to : Request → String → String → Device → Sent
  send_to r qos priority d = elim (sdk.capability d r.op r.capability_version) [
    | none ↦ error capability_unsupported
    | some cap ↦
        if is_unreachable d.status
        then error device_offline
        else elim (sdk.argument_error cap.input_schema r.payload) [
          | some message ↦ error command_rejected
          | none ↦ sent (record {
            owner_id = r.owner_id;
            companion_id = r.companion_id;
            device_id = d.device_id;
            source_device_id = r.source_device_id;
            op = r.op;
            capability_version = cap.version;
            payload = r.payload;
            qos = qos;
            ttl_ms = r.ttl_ms;
            priority = priority;
            idempotency_key = r.idempotency_key;
          })
        ]
  ]

  pub send_resolved : Request → String → String → Resolved → Sent
  send_resolved r qos priority (found d) = send_to r qos priority d
  send_resolved r qos priority (refused e) = error e

  pub send_prioritized : List Device → String → Request → String → Option String → Sent
  send_prioritized devices target r qos none = error command_rejected
  send_prioritized devices target r qos (some priority) =
      if ltb r.ttl_ms 1_000 || ltb 600_000 r.ttl_ms
      then error command_rejected
      else send_resolved r qos priority
          (resolve_body_device sdk.lower (list_devices true devices) target r.source_device_id)

  pub send_qualified : List Device → String → Request → Option String → Sent
  send_qualified devices target r none = error command_rejected
  send_qualified devices target r (some qos) =
      send_prioritized devices target r qos (validate_choice r.priority priority_choices)

  pub send_command : List Device → String → Request → Sent
  send_command devices target r =
      send_qualified devices target r (validate_choice r.qos qos_choices)

  -- `_normalize_companion_name`
  pub normalize_companion_name : String → String
  normalize_companion_name value = join " " (split (sdk.casefold (strip value)))

  pub is_companion : String → Device → Bool
  is_companion target d =
      str_eq (normalize_companion_name d.provider_companion_name) (normalize_companion_name target)

  pub provides : String → ℕ → Device → Bool
  provides name version d =
      any (λ (c : Capability). str_eq c.name name && c.version == version) d.capabilities

-- The other companion ids than the first: `sorted({…})` has one element if there are none.
abbrev pub other_ids : String → List Device → List String
other_ids id [] = []
other_ids id (d ∷ ds) =
    if str_eq d.provider_companion_id id
    then other_ids id ds
    else d.provider_companion_id ∷ other_ids id ds

module _ (sdk : Sdk) where
  pub send_to_provider : List Device → List Device → ℕ → Request → Sent
  send_to_provider devices [] version r = error capability_unsupported
  send_to_provider devices (p ∷ []) version r =
      send_command sdk devices p.device_id (record r { capability_version = some version })
  send_to_provider devices (p ∷ q ∷ ps) version r =
      error (device_ambiguous (device_ids (p ∷ q ∷ ps)))

  pub send_to_companion : List Device → List Device → ℕ → Request → Sent
  send_to_companion devices [] version r = error companion_not_found
  send_to_companion devices (c ∷ cs) version r = elim (other_ids c.provider_companion_id cs) [
    | [] ↦ send_to_provider devices (keep_if (provides sdk r.op version) (c ∷ cs)) version r
    | id ∷ ids ↦ error (companion_ambiguous (c.provider_companion_id ∷ id ∷ ids))
  ]

  -- `send_companion_capability`: the devices of its own read, and those that `send_command` reads.
  pub send_companion_capability : List Device → List Device → String → ℕ → Request → Sent
  send_companion_capability devices again target_companion version r =
      send_to_companion again
        (keep_if (is_companion sdk target_companion) (list_devices false devices)) version r

-- `get_command_status`: the device of the port's answer must be one of those listed.
pub visible_status : List Device → String → Option BodyError
visible_status devices device_id =
    if str_mem device_id (device_ids (list_devices true devices))
    then none
    else some command_rejected
