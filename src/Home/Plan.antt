-- ===== src/Home/Plan.antt =====
-- From an action to a plan of commands: `device_command`, `plan_action`, `plan_devices`,
-- `plan_scene` and `_bounded` of eidolon_agent/domain/smarthome/planning.py. What the SDK provides,
-- its tables, its checks and the registry's lookups, is a record of parameters.
pub mod Bounded
mod Tests
use eidolon_agent.Base.{
  ℕ, Bool, true, false, not, ◌&&◌, ◌||◌, Option, none, some, List, [], ◌∷◌, ◌++◌, String, map, leb,
  if◌then◌else◌, str_eq, str_mem, keep_if, length, is_some, any,
}
use eidolon_agent.Base.Json.{Json}
use eidolon_agent.Base.Dict.{Dict, lookup, insert}

pub record HomeDevice : Type 0 where
  pub device_id : String
  pub name : String
  pub kind : String

-- A scene, with the device of each of its actions.
pub record Scene : Type 0 where
  pub scene_id : String
  pub device_ids : List String

pub record Action : Type 0 where
  pub trait : String
  pub command : String
  pub slots : List (String × Json)

pub record HomeCommand : Type 0 where
  pub device_id : String
  pub trait : String
  pub command : String
  pub params : Dict Json

-- The SDK and the current registry: `TRAIT_COMMANDS`, the validation of a `Command`'s fields,
-- `validate_command` (none, or the code of its error), the lookups, and the constants.
pub record HomeSdk : Type 0 where
  pub params_spec : String → String → Option (List String)
  pub well_formed : HomeCommand → Bool
  pub refusal : String → HomeCommand → Option String
  pub device : String → Option HomeDevice
  pub scene : String → Option Scene
  pub devices : List HomeDevice
  pub max_commands : ℕ
  pub unsupported_command : String
  pub unknown_device : String
  pub scene_trait : String
  pub scene_command : String

-- `PlannedTarget`
pub record Target : Type 0 where
  pub device_id : String
  pub name : String
  pub kind : String
  pub commands : List HomeCommand
  pub rejected : Option String

-- `CommandPlan`
pub record Plan : Type 0 where
  pub targets : List Target
  pub commands : List HomeCommand
  pub scene : Option Scene
  pub known : Dict Target

-- A value, or the code of the SmartHomeError that is raised.
pub data Planned (A : Type 0) : Type 0 where
  planned : A → Planned A
  refused : String → Planned A

-- `{slot.name: slot.value for slot in action.slots if slot.name in params_spec}`
abbrev pub params_of : List String → List (String × Json) → Dict Json → Dict Json
params_of spec [] params = params
params_of spec (s ∷ slots) params =
    params_of spec slots (if str_mem s.0 spec then insert s.0 s.1 params else params)

abbrev pub target_of : HomeDevice → List HomeCommand → Option String → Target
target_of d commands rejected = record {
  device_id = d.device_id;
  name = d.name;
  kind = d.kind;
  commands = commands;
  rejected = rejected;
}

abbrev pub all_commands : List Target → List HomeCommand
all_commands [] = []
all_commands (t ∷ ts) = t.commands ++ all_commands ts

-- `t.rejected or TOO_MANY_COMMANDS`
abbrev pub or_too_many : Option String → Option String
or_too_many none = some "TOO_MANY_COMMANDS"
or_too_many (some code) = some (if str_eq code "" then "TOO_MANY_COMMANDS" else code)

abbrev pub over_limit : Target → Target
over_limit t = record t { commands = []; rejected = or_too_many t.rejected }

module _ (sdk : HomeSdk) where
  pub checked_command : HomeDevice → HomeCommand → Planned HomeCommand
  checked_command d c =
      if sdk.well_formed c
      then elim (sdk.refusal d.kind c) [ none ↦ planned c | some code ↦ refused code ]
      else refused sdk.unsupported_command

  pub device_command : HomeDevice → Action → Planned HomeCommand
  unfolding checked_command
  device_command d a = elim (sdk.params_spec a.trait a.command) [
    | none ↦ refused sdk.unsupported_command
    | some spec ↦ checked_command d (record {
      device_id = d.device_id;
      trait = a.trait;
      command = a.command;
      params = params_of spec a.slots [];
    })
  ]

  -- The body of the loop of `plan_devices`.
  pub plan_target : (HomeDevice → Option Action) → HomeDevice → Target
  unfolding device_command
  plan_target choose d = elim (choose d) [
    | none ↦ target_of d [] (some sdk.unsupported_command)
    | some a ↦ elim (device_command d a) [
      | refused code ↦ target_of d [] (some code)
      | planned c ↦ target_of d (c ∷ []) none
    ]
  ]

  -- `_bounded`
  pub bounded : Plan → Plan
  bounded plan =
      if leb (length plan.commands) sdk.max_commands
      then plan
      else record { targets = map over_limit plan.targets; commands = []; scene = none; known = [] }

  pub plan_devices : List HomeDevice → (HomeDevice → Option Action) → Plan
  unfolding plan_target bounded
  plan_devices devices choose =
      let targets = map (plan_target choose) devices in
      bounded
        (record { targets = targets; commands = all_commands targets; scene = none; known = [] })

  abbrev pub known_targets : List HomeDevice → Dict Target → Dict Target
  known_targets [] known = known
  known_targets (d ∷ ds) known = known_targets ds (insert d.device_id (target_of d [] none) known)

  -- The targets of the scene's devices that are known, each once.
  abbrev pub stored_targets : Dict Target → List String → List String → List Target
  stored_targets known seen [] = []
  stored_targets known seen (id ∷ ids) =
      let rest = stored_targets known (id ∷ seen) ids in
      if str_mem id seen then rest else elim (lookup id known) [ none ↦ rest | some t ↦ t ∷ rest ]

  pub plan_scene : Scene → Plan
  plan_scene scene =
      let known = known_targets sdk.devices [] in
      record {
        targets = stored_targets known [] scene.device_ids;
        commands = [];
        scene = some scene;
        known = known;
      }

  -- The devices of all references; none if one is no device.
  pub devices_of : List String → Option (List HomeDevice)
  devices_of [] = some []
  devices_of (ref ∷ refs) =
      let rest = devices_of refs in
      elim (sdk.device ref) [
        | none ↦ none
        | some d ↦ elim rest [ none ↦ none | some ds ↦ some (d ∷ ds) ]
      ]

  abbrev pub only_scene : List String → Option Scene
  only_scene (ref ∷ []) = sdk.scene ref
  only_scene _ = none

  pub plan_activation : List String → Action → Planned Plan
  unfolding plan_scene
  plan_activation refs a =
      if str_eq a.command sdk.scene_command
      then elim (only_scene refs) [
        | none ↦ refused sdk.unsupported_command
        | some scene ↦ planned (plan_scene scene)
      ]
      else refused sdk.unsupported_command

  pub plan_action : List String → Action → Planned Plan
  unfolding plan_activation devices_of plan_devices
  plan_action refs a =
      if str_eq a.trait sdk.scene_trait then plan_activation refs a else elim (devices_of refs) [
        | none ↦ refused sdk.unknown_device
        | some devices ↦ planned (plan_devices devices (λ d. some a))
      ]
