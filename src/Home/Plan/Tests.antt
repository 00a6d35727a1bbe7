-- ===== src/Home/Plan/Tests.antt =====
-- Plans for a lamp and a door.
use eidolon_agent.Base.{
  ℕ, ◌≡◌, refl, true, Option, none, some, List, [], ◌∷◌, String, str_eq, map, if◌then◌else◌,
}
use eidolon_agent.Base.Dict.{lookup, insert}
use eidolon_agent.Base.Json.{int}
use eidolon_agent.Home.Plan.{
  HomeDevice, Scene, Action, HomeSdk, Target, Plan, Planned, planned, refused, checked_command,
  device_command, plan_target, bounded, plan_devices, plan_scene, devices_of, plan_activation,
  plan_action,
}
use eidolon_agent.Home.Plan.Bounded.{IsPlan, plan_devices-IsPlan}

abbrev pub lamp : HomeDevice
lamp = record { device_id = "lamp"; name = "Lamp"; kind = "light" }

abbrev pub door : HomeDevice
door = record { device_id = "door"; name = "Door"; kind = "lock" }

abbrev evening : Scene
evening = record { scene_id = "evening"; device_ids = "lamp" ∷ "gone" ∷ "lamp" ∷ [] }

abbrev sdk_for : ℕ → HomeSdk
sdk_for limit = record {
  params_spec = λ trait command. if str_eq command "set" then some ("level" ∷ []) else none;
  well_formed = λ c. true;
  refusal = λ kind c. if str_eq kind "light" then none else some "DENIED";
  device = λ ref. if str_eq ref "lamp" then some lamp else none;
  scene = λ ref. if str_eq ref "evening" then some evening else none;
  devices = lamp ∷ door ∷ [];
  max_commands = limit;
  unsupported_command = "UNSUPPORTED";
  unknown_device = "UNKNOWN";
  scene_trait = "scene";
  scene_command = "activate";
}

abbrev set : Action
set = record { trait = "light"; command = "set"; slots = ("level", int 3) ∷ ("x", int 4) ∷ [] }

abbrev activate : Action
activate = record { trait = "scene"; command = "activate"; slots = [] }

abbrev plan_of : Planned Plan → List (Option String)
plan_of (planned p) = map (λ (t : Target). t.rejected) p.targets
plan_of (refused code) = some code ∷ []

plans :
    (map
        (λ (t : Target). t.rejected)
        (plan_devices (sdk_for 9) (lamp ∷ door ∷ []) (λ d. some set)).targets
      ≡ none ∷ some "DENIED" ∷ [])
    × (map
          (λ (t : Target). t.rejected)
          (plan_devices (sdk_for 0) (lamp ∷ door ∷ []) (λ d. some set)).targets
        ≡ some "TOO_MANY_COMMANDS" ∷ some "DENIED" ∷ [])
    × (plan_of (plan_action (sdk_for 9) ("lamp" ∷ []) set) ≡ none ∷ [])
    × (plan_of (plan_action (sdk_for 9) ("lamp" ∷ "cat" ∷ []) set) ≡ some "UNKNOWN" ∷ [])
    × (plan_of (plan_action (sdk_for 9) ("evening" ∷ []) activate) ≡ none ∷ [])
unfolding plan_action plan_activation plan_scene devices_of plan_devices bounded plan_target
    device_command checked_command lookup insert
plans = (refl, refl, refl, refl, refl)

plan_devices-IsPlan_example :
    IsPlan
      (sdk_for 9)
      (lamp ∷ door ∷ [])
      (plan_devices (sdk_for 9) (lamp ∷ door ∷ []) (λ d. some set))
plan_devices-IsPlan_example = plan_devices-IsPlan (sdk_for 9) (lamp ∷ door ∷ []) (λ d. some set)
