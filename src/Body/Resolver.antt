-- ===== src/Body/Resolver.antt =====
-- `resolve_body_device`: from what a user calls a device to the device.
pub mod Selection
use eidolon_agent.Base.{
  ℕ, Bool, true, false, not, ◌&&◌, ◌||◌, Option, none, some, List, [], ◌∷◌, ◌++◌, String, map,
  str_eq, str_mem, opt_eq, if◌then◌else◌, keep_if, any, find_first, strip, split, join,
  contains_text,
}
use eidolon_agent.Base.Json.{Json}

pub record Capability : Type 0 where
  pub name : String
  pub version : ℕ
  pub input_schema : Json

pub data DeviceState : Type 0 where
  online offline unknown : DeviceState

pub record Device : Type 0 where
  pub device_id : String
  pub name : String
  pub aliases : List String
  pub status : DeviceState
  pub is_current_device : Bool
  pub provider_companion_id : String
  pub provider_companion_name : String
  pub capabilities : List Capability

-- `BodyControlError` and its subclasses; the text of a message is not modelled.
pub data BodyError : Type 0 where
  device_not_found companion_not_found device_offline capability_unsupported command_rejected :
      BodyError
  device_ambiguous companion_ambiguous : List String → BodyError

pub data Resolved : Type 0 where
  found : Device → Resolved
  refused : BodyError → Resolved

abbrev current_device_aliases : List String
current_device_aliases =
    "" ∷ "this" ∷ "this device" ∷ "current" ∷ "current device" ∷ "这个设备" ∷ "当前设备" ∷ "本机" ∷ []

abbrev pub device_ids : List Device → List String
device_ids ds = map (λ (d : Device). d.device_id) ds

-- Python's Unicode case tables are `lower`.
module _ (lower : String → String) where
  -- `_normalize`
  unfoldable pub normalize : String → String
  normalize value = join " " (split (lower (strip value)))

  -- `_device_keys`: a missing or empty name counts for nothing.
  unfoldable pub device_keys : Device → List String
  device_keys d =
      map normalize (keep_if (λ v. not (str_eq v "")) (d.device_id ∷ d.name ∷ d.aliases))

  -- `_matches_partial`
  unfoldable pub matches_partial : String → Device → Bool
  matches_partial key d =
      if str_eq key "" then false else any (λ c. contains_text key c) (device_keys d)

  unfoldable pub is_exact : String → Device → Bool
  is_exact key d = str_mem key (device_keys d)

  -- `source_device_id and device.device_id == source_device_id`
  unfoldable pub is_source : Option String → Device → Bool
  is_source none d = false
  is_source (some s) d = not (str_eq s "") && str_eq d.device_id s

  unfoldable pub is_current_alias : String → Bool
  is_current_alias key = str_mem key current_device_aliases

  -- One match is the answer, several are ambiguous, none leaves it to what follows.
  abbrev pub pick : List Device → Resolved → Resolved
  pick [] otherwise = otherwise
  pick (d ∷ []) otherwise = found d
  pick (d ∷ e ∷ ds) otherwise = refused (device_ambiguous (device_ids (d ∷ e ∷ ds)))

  abbrev pub or_missing : Option Device → Resolved
  or_missing none = refused device_not_found
  or_missing (some d) = found d

  unfoldable pub resolve_body_device : List Device → String → Option String → Resolved
  resolve_body_device devices target source =
      let key = normalize target in
      if is_current_alias key
      then or_missing
          (find_first (λ (d : Device). d.is_current_device || is_source source d) devices)
      else pick (keep_if (is_exact key) devices)
          (pick (keep_if (matches_partial key) devices) (refused device_not_found))
