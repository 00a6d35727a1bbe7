-- ===== src/Tools/Registry.antt =====
-- `ToolRegistry` of eidolon_agent/domain/tools/registry.py. What raises answers none.
pub mod Found
mod Tests
use eidolon_agent.Base.{
  ◌≡◌, refl, ap, ◌∙◌, Bool, true, false, ◌||◌, Option, none, some, List, [], ◌∷◌, String, map,
  str_eq, eq_iff, is_some, if◌then◌else◌, arith, Bool-cases, inl, inr,
}
use eidolon_agent.Base.Dict.{Dict, lookup, insert, erase, lookup-insert, lookup-erase}
use eidolon_agent.Tools.Dispatch.Calls.{Tool, ToolSchema, Registry}

module _ {World : Type 0} where
  abbrev pub first_of : Option (Tool World) → Option (Tool World) → Option (Tool World)
  first_of (some t) o = some t
  first_of none o = o

  pub get : String → Registry World → Option (Tool World)
  get name r = first_of (lookup name r.tools) (lookup name r.aliases)

  pub register : Tool World → Registry World → Option (Registry World)
  register tool r =
      if is_some (lookup tool.schema.name r.tools)
      then none
      else some (record r { tools = insert tool.schema.name tool r.tools })

  pub register_alias : String → Tool World → Registry World → Option (Registry World)
  register_alias name tool r =
      if is_some (lookup name r.tools) || is_some (lookup name r.aliases)
      then none
      else some (record r { aliases = insert name tool r.aliases })

  pub deregister : String → Registry World → Registry World
  deregister name r = record r { tools = erase name r.tools; aliases = erase name r.aliases }

  pub list_schemas : Registry World → List ToolSchema
  list_schemas r = map (λ (e : String × Tool World). e.1.schema) r.tools

pub data RegistryCall (World : Type 0) : Type 0 where
  registers : Tool World → RegistryCall World
  registers_alias : String → Tool World → RegistryCall World
  deregisters : String → RegistryCall World

module _ {World : Type 0} where
  abbrev pub if_raised : Registry World → Option (Registry World) → Registry World × Bool
  if_raised r none = (r, false)
  if_raised r (some r') = (r', true)

  -- The registry after a call, and whether the call went through.
  unfoldable pub perform : RegistryCall World → Registry World → Registry World × Bool
  unfolding register register_alias deregister
  perform (registers tool) r = if_raised r (register tool r)
  perform (registers_alias name tool) r = if_raised r (register_alias name tool r)
  perform (deregisters name) r = (deregister name r, true)
