-- ===== src/Tools/Registry/Found.antt =====
-- What `ToolRegistry.get` finds after the other calls.
use eidolon_agent.Base.{◌≡◌, Option, none, some, String, str_eq, eq_iff, if◌then◌else◌, arith}
use eidolon_agent.Base.Dict.{lookup-insert, lookup-erase}
use eidolon_agent.Tools.Dispatch.Calls.{Tool, Registry}
use eidolon_agent.Tools.Registry.{
  get, RegistryCall, registers, registers_alias, deregisters, perform,
}

module _ {World : Type 0} where
  -- What a name stands for after a call that goes through.
  abbrev pub after_call : RegistryCall World → String → Option (Tool World) → Option (Tool World)
  after_call (registers tool) n old = if str_eq tool.schema.name n then some tool else old
  after_call (registers_alias name tool) n old = if str_eq name n then some tool else old
  after_call (deregisters name) n old = if str_eq name n then none else old

  -- After a registration or the removal of a name that goes through, `get` finds the new tool, or
  -- nothing, under that name, be it a tool's or an alias, and under every other name what it found;
  -- a registration that raises changes nothing that `get` finds.
  pub get-perform :
      (c : RegistryCall World) (r : Registry World) (n : String)
      → get n (perform c r).0 ≡ (if (perform c r).1 then after_call c n (get n r) else get n r)
  unfolding get perform
  get-perform (registers tool) r n =
      ground (arith, eq_iff tool.schema.name n, lookup-insert tool.schema.name n tool r.tools)
  get-perform (registers_alias name tool) r n =
      ground (arith, eq_iff name n, lookup-insert name n tool r.aliases)
  get-perform (deregisters name) r n =
      ground (arith, eq_iff name n, lookup-erase name n r.tools, lookup-erase name n r.aliases)
