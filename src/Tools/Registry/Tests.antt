-- ===== src/Tools/Registry/Tests.antt =====
-- The registry on concrete calls.
use eidolon_agent.Base.{◌≡◌, refl, true, false, none, some, [], ◌∷◌, String, if◌then◌else◌}
use eidolon_agent.Base.Dict.{lookup, insert}
use eidolon_agent.Tools.Schema.{schema, no_props, any_items}
use eidolon_agent.Tools.Dispatch.Calls.{Tool, Registry, timed_out}
use eidolon_agent.Tools.Registry.{get, registers, registers_alias, deregisters, perform}
use eidolon_agent.Tools.Registry.Found.{after_call, get-perform}

abbrev named : String → Tool Unit
named n = record {
  schema = record {
    name = n;
    json_schema = schema none [] no_props true any_items;
    permissions = [];
    side_effect = false;
    idempotency_key_template = none;
  };
  invoke = λ c w. (timed_out, w);
}

abbrev with_alias : Registry Unit
with_alias = record { tools = ("a", named "a") ∷ []; aliases = ("b", named "a") ∷ [] }

-- A tool may be registered under a name that is an alias, and hides it then.
alias_hidden : get "b" (perform (registers (named "b")) with_alias).0 ≡ some (named "b")
unfolding get perform lookup insert
alias_hidden = refl

-- An alias may not.
taken : (perform (registers_alias "b" (named "c")) with_alias).1 ≡ false
unfolding perform lookup
taken = refl

get-perform_example : get "b" (perform (deregisters "b") with_alias).0 ≡ (
    if (perform (deregisters "b") with_alias).1
    then after_call {World = Unit} (deregisters "b") "b" (get "b" with_alias)
    else get "b" with_alias)
get-perform_example = get-perform (deregisters "b") with_alias "b"
