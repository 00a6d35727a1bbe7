-- ===== src/Home/Execute/Tests.antt =====
-- Executions for a lamp, with replies of several kinds.
use eidolon_agent.Base.{◌≡◌, refl, Bool, true, Option, none, some, List, [], ◌∷◌, String}
use eidolon_agent.Base.Dict.{lookup, insert}
use eidolon_agent.Home.Plan.{HomeCommand, Target, Plan}
use eidolon_agent.Home.Execute.{
  Status, succeeded, failed, DeviceOutcome, unknown_outcome, CommandResult, Request, Reply, Answer,
  answered, timed_out, outcomes, outcome_of, outcome_unfailed, group_results, read_results,
  read_answer, execute,
}
use eidolon_agent.Home.Execute.Covers.{Covered}
use eidolon_agent.Home.Execute.Truth.{request_of, Confirms, execute-Covered, succeeded-Confirms}

abbrev command : HomeCommand
command = record { device_id = "lamp"; trait = "light"; command = "set"; params = [] }

abbrev target : String → List HomeCommand → Option String → Target
target id commands rejected = record {
  device_id = id;
  name = id;
  kind = "light";
  commands = commands;
  rejected = rejected;
}

abbrev plan : Plan
plan = record {
  targets = target "lamp" (command ∷ []) none ∷ target "door" [] (some "DENIED") ∷ [];
  commands = command ∷ [];
  scene = none;
  known = [];
}

abbrev result : String → Status → CommandResult
result id status = record {
  device_id = id;
  status = status;
  code = none;
  state = some "on";
  platform_answer = none;
}

abbrev lines_up : List HomeCommand → Reply → Bool
lines_up commands reply = true

abbrev good_executor : Request → Answer
good_executor r =
    answered
      (record { request_id = r.request_id; error = none; results = result "lamp" succeeded ∷ [] })

abbrev foreign_executor : Request → Answer
foreign_executor r =
    answered (record { request_id = "other"; error = none; results = result "lamp" succeeded ∷ [] })

abbrev lamp_on : DeviceOutcome
lamp_on = record { status = succeeded; code = none; state = some "on"; answer = none }

abbrev lost_executor : Request → Answer
lost_executor r = timed_out

executions :
    (execute lines_up good_executor 0 3_000 plan "r" "voice" ≡ outcomes (("lamp", lamp_on) ∷ []))
    × (execute lines_up foreign_executor 0 3_000 plan "r" "voice"
        ≡ outcomes (("lamp", unknown_outcome) ∷ []))
    × (execute lines_up lost_executor 0 3_000 plan "r" "voice"
        ≡ outcomes (("lamp", unknown_outcome) ∷ []))
    × ((outcome_of (result "lamp" succeeded ∷ result "lamp" failed ∷ [])).status ≡ failed)
unfolding execute read_answer read_results group_results outcome_of outcome_unfailed lookup insert
executions = (refl, refl, refl, refl)

execute-Covered_example :
    Covered lines_up plan "r" "lamp"
      (("lamp", lamp_on) ∷ [])
      (good_executor (request_of 0 3_000 plan "r" "voice"))
execute-Covered_example =
    execute-Covered lines_up good_executor 0 3_000 plan "r" "voice" "lamp" (("lamp", lamp_on) ∷ [])
      refl refl executions.0

found : lookup "lamp" (("lamp", lamp_on) ∷ []) ≡ some lamp_on
unfolding lookup
found = refl

succeeded-Confirms_example :
    Confirms lines_up plan "r" (good_executor (request_of 0 3_000 plan "r" "voice")) "lamp"
succeeded-Confirms_example =
    succeeded-Confirms lines_up good_executor 0 3_000 plan "r" "voice" "lamp"
      (("lamp", lamp_on) ∷ []) lamp_on executions.0 found refl
