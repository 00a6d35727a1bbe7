-- ===== src/Home/Execute.antt =====
-- `HomeActuator.execute` and `_outcome` of eidolon_agent/domain/smarthome/planning.py. The executor
-- is a port: a request in, a reply or its absence out; `validate_execute_result` is a parameter.
pub mod Covers
pub mod Truth
mod Tests
use eidolon_agent.Base.{
  ℕ, ◌+◌, Bool, true, false, not, ◌&&◌, Option, none, some, List, [], ◌∷◌, ◌++◌, String, map,
  if◌then◌else◌, str_eq, keep_if, is_some, find_first, any,
}
use eidolon_agent.Base.Dict.{Dict, lookup, insert}
use eidolon_agent.Home.Plan.{HomeCommand, Scene, Target, Plan}

pub data Status : Type 0 where
  succeeded failed unknown delegated : Status

-- `DeviceOutcome`; a state stands by its text.
pub record DeviceOutcome : Type 0 where
  pub status : Status
  pub code : Option String
  pub state : Option String
  pub answer : Option String

-- `UNKNOWN`
abbrev pub unknown_outcome : DeviceOutcome
unknown_outcome = record { status = unknown; code = none; state = none; answer = none }

-- `CommandResult`
pub record CommandResult : Type 0 where
  pub device_id : String
  pub status : Status
  pub code : Option String
  pub state : Option String
  pub platform_answer : Option String

-- `ExecuteRequest`
pub record Request : Type 0 where
  pub request_id : String
  pub commands : List HomeCommand
  pub scene_id : Option String
  pub origin : String
  pub deadline_ms : ℕ

-- What the executor answers.
pub record Reply : Type 0 where
  pub request_id : String
  pub error : Option String
  pub results : List CommandResult

-- How the call of the executor ends: an answer, no answer by the deadline, or SmartHomeUnavailable.
pub data Answer : Type 0 where
  answered : Reply → Answer
  timed_out unavailable : Answer

-- `Execution`, or SmartHomeUnavailable.
pub data Execution : Type 0 where
  outcomes : Dict DeviceOutcome → Execution
  error : String → Execution
  not_executed : Execution

abbrev pub is_failed : CommandResult → Bool
is_failed r = elim r.status [ failed ↦ true | _ ↦ false ]

abbrev pub is_unknown : CommandResult → Bool
is_unknown r = elim r.status [ unknown ↦ true | _ ↦ false ]

abbrev pub is_delegated : CommandResult → Bool
is_delegated r = elim r.status [ delegated ↦ true | _ ↦ false ]

-- `results[-1]`
abbrev pub last : CommandResult → List CommandResult → CommandResult
last r [] = r
last r (s ∷ rs) = last s rs

abbrev pub last_state : List CommandResult → Option String
last_state [] = none
last_state (r ∷ rs) = (last r rs).state

-- `_outcome` of results among which none has failed.
pub outcome_unfailed : List CommandResult → DeviceOutcome
outcome_unfailed [] = unknown_outcome
outcome_unfailed (r ∷ rs) =
    if any is_unknown (r ∷ rs) then unknown_outcome else elim (keep_if is_delegated (r ∷ rs)) [
      | [] ↦ record { status = succeeded; code = none; state = (last r rs).state; answer = none }
      | d ∷ ds ↦ record {
        status = delegated;
        code = none;
        state = none;
        answer = (last d ds).platform_answer;
      }
    ]

-- `_outcome`
pub outcome_of : List CommandResult → DeviceOutcome
unfolding outcome_unfailed
outcome_of rs = elim (find_first is_failed rs) [
  | some f ↦ record { status = failed; code = f.code; state = last_state rs; answer = none }
  | none ↦ outcome_unfailed rs
]

abbrev pub or_nil : Option (List CommandResult) → List CommandResult
or_nil none = []
or_nil (some rs) = rs

-- `reported.setdefault(item.device_id, []).append(item)`, for each result.
pub group_results : Dict (List CommandResult) → List CommandResult → Dict (List CommandResult)
group_results reported [] = reported
group_results reported (r ∷ rs) =
    group_results (insert r.device_id (or_nil (lookup r.device_id reported) ++ r ∷ []) reported) rs

-- `{id: f(id) for id in ids}`
abbrev pub dict_of :
    (String → DeviceOutcome) → List String → Dict DeviceOutcome → Dict DeviceOutcome
dict_of f [] d = d
dict_of f (id ∷ ids) d = dict_of f ids (insert id (f id) d)

-- `[t.device_id for t in plan.targets if t.rejected is None]`
abbrev pub expected_ids : List Target → List String
expected_ids ts =
    map (λ (t : Target). t.device_id) (keep_if (λ (t : Target). not (is_some t.rejected)) ts)

abbrev pub all_unknown : Plan → Execution
all_unknown plan = outcomes (dict_of (λ id. unknown_outcome) (expected_ids plan.targets) [])

abbrev pub scene_id_of : Option Scene → Option String
scene_id_of none = none
scene_id_of (some s) = some s.scene_id

module _ (lines_up : List HomeCommand → Reply → Bool) where
  -- The results of a reply that was taken.
  pub read_results : Plan → Reply → Execution
  unfolding group_results outcome_of
  read_results plan reply =
      let reported = group_results [] reply.results in
      if is_some plan.scene
      then outcomes (map (λ e. (e.0, outcome_of e.1)) reported)
      else if lines_up plan.commands reply
      then outcomes
          (dict_of (λ id. outcome_of (or_nil (lookup id reported))) (expected_ids plan.targets) [])
      else all_unknown plan

  pub read_answer : Plan → String → Answer → Execution
  unfolding read_results
  read_answer plan request_id timed_out = all_unknown plan
  read_answer plan request_id unavailable = not_executed
  read_answer plan request_id (answered reply) =
      if str_eq reply.request_id request_id
      then elim reply.error [ some code ↦ error code | none ↦ read_results plan reply ]
      else all_unknown plan

  pub execute : (Request → Answer) → ℕ → ℕ → Plan → String → String → Execution
  unfolding read_answer
  execute executor now_ms deadline_ms plan request_id origin =
      if not (is_some plan.scene) && not (any (λ c. true) plan.commands)
      then outcomes []
      else read_answer plan request_id (
          executor (record {
            request_id = request_id;
            commands = plan.commands;
            scene_id = scene_id_of plan.scene;
            origin = origin;
            deadline_ms = now_ms + deadline_ms;
          }))
