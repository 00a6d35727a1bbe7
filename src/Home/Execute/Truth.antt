-- ===== src/Home/Execute/Truth.antt =====
-- What `execute` tells of a plan of explicit commands.
use eidolon_agent.Base.{
  ℕ, ◌+◌, ◌≡◌, inl, inr, sym, ap, ◌∙◌, Bool, true, false, some, List, [], String, map, eq_iff,
  Option-cases, str_mem, str_eq, keep_if, is_some, any, all, Bool-cases, some_inj, subst,
}
use eidolon_agent.Base.Dict.{Dict, lookup}
use eidolon_agent.Home.Plan.{HomeCommand, Plan}
use eidolon_agent.Home.Execute.{
  succeeded, DeviceOutcome, Request, Reply, Answer, answered, timed_out, unavailable, outcomes,
  expected_ids, scene_id_of, execute, unknown_outcome, CommandResult, outcome_of, all_unknown,
  group_results, read_results, read_answer,
}
use eidolon_agent.Home.Execute.Covers.{
  is_for, is_succeeded, outcome_of-succeeded, Told, Covered, answer-Covered, lookup-all_unknown,
  lookup-outcomes, mapped-some, grouped,
}

-- The request that `execute` sends for explicit commands.
abbrev pub request_of : ℕ → ℕ → Plan → String → String → Request
request_of now_ms deadline_ms plan request_id origin = record {
  request_id = request_id;
  commands = plan.commands;
  scene_id = scene_id_of plan.scene;
  origin = origin;
  deadline_ms = now_ms + deadline_ms;
}

-- The answer is a reply to this request whose results for the device are there and all succeeded;
-- for explicit commands it also lines up with them.
abbrev pub Confirms : (List HomeCommand → Reply → Bool) → Plan → String → Answer → String → Type 0
Confirms lines_up plan request_id (answered reply) j =
    (reply.request_id ≡ request_id)
    × (is_some plan.scene ≡ false → lines_up plan.commands reply ≡ true)
    × (all is_succeeded (keep_if (is_for j) reply.results) ≡ true)
    × (any (λ r. true) (keep_if (is_for j) reply.results) ≡ true)
Confirms lines_up plan request_id _ j = ⊥

-- Of a plan of explicit commands, with some command and no scene, whose request went through: the
-- devices with an outcome are those whose target was not rejected, and a device's outcome is what
-- the results for it say, where there is a reply to this request that lines up with its commands, and
-- unknown where the reply is lost, foreign or crooked.
pub execute-Covered :
    (lines_up : List HomeCommand → Reply → Bool) (executor : Request → Answer)
    (now_ms deadline_ms : ℕ) (plan : Plan) (request_id origin j : String) (os : Dict DeviceOutcome)
    → is_some plan.scene ≡ false
    → any (λ c. true) plan.commands ≡ true
    → execute lines_up executor now_ms deadline_ms plan request_id origin ≡ outcomes os
    → Covered lines_up plan request_id j os
        (executor (request_of now_ms deadline_ms plan request_id origin))
unfolding execute
execute-Covered lines_up executor now_ms deadline_ms plan request_id origin j os explicit some_sent
      h =
    answer-Covered lines_up plan request_id j os explicit
      (executor (request_of now_ms deadline_ms plan request_id origin))
      (rw (explicit, some_sent, execute) at h)

Told-succeeded :
    (lines_up : List HomeCommand → Reply → Bool) (plan : Plan) (request_id j : String) (a : Answer)
    (o : DeviceOutcome)
    → o.status ≡ succeeded
    → Told lines_up plan request_id a j o
    → Confirms lines_up plan request_id a j
Told-succeeded lines_up plan request_id j timed_out o good told =
    cc (ap (λ (x : DeviceOutcome). x.status) (sym told) ∙ good)
Told-succeeded lines_up plan request_id j unavailable o good told = absurd told
Told-succeeded lines_up plan request_id j (answered reply) o good (inl (lost, _)) =
    cc (ap (λ (x : DeviceOutcome). x.status) (sym lost) ∙ good)
Told-succeeded lines_up plan request_id j (answered reply) o good (inr told) =
    let (same, fine, straight, is) = told in
    let (every, there) =
      outcome_of-succeeded (keep_if (is_for j) reply.results)
        (ap (λ (x : DeviceOutcome). x.status) (sym is) ∙ good) in
    (same, (λ _. straight), every, there)

module _ (lines_up : List HomeCommand → Reply → Bool) (plan : Plan) (request_id j : String)
    (os : Dict DeviceOutcome) (o : DeviceOutcome) (good : o.status ≡ succeeded) where
  -- An outcome that is unknown for every device is no success.
  all_unknown_fails : all_unknown plan ≡ outcomes os → lookup j os ≡ some o → ⊥
  all_unknown_fails h found =
      let e = lookup-all_unknown plan os j h in
      elim (Bool-cases (str_mem j (expected_ids plan.targets))) [
        | inl wanted ↦
            let is : unknown_outcome ≡ o = some_inj (sym (rw wanted at e) ∙ found) in
            cc (ap (λ (x : DeviceOutcome). x.status) is ∙ good)
        | inr other ↦ cc (sym (rw other at e) ∙ found)
      ]

  -- A device of a scene has succeeded only by results of its own that all have.
  scene_results :
      (reply : Reply)
      → map
          (λ (e : String × List CommandResult). (e.0, outcome_of e.1))
          (group_results [] reply.results)
        ≡ os
      → lookup j os ≡ some o
      → (all is_succeeded (keep_if (is_for j) reply.results) ≡ true)
        × (any (λ r. true) (keep_if (is_for j) reply.results) ≡ true)
  scene_results reply h found =
      let rs = reply.results in
      let at = sym (lookup-outcomes j (group_results [] rs)) ∙ ap (lookup j) h ∙ found in
      let told = mapped-some (lookup j (group_results [] rs)) o at in
      let is : outcome_of (keep_if (is_for j) rs) ≡ o = ap outcome_of (sym (grouped j rs)) ∙ told in
      outcome_of-succeeded (keep_if (is_for j) rs) (ap (λ (x : DeviceOutcome). x.status) is ∙ good)

  scene-Confirms :
      is_some plan.scene ≡ true
      → (a : Answer) → read_answer lines_up plan request_id a ≡ outcomes os
      → lookup j os ≡ some o
      → Confirms lines_up plan request_id a j
  unfolding read_answer read_results
  scene-Confirms scene timed_out h found = absurd (all_unknown_fails h found)
  scene-Confirms scene unavailable h found = cc h
  scene-Confirms scene (answered reply) h found =
      elim (Bool-cases (str_eq reply.request_id request_id)) [
        | inr other ↦ absurd (all_unknown_fails (rw (other, read_answer) at h) found)
        | inl same ↦ elim (Option-cases reply.error) [
          | inr (code, e) ↦ cc (rw (same, e, read_answer) at h)
          | inl fine ↦
              let (every, there) =
                scene_results reply (cc (rw (same, fine, scene, read_answer, read_results) at h))
                  found in
              (
                (eq_iff reply.request_id request_id).0 same,
                (λ explicit. absurd (clash (sym scene ∙ explicit))),
                every,
                there,
              )
        ]
      ]
    where
      clash : true ≡ false → ⊥
      clash c = cc c

explicit-Confirms :
    (lines_up : List HomeCommand → Reply → Bool) (executor : Request → Answer)
    (now_ms deadline_ms : ℕ) (plan : Plan) (request_id origin j : String) (os : Dict DeviceOutcome)
    (o : DeviceOutcome)
    → is_some plan.scene ≡ false
    → any (λ c. true) plan.commands ≡ true
    → execute lines_up executor now_ms deadline_ms plan request_id origin ≡ outcomes os
    → lookup j os ≡ some o
    → o.status ≡ succeeded
    → Confirms lines_up plan request_id
        (executor (request_of now_ms deadline_ms plan request_id origin))
        j
explicit-Confirms lines_up executor now_ms deadline_ms plan request_id origin j os o explicit sent h
      found good =
    let covered =
      execute-Covered lines_up executor now_ms deadline_ms plan request_id origin j os explicit sent
        h in
    let a = executor (request_of now_ms deadline_ms plan request_id origin) in
    elim (Bool-cases (str_mem j (expected_ids plan.targets))) [
      | inl wanted ↦
          let (p, e, told) = rw wanted at covered in
          let is : p ≡ o = some_inj (sym e ∙ found) in
          Told-succeeded lines_up plan request_id j a o good
            (subst (λ (x : DeviceOutcome). Told lines_up plan request_id a j x) is told)
      | inr other ↦ cc (sym found ∙ (rw other at covered))
    ]

-- Of whatever plan, a scene's or one of explicit commands: no device is told to have succeeded
-- unless a reply to this request has results for the device and each of them succeeded; and for
-- explicit commands the reply lines up with them.
pub succeeded-Confirms :
    (lines_up : List HomeCommand → Reply → Bool) (executor : Request → Answer)
    (now_ms deadline_ms : ℕ) (plan : Plan) (request_id origin j : String) (os : Dict DeviceOutcome)
    (o : DeviceOutcome)
    → execute lines_up executor now_ms deadline_ms plan request_id origin ≡ outcomes os
    → lookup j os ≡ some o
    → o.status ≡ succeeded
    → Confirms lines_up plan request_id
        (executor (request_of now_ms deadline_ms plan request_id origin))
        j
unfolding execute lookup
succeeded-Confirms lines_up executor now_ms deadline_ms plan request_id origin j os o h found good =
    elim (Bool-cases (is_some plan.scene)) [
      | inl scene ↦
          scene-Confirms lines_up plan request_id j os o good scene
            (executor (request_of now_ms deadline_ms plan request_id origin))
            (rw (scene, execute) at h) found
      | inr explicit ↦ elim (Bool-cases (any (λ c. true) plan.commands)) [
        | inl sent ↦
            explicit-Confirms lines_up executor now_ms deadline_ms plan request_id origin j os o
              explicit sent h found good
        | inr unsent ↦
            let e : outcomes [] ≡ outcomes os = rw (explicit, unsent, execute) at h in
            absurd (nothing_found os o (cc e) found)
      ]
    ]
  where
    nothing_found :
        (os : Dict DeviceOutcome) (o : DeviceOutcome) → [] ≡ os → lookup j os ≡ some o → ⊥
    nothing_found os o e f = cc (ap (lookup j) e ∙ f)
