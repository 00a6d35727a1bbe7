-- ===== src/LongTasks/Worker/Ends.antt =====
-- The worker brings every task that it takes to an end.
use eidolon_agent.Base.{
  ℕ, zero, suc, ◌+◌, ◌≤◌, ◌<◌, ◌≡◌, refl, subst, Bool, true, false, Option, none, some, String,
  arith, or_else, str_eq, eq_refl, ltb, strip,
}
use eidolon_agent.Base.Json.{Fields}
use eidolon_agent.LongTasks.{LongTaskRecord, is_terminal}
use eidolon_agent.LongTasks.Jobs.{
  JobStore, Failure, mark_queued, attach_mementos_run, complete, mark_failed, has_text,
}
use eidolon_agent.LongTasks.Jobs.Lifecycle.{
  queues, attaches, polls, completes, summarizes, fails, claims, perform,
}
use eidolon_agent.LongTasks.Events.{
  Answer, event_type, is_success, content_of, read_events, session_id_of,
}
use eidolon_agent.LongTasks.Worker.{
  Services, World, Attempt, returned, threw, unfinished, Proc, handled, store_call, summarize,
  summarize_by, Utterance, proactive_triggered, publish_on, act_on, run_ref, run_in, completion_of,
  deliver, report_of, try_task, frame, Decision, summarize_result_for_tts, announce, Report,
  publish_proactive_report, settle_task, poll_round, time_out, poll_from, poll_until_done,
  session_for, run_task, worker_error, handle,
}
use eidolon_agent.LongTasks.Queries.{find_mementos_session_id}
use eidolon_agent.LongTasks.Worker.Progress.{
  HasRow, HasEnded, ended-HasRow, perform-HasRow, perform-HasEnded, perform_leaves, Leads,
  Leads-then, Leads-await, Leads-if,
}

module _ (env : Services) (r : LongTaskRecord) where
  abbrev Has : JobStore → Type 0
  Has = HasRow r.id

  abbrev Ended : JobStore → Type 0
  Ended = HasEnded r.id

  summarize-Leads :
      (text : String) (w : World)
      → Ended w.store
      → Leads Ended Has (summarize_result_for_tts env r text w)
  unfolding summarize_result_for_tts perform
  summarize-Leads text w h = by_port env.summarizer
    where
      by_port :
          (z : Option (LongTaskRecord → String → Answer (Option String)))
          → Leads Ended Has (summarize_by env z r text w)
      by_port none = h
      by_port (some z) = Leads-if Ended Has (str_eq (strip text) "") _ _ w h (
          Leads-if Ended Has (has_text (summarize env z r text)) _ _ w
            (perform_leaves r.id (summarizes r.id (or_else (summarize env z r text) ""))
              (env.utcnow w.ticks) w.store refl h)
            h)

  frame-Leads :
      (z : Option (Utterance → Answer Decision)) (summary : Option String) (w : World)
      → Ended w.store
      → Leads Ended Has (frame env z r summary w)
  frame-Leads none summary w h = h
  frame-Leads (some voice) summary w h = Leads-await Ended Has _ w h (ended-HasRow r.id w.store h)

  announce-Leads :
      (d : Decision) (text : String) (w : World)
      → Ended w.store
      → Leads Ended Has (announce env r d text w)
  unfolding perform
  announce-Leads d text w h =
      let k =
        perform_leaves r.id (claims r.id (proactive_triggered env r.companion_id))
          (env.utcnow w.ticks) w.store refl h in
      Leads-if Ended Has (str_eq text "") _ _ w h (delivered _ _ k)
    where
      delivered :
          (claimed : Bool) (v : World)
          → Ended v.store
          → Leads Ended Has (deliver env (report_of env r d text) claimed v)
      delivered true v k = k
      delivered false v k = k

  publish-Leads :
      (summary : Option String) (w : World)
      → Ended w.store
      → Leads Ended Has (publish_proactive_report env r summary w)
  unfolding publish_proactive_report
  publish-Leads summary w h = by_bus env.event_bus
    where
      by_bus : (z : Option (Report → Answer Unit)) → Leads Ended Has (publish_on env z r summary w)
      by_bus none = h
      by_bus (some z) = Leads-if Ended Has (str_eq r.companion_id "") _ _ w h (
          Leads-then Ended Ended Has (frame env env.persona_voice r summary w) _
            (frame-Leads env.persona_voice summary w h)
            (λ d v k. announce-Leads d (strip d.text) v k))

  failed-Ended :
      (f : Failure) (now : ℕ) (s : JobStore)
      → is_terminal f.end ≡ true
      → Has s
      → Ended (mark_failed r.id f now s).1
  unfolding perform
  failed-Ended f now s e = perform-HasEnded r.id (fails r.id f) now s (rw (eq_refl r.id) e)

  settle_task-Leads :
      (terminal : Fields) (w : World) → Has w.store → Leads Ended Has (settle_task env r terminal w)
  unfolding settle_task perform
  settle_task-Leads terminal w h =
      let content = content_of env.python terminal in
      let o = completion_of env content terminal in
      let v = (store_call env (complete r.id o) w).1 in
      let k =
        perform-HasEnded r.id (completes r.id o) (env.utcnow w.ticks) w.store (eq_refl r.id) h in
      Leads-if Ended Has (is_success env.python (event_type env.python terminal)) _ _ w
        (Leads-then Ended Ended Has _ _ (summarize-Leads content v k)
          (λ summary u ku. publish-Leads summary u ku))
        (failed-Ended _ (env.utcnow w.ticks) w.store refl h)

  act_on-Leads :
      (seq : Option ℕ) (next : Option ℕ → Proc Unit) (o : Option Fields) (w : World)
      → ((v : World) → Has v.store → Leads Ended Has (next seq v))
      → Has w.store
      → Leads Ended Has (act_on env r seq next o w)
  unfolding perform
  act_on-Leads seq next none w k h =
      k _ (perform-HasRow r.id (polls r.id seq (some "running")) (env.utcnow w.ticks) w.store h)
  act_on-Leads seq next (some terminal) w k h = settle_task-Leads terminal w h

  poll_round-Leads :
      (session_id : String) (k : ℕ) (last_seq : Option ℕ) (next : Option ℕ → Proc Unit) (w : World)
      → ((seq : Option ℕ) (v : World) → Has v.store → Leads Ended Has (next seq v))
      → Has w.store
      → Leads Ended Has (poll_round env r session_id k last_seq next w)
  unfolding poll_round
  poll_round-Leads session_id k last_seq next w f h =
      Leads-then Has Ended Has _ _ (Leads-await Has Has (env.get_messages k session_id) w h h)
        (λ messages v hv.
          Leads-then Has Ended Has _ _
            (Leads-await Has Has (read_events env.python messages) v hv hv)
            (λ events u hu. act_on-Leads _ next _ u (λ x hx. f _ x hx) hu))

  k_add : (k : ℕ) → k + 0 ≡ k
  k_add k = omega arith

  add_suc : (k n : ℕ) → k + suc n ≡ suc k + n
  add_suc k n = omega arith

  zero_add : (n : ℕ) → n ≡ 0 + n
  zero_add n = omega arith

  -- The loop ends by the reading that is not before the deadline, if there is fuel up to it.
  poll_from-Leads :
      (fuel n k : ℕ) (session_id : String) (last_seq : Option ℕ) (w : World)
      → n < fuel
      → env.loop_time 0 + env.config.task_timeout ≤ env.loop_time (suc (k + n))
      → Has w.store
      → Leads Ended Has (poll_from env fuel r session_id k last_seq w)
  unfolding poll_from time_out
  poll_from-Leads zero n k session_id last_seq w i d h = absurd (omega arith)
  poll_from-Leads (suc fuel) zero k session_id last_seq w i d h =
      rw late (failed-Ended _ (env.utcnow w.ticks) w.store refl h)
    where
      late : ltb (env.loop_time (suc k)) (env.loop_time 0 + env.config.task_timeout) ≡ false
      late = ground (
        arith,
        subst (λ m. env.loop_time 0 + env.config.task_timeout ≤ env.loop_time (suc m)) (k_add k) d,
      )
  poll_from-Leads (suc fuel) (suc n) k session_id last_seq w i d h =
      Leads-if Ended Has (ltb (env.loop_time (suc k)) (env.loop_time 0 + env.config.task_timeout)) _
        _ w
        (poll_round-Leads session_id k last_seq _ w
          (λ seq v hv.
            poll_from-Leads fuel n (suc k) session_id seq v (omega arith)
              (subst (λ m. env.loop_time 0 + env.config.task_timeout ≤ env.loop_time (suc m))
                (add_suc k n) d)
              hv)
          h)
        (failed-Ended _ (env.utcnow w.ticks) w.store refl h)

  session_for-Leads :
      (o : Option String) (w : World) → Has w.store → Leads Has Has (session_for env r o w)
  session_for-Leads (some session_id) w h = h
  session_for-Leads none w h =
      Leads-then Has Has Has _ _ (Leads-await Has Has (env.create_session r.session_key) w h h)
        (λ session v hv. Leads-await Has Has (session_id_of env.python session) v hv hv)

  module _ (fuel n : ℕ) (i : n < fuel)
      (d : env.loop_time 0 + env.config.task_timeout ≤ env.loop_time (suc n)) where
    run_in-Leads :
        (session_id : String) (w : World)
        → Has w.store
        → Leads Ended Has (run_in env fuel r session_id w)
    unfolding run_in poll_until_done perform
    run_in-Leads session_id w h =
        Leads-then Has Ended Has _ _ (Leads-await Has Has _ w h h) (λ post_result v hv.
          poll_from-Leads fuel n 0 session_id none
            (store_call env (attach_mementos_run r.id (run_ref env session_id post_result)) v).1 i
            (subst (λ m. env.loop_time 0 + env.config.task_timeout ≤ env.loop_time (suc m))
              (zero_add n) d)
            (perform-HasRow r.id (attaches r.id (run_ref env session_id post_result))
              (env.utcnow v.ticks) v.store hv))

    run_task-Leads : (w : World) → Has w.store → Leads Ended Has (run_task env fuel r w)
    unfolding run_task
    run_task-Leads w h =
        Leads-then Has Ended Has _ _
          (session_for-Leads (find_mementos_session_id r.session_key w.store) w h)
          (λ session_id v hv.
            Leads-if Ended Has (str_eq session_id "") _ _ v hv (run_in-Leads session_id v hv))

-- What the worker's handling of a task comes to: it returns, with the task at an end.
abbrev pub IsEnded : String → Attempt Unit × World → Type 0
IsEnded id (returned _, w) = HasEnded id w.store
IsEnded id _ = ⊥

-- For a task that has a row, whatever its status, in a table of rows under their ids; with a clock
-- that passes the deadline by some reading of the loop, and fuel up to that reading: `_handle`
-- returns, and the task is over then, whatever the sidecar, the summarizer, the voice and the bus
-- answer or raise.
pub handle-IsEnded :
    (env : Services) (r : LongTaskRecord) (fuel n : ℕ) (w : World)
    → n < fuel
    → env.loop_time 0 + env.config.task_timeout ≤ env.loop_time (suc n)
    → HasRow r.id w.store
    → IsEnded r.id (handle env fuel r w)
unfolding handle try_task worker_error perform
handle-IsEnded env r fuel n w i d h =
    let lease = some (env.utcnow w.ticks + env.config.lease) in
    let v =
      (store_call env (mark_queued r.id env.worker_id lease)
        (record w { ticks = suc w.ticks })).1 in
    caught _ (
      run_task-Leads env r fuel n i d v (
        perform-HasRow r.id (queues r.id env.worker_id lease) (env.utcnow (suc w.ticks)) w.store h))
  where
    caught :
        (x : Attempt Unit × World)
        → Leads (HasEnded r.id) (HasRow r.id) x
        → IsEnded r.id (handled (worker_error env r) x)
    caught (returned _, v) k = k
    caught (threw e, v) k = failed-Ended env r _ (env.utcnow v.ticks) v.store refl k
    caught (unfinished, v) k = k
