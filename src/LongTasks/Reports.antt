-- ===== src/LongTasks/Reports.antt =====
-- The services and the state of `MementosLongTaskWorker`, of
-- eidolon_agent/infra/long_tasks/mementos.py, and its report of a finished task.
use eidolon_agent.Base.{
  ℕ, suc, Bool, true, false, Option, none, some, List, [], ◌∷◌, ◌++◌, String, if◌then◌else◌,
  or_else, str_eq, strip,
}
use Prim.Native.String.{◌++◌ as ◌+++◌}
use eidolon_agent.Base.Json.{Fields}
use eidolon_agent.LongTasks.{LongTaskRecord}
use eidolon_agent.LongTasks.Jobs.{
  JobStore, set_result_tts_summary, claim_callback_delivery, has_text,
}
use eidolon_agent.LongTasks.Events.{
  Python, Exn, Answer, answered, raised, device_id_from_conversation_id,
}

-- `MementosWorkerConfig`, what the worker reads of it, in microseconds.
pub record WorkerConfig : Type 0 where
  pub queue_size : ℕ
  pub task_timeout : ℕ
  pub lease : ℕ

-- The arguments of `proactive_decision`, and what it decides.
pub record Utterance : Type 0 where
  pub owner_id : String
  pub companion_id : String
  pub intent : String
  pub primary_text : String
  pub fallback_default : String
  pub style_hint : String

pub record Decision : Type 0 where
  pub text : String
  pub intent : String
  pub style_hint : String

-- The event of a proactive report, with its payload.
pub record Report : Type 0 where
  pub subject : String
  pub instance_id : String
  pub device_id : Option String
  pub intent : String
  pub text : String
  pub style_hint : String
  pub trace_id : Option String

-- The other code that the worker calls. The messages are those of the poll of this number, and the
-- loop's clock is what its reading of this number gives.
pub record Services : Type 0 where
  pub python : Python
  pub config : WorkerConfig
  pub worker_id : String
  pub create_session : String → Answer Fields
  pub post_message : String → String → Answer Fields
  pub get_messages : ℕ → String → Answer Fields
  pub summarizer : Option (LongTaskRecord → String → Answer (Option String))
  pub persona_voice : Option (Utterance → Answer Decision)
  pub event_bus : Option (Report → Answer Unit)
  pub loop_time : ℕ → ℕ
  pub utcnow : ℕ → ℕ

-- What the worker changes: the store, the reports it hands to the bus, and how often it read the
-- clock.
pub record World : Type 0 where
  pub store : JobStore
  pub reports : List Report
  pub ticks : ℕ

pub data Attempt (A : Type 0) : Type 0 where
  returned : A → Attempt A
  threw : Exn → Attempt A
  unfinished : Attempt A

abbrev pub Proc : Type 0 → Type 0
Proc A = World → Attempt A × World

abbrev pub go_on : {A B : Type 0} → (A → Proc B) → Attempt A × World → Attempt B × World
go_on f (returned a, w) = f a w
go_on f (threw e, w) = (threw e, w)
go_on f (unfinished, w) = (unfinished, w)

infixl 5 ◌>>=◌
abbrev pub ◌>>=◌ : {A B : Type 0} → Proc A → (A → Proc B) → Proc B
p >>= f = λ w. go_on f (p w)

abbrev pub give : {A : Type 0} → A → Proc A
give a w = (returned a, w)

abbrev pub throw : {A : Type 0} → Exn → Proc A
throw e w = (threw e, w)

abbrev pub await : {A : Type 0} → Answer A → Proc A
await (answered a) = give a
await (raised e) = throw e

-- `try: … except Exception as exc: …`
abbrev pub handled : (Exn → Proc Unit) → Attempt Unit × World → Attempt Unit × World
handled f (returned a, w) = (returned a, w)
handled f (threw e, w) = f e w
handled f (unfinished, w) = (unfinished, w)

module _ (env : Services) where
  -- An awaited call of the store that changes it.
  abbrev pub store_call : {A : Type 0} → (ℕ → JobStore → A × JobStore) → Proc A
  store_call f w =
      let (a, s) = f (env.utcnow w.ticks) w.store in
      (returned a, record w { store = s; ticks = suc w.ticks })

  abbrev pub summarize :
      (LongTaskRecord → String → Answer (Option String)) → LongTaskRecord → String → Option String
  summarize summarizer r text = elim (summarizer r text) [ answered s ↦ s | raised _ ↦ none ]

  abbrev pub summarize_by :
      Option (LongTaskRecord → String → Answer (Option String))
      → LongTaskRecord
      → String
      → Proc (Option String)
  summarize_by none r result_text = give none
  summarize_by (some summarizer) r result_text =
      let summary = summarize summarizer r result_text in
      if str_eq (strip result_text) ""
      then give none
      else (if has_text summary
          then (do _ ← store_call (set_result_tts_summary r.id (or_else summary "")); give summary)
          else give none)

  -- `_summarize_result_for_tts`; a summarizer that raises is logged.
  unfoldable pub summarize_result_for_tts : LongTaskRecord → String → Proc (Option String)
  summarize_result_for_tts = summarize_by env.summarizer

  abbrev pub fallback_line : String
  fallback_line = "我把刚才交代的那件事处理好了，细节你可以随时问我。"

  -- The text, intent and style of the report.
  abbrev pub frame :
      Option (Utterance → Answer Decision) → LongTaskRecord → Option String → Proc Decision
  frame none r summary = give (record {
    text = if has_text summary then or_else summary "" else fallback_line;
    intent = "long_task_done";
    style_hint = "report";
  })
  frame (some voice) r summary = await (
      voice (record {
        owner_id = r.owner_id;
        companion_id = r.companion_id;
        intent = "long_task_done";
        primary_text = or_else summary "";
        fallback_default = fallback_line;
        style_hint = "report";
      }))

  abbrev pub proactive_triggered : String → String
  proactive_triggered instance_id = "agent.proactive.triggered." +++ instance_id

  abbrev pub report_of : LongTaskRecord → Decision → String → Report
  report_of r d text = record {
    subject = proactive_triggered r.companion_id;
    instance_id = r.companion_id;
    device_id =
        if has_text r.device_id
        then r.device_id
        else device_id_from_conversation_id r.conversation_id;
    intent = d.intent;
    text = text;
    style_hint = d.style_hint;
    trace_id = r.trace_id;
  }

  -- Handed to the bus; what it raises is logged.
  abbrev pub hand_over : Report → Proc Unit
  hand_over report w = (returned tt, record w { reports = w.reports ++ (report ∷ []) })

  abbrev pub deliver : Report → Bool → Proc Unit
  deliver report true = hand_over report
  deliver report false = give tt

  -- The end of `_publish_proactive_report`, with the text to be spoken.
  abbrev pub announce : LongTaskRecord → Decision → String → Proc Unit
  announce r d report_text = if str_eq report_text "" then give tt else (do
    claimed ← store_call (claim_callback_delivery r.id (proactive_triggered r.companion_id))
    deliver (report_of r d report_text) claimed)

  abbrev pub publish_on : Option (Report → Answer Unit) → LongTaskRecord → Option String → Proc Unit
  publish_on none r summary = give tt
  publish_on (some bus) r summary =
      if str_eq r.companion_id ""
      then give tt
      else (do d ← frame env.persona_voice r summary; announce r d (strip d.text))

  -- `_publish_proactive_report`; what the persona's voice raises is not caught.
  unfoldable pub publish_proactive_report : LongTaskRecord → Option String → Proc Unit
  publish_proactive_report = publish_on env.event_bus
