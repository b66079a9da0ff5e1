-- ===== src/Nats/Handling.antt =====
-- nats_workqueue/workqueue.go: Enqueue, and the handling of a delivery. The clock readings and the
-- identifier that the uuid package draws are arguments.
use workqueue_modules.Nats.Names.{tasks_subject, dead_subject}
use workqueue_modules.Nats.Broker.{JetStream, TaskCodec, Msg, ack, term, nak_with_delay}
use workqueue_modules.Nats.State.{Config, attempt_msg_id}
use workqueue_modules.Nats.Streams.{
  Error, not_started, Result, ok, err, Queue, ensure_queue, publish_task,
}
use workqueue_modules.Prelude.{ℕ, String, str_append, Option, none, some, List, ltb, if◌then◌else◌}
use workqueue_modules.Prelude.Int.{pos, ◌+ℤ◌, ltb_ℤ, wrap64}
use workqueue_modules.Workqueue.{Time, add, sub, Task, succeeds, fails, panics, Handler}
use workqueue_modules.Workqueue.Options.{
  EnqueueOption, EnqueueOptions, ConsumeOptions, new_enqueue_options, resolve_run_at,
}
use workqueue_modules.Workqueue.Backoff.{retry_backoff}

-- The handler is given the task itself: the first component is the task as the handler left it.
unfoldable pub invoke_handler : Handler → Task → Task × Option String
invoke_handler handler task =
    let (task', outcome) = handler task in
    elim outcome [
      | succeeds ↦ (task', none)
      | fails message ↦ (task', some message)
      | panics value ↦ (task', some (str_append "workqueue handler panic: " value))
    ]

unfoldable pub new_task : String → String → List ℕ → EnqueueOptions → Time → Task
new_task id name payload o now = record {
  id = id;
  queue = name;
  payload = payload;
  metadata = o.metadata;
  attempts = pos 0;
  max_retries = o.max_retries;
  enqueued_at = now;
  run_at = resolve_run_at o now;
  last_error = "";
  died_at = 0;
}

-- The task of a failed delivery on its way to the dead letters, and on its way back.
abbrev pub buried : Task → String → Time → Task
buried t message now = record t { last_error = message; died_at = now }

abbrev pub retried : Task → String → ConsumeOptions → Time → Task
retried t message o now = record t {
  last_error = message;
  run_at = add now (retry_backoff o.backoff_base o.backoff_max t.attempts);
}

abbrev pub revived : Task → Time → Task
revived t now = record t { attempts = pos 0; last_error = ""; died_at = 0; run_at = now }

module _ (J : JetStream) (j : TaskCodec) where
  open J use {Server, reply}

  -- The methods after `ready` has found the server.
  unfoldable pub publish_new : Queue J → Server → Task → Queue J × Result Task
  publish_new q s task =
      let (s', failed) =
        publish_task J j s (tasks_subject q.config.subject_prefix task.queue) task
          (some (attempt_msg_id task.id (pos 0))) in
      let q' = record q { js = some s' } in
      elim failed [ none ↦ (q', ok task) | some e ↦ (q', err e) ]

  unfoldable pub enqueue :
      Queue J → String → List ℕ → List EnqueueOption → String → Time → Queue J × Result Task
  unfolding publish_new
  enqueue q name payload opts id now = elim q.js [
    | none ↦ (q, err not_started)
    | some s ↦
        let (q', ensured) = ensure_queue J q s name in
        elim ensured [
          | err e ↦ (q', err e)
          | ok _ ↦ elim q'.js [
            | none ↦ (q', err not_started)
            | some s' ↦ publish_new q' s' (new_task id name payload (new_enqueue_options opts) now)
          ]
        ]
  ]

  -- The end of a delivery that was handed on: acknowledged when the hand-off succeeded.
  unfoldable pub hand_off : Msg → Server × Option Error → Server
  hand_off m (s, none) = (reply s m ack).0
  hand_off m (s, some e) = s

  -- The failure of a delivery whose task the handler left as `t`.
  unfoldable pub handle_failure :
      Config → Server → Msg → String → Task → String → ConsumeOptions → Time → Server
  unfolding hand_off
  handle_failure c s m name t message o now =
      if ltb_ℤ t.max_retries t.attempts
      then hand_off m
          (publish_task J j s (dead_subject c.subject_prefix name) (buried t message now) none)
      else hand_off m (
          publish_task J j s (tasks_subject c.subject_prefix name) (retried t message o now)
            (some (attempt_msg_id t.id t.attempts)))

  -- A delivery of a task that is due.
  unfoldable pub deliver :
      Config → Server → Msg → String → Handler → ConsumeOptions → Task → Time → Server
  unfolding handle_failure
  deliver c s m name handler o task now =
      let (t, failure) =
        invoke_handler handler (record task { attempts = wrap64 (task.attempts +ℤ pos 1) }) in
      elim failure [
        | none ↦ (reply s m ack).0
        | some message ↦ handle_failure c s m name t message o now
      ]

  -- The clock reads `now` for the test whether the task is due, and `later` after the handler.
  unfoldable pub handle_msg :
      Config → Server → Msg → String → Handler → ConsumeOptions → Time → Time → Server
  unfolding deliver
  handle_msg c s m name handler o now later = elim (j.unmarshal m.entry.body) [
    | none ↦ (reply s m term).0
    | some task ↦
        if ltb now task.run_at
        then (reply s m (nak_with_delay (sub task.run_at now))).0
        else deliver c s m name handler o task later
  ]
