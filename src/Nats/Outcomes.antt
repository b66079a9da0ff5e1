-- ===== src/Nats/Outcomes.antt =====
-- nats_workqueue/workqueue.go: where the task of a delivery stands when its handling is over.
use workqueue_modules.Prelude.{◌≤◌, ◌<◌, ◌≡◌, ◌≢◌, String, none, some, Mem}
use workqueue_modules.Prelude.Int.{pos, ◌+ℤ◌, ◌≤ℤ◌, ◌<ℤ◌, wrap64}
use workqueue_modules.Workqueue.{Time, Task, Handler, add}
use workqueue_modules.Workqueue.Backoff.{retry_backoff}
use workqueue_modules.Nats.Streams.{publish_task}
use workqueue_modules.Workqueue.Options.{ConsumeOptions}
use workqueue_modules.Nats.Names.{dlq_stream_name, tasks_subject, dead_subject}
use workqueue_modules.Nats.Broker.{Msg, ack, term, JetStream, TaskCodec}
use workqueue_modules.Nats.State.{Config, attempt_msg_id}
use workqueue_modules.Nats.Handling.{invoke_handler}
use workqueue_modules.Nats.HandOff.{Stands}

-- The task as the handler is given it.
abbrev pub counted : Task → Task
counted t = record t { attempts = wrap64 (t.attempts +ℤ pos 1) }

module _ (J : JetStream) (j : TaskCodec) (c : Config) (s : J.Server) (m : Msg) (name : String)
    (handler : Handler) (o : ConsumeOptions) (now later : Time) where
  open J use {Server, stored, is_duplicate}

  -- The end of a handling, as the streams of the queue show it.
  pub data Ends (s' : Server) : Type 0 where
    undecodable : j.unmarshal m.entry.body ≡ none → s' ≡ (J.reply s m term).0 → Ends s'
    early :
        (t : Task)
        → j.unmarshal m.entry.body ≡ some t
        → now < t.run_at
        → ((n : String) → stored s' n ≡ stored s n)
        → Ends s'
    succeeded :
        (t t' : Task)
        → j.unmarshal m.entry.body ≡ some t
        → t.run_at ≤ now
        → invoke_handler handler (counted t) ≡ (t', none)
        → s' ≡ (J.reply s m ack).0
        → Ends s'
    dead :
        (t t' : Task) (message : String)
        → j.unmarshal m.entry.body ≡ some t
        → t.run_at ≤ now
        → invoke_handler handler (counted t) ≡ (t', some message)
        → t'.max_retries <ℤ t'.attempts
        → Stands J j s'
            (dlq_stream_name c.stream_prefix name)
            (record t' { last_error = message; died_at = later })
        → Ends s'
    again :
        (t t' : Task) (message : String)
        → j.unmarshal m.entry.body ≡ some t
        → t.run_at ≤ now
        → invoke_handler handler (counted t) ≡ (t', some message)
        → t'.attempts ≤ℤ t'.max_retries
        → Stands J j s' m.stream (record t' {
          last_error = message;
          run_at = add later (retry_backoff o.backoff_base o.backoff_max t'.attempts);
        })
        → Ends s'
    unburied :
        (t t' : Task) (message : String)
        → j.unmarshal m.entry.body ≡ some t
        → t.run_at ≤ now
        → invoke_handler handler (counted t) ≡ (t', some message)
        → t'.max_retries <ℤ t'.attempts
        → (publish_task J j s
            (dead_subject c.subject_prefix name)
            (record t' { last_error = message; died_at = later })
            none).1
          ≢ none
        → Mem m.entry (stored s' m.stream)
        → Ends s'
    unretried :
        (t t' : Task) (message : String)
        → j.unmarshal m.entry.body ≡ some t
        → t.run_at ≤ now
        → invoke_handler handler (counted t) ≡ (t', some message)
        → t'.attempts ≤ℤ t'.max_retries
        → (publish_task J j s
            (tasks_subject c.subject_prefix name)
            (record t' {
              last_error = message;
              run_at = add later (retry_backoff o.backoff_base o.backoff_max t'.attempts);
            })
            (some (attempt_msg_id t'.id t'.attempts))).1
          ≢ none
        → Mem m.entry (stored s' m.stream)
        → Ends s'
