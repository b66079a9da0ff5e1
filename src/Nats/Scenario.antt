-- ===== src/Nats/Scenario.antt =====
-- One task on the JetStream server in memory, from its enqueue to its second life.
use workqueue_modules.Prelude.Int.{pos}
use workqueue_modules.Workqueue.{Task, Handler, fails}
use workqueue_modules.Workqueue.Options.{ConsumeOptions}
use workqueue_modules.Nats.Broker.{TaskCodec, Msg}
use workqueue_modules.Nats.State.{Config}
use workqueue_modules.Nats.Streams.{Queue, tasks_config, dead_config}
use workqueue_modules.Nats.Server.{Memory, empty_server, ensure}
use workqueue_modules.Nats.InMemory.{in_memory, book_codec}
use workqueue_modules.Prelude.{[], ◌∷◌, some, none, String}
use workqueue_modules.Nats.Server.{publish_to, take_out}
use workqueue_modules.Prelude.{ℕ}

abbrev pub c : Config
c = record { stream_prefix = "WQ"; subject_prefix = "wq"; replicas = pos 1; ack_wait = pos 30 }

abbrev pub consuming : ConsumeOptions
consuming = record { concurrency = pos 2; backoff_base = pos 100; backoff_max = pos 1000 }

-- A task with one retry, after its first and its second failure, and on its way back.
abbrev pub fresh_task : Task
fresh_task = record {
  id = "a";
  queue = "mail";
  payload = 7 ∷ [];
  metadata = [];
  attempts = pos 0;
  max_retries = pos 1;
  enqueued_at = 1000;
  run_at = 1000;
  last_error = "";
  died_at = 0;
}

abbrev pub failed_once : Task
failed_once = record fresh_task { attempts = pos 1; last_error = "boom"; run_at = 1101 }

abbrev pub failed_twice : Task
failed_twice = record failed_once { attempts = pos 2; died_at = 1201 }

abbrev pub back_again : Task
back_again = record failed_twice { attempts = pos 0; last_error = ""; run_at = 1300; died_at = 0 }

-- After a failure of its second life.
abbrev pub failed_again : Task
failed_again = record back_again { attempts = pos 1; last_error = "boom"; run_at = 1501 }

abbrev pub book : TaskCodec
book = book_codec (fresh_task ∷ failed_once ∷ failed_twice ∷ back_again ∷ failed_again ∷ [])

abbrev pub fails_always : Handler
fails_always t = (t, fails "boom")

abbrev pub idle : Queue in_memory
idle = record { config = c; js = some empty_server; ensured = [] }

abbrev pub provisioned_server : Memory
provisioned_server =
    (ensure (ensure empty_server (tasks_config c "mail")).0 (dead_config c "mail")).0

abbrev pub tasks_stream : String
tasks_stream = "WQ_mail"

abbrev pub dlq_stream : String
dlq_stream = "WQ_mail_DLQ"

abbrev pub delivery : ℕ → ℕ → Msg
delivery seq code = record { stream = tasks_stream; entry = record { seq = seq; body = code ∷ [] } }

-- The task is enqueued, fails twice and is buried, and is requeued.
abbrev pub enqueued : Memory
enqueued = publish_to provisioned_server tasks_stream (0 ∷ []) (some "wq:a:0")

abbrev pub retrying : Memory
retrying = take_out (publish_to enqueued tasks_stream (1 ∷ []) (some "wq:a:1")) tasks_stream 1

abbrev pub burying : Memory
burying = take_out (publish_to retrying dlq_stream (2 ∷ []) none) tasks_stream 2

abbrev pub requeued : Memory
requeued = take_out (publish_to burying tasks_stream (3 ∷ []) none) dlq_stream 1
