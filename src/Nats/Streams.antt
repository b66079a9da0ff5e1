-- ===== src/Nats/Streams.antt =====
-- nats_workqueue/workqueue.go: the streams of a queue, and publishing a task.
use workqueue_modules.Prelude.{String, Option, none, some, if◌then◌else◌, lookup, insert}
use workqueue_modules.Workqueue.{Task}
use workqueue_modules.Nats.Names.{
  validate_queue, stream_name, dlq_stream_name, tasks_subject, dead_subject,
}
use workqueue_modules.Nats.State.{Config, NatsWorkQueue}
use workqueue_modules.Nats.Broker.{
  StreamConfig, work_queue_policy, limits_policy, JetStream, TaskCodec,
}

-- The errors of the methods: the handle is not there yet, ErrInvalidQueueName, the server's, a task
-- that does not encode, and workqueue.ErrTaskNotFound.
pub data Error : Type 0 where
  not_started invalid_queue server encoding task_not_found : Error

pub data Result {ℓ} (A : Type ℓ) : Type ℓ where
  ok : A → Result A
  err : Error → Result A

abbrev pub tasks_config : Config → String → StreamConfig
tasks_config c queue = record {
  name = stream_name c.stream_prefix queue;
  subject = tasks_subject c.subject_prefix queue;
  retention = work_queue_policy;
  replicas = c.replicas;
}

abbrev pub dead_config : Config → String → StreamConfig
dead_config c queue = record {
  name = dlq_stream_name c.stream_prefix queue;
  subject = dead_subject c.subject_prefix queue;
  retention = limits_policy;
  replicas = c.replicas;
}

module _ (J : JetStream) where
  open J use {Server, ensure_stream, publish}

  abbrev pub Queue : Type 0
  Queue = NatsWorkQueue Server

  -- The two EnsureStream calls and the write to the cache.
  unfoldable pub provision : Queue → Server → String → Queue × Result String
  provision q s queue =
      let tasks = tasks_config q.config queue in
      let (s1, tasks_ok) = ensure_stream s tasks in
      let (s2, dead_ok) = ensure_stream s1 (dead_config q.config queue) in
      if tasks_ok
      then if dead_ok
        then (record q { js = some s2; ensured = insert queue tasks.name q.ensured }, ok tasks.name)
        else (record q { js = some s2 }, err server)
      else (record q { js = some s1 }, err server)

  unfoldable pub ensure_queue : Queue → Server → String → Queue × Result String
  unfolding provision
  ensure_queue q s queue =
      if validate_queue queue
      then elim (lookup queue q.ensured) [
        | some stream ↦ (q, ok stream)
        | none ↦ provision q s queue
      ]
      else (q, err invalid_queue)

  -- The identifier is a non-empty text, or none.
  unfoldable pub publish_task :
      TaskCodec → Server → String → Task → Option String → Server × Option Error
  publish_task j s subject task id = elim (j.marshal task) [
    | none ↦ (s, some encoding)
    | some body ↦
        let (s', sent) = publish s subject body id in (s', if sent then none else some server)
  ]
