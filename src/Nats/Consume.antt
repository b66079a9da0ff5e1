-- ===== src/Nats/Consume.antt =====
-- nats_workqueue/workqueue.go: Consume. What the connector and the consumer answer are arguments.
use workqueue_modules.Prelude.{String, Bool, none, some, List, if◌then◌else◌}
use workqueue_modules.Prelude.Int.{ℤ}
use workqueue_modules.Workqueue.{Duration}
use workqueue_modules.Workqueue.Options.{ConsumeOption, ConsumeOptions, new_consume_options}
use workqueue_modules.Nats.Names.{tasks_subject, consumer_name}
use workqueue_modules.Nats.Broker.{JetStream}
use workqueue_modules.Nats.State.{Config}
use workqueue_modules.Nats.Streams.{not_started, server, Result, ok, err, Queue, ensure_queue}
use workqueue_modules.Nats.Subscription.{Subscription, subscribe}

-- The fields of jetstream.ConsumerConfig that the code chooses; acknowledgements are explicit and
-- deliveries without a bound.
pub record ConsumerConfig : Type 0 where
  pub durable : String
  pub filter_subject : String
  pub ack_wait : Duration
  pub max_ack_pending : ℤ

unfoldable pub consumer_config : Config → String → ConsumeOptions → ConsumerConfig
consumer_config c name o = record {
  durable = consumer_name c.stream_prefix name;
  filter_subject = tasks_subject c.subject_prefix name;
  ack_wait = c.ack_wait;
  max_ack_pending = o.concurrency;
}

-- `ensure_consumer` is nats_connector.EnsureConsumer on a stream, and `begins` says whether the
-- consumer's Consume returned no error.
unfoldable pub consume :
    (J : JetStream)
    → (J.Server → String → ConsumerConfig → J.Server × Bool)
    → Bool
    → Queue J
    → String
    → List ConsumeOption
    → Queue J × Result Subscription
consume J ensure_consumer begins q name opts = elim q.js [
  | none ↦ (q, err not_started)
  | some s ↦
      let (q', ensured) = ensure_queue J q s name in
      elim ensured [
        | err e ↦ (q', err e)
        | ok stream ↦ elim q'.js [
          | none ↦ (q', err not_started)
          | some s' ↦
              let o = new_consume_options opts in
              let (s'', there) = ensure_consumer s' stream (consumer_config q'.config name o) in
              let q'' = record q' { js = some s'' } in
              (
                q'',
                if there then if begins then ok (subscribe opts) else err server else err server,
              )
        ]
      ]
]
