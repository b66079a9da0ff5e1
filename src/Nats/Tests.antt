-- ===== src/Nats/Tests.antt =====
-- The names of a queue, and a task on a server in memory from its enqueue to its second life.
use native.Mathlib.Decide.{ℕ_discrete}
use workqueue_modules.Nats.Broker.{ack, without_seq}
use workqueue_modules.Nats.Duplicates.{duplicate_retry_lost}
use workqueue_modules.Nats.Ensured.{IsEnsured, enqueue-Appends, asked}
use workqueue_modules.Nats.HandOff.{Appends, IsProvisioned}
use workqueue_modules.Nats.Handling.{enqueue, invoke_handler, handle_msg}
use workqueue_modules.Nats.Heartbeat.{invoke_with_heartbeat, deadline, heartbeats, heartbeats_keep}
use workqueue_modules.Nats.InMemory.{unmarshal_from, task_at, place, in_memory}
use workqueue_modules.Nats.Log.{erase}
use workqueue_modules.Nats.Names.{
  contains_refused, validate_queue, stream_name, dlq_stream_name, tasks_subject, dead_subject,
  dlq_stream_shared,
}
use workqueue_modules.Nats.Outcomes.{counted}
use workqueue_modules.Nats.Provisioning.{ensure_queue_provisions}
use workqueue_modules.Nats.Scenario.{
  c, consuming, fresh_task, back_again, book, fails_always, idle, provisioned_server, tasks_stream,
  delivery, enqueued, retrying, burying, requeued,
}
use workqueue_modules.Nats.Server.{has, Memory, empty_server, set}
use workqueue_modules.Nats.State.{heartbeat_interval, attempt_msg_id, decimal, Config}
use workqueue_modules.Nats.Streams.{Error, err, publish_task, Queue, ok, ensure_queue, provision}
use workqueue_modules.Prelude.{
  ℕ, true, ◌<◌, ◌⊎◌, arith, ap, [], ◌∷◌, some, lookup, insert, ◌≡◌, refl, String, str_append,
}
use workqueue_modules.Prelude.Int.{◌<ℤ◌, wrap64, pos}
use workqueue_modules.Workqueue.{Task}
use workqueue_modules.Workqueue.Backoff.{retry_backoff}
use workqueue_modules.Workqueue.Options.{second, with_max_retries}

mail_valid : validate_queue "mail" ≡ true
unfolding validate_queue contains_refused
mail_valid = refl

dlq_stream_shared_example :
    (validate_queue (str_append "mail" "_DLQ") ≡ true)
    × (stream_name "WORKQUEUE" (str_append "mail" "_DLQ") ≡ dlq_stream_name "WORKQUEUE" "mail")
dlq_stream_shared_example = dlq_stream_shared "WORKQUEUE" "mail" mail_valid

abbrev mail : String
mail = "mail"

ensured_mail : ensure_queue in_memory idle empty_server "mail" ≡ (
  record idle { js = some provisioned_server; ensured = ("mail", "WQ_mail") ∷ [] },
  ok "WQ_mail",
)
unfolding ensure_queue provision validate_queue contains_refused stream_name set insert lookup
ensured_mail = refl

-- The steps of the code between the states of the scenario.
first_failure :
    handle_msg in_memory book c enqueued (delivery 1 0) "mail" fails_always consuming 1000 1001
    ≡ retrying
unfolding handle_msg unmarshal_from task_at invoke_handler wrap64 publish_task place ℕ_discrete
    retry_backoff has set tasks_subject dead_subject stream_name attempt_msg_id decimal
first_failure = refl

second_failure :
    handle_msg in_memory book c retrying (delivery 2 1) "mail" fails_always consuming 1101 1201
    ≡ burying
unfolding handle_msg unmarshal_from task_at invoke_handler wrap64 publish_task place ℕ_discrete
    retry_backoff has set tasks_subject dead_subject stream_name attempt_msg_id decimal erase
    dlq_stream_name
second_failure = refl

-- The streams of the queue in the states of the scenario.
first_IsProvisioned : IsProvisioned in_memory c "mail" provisioned_server
unfolding tasks_subject dead_subject stream_name dlq_stream_name set
first_IsProvisioned = record { tasks = refl; dead = refl }

pub burying-IsProvisioned : IsProvisioned in_memory c "mail" burying
unfolding tasks_subject dead_subject stream_name dlq_stream_name set has
burying-IsProvisioned = record { tasks = refl; dead = refl }

requeued-IsProvisioned : IsProvisioned in_memory c "mail" requeued
unfolding tasks_subject dead_subject stream_name dlq_stream_name set has
requeued-IsProvisioned = record { tasks = refl; dead = refl }

in_tasks_stream : tasks_stream ≡ stream_name "WQ" "mail"
unfolding stream_name
in_tasks_stream = refl

-- The task in its second life fails for the first time: its message identifier is that of the
-- first failure of its first life.
duplicate_retry_lost_example :
    let s' =
      handle_msg in_memory book c requeued (delivery 3 3) "mail" fails_always consuming 1300 1401 in
    ((s1 : Memory) × (s' ≡ (in_memory.reply s1 (delivery 3 3) ack).0))
    × ((in_memory.stored s' tasks_stream ≡ in_memory.stored requeued tasks_stream)
        ⊎ (in_memory.stored s' tasks_stream
            ≡ without_seq 3 (in_memory.stored requeued tasks_stream)))
    × (in_memory.stored s' (dlq_stream_name "WQ" "mail")
        ≡ in_memory.stored requeued (dlq_stream_name "WQ" "mail"))
unfolding unmarshal_from task_at invoke_handler wrap64 set has attempt_msg_id decimal publish_task
    place ℕ_discrete retry_backoff tasks_subject dead_subject
duplicate_retry_lost_example =
    duplicate_retry_lost in_memory book c requeued (delivery 3 3) "mail" fails_always consuming 1300
      1401 back_again (counted back_again) "boom" requeued-IsProvisioned in_tasks_stream refl
      (omega arith) refl (omega arith) refl refl

ensure_queue_provisions_example :
    (validate_queue "mail" ≡ true)
    × ((q' : Queue in_memory) × (s' : Memory) × (ensure_queue in_memory idle empty_server "mail"
          ≡ (q', ok "WQ_mail"))
        × (q'.js ≡ some s')
        × IsProvisioned in_memory c "mail" s'
        × ((n : String) → in_memory.stored s' n ≡ in_memory.stored empty_server n)
        × ((later : Memory) → ensure_queue in_memory q' later "mail" ≡ (q', ok "WQ_mail")))
unfolding lookup
ensure_queue_provisions_example =
    ensure_queue_provisions in_memory idle empty_server "mail" "WQ_mail" refl
      (ap (λ x. x.1) ensured_mail)

idle_IsEnsured : IsEnsured in_memory idle "mail"
idle_IsEnsured = record {
  before = empty_server;
  after = provisioned_server;
  next = record idle { js = some provisioned_server; ensured = ("mail", "WQ_mail") ∷ [] };
  tasks_stream = "WQ_mail";
  started = refl;
  ensures = ensured_mail;
  still = refl;
}

abbrev the_task : Task
the_task =
    asked in_memory book idle "mail" idle_IsEnsured (7 ∷ []) (with_max_retries (pos 1) ∷ []) "a"
      1000

enqueue-Appends_example :
    (after : Memory) × (((enqueue in_memory book idle "mail"
            (7 ∷ [])
            (with_max_retries (pos 1) ∷ [])
            "a"
            1000
          ≡ (record idle { js = some after; ensured = ("mail", "WQ_mail") ∷ [] }, ok the_task))
        × Appends in_memory book provisioned_server after (stream_name "WQ" "mail") the_task)
      ⊎ ((e : Error) × (enqueue in_memory book idle "mail"
              (7 ∷ [])
              (with_max_retries (pos 1) ∷ [])
              "a"
              1000
            ≡ (record idle { js = some after; ensured = ("mail", "WQ_mail") ∷ [] }, err e))))
unfolding idle_IsEnsured has
enqueue-Appends_example =
    enqueue-Appends in_memory book idle "mail" idle_IsEnsured first_IsProvisioned (7 ∷ [])
      (with_max_retries (pos 1) ∷ []) "a" 1000 refl

id_test : ◌≡◌ {A = String} (attempt_msg_id "t" (pos 120)) "wq:t:120"
unfolding attempt_msg_id decimal
id_test = refl

abbrev short_wait : Config
short_wait = record c { ack_wait = pos 900000000 }

heartbeats_keep_example :
    (((elapsed : ℕ)
        → elapsed
          < (invoke_with_heartbeat short_wait (λ k. true) elapsed fails_always fresh_task).1)
      → pos second <ℤ short_wait.ack_wait)
    × (pos second <ℤ short_wait.ack_wait
        → (elapsed : ℕ)
        → elapsed
          < (invoke_with_heartbeat short_wait (λ k. true) elapsed fails_always fresh_task).1)
heartbeats_keep_example =
    heartbeats_keep short_wait (λ k. true) fails_always fresh_task (omega arith) (λ k. refl)

-- With an AckWait of 30 s the heartbeats come every 10 s.
deadline_test :
    deadline (record c { ack_wait = pos 30_000_000_000 }) (λ k. true) 25_000_000_000
    ≡ 50_000_000_000
unfolding deadline heartbeats heartbeat_interval
deadline_test = refl
