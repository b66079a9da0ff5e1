-- ===== src/Nats/DeadTests.antt =====
-- The dead letters on a server in memory, read, scanned and requeued.
use native.Mathlib.Decide.{ℕ_discrete}
use workqueue_modules.Nats.DeadLetters.{IsReadable, dead_letters, list_dead_tasks_walks}
use workqueue_modules.Nats.Ends.{scan_terminates}
use workqueue_modules.Nats.Ensured.{IsEnsured}
use workqueue_modules.Nats.InMemory.{unmarshal_from, task_at, place, in_memory}
use workqueue_modules.Nats.Listing.{tasks_of, first_with_id}
use workqueue_modules.Nats.Log.{read-answers, read, number, erase}
use workqueue_modules.Nats.Names.{
  contains_refused, validate_queue, stream_name, dlq_stream_name, tasks_subject, dead_subject,
}
use workqueue_modules.Nats.Requeue.{Requeues, requeue_dead_task_moves}
use workqueue_modules.Nats.Scan.{
  DeadEntry, find_dead_task, scan_dead_tasks, scan_stream, scan_round, at_entry, delete_dead_seq,
  requeue_entry, find_visit, scan_loop, list_dead_tasks, requeue_dead_task,
}
use workqueue_modules.Nats.Scenario.{c, failed_twice, book, idle, dlq_stream, burying, requeued}
use workqueue_modules.Nats.Server.{has, Memory, set}
use workqueue_modules.Nats.Streams.{Error, task_not_found, publish_task, Queue, ok, ensure_queue}
use workqueue_modules.Nats.Tests.{burying-IsProvisioned}
use workqueue_modules.Nats.Walk.{decoded}
use workqueue_modules.Prelude.{Option, ◌⊎◌, ◌^◌, ◌-◌, arith, [], ◌∷◌, some, none, lookup, ◌≡◌, refl}
use workqueue_modules.Prelude.Int.{pos}
use workqueue_modules.Workqueue.Pages.{page_of}

-- The dead letters, read on a queue that is in the cache.
abbrev with_dead : Queue in_memory
with_dead = record idle { js = some burying; ensured = ("mail", "WQ_mail") ∷ [] }

with_dead_IsEnsured : IsEnsured in_memory with_dead "mail"
unfolding ensure_queue validate_queue contains_refused lookup
with_dead_IsEnsured = record {
  before = burying;
  after = burying;
  next = with_dead;
  tasks_stream = "WQ_mail";
  started = refl;
  ensures = refl;
  still = refl;
}

dead_IsReadable : IsReadable in_memory burying (dlq_stream_name "WQ" "mail")
unfolding dlq_stream_name set has
dead_IsReadable = record {
  first = 1;
  last = 1;
  present = refl;
  counted = refl;
  answers = λ k. read-answers k (in_memory.stored burying (dlq_stream_name "WQ" "mail"));
}

list_dead_tasks_walks_example : list_dead_tasks in_memory book with_dead "mail" (pos 10) (pos 0) ≡ (
  with_dead,
  ok (
      page_of
        (pos 10)
        0
        (tasks_of (dead_letters in_memory book with_dead "mail" with_dead_IsEnsured))),
)
unfolding with_dead_IsEnsured
list_dead_tasks_walks_example =
    list_dead_tasks_walks in_memory book with_dead "mail" with_dead_IsEnsured dead_IsReadable
      (pos 10) (pos 0)

the_dead_letter :
    tasks_of (dead_letters in_memory book with_dead "mail" with_dead_IsEnsured) ≡ failed_twice ∷ []
unfolding with_dead_IsEnsured decoded unmarshal_from task_at set has number dlq_stream_name
the_dead_letter = refl

requeue_dead_task_moves_example :
    ((first_with_id "a" (dead_letters in_memory book with_dead "mail" with_dead_IsEnsured) ≡ none)
      × (requeue_dead_task in_memory book with_dead "mail" "a" 1300
          ≡ (with_dead, some task_not_found)))
    ⊎ ((e : DeadEntry) × (after : Memory) × (failed : Option Error) × (first_with_id "a"
            (dead_letters in_memory book with_dead "mail" with_dead_IsEnsured)
          ≡ some e)
        × (requeue_dead_task in_memory book with_dead "mail" "a" 1300
            ≡ (record with_dead { js = some after }, failed))
        × Requeues in_memory book c "mail" e 1300 burying after failed)
unfolding with_dead_IsEnsured
requeue_dead_task_moves_example =
    requeue_dead_task_moves in_memory book with_dead "mail" with_dead_IsEnsured dead_IsReadable
      burying-IsProvisioned "a" 1300

the_requeue :
    requeue_dead_task in_memory book with_dead "mail" "a" 1300
    ≡ (record with_dead { js = some requeued }, none)
unfolding requeue_dead_task find_dead_task scan_dead_tasks ensure_queue validate_queue
    contains_refused lookup scan_stream set dlq_stream_name has scan_loop scan_round read number
    unmarshal_from task_at find_visit dead_subject stream_name tasks_subject at_entry
    delete_dead_seq requeue_entry publish_task place ℕ_discrete erase
the_requeue = refl

scan_terminates_example :
    scan_loop in_memory book burying dlq_stream (find_visit "b") 1 (2 ^ 64 - 1) (2 ^ 64 - 1) none
    ≡ scan_loop in_memory book burying dlq_stream (find_visit "b") 9 (2 ^ 64 - 1) (2 ^ 64 - 1) none
scan_terminates_example =
    scan_terminates in_memory book burying dlq_stream (find_visit "b") 1 9 (2 ^ 64 - 1) (2 ^ 64 - 1)
      none (omega arith) (omega arith) (omega arith)
