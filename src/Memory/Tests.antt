-- ===== src/Memory/Tests.antt =====
-- A short history of the in-memory backend, and the theorems at states of it.
use mathlib.Core.List.{mem-cons_self}
use workqueue_modules.Prelude.{
  ℕ, ◌≤◌, ◌≡◌, ◌≢◌, ◌⊎◌, refl, String, true, none, some, List, [], ◌∷◌, ◌++◌, Mem, arith, lookup,
  eq_iff, length,
}
use workqueue_modules.Prelude.Int.{pos}
use workqueue_modules.Workqueue.{Task, err_task_not_found}
use workqueue_modules.Workqueue.Options.{
  ConsumeOptions, with_delay, with_max_retries, new_enqueue_options, resolve_run_at,
}
use workqueue_modules.Workqueue.Backoff.{retry_backoff}
use workqueue_modules.Memory.Heap
use workqueue_modules.Memory.Pending.{PendingItem, less}
use workqueue_modules.Memory.Store.{MemoryWorkQueue, new, at, queue, put_queue}
use workqueue_modules.Memory.Sound.{IsSound}
use workqueue_modules.Memory.Calls.{
  Call, enqueues, claims, completes, requeues, deletes, call, run, run-new-IsSound,
}
use workqueue_modules.Prelude.{insert}
use workqueue_modules.Prelude.Int.{wrap64}
use workqueue_modules.Memory.Slice.{entry, swap}
use workqueue_modules.Memory.Wakeup.{no_lost_wakeup}
use workqueue_modules.Memory.Delivery.{Delivers, claim-Delivers}
use workqueue_modules.Workqueue.Contract.{delivered, ended, requeued, deleted, Run}
use workqueue_modules.Memory.Refines.{content, events, run_refines}
use workqueue_modules.Memory.Listing.{list_dead_tasks_panics}
use workqueue_modules.Memory.Calls.Isolation.{call_isolated, channel_closed}
use workqueue_modules.Memory.{
  claim, claimed, waits, complete, enqueue, list_dead_tasks, requeue_dead_task, delete_dead_task,
}

abbrev consuming : ConsumeOptions
consuming = record { concurrency = pos 2; backoff_base = pos 100; backoff_max = pos 1000 }

-- Two tasks: "b" is due at once, "a" after a delay of 50.
abbrev two_tasks : List Call
two_tasks =
    enqueues "mail" (1 ∷ []) (with_delay (pos 50) ∷ []) "a" 1000
    ∷ enqueues "mail" (2 ∷ []) (with_max_retries (pos 0) ∷ []) "b" 1001
    ∷ []

abbrev loaded : MemoryWorkQueue
loaded = run new two_tasks

loaded-IsSound : IsSound loaded
loaded-IsSound = run-new-IsSound two_tasks

-- The task "b" as a worker is given it.
abbrev task_b : Task
task_b = record {
  id = "b";
  queue = "mail";
  payload = 2 ∷ [];
  metadata = [];
  attempts = pos 1;
  max_retries = pos 0;
  enqueued_at = 1001;
  run_at = 1001;
  last_error = "";
  died_at = 0;
}

-- The definitions that a run of the backend computes with.
code : ℕ
unfolding run call enqueue claim complete requeue_dead_task list_dead_tasks queue put_queue lookup
    insert less Heap.push Heap.pop entry swap wrap64 new new_enqueue_options resolve_run_at
    with_max_retries with_delay retry_backoff
code = 0

claim_b : (claim loaded "mail" 1001).1 ≡ claimed task_b
unfolding code
claim_b = refl

run-new-IsSound_example : IsSound (run new two_tasks)
run-new-IsSound_example = run-new-IsSound two_tasks

-- At time 900 nothing is due for another 101, and channel 2 is that of the queue.
claim_early_test : (claim loaded "mail" 900).1 ≡ waits (pos 101) 2
unfolding code
claim_early_test = refl

no_lost_wakeup_example :
    ((run (claim loaded "mail" 900).0 (claims "mail" 950 ∷ [])).closed 2 ≡ true)
    ⊎ ((x : PendingItem)
        → Mem x (at (run (claim loaded "mail" 900).0 (claims "mail" 950 ∷ [])) "mail").pending
        → 1001 ≤ x.task.run_at)
no_lost_wakeup_example =
    no_lost_wakeup loaded "mail" 900 (pos 101) 2 (claims "mail" 950 ∷ []) loaded-IsSound
      claim_early_test

abbrev item_b : PendingItem
item_b = record { task = record task_b { attempts = pos 0 }; seq = pos 2 }

item_b-mem : Mem item_b (at loaded "mail").pending
unfolding code
item_b-mem = mem-cons_self

claim-Delivers_example :
    (t : Task) × ((claim loaded "mail" 1001).1 ≡ claimed t) × Delivers loaded "mail" 1001 t
claim-Delivers_example =
    claim-Delivers loaded "mail" 1001 item_b loaded-IsSound item_b-mem (omega arith)

-- The failure of "b", which has no retry left.
abbrev b_fails : Call
b_fails = completes "mail" task_b (some "boom") consuming 1002

abbrev claimed_b : MemoryWorkQueue
claimed_b = run new (two_tasks ++ claims "mail" 1001 ∷ [])

-- "b" is a dead letter, twice over after its second failure is reported.
abbrev to_dead : List Call
to_dead = two_tasks ++ claims "mail" 1001 ∷ b_fails ∷ b_fails ∷ []

abbrev with_dead : MemoryWorkQueue
with_dead = run new to_dead

two_dead : length (at with_dead "mail").dead ≡ 2
unfolding code
two_dead = refl

list_dead_tasks_panics_example :
    (list_dead_tasks with_dead "mail" (pos 9_223_372_036_854_775_807) (pos 1)).1 ≡ none
list_dead_tasks_panics_example =
    list_dead_tasks_panics with_dead "mail" 1 9_223_372_036_854_775_807 (omega (arith, two_dead))
      (omega arith) (omega (arith, two_dead)) (omega arith)

mail-ne-audit : ◌≢◌ {A = String} "mail" "audit"
mail-ne-audit e = cc ((eq_iff "mail" "audit").1 e)

-- The queue "audit" has a task too, and a push onto "mail" closes the channel of "mail".
abbrev two_queues : List Call
two_queues = enqueues "audit" (3 ∷ []) [] "c" 999 ∷ two_tasks

call_isolated_example :
    let m = run new two_queues in
    let m' = call m (enqueues "mail" (4 ∷ []) [] "d" 1002) in
    (lookup "audit" m'.queues ≡ lookup "audit" m.queues)
    × (channel_closed m'.closed (lookup "audit" m'.queues)
        ≡ channel_closed m.closed (lookup "audit" m.queues))
call_isolated_example =
    call_isolated (run new two_queues) (enqueues "mail" (4 ∷ []) [] "d" 1002) "audit"
      (run-new-IsSound two_queues) mail-ne-audit

-- A worker fails "b", which dies, and its letter is deleted.
abbrev last_days : List Call
last_days =
    claims "mail" 1001
    ∷ completes "mail" task_b (some "boom") consuming 1002
    ∷ requeues "mail" "c" 1003
    ∷ deletes "mail" "b"
    ∷ []

run_refines_example :
    Run
      (events "mail" loaded last_days)
      (content loaded "mail")
      (content (run loaded last_days) "mail")
run_refines_example = run_refines loaded "mail" last_days loaded-IsSound

events_test :
    events "mail" loaded last_days
    ≡ delivered 1001 task_b
      ∷ ended task_b (some "boom") consuming 1002
      ∷ requeued "c" 1003 (some err_task_not_found)
      ∷ deleted "b" none
      ∷ []
unfolding code events delete_dead_task
events_test = refl
