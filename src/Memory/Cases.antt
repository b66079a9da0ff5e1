-- ===== src/Memory/Cases.antt =====
-- The branches of the calls, each under its condition on the state of the queue.
use workqueue_modules.Prelude.{◌≤◌, ◌<◌, ◌≡◌, String, none, some, List, arith, length}
use workqueue_modules.Workqueue.{Time, Task, err_task_not_found, sub}
use workqueue_modules.Prelude.Int.{pos}
use workqueue_modules.Memory.Slice.{entry}
use workqueue_modules.Memory.Pending.{zero_item}
use workqueue_modules.Memory.Store.{MemoryWorkQueue, put_queue, queue, at}
use workqueue_modules.Memory.{
  push_and_wake, waits, idle_wait, claim, take_next, take_dead, requeue_dead_task, delete_dead_task,
}

-- The task at the root of the queue's heap.
abbrev pub next : MemoryWorkQueue → String → Task
next m name = (entry zero_item (at m name).pending 0).task

module _ (m : MemoryWorkQueue) (name : String) (now : Time) where
  pub claim_empty :
      length (at m name).pending ≡ 0
      → claim m name now ≡ ((queue m name).0, waits idle_wait (at m name).notify)
  unfolding claim
  claim_empty e = ground arith

  pub claim_early :
      0 < length (at m name).pending
      → now < (next m name).run_at
      → claim m name now
        ≡ ((queue m name).0, waits (sub (next m name).run_at now) (at m name).notify)
  unfolding claim
  claim_early h e = ground arith

  pub claim_due :
      0 < length (at m name).pending
      → (next m name).run_at ≤ now
      → claim m name now ≡ take_next (queue m name).0 name (at m name)
  unfolding claim
  claim_due h e = ground arith

module _ (m : MemoryWorkQueue) (name id : String) where
  pub requeue_miss :
      (now : Time)
      → take_dead id (at m name).dead ≡ none
      → requeue_dead_task m name id now ≡ ((queue m name).0, some err_task_not_found)
  unfolding requeue_dead_task
  requeue_miss now e = rw (e, requeue_dead_task)

  pub requeue_hit :
      (now : Time) (t : Task) (left : List Task)
      → take_dead id (at m name).dead ≡ some (t, left)
      → requeue_dead_task m name id now ≡ (
        push_and_wake
            (queue m name).0
            name
            (record (at m name) { dead = left })
            (record t { attempts = pos 0; last_error = ""; died_at = 0; run_at = now }),
        none,
      )
  unfolding requeue_dead_task
  requeue_hit now t left e = rw (e, requeue_dead_task)

  pub delete_miss :
      take_dead id (at m name).dead ≡ none
      → delete_dead_task m name id ≡ ((queue m name).0, some err_task_not_found)
  unfolding delete_dead_task
  delete_miss e = rw (e, delete_dead_task)

  pub delete_hit :
      (t : Task) (left : List Task)
      → take_dead id (at m name).dead ≡ some (t, left)
      → delete_dead_task m name id
        ≡ (put_queue (queue m name).0 name (record (at m name) { dead = left }), none)
  unfolding delete_dead_task
  delete_hit t left e = rw (e, delete_dead_task)
