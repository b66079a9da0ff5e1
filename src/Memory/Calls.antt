-- ===== src/Memory/Calls.antt =====
-- Interleavings: every method holds the mutex, so what the goroutines do to the backend is a
-- sequence of whole calls, in any order and on any queues.
pub mod Isolation
use mathlib.Core.List.{mem-cons_of_mem}
use mathlib.Core.List.Perm
use native.Mathlib.Decide.{dec_lt}
use workqueue_modules.Prelude.{
  ℕ, suc, ◌<◌, ◌≡◌, refl, sym, ap, subst, ◌⊎◌, inl, inr, String, Bool, true, false, Option, none,
  some, List, [], ◌∷◌, Mem, Perm, arith, ltb, ◌==◌, leb, if_intro, length, lookup, Option-cases,
  Bool-cases,
}
use workqueue_modules.Prelude.Int.{ℤ, pos, ltb_ℤ}
use workqueue_modules.Workqueue.{Time, Task, Error}
use workqueue_modules.Workqueue.Options.{EnqueueOption, ConsumeOptions}
use workqueue_modules.Memory.Slice.{entry}
use workqueue_modules.Memory.Heap.Down.{Pops, pop-Pops}
use workqueue_modules.Memory.Heap
use workqueue_modules.Memory.Pending.{PendingItem, less, zero_item, less-IsWeakOrder}
use workqueue_modules.Memory.Store.{QueueState, MemoryWorkQueue, new, put_queue, queue, at}
use workqueue_modules.Memory.Store.Laws.{lookup-queue, queue-queue}
use workqueue_modules.Memory.Sound.{
  IsSound, IsHeapOf, new-IsSound, queue-IsSound, put_queue-IsSound, push_and_wake-IsSound,
}
use workqueue_modules.Memory.Cases.{
  next, claim_empty, claim_early, claim_due, requeue_miss, requeue_hit, delete_miss, delete_hit,
}
use workqueue_modules.Memory.{
  push_and_wake, enqueue, claim, take_next, complete, fail, list_dead_tasks, requeue_dead_task,
  delete_dead_task, take_dead,
}

pub data Call : Type 0 where
  enqueues : String → List ℕ → List EnqueueOption → String → Time → Call
  claims : String → Time → Call
  completes : String → Task → Option String → ConsumeOptions → Time → Call
  lists : String → ℤ → ℤ → Call
  requeues : String → String → Time → Call
  deletes : String → String → Call

-- The queue that a call names.
abbrev pub name_of : Call → String
name_of (enqueues name payload opts id now) = name
name_of (claims name now) = name
name_of (completes name task result o now) = name
name_of (lists name limit offset) = name
name_of (requeues name id now) = name
name_of (deletes name id) = name

unfoldable pub call : MemoryWorkQueue → Call → MemoryWorkQueue
call m (enqueues name payload opts id now) = (enqueue m name payload opts id now).0
call m (claims name now) = (claim m name now).0
call m (completes name task result o now) = complete m name task result o now
call m (lists name limit offset) = (list_dead_tasks m name limit offset).0
call m (requeues name id now) = (requeue_dead_task m name id now).0
call m (deletes name id) = (delete_dead_task m name id).0

unfoldable pub run : MemoryWorkQueue → List Call → MemoryWorkQueue
run m [] = m
run m (c ∷ cs) = run (call m c) cs

-- What a call does to the state of its queue: nothing, find or make it, take pending items away, or
-- push a task.
pub data Acts (m : MemoryWorkQueue) (name : String) (m' : MemoryWorkQueue) : Type 0 where
  skips : m' ≡ m → Acts m name m'
  finds : m' ≡ (queue m name).0 → Acts m name m'
  puts :
      (q : QueueState)
      → q.notify ≡ (at m name).notify
      → IsHeapOf q.pending
      → ((x : PendingItem) → Mem x q.pending → Mem x (at m name).pending)
      → m' ≡ put_queue (queue m name).0 name q
      → Acts m name m'
  pushes :
      (q : QueueState) (task : Task)
      → q.notify ≡ (at m name).notify
      → q.pending ≡ (at m name).pending
      → m' ≡ push_and_wake (queue m name).0 name q task
      → Acts m name m'

pub at-IsHeap : (m : MemoryWorkQueue) (name : String) → IsSound m → IsHeapOf (at m name).pending
at-IsHeap m name v = (queue-IsSound m name v).heaps name (at m name) (lookup-queue m name)

pub Acts-IsSound :
    {m m' : MemoryWorkQueue} {name : String} → IsSound m → Acts m name m' → IsSound m'
Acts-IsSound v (skips e) = subst IsSound (sym e) v
Acts-IsSound {m} {m'} {name} v (finds e) = subst IsSound (sym e) (queue-IsSound m name v)
Acts-IsSound {m} {m'} {name} v (puts q same heap less e) = subst IsSound (sym e) (
    put_queue-IsSound _ name (at m name) q (queue-IsSound m name v) (lookup-queue m name) same heap)
Acts-IsSound {m} {m'} {name} v (pushes q task same kept e) = subst IsSound (sym e) (
    push_and_wake-IsSound _ name (at m name) q (queue-IsSound m name v) (lookup-queue m name) same
      (subst IsHeapOf (sym kept) (at-IsHeap m name v)) task)

-- What is left after a pop was there before.
pub pop_rest :
    (m : MemoryWorkQueue) (name : String)
    → IsSound m
    → 0 < length (at m name).pending
    → Pops zero_item less (at m name).pending (Heap.pop zero_item less (at m name).pending)
pop_rest m name v h = pop-Pops zero_item less less-IsWeakOrder _ h (at-IsHeap m name v)

take_next-Acts :
    (m : MemoryWorkQueue) (name : String)
    → IsSound m
    → 0 < length (at m name).pending
    → Acts m name (take_next (queue m name).0 name (at m name)).0
unfolding take_next
take_next-Acts m name v h =
    let r = pop_rest m name v h in
    puts _ refl r.heap (λ x there. (Perm.mem_iff r.same).0 (mem-cons_of_mem _ there)) refl

claim-Acts :
    (m : MemoryWorkQueue) (name : String) (now : Time)
    → IsSound m
    → Acts m name (claim m name now).0
claim-Acts m name now v = elim (dec_lt 0 (length (at m name).pending)) [
  | no empty ↦ finds (ap (λ r. r.0) (claim_empty m name now (omega arith)))
  | yes some_item ↦ elim (dec_lt now (next m name).run_at) [
    | yes early ↦ finds (ap (λ r. r.0) (claim_early m name now some_item early))
    | no due ↦
        subst (λ r. Acts m name r.0) (sym (claim_due m name now some_item (omega arith)))
          (take_next-Acts m name v some_item)
  ]
]

requeue-Acts :
    (m : MemoryWorkQueue) (name id : String) (now : Time)
    → Acts m name (requeue_dead_task m name id now).0
requeue-Acts m name id now = elim (Option-cases (take_dead id (at m name).dead)) [
  | inl e ↦ finds (ap (λ r. r.0) (requeue_miss m name id now e))
  | inr ((t, left), e) ↦ pushes _ _ refl refl (ap (λ r. r.0) (requeue_hit m name id now t left e))
]

delete-Acts :
    (m : MemoryWorkQueue) (name id : String)
    → IsSound m
    → Acts m name (delete_dead_task m name id).0
delete-Acts m name id v = elim (Option-cases (take_dead id (at m name).dead)) [
  | inl e ↦ finds (ap (λ r. r.0) (delete_miss m name id e))
  | inr ((t, left), e) ↦
      puts _ refl (at-IsHeap m name v) (λ x h. h) (ap (λ r. r.0) (delete_hit m name id t left e))
]

pub call-Acts : (m : MemoryWorkQueue) (c : Call) → IsSound m → Acts m (name_of c) (call m c)
unfolding call enqueue complete fail list_dead_tasks
call-Acts m (enqueues name payload opts id now) v = pushes (at m name) _ refl refl refl
call-Acts m (claims name now) v = claim-Acts m name now v
call-Acts m (completes name task none o now) v = skips refl
call-Acts m (completes name task (some message) o now) v =
    if_intro (Acts m name) (ltb_ℤ task.max_retries task.attempts)
      (λ dies. puts _ refl (at-IsHeap m name v) (λ x h. h) refl)
      (λ retries. pushes _ _ refl refl refl)
call-Acts m (lists name limit offset) v = finds refl
call-Acts m (requeues name id now) v = requeue-Acts m name id now
call-Acts m (deletes name id) v = delete-Acts m name id v

-- Every call keeps the invariant.
pub call-IsSound : (m : MemoryWorkQueue) (c : Call) → IsSound m → IsSound (call m c)
call-IsSound m c v = Acts-IsSound v (call-Acts m c v)

pub run-IsSound : (m : MemoryWorkQueue) (cs : List Call) → IsSound m → IsSound (run m cs)
unfolding run
run-IsSound m [] v = v
run-IsSound m (c ∷ cs) v = run-IsSound (call m c) cs (call-IsSound m c v)

-- After any calls on a new backend, in any interleaving, the pending items of every queue are a
-- heap, the wake channel of every queue has been made and is open, so that no call closes a closed
-- channel, and no two queues share a channel.
pub run-new-IsSound : (cs : List Call) → IsSound (run new cs)
run-new-IsSound cs = run-IsSound new cs new-IsSound
