-- ===== src/Memory/Pushes.antt =====
-- What the calls that push do to their queue and to the others.
use mathlib.Core.List.Perm
use workqueue_modules.Prelude.{
  ℕ, ◌≡◌, inl, inr, sym, ap, subst, refl, String, true, false, Option, none, some, List, [], ◌∷◌,
  ◌++◌, Perm, map, arith, lookup-insert_self,
}
use workqueue_modules.Prelude.Int.{pos, ltb_ℤ, ◌≤ℤ◌, ◌<ℤ◌, ≤ℤ-cases}
use workqueue_modules.Workqueue.{Time, Task}
use workqueue_modules.Workqueue.Options.{
  ConsumeOptions, EnqueueOption, new_enqueue_options, resolve_run_at,
}
use workqueue_modules.Workqueue.Options.Bounds.{new_enqueue_options-max_retries}
use workqueue_modules.Workqueue.Contract.{dead_letter, retry}
use workqueue_modules.Memory.Heap.Up.{push_restores}
use workqueue_modules.Memory.Pending.{less, zero_item, less-IsWeakOrder}
use workqueue_modules.Memory.Store.{QueueState, MemoryWorkQueue, at, queue, push_pending}
use workqueue_modules.Memory.Store.Laws.{queue-put_queue}
use workqueue_modules.Memory.Sound.{IsSound, IsHeapOf}
use workqueue_modules.Memory.Calls.{at-IsHeap}
use workqueue_modules.Memory.{push_and_wake, complete, fail, enqueue}

-- The tasks that wait in a queue.
abbrev pub waiting : QueueState → List Task
waiting q = map (λ i. i.task) q.pending

-- The queue gains exactly the task `t` among those that wait, and its dead letters become `dead`.
pub record Gains (m m' : MemoryWorkQueue) (name : String) (t : Task) (dead : List Task)
    : Type 0 where
  pub gained : Perm (waiting (at m' name)) (t ∷ waiting (at m name))
  pub buried : (at m' name).dead ≡ dead

at-push_and_wake :
    (m : MemoryWorkQueue) (name : String) (q : QueueState) (t : Task)
    → at (push_and_wake m name q t) name ≡ record (push_pending q t) { notify = m.channels }
unfolding push_and_wake queue
at-push_and_wake m name q t =
    rw (lookup-insert_self name (record (push_pending q t) { notify = m.channels }) m.queues, at)

pub push_and_wake-Gains :
    (m : MemoryWorkQueue) (name : String) (q : QueueState) (t : Task)
    → IsSound m
    → q.pending ≡ (at m name).pending
    → Gains m (push_and_wake (queue m name).0 name q t) name t q.dead
unfolding push_pending
push_and_wake-Gains m name q t v same =
    let e = at-push_and_wake (queue m name).0 name q t in
    let heap = subst IsHeapOf (sym same) (at-IsHeap m name v) in
    let (_, grown) = push_restores zero_item less less-IsWeakOrder q.pending _ heap in
    record {
      gained =
          subst (λ s. Perm (waiting s) (t ∷ waiting (at m name))) (sym e)
            (subst (λ a. Perm (waiting (push_pending q t)) (t ∷ map (λ i. i.task) a)) same
              (Perm.map (λ i. i.task) grown));
      buried = ap (λ s. s.dead) e;
    }

-- The task that Enqueue returns is the one that waits in the queue afterwards, beside those that
-- waited before, and the dead letters stay. It carries the given identifier, queue and payload, no
-- attempt, and the due time that its options say; its retry budget is not negative.
pub enqueue-Gains :
    (m : MemoryWorkQueue) (name : String) (payload : List ℕ) (opts : List EnqueueOption)
    (id : String) (now : Time)
    → IsSound m
    → let (m', t) = enqueue m name payload opts id now in
      Gains m m' name t (at m name).dead
      × (t.id ≡ id)
      × (t.queue ≡ name)
      × (t.payload ≡ payload)
      × (t.attempts ≡ pos 0)
      × (t.run_at ≡ resolve_run_at (new_enqueue_options opts) now)
      × (pos 0 ≤ℤ t.max_retries)
unfolding enqueue
enqueue-Gains m name payload opts id now v = (
  push_and_wake-Gains m name (at m name) _ v refl,
  refl,
  refl,
  refl,
  refl,
  refl,
  new_enqueue_options-max_retries opts,
)

complete_buries :
    (m : MemoryWorkQueue) (name : String) (t : Task) (message : String) (o : ConsumeOptions)
    (now : Time)
    → t.max_retries <ℤ t.attempts
    → at (complete m name t (some message) o now) name
      ≡ record (at m name) { dead = (at m name).dead ++ dead_letter t message now ∷ [] }
unfolding complete fail
complete_buries m name t message o now h =
    let over : ltb_ℤ t.max_retries t.attempts ≡ true = ground arith in
    rw over (ap (λ p. p.1) (queue-put_queue _ name _))

complete_retries :
    (m : MemoryWorkQueue) (name : String) (t : Task) (message : String) (o : ConsumeOptions)
    (now : Time)
    → t.attempts ≤ℤ t.max_retries
    → complete m name t (some message) o now
      ≡ push_and_wake (queue m name).0 name (at m name) (retry t o now)
unfolding complete fail
complete_retries m name t message o now h =
    let within : ltb_ℤ t.max_retries t.attempts ≡ false = ground arith in rw within

-- How a delivery ends: the task is gone, dead, or waiting for its retry.
pub data Ends (m m' : MemoryWorkQueue) (name : String) (t : Task) (o : ConsumeOptions) (now : Time)
    : Option String → Type 0 where
  acked : m' ≡ m → Ends m m' name t o now none
  buried :
      {message : String}
      → t.max_retries <ℤ t.attempts
      → at m' name
        ≡ record (at m name) { dead = (at m name).dead ++ dead_letter t message now ∷ [] }
      → Ends m m' name t o now (some message)
  retried :
      {message : String}
      → t.attempts ≤ℤ t.max_retries
      → Gains m m' name (retry t o now) (at m name).dead
      → Ends m m' name t o now (some message)

-- A successful delivery changes nothing. A failed one whose attempts exceed the retry budget appends
-- the task to the dead letters with the error and the time, and no pending task changes. Any other
-- failed one puts the task back, due after the backoff for its attempts, and no dead letter changes.
pub complete_ends :
    (m : MemoryWorkQueue) (name : String) (t : Task) (result : Option String) (o : ConsumeOptions)
    (now : Time)
    → IsSound m
    → Ends m (complete m name t result o now) name t o now result
unfolding complete
complete_ends m name t none o now v = acked refl
complete_ends m name t (some message) o now v = elim (≤ℤ-cases t.attempts t.max_retries) [
  | inl within ↦ retried within (
      subst (λ m'. Gains m m' name (retry t o now) (at m name).dead)
        (sym (complete_retries m name t message o now within))
        (push_and_wake-Gains m name (at m name) _ v refl))
  | inr over ↦ buried over (complete_buries m name t message o now over)
]
