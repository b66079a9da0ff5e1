-- ===== src/Memory/Refines.antt =====
-- memory_workqueue/workqueue.go keeps the promises of workqueue/workqueue.go: what the calls do to the
-- tasks of a queue is what the interface allows.
use mathlib.Core.List.{mem-cons_self, mem-cons_of_mem}
use mathlib.Core.List.Perm
use native.Mathlib.Decide.{dec_lt}
use workqueue_modules.Prelude.{
  ◌<◌, ◌≡◌, ◌≢◌, refl, sym, subst, ap, ◌∙◌, inl, inr, String, false, none, some, List, [], ◌∷◌, Mem,
  map, arith, length, lookup, str_eq, eq_iff, if◌then◌else◌, Option, Option-cases, Bool-cases,
}
use workqueue_modules.Workqueue.{Time, Task, Error}
use workqueue_modules.Workqueue.Options.{ConsumeOptions}
use workqueue_modules.Workqueue.Bag.{of_list, of_list-perm, put, some_due, has_due}
use workqueue_modules.Workqueue.Contract.{
  Content, Event, enqueued, delivered, idle, ended, listed, requeued, deleted, Gets, Allows, Run,
  done, next,
}
use workqueue_modules.Memory.Pending.{PendingItem}
use workqueue_modules.Memory.Store.{MemoryWorkQueue, QueueState, queue, at}
use workqueue_modules.Memory.Store.Laws.{queue-queue, queue_hit, queue_miss}
use workqueue_modules.Memory.Sound.{IsSound}
use workqueue_modules.Memory.Cases
use workqueue_modules.Memory.Calls.{
  Call, enqueues, claims, completes, lists, requeues, deletes, name_of, call, run, call-IsSound,
}
use workqueue_modules.Memory.Calls.Isolation.{call_isolated}
use workqueue_modules.Memory.Delivery.{take_next-Delivers, due_root}
use workqueue_modules.Memory.Pushes.{waiting, Gains, enqueue-Gains, complete_ends, buried, retried}
use workqueue_modules.Memory.DeadLetters.{requeue_dead_task_ends, delete_dead_task_ends}
use workqueue_modules.Memory.Listing.{list_dead_tasks_page}
use workqueue_modules.Memory.{
  Claimed, claimed, waits, enqueue, claim, complete, list_dead_tasks, requeue_dead_task,
  delete_dead_task,
}

abbrev contents : QueueState → Content
contents q = record { waiting = of_list (waiting q); dead = q.dead }

-- The queue as its users see it; one that is not there yet is empty.
abbrev pub content : MemoryWorkQueue → String → Content
content m name = contents (at m name)

abbrev pub claim_event : Time → Claimed → Event
claim_event now (claimed t) = delivered now t
claim_event now (waits wait notify) = idle now

-- What the user of a queue sees of a call.
abbrev pub event_of : MemoryWorkQueue → Call → Event
event_of m (enqueues name payload opts id now) =
    enqueued name payload opts now (enqueue m name payload opts id now).1
event_of m (claims name now) = claim_event now (claim m name now).1
event_of m (completes name t result o now) = ended t result o now
event_of m (lists name limit offset) = listed limit offset (list_dead_tasks m name limit offset).1
event_of m (requeues name id now) = requeued id now (requeue_dead_task m name id now).1
event_of m (deletes name id) = deleted id (delete_dead_task m name id).1

content-queue :
    (m : MemoryWorkQueue) (name : String) → content (queue m name).0 name ≡ content m name
content-queue m name = ap (λ p. contents p.1) (queue-queue m name)

none_due :
    (now : Time) (is : List PendingItem)
    → ((x : PendingItem) → Mem x is → now < x.task.run_at)
    → some_due now (map (λ i. i.task) is) ≡ false
unfolding some_due
none_due now [] h = refl
none_due now (x ∷ is) h =
    ground (arith, h x mem-cons_self, none_due now is (λ y m. h y (mem-cons_of_mem x m)))

none_due_empty :
    (now : Time) (is : List PendingItem)
    → length is ≡ 0
    → some_due now (map (λ i. i.task) is) ≡ false
unfolding some_due
none_due_empty now [] h = refl
none_due_empty now (x ∷ is) h = absurd (omega arith)

-- What a claim that found nothing leaves.
abbrev ClaimAllowed : MemoryWorkQueue → String → Time → MemoryWorkQueue × Claimed → Type 0
ClaimAllowed m name now p = Allows (claim_event now p.1) (content m name) (content p.0 name)

claim_allowed :
    (m : MemoryWorkQueue) (name : String) (now : Time)
    → IsSound m
    → ClaimAllowed m name now (claim m name now)
unfolding has_due put
claim_allowed m name now v = elim (dec_lt 0 (length (at m name).pending)) [
  | no empty ↦
      subst (ClaimAllowed m name now) (sym (Cases.claim_empty m name now (omega arith)))
        (none_due_empty now (at m name).pending (omega arith), content-queue m name)
  | yes some_item ↦ elim (dec_lt now (Cases.next m name).run_at) [
    | yes early ↦
        subst (ClaimAllowed m name now) (sym (Cases.claim_early m name now some_item early)) (
          none_due now (at m name).pending (λ x there. omega (arith, due_root m name x v there)),
          content-queue m name,
        )
    | no late ↦
        let (t, e, d) = take_next-Delivers m name now v some_item (omega arith) in
        subst (λ c. Allows (claim_event now c) (content m name) (content (claim m name now).0 name))
          (sym e)
          (
            d.item.task,
            sym (of_list-perm (Perm.map (λ i. i.task) d.taken)),
            ground (arith, d.due),
            d.counted,
            d.dead_kept,
          )
  ]
]

-- A push, as the user of the queue sees it.
gets :
    (m m' : MemoryWorkQueue) (name : String) (t : Task) (dead : List Task)
    → Gains m m' name t dead
    → Gets (content m name) (content m' name) t dead
unfolding put
gets m m' name t dead g = (of_list-perm g.gained, g.buried)

complete_allowed :
    (m : MemoryWorkQueue) (name : String) (t : Task) (result : Option String) (o : ConsumeOptions)
    (now : Time)
    → IsSound m
    → Allows (ended t result o now) (content m name) (content (complete m name t result o now) name)
unfolding complete
complete_allowed m name t none o now v = refl
complete_allowed m name t (some message) o now v =
    elim (complete_ends m name t (some message) o now v) [
      | buried over e ↦ inr (over, ap (λ q. of_list (waiting q)) e, ap (λ q. q.dead) e)
      | retried within g ↦ inl (within, gets m _ name _ _ g)
    ]

requeue_allowed :
    (m : MemoryWorkQueue) (name id : String) (now : Time)
    → IsSound m
    → let (m', result) = requeue_dead_task m name id now in
      Allows (requeued id now result) (content m name) (content m' name)
requeue_allowed m name id now v =
    let m' = (requeue_dead_task m name id now).0 in
    let allowed =
      λ (r : Option Error). Allows (requeued id now r) (content m name) (content m' name) in
    elim (requeue_dead_task_ends m name id now v) [
      | inl (e, lacks, same) ↦
          subst allowed (sym e) (lacks, ap (λ x. content x name) same ∙ content-queue m name)
      | inr (t, left, e, f, g) ↦ subst allowed (sym e) (t, left, f, gets m m' name _ _ g)
    ]

delete_allowed :
    (m : MemoryWorkQueue) (name id : String)
    → let (m', result) = delete_dead_task m name id in
      Allows (deleted id result) (content m name) (content m' name)
delete_allowed m name id =
    let m' = (delete_dead_task m name id).0 in
    let allowed = λ (r : Option Error). Allows (deleted id r) (content m name) (content m' name) in
    elim (delete_dead_task_ends m name id) [
      | inl (e, lacks, same) ↦
          subst allowed (sym e) (lacks, ap (λ x. content x name) same ∙ content-queue m name)
      | inr (t, left, e, f, left_so) ↦
          subst allowed (sym e)
            (t, left, f, ap (λ q. of_list (waiting q)) left_so, ap (λ q. q.dead) left_so)
    ]

call_allowed :
    (m : MemoryWorkQueue) (c : Call)
    → IsSound m
    → Allows (event_of m c) (content m (name_of c)) (content (call m c) (name_of c))
unfolding call enqueue list_dead_tasks
call_allowed m (enqueues name payload opts id now) v = (
  gets m _ name _ _ (enqueue-Gains m name payload opts id now v).0,
  refl,
  refl,
  refl,
  refl,
  refl,
  refl,
)
call_allowed m (claims name now) v = claim_allowed m name now v
call_allowed m (completes name t result o now) v = complete_allowed m name t result o now v
call_allowed m (lists name limit offset) v =
    (λ small fits. list_dead_tasks_page m name limit offset small fits, content-queue m name)
call_allowed m (requeues name id now) v = requeue_allowed m name id now v
call_allowed m (deletes name id) v = delete_allowed m name id

content_isolated :
    (m m' : MemoryWorkQueue) (name : String)
    → lookup name m'.queues ≡ lookup name m.queues
    → content m' name ≡ content m name
content_isolated m m' name same = elim (Option-cases (lookup name m.queues)) [
  | inl e ↦
      ap (λ p. contents p.1) (queue_miss m' name (same ∙ e))
      ∙ sym (ap (λ p. contents p.1) (queue_miss m name e))
  | inr (q, e) ↦
      ap (λ p. contents p.1) (queue_hit m' name q (same ∙ e))
      ∙ sym (ap (λ p. contents p.1) (queue_hit m name q e))
]

-- What the user of a queue sees of a history of calls on all queues.
unfoldable pub events : String → MemoryWorkQueue → List Call → List Event
events name m [] = []
events name m (c ∷ cs) =
    let rest = events name (call m c) cs in
    if str_eq (name_of c) name then event_of m c ∷ rest else rest

-- In every history of calls, on any queues and in any interleaving, what the users of a queue see is
-- a run that the interface allows: an Enqueue adds its task to the bag of those that wait; a look at
-- the queue delivers a due task of the bag, with one attempt more, and finds nothing only when no task
-- is due; a failed delivery puts its task back, or at the end of the dead ones when its attempts exceed
-- its budget; ListDeadTasks returns the page of the dead ones that `offset` and `limit` ask for,
-- whenever `offset+limit` fits 64 bits and there are fewer than 2^60 dead ones, and nothing is said of
-- its result otherwise; RequeueDeadTask puts the first dead one with the identifier back,
-- DeleteDeadTask drops it, and each of the two fails only when there is none.
-- The backend is sound at the start.
pub run_refines :
    (m : MemoryWorkQueue) (name : String) (cs : List Call)
    → IsSound m
    → Run (events name m cs) (content m name) (content (run m cs) name)
unfolding run events
run_refines m name [] v = done refl
run_refines m name (c ∷ cs) v =
    let m' = call m c in
    let rest = run_refines m' name cs (call-IsSound m c v) in
    elim (Bool-cases (str_eq (name_of c) name)) [
      | inl e ↦
          let here : Allows (event_of m c) (content m name) (content m' name) =
            subst (λ k. Allows (event_of m c) (content m k) (content m' k))
              ((eq_iff (name_of c) name).0 e) (call_allowed m c v) in
          rw e (next (content m' name) here rest)
      | inr e ↦
          let apart : name_of c ≢ name = λ k. cc ((eq_iff (name_of c) name).1 k) in
          let same = content_isolated m m' name (call_isolated m c name v apart).0 in
          rw e (subst (λ s. Run (events name m' cs) s (content (run m' cs) name)) same rest)
    ]
