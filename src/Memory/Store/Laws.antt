-- ===== src/Memory/Store/Laws.antt =====
-- What a write to one queue does to it and to the others.
use workqueue_modules.Prelude.{
  suc, ◌≡◌, ◌≢◌, sym, subst, inl, inr, String, [], none, some, lookup, lookup-insert_self,
  lookup-insert_ne, Option-cases,
}
use workqueue_modules.Prelude.Int.{pos}
use workqueue_modules.Memory.Store.{QueueState, MemoryWorkQueue, put_queue, queue, at}

pub queue-put_queue :
    (m : MemoryWorkQueue) (name : String) (q : QueueState)
    → queue (put_queue m name q) name ≡ (put_queue m name q, q)
unfolding queue put_queue
queue-put_queue m name q = rw (lookup-insert_self name q m.queues, queue)

pub queue_hit :
    (m : MemoryWorkQueue) (name : String) (q : QueueState)
    → lookup name m.queues ≡ some q
    → queue m name ≡ (m, q)
unfolding queue
queue_hit m name q e = rw (e, queue)

-- The state of a queue that is made in `m`.
abbrev pub fresh : MemoryWorkQueue → QueueState
fresh m = record { pending = []; seq = pos 0; dead = []; notify = m.channels }

-- `m` with one more channel.
abbrev pub with_channel : MemoryWorkQueue → MemoryWorkQueue
with_channel m = record m { channels = suc m.channels }

pub queue_miss :
    (m : MemoryWorkQueue) (name : String)
    → lookup name m.queues ≡ none
    → queue m name ≡ (put_queue (with_channel m) name (fresh m), fresh m)
unfolding queue
queue_miss m name e = rw (e, queue)

-- A queue that is there is found as it is, and one that is not is made once.
pub queue-queue : (m : MemoryWorkQueue) (name : String) → queue (queue m name).0 name ≡ queue m name
queue-queue m name = elim (Option-cases (lookup name m.queues)) [
  | inl e ↦ rw (queue_miss m name e) (queue-put_queue (with_channel m) name (fresh m))
  | inr (q, e) ↦ rw (queue_hit m name q e) (queue_hit m name q e)
]

pub lookup-queue :
    (m : MemoryWorkQueue) (name : String) → lookup name (queue m name).0.queues ≡ some (at m name)
unfolding put_queue
lookup-queue m name = elim (Option-cases (lookup name m.queues)) [
  | inl e ↦ subst Found (sym (queue_miss m name e)) (lookup-insert_self name (fresh m) m.queues)
  | inr (q, e) ↦ subst Found (sym (queue_hit m name q e)) e
]
  where
    Found : MemoryWorkQueue × QueueState → Type 0
    Found p = lookup name p.0.queues ≡ some p.1

pub lookup-put_queue :
    (m : MemoryWorkQueue) (name : String) (q : QueueState)
    → lookup name (put_queue m name q).queues ≡ some q
unfolding put_queue
lookup-put_queue m name q = lookup-insert_self name q m.queues

pub lookup-put_queue_ne :
    (m : MemoryWorkQueue) (name other : String) (q : QueueState)
    → name ≢ other
    → lookup other (put_queue m name q).queues ≡ lookup other m.queues
unfolding put_queue
lookup-put_queue_ne m name other q h = lookup-insert_ne name other q m.queues h

pub lookup-queue_ne :
    (m : MemoryWorkQueue) (name other : String)
    → name ≢ other
    → lookup other (queue m name).0.queues ≡ lookup other m.queues
lookup-queue_ne m name other h = elim (Option-cases (lookup name m.queues)) [
  | inl e ↦ rw (queue_miss m name e) (lookup-put_queue_ne (with_channel m) name other (fresh m) h)
  | inr (q, e) ↦ rw (queue_hit m name q e)
]
