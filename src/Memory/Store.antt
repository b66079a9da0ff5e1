-- ===== src/Memory/Store.antt =====
-- memory_workqueue/workqueue.go: the state, the queue map and the wake channels. A channel is a
-- number; those below `channels` have been made, and `closed` says which have been closed.
pub mod Laws
use workqueue_modules.Prelude.{
  ℕ, suc, ◌+◌, ◌≡◌, String, Bool, true, false, Option, none, some, List, [], ◌∷◌, ◌==◌,
  if◌then◌else◌, lookup, insert,
}
use workqueue_modules.Prelude.Int.{ℤ, pos, ◌+ℤ◌, wrap64}
use workqueue_modules.Workqueue.{Task}
use workqueue_modules.Memory.Pending.{PendingItem, less, zero_item}
use workqueue_modules.Memory.Heap

pub record QueueState : Type 0 where
  pub pending : List PendingItem
  pub seq : ℤ
  pub dead : List Task
  pub notify : ℕ

pub record MemoryWorkQueue : Type 0 where
  pub queues : List (String × QueueState)
  pub channels : ℕ
  pub closed : ℕ → Bool

unfoldable pub new : MemoryWorkQueue
new = record { queues = []; channels = 0; closed = λ c. false }

unfoldable pub put_queue : MemoryWorkQueue → String → QueueState → MemoryWorkQueue
put_queue m name q = record m { queues = insert name q m.queues }

-- The state of the named queue, which is made when it is not there.
unfoldable pub queue : MemoryWorkQueue → String → MemoryWorkQueue × QueueState
unfolding put_queue
queue m name = elim (lookup name m.queues) [
  | some q ↦ (m, q)
  | none ↦
      let q : QueueState = record { pending = []; seq = pos 0; dead = []; notify = m.channels } in
      (put_queue (record m { channels = suc m.channels }) name q, q)
]

-- `close(q.notify)`, and a fresh channel in its place.
unfoldable pub broadcast : MemoryWorkQueue → QueueState → MemoryWorkQueue × QueueState
broadcast m q = (
  record m { channels = suc m.channels; closed = λ c. if c == q.notify then true else m.closed c },
  record q { notify = m.channels },
)

-- `q.seq++` and the heap.Push of the task under the new number.
unfoldable pub push_pending : QueueState → Task → QueueState
push_pending q task =
    let seq = wrap64 (q.seq +ℤ pos 1) in
    record q {
      pending = Heap.push zero_item less q.pending (record { task = task; seq = seq });
      seq = seq;
    }

-- The state of the named queue, as the next call sees it.
abbrev pub at : MemoryWorkQueue → String → QueueState
at m name = (queue m name).1
