-- ===== src/Memory/Sound.antt =====
-- The invariant of the in-memory backend: heaps in order, and wake channels that are open and
-- belong to one queue each.
use workqueue_modules.Prelude.{
  ℕ, ◌≤◌, ◌<◌, ◌≡◌, ◌≢◌, refl, sym, ◌∙◌, inl, inr, String, Bool, false, some, List, arith, subst,
  lookup, insert, lookup-insert_cases, Option-cases, length,
}
use workqueue_modules.Workqueue.{Task}
use workqueue_modules.Memory.Heap.Order.{IsHeap}
use workqueue_modules.Memory.Heap.Up.{push_restores}
use workqueue_modules.Memory.Pending.{PendingItem, less, zero_item, less-IsWeakOrder}
use workqueue_modules.Memory.Store.{QueueState, MemoryWorkQueue, put_queue, queue, new}
use workqueue_modules.Memory.Store.Laws.{queue_hit, queue_miss}
use workqueue_modules.Memory.{push_and_wake}

abbrev pub IsHeapOf : List PendingItem → Type 0
IsHeapOf a = IsHeap zero_item less (length a) a

pub record IsSound (m : MemoryWorkQueue) : Type 0 where
  pub heaps : (name : String) (q : QueueState) → lookup name m.queues ≡ some q → IsHeapOf q.pending
  pub made :
      (name : String) (q : QueueState) → lookup name m.queues ≡ some q → q.notify < m.channels
  pub opened :
      (name : String) (q : QueueState) → lookup name m.queues ≡ some q → m.closed q.notify ≡ false
  pub unmade : (c : ℕ) → m.channels ≤ c → m.closed c ≡ false
  pub distinct :
      (j k : String) (q r : QueueState)
      → lookup j m.queues ≡ some q
      → lookup k m.queues ≡ some r
      → q.notify ≡ r.notify
      → j ≡ k

pub new-IsSound : IsSound new
unfolding new lookup
new-IsSound = record {
  heaps = λ name q e. cc;
  made = λ name q e. cc;
  opened = λ name q e. cc;
  unmade = λ c h. refl;
  distinct = λ j k q r e f h. cc;
}

-- A write of `q` to the named queue in `m`, with the channels as given.
abbrev pub write : MemoryWorkQueue → String → QueueState → ℕ → (ℕ → Bool) → MemoryWorkQueue
write m name q channels closed = record {
  queues = insert name q m.queues;
  channels = channels;
  closed = closed;
}

-- What such a write must respect.
pub record IsSafeWrite (m : MemoryWorkQueue) (name : String) (q : QueueState) (channels : ℕ)
    (closed : ℕ → Bool) : Type 0 where
  pub heap : IsHeapOf q.pending
  pub grows : m.channels ≤ channels
  pub made : q.notify < channels
  pub opened : closed q.notify ≡ false
  pub unmade : (c : ℕ) → channels ≤ c → closed c ≡ false
  pub others :
      (other : String) (r : QueueState)
      → name ≢ other
      → lookup other m.queues ≡ some r
      → (closed r.notify ≡ false) × (r.notify ≢ q.notify)

module _ {m : MemoryWorkQueue} {name : String} {q : QueueState} {channels : ℕ}
    {closed : ℕ → Bool} where
  pub write-IsSound :
      IsSound m → IsSafeWrite m name q channels closed → IsSound (write m name q channels closed)
  write-IsSound v w = record {
    heaps = λ j r e. elim (lookup-insert_cases name j q r m.queues e) [
      | inl (_, same) ↦ subst (λ x. IsHeapOf x.pending) same w.heap
      | inr (_, old) ↦ v.heaps j r old
    ];
    made = λ j r e. elim (lookup-insert_cases name j q r m.queues e) [
      | inl (_, same) ↦ subst (λ x. x.notify < channels) same w.made
      | inr (_, old) ↦ omega (arith, v.made j r old, w.grows)
    ];
    opened = λ j r e. elim (lookup-insert_cases name j q r m.queues e) [
      | inl (_, same) ↦ subst (λ x. closed x.notify ≡ false) same w.opened
      | inr (apart, old) ↦ (w.others j r apart old).0
    ];
    unmade = w.unmade;
    distinct = λ j k r s e f h. elim (lookup-insert_cases name j q r m.queues e) [
      | inl (at_j, same_r) ↦ elim (lookup-insert_cases name k q s m.queues f) [
        | inl (at_k, same_s) ↦ sym at_j ∙ at_k
        | inr (apart, old) ↦ absurd ((w.others k s apart old).1 (cc))
      ]
      | inr (apart, old) ↦ elim (lookup-insert_cases name k q s m.queues f) [
        | inl (at_k, same_s) ↦ absurd ((w.others j r apart old).1 (cc))
        | inr (_, old_s) ↦ v.distinct j k r s old old_s h
      ]
    ];
  }

-- Making a queue on first use keeps the invariant.
pub queue-IsSound : (m : MemoryWorkQueue) (name : String) → IsSound m → IsSound (queue m name).0
unfolding put_queue
queue-IsSound m name v = elim (Option-cases (lookup name m.queues)) [
  | inl e ↦
      subst (λ p. IsSound p.0) (sym (queue_miss m name e))
        (write-IsSound v (record {
          heap = λ c p q. absurd (omega arith);
          grows = omega arith;
          made = omega arith;
          opened = v.unmade m.channels (omega arith);
          unmade = λ c h. v.unmade c (omega arith);
          others =
              λ other r apart found. (v.opened other r found, omega (arith, v.made other r found));
        }))
  | inr (q, e) ↦ subst (λ p. IsSound p.0) (sym (queue_hit m name q e)) v
]

module _ (m : MemoryWorkQueue) (name : String) (old q : QueueState) (v : IsSound m)
    (found : lookup name m.queues ≡ some old) (same : q.notify ≡ old.notify)
    (heap : IsHeapOf q.pending) where
  -- So does a write to a queue that leaves its channel alone.
  pub put_queue-IsSound : IsSound (put_queue m name q)
  unfolding put_queue
  put_queue-IsSound = write-IsSound v (record {
    heap = heap;
    grows = omega arith;
    made = omega (arith, v.made name old found, same);
    opened = rw same (v.opened name old found);
    unmade = v.unmade;
    others = λ other r apart there. (
      v.opened other r there,
      λ e. apart (v.distinct name other old r found there (sym same ∙ sym e)),
    );
  })

  -- And a push with its broadcast: the channel that is closed was open, and no other queue waits on
  -- it or on the new one.
  pub push_and_wake-IsSound : (task : Task) → IsSound (push_and_wake m name q task)
  unfolding push_and_wake
  push_and_wake-IsSound task = write-IsSound v (record {
    heap = (push_restores zero_item less less-IsWeakOrder _ _ heap).0;
    grows = omega arith;
    made = omega arith;
    opened = ground (arith, v.made name old found, v.unmade m.channels);
    unmade = λ c h. ground (arith, v.made name old found, v.unmade c);
    others = λ other r apart there. (
      ground (
        arith,
        v.opened other r there,
        λ (e : old.notify ≡ r.notify). apart (v.distinct name other old r found there e),
      ),
      omega (arith, v.made other r there),
    );
  })
