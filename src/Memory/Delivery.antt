-- ===== src/Memory/Delivery.antt =====
-- What a claim delivers.
use native.Mathlib.Decide.{dec_lt}
use workqueue_modules.Prelude.{
  ◌<◌, ◌≤◌, ◌⊎◌, inl, inr, ◌==◌, Bool-cases, ◌≡◌, sym, ap, subst, refl, String, false, ◌∷◌, Mem,
  Perm, arith, length,
}
use workqueue_modules.Prelude.Int.{◌≤ℤ◌, pos, ◌+ℤ◌, wrap64}
use workqueue_modules.Workqueue.{Time, Task}
use workqueue_modules.Memory.Heap
use workqueue_modules.Memory.Heap.Order.{root_least_mem}
use workqueue_modules.Memory.Pending.{PendingItem, less, zero_item, less-IsWeakOrder}
use workqueue_modules.Memory.Store.{QueueState, MemoryWorkQueue, at, queue}
use workqueue_modules.Memory.Store.Laws.{queue-put_queue}
use workqueue_modules.Memory.Sound.{IsSound}
use workqueue_modules.Memory.Calls.{at-IsHeap, pop_rest}
use workqueue_modules.Memory.Wakeup.{less-run_at, empty_mem}
use workqueue_modules.Memory.Cases.{next, claim_due}
use workqueue_modules.Memory.{claimed, claim, take_next}

-- The item that a claim took from the queue, and what is left there.
pub record Delivers (m : MemoryWorkQueue) (name : String) (now : Time) (t : Task) : Type 0 where
  pub item : PendingItem
  pub counted : t ≡ record (item.task) { attempts = wrap64 (item.task.attempts +ℤ pos 1) }
  pub due : item.task.run_at ≤ now
  pub least :
      (x : PendingItem)
      → Mem x (at m name).pending
      → (item.task.run_at < x.task.run_at)
        ⊎ ((item.task.run_at ≡ x.task.run_at) × (item.seq ≤ℤ x.seq))
  pub taken : Perm (item ∷ (at (claim m name now).0 name).pending) (at m name).pending
  pub dead_kept : (at (claim m name now).0 name).dead ≡ (at m name).dead

not_less :
    (x y : PendingItem)
    → less x y ≡ false
    → (y.task.run_at < x.task.run_at) ⊎ ((y.task.run_at ≡ x.task.run_at) × (y.seq ≤ℤ x.seq))
unfolding less
not_less x y h = elim (Bool-cases (x.task.run_at == y.task.run_at)) [
  | inl t ↦ inr (ground arith, ground arith)
  | inr t ↦ inl (ground arith)
]

length-pos :
    (m : MemoryWorkQueue) (name : String) (x : PendingItem)
    → Mem x (at m name).pending
    → 0 < length (at m name).pending
length-pos m name x there = elim (dec_lt 0 (length (at m name).pending)) [
  | yes h ↦ h
  | no h ↦ absurd (empty_mem _ x (omega arith) there)
]

pub due_root :
    (m : MemoryWorkQueue) (name : String) (x : PendingItem)
    → IsSound m
    → Mem x (at m name).pending
    → (next m name).run_at ≤ x.task.run_at
due_root m name x v there =
    less-run_at x _ (root_least_mem zero_item less less-IsWeakOrder _ x (at-IsHeap m name v) there)

-- The queue without the item at the root of its heap.
abbrev left_after : MemoryWorkQueue → String → QueueState
left_after m name = record (at m name) { pending = (Heap.pop zero_item less (at m name).pending).0 }

at-take_next :
    (m : MemoryWorkQueue) (name : String)
    → at (take_next (queue m name).0 name (at m name)).0 name ≡ left_after m name
unfolding take_next
at-take_next m name = ap (λ p. p.1) (queue-put_queue _ name _)

pub take_next-Delivers :
    (m : MemoryWorkQueue) (name : String) (now : Time)
    → IsSound m
    → 0 < length (at m name).pending
    → (next m name).run_at ≤ now
    → (t : Task) × ((claim m name now).1 ≡ claimed t) × Delivers m name now t
unfolding take_next
take_next-Delivers m name now v h due =
    let r = pop_rest m name v h in
    let e = claim_due m name now h due in
    let left = subst (λ c. at c.0 name ≡ left_after m name) (sym e) (at-take_next m name) in
    let item = (Heap.pop zero_item less (at m name).pending).1 in
    (
      record (item.task) { attempts = wrap64 (item.task.attempts +ℤ pos 1) },
      ap (λ c. c.1) e,
      record {
        item = item;
        counted = refl;
        due = subst (λ i. i.task.run_at ≤ now) (sym r.root) due;
        least = λ x there. not_less x item (
            subst (λ i. less x i ≡ false) (sym r.root)
              (root_least_mem zero_item less less-IsWeakOrder _ x (at-IsHeap m name v) there));
        taken = subst (λ q. Perm (item ∷ q.pending) (at m name).pending) (sym left) r.same;
        dead_kept = ap (λ q. q.dead) left;
      },
    )

-- When some pending task of the queue is due, a claim delivers one: an item that was pending, is
-- due, and that no pending item precedes in the order of due time and then of sequence number. Its attempt
-- counter goes up by one, exactly that item leaves the queue, and the dead letters stay.
pub claim-Delivers :
    (m : MemoryWorkQueue) (name : String) (now : Time) (x : PendingItem)
    → IsSound m
    → Mem x (at m name).pending
    → x.task.run_at ≤ now
    → (t : Task) × ((claim m name now).1 ≡ claimed t) × Delivers m name now t
claim-Delivers m name now x v there due =
    take_next-Delivers m name now v (length-pos m name x there)
      (omega (arith, due_root m name x v there))
