-- ===== src/Memory/World/Closed.antt =====
-- Tests of single tasks, and what they must respect of memory_workqueue/workqueue.go.
use native.Mathlib.Decide.{dec_lt}
use workqueue_modules.Prelude.{
  ℕ, ◌≡◌, ap, ◌∙◌, ◌⊎◌, inl, inr, String, Bool, true, List, [], ◌∷◌, Mem, arith, length,
}
use workqueue_modules.Prelude.Int.{pos, ◌+ℤ◌, ◌≤ℤ◌, ◌<ℤ◌, wrap64}
use workqueue_modules.Workqueue.{Time, Duration, Task}
use workqueue_modules.Workqueue.Options.{ConsumeOptions}
use workqueue_modules.Memory.Store.{MemoryWorkQueue, at}
use workqueue_modules.Memory.Store.Laws.{queue-queue}
use workqueue_modules.Memory.Sound.{IsSound}
use workqueue_modules.Memory.Cases.{next, claim_empty, claim_early}
use workqueue_modules.Memory.Delivery.{Delivers, take_next-Delivers}
use workqueue_modules.Workqueue.Contract.{dead_letter, retry, revived}
use workqueue_modules.Memory.World.{World, Act, pick, handed, completed, act, history}
use workqueue_modules.Memory.World as W
use workqueue_modules.Memory.World.Holds.{Holds}
use workqueue_modules.Memory.{claimed, waits, claim, enqueue}

-- A claim that delivers nothing leaves its queue as it was.
pub claim_cases :
    (m : MemoryWorkQueue) (name : String) (now : Time)
    → IsSound m
    → ((at (claim m name now).0 name ≡ at m name)
        × (wait : Duration) × (ch : ℕ) × ((claim m name now).1 ≡ waits wait ch))
      ⊎ ((t : Task) × ((claim m name now).1 ≡ claimed t) × Delivers m name now t)
claim_cases m name now v =
    let same = ap (λ r. r.1) (queue-queue m name) in
    elim (dec_lt 0 (length (at m name).pending)) [
      | no empty ↦
          let e = claim_empty m name now (omega arith) in
          inl (ap (λ r. at r.0 name) e ∙ same, _, _, ap (λ r. r.1) e)
      | yes some_item ↦ elim (dec_lt now (next m name).run_at) [
        | yes early ↦
            let e = claim_early m name now some_item early in
            inl (ap (λ r. at r.0 name) e ∙ same, _, _, ap (λ r. r.1) e)
        | no due ↦ inr (take_next-Delivers m name now v some_item (omega arith))
      ]
    ]

-- The test `p` of waiting tasks, `d` of dead letters and `f` of tasks in flight fit together.
pub record IsClosed (p d f : Task → Bool) : Type 0 where
  pub counts :
      (t : Task) → p t ≡ true → f (record t { attempts = wrap64 (t.attempts +ℤ pos 1) }) ≡ true
  pub retries :
      (t : Task) (o : ConsumeOptions) (now : Time)
      → f t ≡ true
      → t.attempts ≤ℤ t.max_retries
      → p (retry t o now) ≡ true
  pub buries :
      (t : Task) (message : String) (now : Time)
      → f t ≡ true
      → t.max_retries <ℤ t.attempts
      → d (dead_letter t message now) ≡ true
  pub revives : (t : Task) (now : Time) → d t ≡ true → p (revived t now) ≡ true

-- The task of an enqueue passes the test.
unfoldable pub Admits : (Task → Bool) → Act → Type 0
Admits p (W.enqueues name payload opts id now) =
    (m : MemoryWorkQueue) → p (enqueue m name payload opts id now).1 ≡ true
Admits p (W.claims name now) = Unit {0}
Admits p (W.completes k result o now) = Unit {0}
Admits p (W.requeues name id now) = Unit {0}
Admits p (W.deletes name id) = Unit {0}
Admits p (W.lists name limit offset) = Unit {0}

unfoldable pub AllAdmit : (Task → Bool) → List Act → Type 0
AllAdmit p [] = Unit {0}
AllAdmit p (a ∷ acts) = Admits p a × AllAdmit p acts

pub record Passes (p d f : Task → Bool) (w : World) : Type 0 where
  pub sound : IsSound w.backend
  pub queues : (n : String) → Holds p d (at w.backend n)
  pub flight : (n : String) (t : Task) → Mem (n, t) w.in_flight → f t ≡ true
