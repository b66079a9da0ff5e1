-- ===== src/Memory/Life.antt =====
-- memory_workqueue/workqueue.go: the life of a task under a worker, from its enqueue to its success or
-- its death. workqueuetest/suite.go runs such lives on every backend.
pub mod Fates
mod Tests
use mathlib.Core.List.{mem-cons, mem-cons_self, not-mem-nil}
use mathlib.Core.List.Perm
use mathlib.Core.Logic.Or
use mathlib.Core.HLevel.{prop→set}
use native.Mathlib.Nat.{ℕ_set}
use text.Mathlib.TextEquality.{IsScalar-prop}
use Prim.Native.Char.{IsScalar}
use workqueue_modules.Prelude.{
  ℕ, zero, suc, ◌+◌, ◌≤◌, ◌<◌, ◌≡◌, refl, sym, subst, ap, ◌∙◌, ◌⊎◌, inl, inr, String, Bool, true,
  false, Option, none, some, List, [], ◌∷◌, ◌++◌, Mem, Perm, map, arith, length, length-perm,
}
use workqueue_modules.Prelude.Int.{
  ℤ, pos, pos_part, neg_part, ◌+ℤ◌, ◌≤ℤ◌, ◌<ℤ◌, wrap64, wrap64_in_range, int64_end,
}
use workqueue_modules.Workqueue.{Time, Task, Handler, add}
use workqueue_modules.Workqueue.Options.{ConsumeOptions, EnqueueOption, new_enqueue_options}
use workqueue_modules.Workqueue.Backoff.{retry_backoff}
use workqueue_modules.Workqueue.Contract.{retry, dead_letter}
use workqueue_modules.Memory.Pending.{PendingItem}
use workqueue_modules.Memory.Store.{new, MemoryWorkQueue, QueueState, at}
use workqueue_modules.Memory.Sound.{IsSound, new-IsSound}
use workqueue_modules.Memory.Calls.{call-IsSound, call, enqueues, claims, completes}
use workqueue_modules.Memory.Delivery.{Delivers, claim-Delivers}
use workqueue_modules.Memory.Pushes.{
  waiting, Gains, enqueue-Gains, complete_ends, acked, buried, retried,
}
use workqueue_modules.Memory.{
  Claimed, claimed, enqueue, claim, complete, invoke_handler, clone_task, worker_turn,
}

-- The task is the one that waits in the queue, and none is dead.
pub record Waits (m : MemoryWorkQueue) (name : String) (t : Task) : Type 0 where
  pub sound : IsSound m
  pub alone : waiting (at m name) ≡ t ∷ []
  pub no_dead : (at m name).dead ≡ []

-- The task as its next delivery hands it to the handler.
abbrev pub attempted : Task → Task
attempted t = record t { attempts = wrap64 (t.attempts +ℤ pos 1) }

one_item :
    (is : List PendingItem) (t : Task)
    → map (λ i. i.task) is ≡ t ∷ []
    → (x : PendingItem) × (is ≡ x ∷ []) × (x.task ≡ t)
one_item [] t h = absurd (ground arith)
one_item (x ∷ []) t h = (x, refl, ground arith)
one_item (x ∷ y ∷ is) t h = absurd (ground arith)

empty_list {ℓ} : {A : Type ℓ} (l : List A) → length l ≡ 0 → l ≡ []
empty_list [] h = refl
empty_list (x ∷ l) h = absurd (omega arith)

IsScalar-set : (n : ℕ) → IsSet (IsScalar n)
IsScalar-set n = prop→set (IsScalar-prop n)

Task-set : IsSet Task
Task-set = hlevel (ℕ_set, IsScalar-set)

Tasks-set : IsSet (List Task)
Tasks-set = hlevel (ℕ_set, IsScalar-set)

item_is : (i x : PendingItem) (rest : List PendingItem) → Perm (i ∷ rest) (x ∷ []) → i.task ≡ x.task
item_is i x rest p =
    Or.elim (Task-set _ _) (mem-cons.0 ((Perm.mem_iff p).0 mem-cons_self)) (ap (λ y. y.task))
      (λ k. absurd (not-mem-nil k))

pub single : (l : List Task) (t : Task) → Perm l (t ∷ []) → l ≡ t ∷ []
single [] t p = absurd (omega (arith, length-perm p))
single (u ∷ []) t p =
    Or.elim (Tasks-set _ _) (mem-cons.0 ((Perm.mem_iff p).0 mem-cons_self)) (ap (λ v. v ∷ []))
      (λ k. absurd (not-mem-nil k))
single (u ∷ v ∷ l) t p = absurd (omega (arith, length-perm p))

-- A claim at a time when the task is due delivers it, and leaves the queue empty.
claim_alone :
    (m : MemoryWorkQueue) (name : String) (t : Task) (now : Time)
    → Waits m name t
    → t.run_at ≤ now
    → ((claim m name now).1 ≡ claimed (attempted t))
      × (waiting (at (claim m name now).0 name) ≡ [])
      × ((at (claim m name now).0 name).dead ≡ [])
claim_alone m name t now w due =
    let (x, only, is_t) = one_item (at m name).pending t w.alone in
    let there : Mem x (at m name).pending = subst (Mem x) (sym only) mem-cons_self in
    let in_time : x.task.run_at ≤ now = subst (λ (u : Task). u.run_at ≤ now) (sym is_t) due in
    let (u, e, d) = claim-Delivers m name now x w.sound there in_time in
    let same = subst (λ l. Perm (d.item ∷ (at (claim m name now).0 name).pending) l) only d.taken in
    let none_left =
      empty_list (at (claim m name now).0 name).pending (omega (arith, length-perm same)) in
    (
      e ∙ ap claimed (d.counted ∙ ap attempted (item_is d.item x _ same ∙ is_t)),
      ap (map (λ i. i.task)) none_left,
      d.dead_kept ∙ w.no_dead,
    )

-- The queue has no task that waits, and these dead ones.
abbrev pub Holds : MemoryWorkQueue → String → List Task → Type 0
Holds m name dead = (waiting (at m name) ≡ []) × ((at m name).dead ≡ dead)

-- A round with a due task is its delivery.
turn_alone :
    (m : MemoryWorkQueue) (name : String) (t : Task) (h : Handler) (o : ConsumeOptions)
    (now later : Time)
    → Waits m name t
    → t.run_at ≤ now
    → (worker_turn m name h o false now later).0
      ≡ complete (claim m name now).0 name (attempted t) (invoke_handler h (attempted t)) o later
unfolding worker_turn clone_task
turn_alone m name t h o now later w due = rw (worker_turn, (claim_alone m name t now w due).0) refl

module _ (m : MemoryWorkQueue) (name : String) (t : Task) (h : Handler) (o : ConsumeOptions)
    (now later : Time) (w : Waits m name t) (due : t.run_at ≤ now) where
  abbrev pub turned : MemoryWorkQueue
  turned = (worker_turn m name h o false now later).0

  abbrev pub after_claim : MemoryWorkQueue
  after_claim = (claim m name now).0

  after_claim-IsSound : IsSound after_claim
  unfolding call
  after_claim-IsSound = call-IsSound m (claims name now) w.sound

  pub round_succeeds : invoke_handler h (attempted t) ≡ none → Holds turned name []
  unfolding complete
  round_succeeds e =
      let (_, empty, no_dead) = claim_alone m name t now w due in
      rw (turn_alone m name t h o now later w due, e) (empty, no_dead)

  -- How a failed round ends: the task waits for its retry, or is dead.
  pub round_fails :
      (message : String)
      → invoke_handler h (attempted t) ≡ some message
      → (((attempted t).attempts ≤ℤ t.max_retries)
          × Waits turned name (retry (attempted t) o later))
        ⊎ ((t.max_retries <ℤ (attempted t).attempts)
            × Holds turned name (dead_letter (attempted t) message later ∷ []))
  unfolding call
  round_fails message e =
      let (_, empty, no_dead) = claim_alone m name t now w due in
      let m1 = after_claim in
      let m2 = complete m1 name (attempted t) (some message) o later in
      let same : turned ≡ m2 =
        turn_alone m name t h o now later w due
        ∙ ap (λ r. complete m1 name (attempted t) r o later) e in
      let sound : IsSound m2 =
        call-IsSound m1 (completes name (attempted t) (some message) o later) after_claim-IsSound in
      elim (complete_ends m1 name (attempted t) (some message) o later after_claim-IsSound) [
        | buried over left ↦ inr (
          over,
          subst (λ x. Holds x name (dead_letter (attempted t) message later ∷ [])) (sym same)
              (
                ap waiting left ∙ empty,
                ap (λ q. q.dead) left
                    ∙ ap (λ l. l ++ dead_letter (attempted t) message later ∷ []) no_dead,
              ),
        )
        | retried within g ↦ inl (
          within,
          subst (λ x. Waits x name (retry (attempted t) o later)) (sym same)
              record {
                sound = sound;
                alone = single _ _ (
                    subst (λ l. Perm (waiting (at m2 name)) (retry (attempted t) o later ∷ l)) empty
                      g.gained);
                no_dead = g.buried ∙ no_dead;
              },
        )
      ]
