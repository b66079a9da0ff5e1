-- ===== src/Memory/World/Passes.antt =====
-- Tests of single tasks that every act on the backend of memory_workqueue/workqueue.go keeps.
use mathlib.Core.List.{mem-cons, not-mem-nil, mem-cons_self, mem-cons_of_mem, mem-append}
use mathlib.Core.List.Perm
use mathlib.Core.Logic.Or
use mathlib.Core.Bool.{Bool-set}
use workqueue_modules.Prelude.{
  ℕ, ◌≡◌, sym, ap, subst, ◌∙◌, inl, inr, String, Bool, true, Option, List, [], ◌∷◌, Mem,
  Option-cases,
}
use workqueue_modules.Prelude.Int.{ℤ}
use workqueue_modules.Workqueue.{Time, Task}
use workqueue_modules.Workqueue.Options.{ConsumeOptions}
use workqueue_modules.Memory.Store.{MemoryWorkQueue, at}
use workqueue_modules.Memory.Store.Laws.{queue-queue}
use workqueue_modules.Memory.Sound.{IsSound}
use workqueue_modules.Memory.Calls.{
  call, call-IsSound, enqueues, claims, completes, requeues, deletes, lists,
}
use workqueue_modules.Memory.Delivery.{Delivers}
use workqueue_modules.Workqueue.Contract.{revived, retry}
use workqueue_modules.Memory.DeadLetters.{requeue_dead_task_ends, delete_dead_task_ends}
use workqueue_modules.Memory.Pushes.{enqueue-Gains, Ends, acked, buried, retried, complete_ends}
use workqueue_modules.Memory.World.{World, Act, pick, handed, completed, act, history}
use workqueue_modules.Memory.World as W
use workqueue_modules.Memory.World.Picks.{first_Mem, pick_Mem}
use workqueue_modules.Memory.World.Holds.{Holds, call-Holds, Gains-Holds}
use workqueue_modules.Memory.{
  claim, enqueue, complete, requeue_dead_task, delete_dead_task, list_dead_tasks,
}
use workqueue_modules.Memory.World.Closed.{claim_cases, IsClosed, Admits, AllAdmit, Passes}

module _ (p d f : Task → Bool) (closed : IsClosed p d f) where
  enqueues-Holds :
      (m : MemoryWorkQueue) (name : String) (payload : List ℕ) (opts : List _) (id : String)
      (now : Time)
      → IsSound m
      → Holds p d (at m name)
      → p (enqueue m name payload opts id now).1 ≡ true
      → Holds p d (at (enqueue m name payload opts id now).0 name)
  enqueues-Holds m name payload opts id now v h ok =
      let (gains, _, _, _, _, _, _) = enqueue-Gains m name payload opts id now v in
      Gains-Holds p d m (enqueue m name payload opts id now).0 name
        (enqueue m name payload opts id now).1 (at m name).dead gains h ok h.dead

  -- A delivered task passed the test when it waited, and those that are left waited too.
  Delivers-Holds :
      (m : MemoryWorkQueue) (name : String) (now : Time) (t : Task)
      → Delivers m name now t
      → Holds p d (at m name)
      → Holds p d (at (claim m name now).0 name) × (f t ≡ true)
  Delivers-Holds m name now t v h =
      let moved = Perm.map (λ i. i.task) v.taken in
      (
        record {
          pending =
              λ u there. h.pending u ((Perm.mem_iff moved).0 (mem-cons_of_mem v.item.task there));
          dead = λ u there. h.dead u (subst (Mem u) v.dead_kept there);
        },
        subst (λ u. f u ≡ true) (sym v.counted)
            (closed.counts v.item.task
              (h.pending v.item.task ((Perm.mem_iff moved).0 mem-cons_self))),
      )

  claim-Holds :
      (m : MemoryWorkQueue) (name : String) (now : Time)
      → IsSound m
      → Holds p d (at m name)
      → Holds p d (at (claim m name now).0 name)
  claim-Holds m name now v h = elim (claim_cases m name now v) [
    | inl (same, wait, ch, e) ↦ subst (Holds p d) (sym same) h
    | inr (t, _, delivers) ↦ (Delivers-Holds m name now t delivers h).0
  ]

  handed_passes :
      (m : MemoryWorkQueue) (name : String) (now : Time) (flight : List (String × Task))
      → IsSound m
      → Holds p d (at m name)
      → ((n : String) (t : Task) → Mem (n, t) flight → f t ≡ true)
      → (n : String) (t : Task) → Mem (n, t) (handed name (claim m name now).1 flight)
      → f t ≡ true
  handed_passes m name now flight v h before n t there = elim (claim_cases m name now v) [
    | inl (_, wait, ch, e) ↦ before n t (subst (λ c. Mem (n, t) (handed name c flight)) e there)
    | inr (u, e, delivers) ↦
        Or.elim (Bool-set _ _) (mem-cons.0 (subst (λ c. Mem (n, t) (handed name c flight)) e there))
          (λ same. ap (λ x. f x.1) same ∙ (Delivers-Holds m name now u delivers h).1)
          (λ old. before n t old)
  ]

  complete-Holds :
      (m : MemoryWorkQueue) (name : String) (t : Task) (result : Option String) (o : ConsumeOptions)
      (now : Time)
      → IsSound m
      → f t ≡ true
      → Holds p d (at m name)
      → Holds p d (at (complete m name t result o now) name)
  complete-Holds m name t result o now v ok h =
      ends_holds (complete m name t result o now) result (complete_ends m name t result o now v)
    where
      ends_holds :
          (m' : MemoryWorkQueue) (result : Option String)
          → Ends m m' name t o now result
          → Holds p d (at m' name)
      ends_holds m' _ (acked e) = subst (λ x. Holds p d (at x name)) (sym e) h
      ends_holds m' _ (buried {message} over e) = subst (Holds p d) (sym e) (record {
        pending = h.pending;
        dead = λ u there.
            Or.elim (Bool-set _ _) (mem-append.0 there) (λ old. h.dead u old)
              (λ new.
                Or.elim (Bool-set _ _) (mem-cons.0 new)
                  (λ same. ap d same ∙ closed.buries t message now ok over)
                  (λ no_more. absurd (not-mem-nil no_more)));
      })
      ends_holds m' _ (retried within gains) =
          Gains-Holds p d m m' name (retry t o now) (at m name).dead gains h
            (closed.retries t o now ok within) h.dead

  requeue-Holds :
      (m : MemoryWorkQueue) (name id : String) (now : Time)
      → IsSound m
      → Holds p d (at m name)
      → Holds p d (at (requeue_dead_task m name id now).0 name)
  requeue-Holds m name id now v h = elim (requeue_dead_task_ends m name id now v) [
    | inl (_, _, same) ↦
        subst (λ x. Holds p d (at x name)) (sym same)
          (subst (Holds p d) (sym (ap (λ r. r.1) (queue-queue m name))) h)
    | inr (t, left, _, first, gains) ↦
        let was_dead = first_Mem id (at m name).dead t left first in
        Gains-Holds p d m (requeue_dead_task m name id now).0 name (revived t now) left gains h
          (closed.revives t now (h.dead t was_dead.0)) (λ u there. h.dead u (was_dead.1 u there))
  ]

  delete-Holds :
      (m : MemoryWorkQueue) (name id : String)
      → Holds p d (at m name)
      → Holds p d (at (delete_dead_task m name id).0 name)
  delete-Holds m name id h = elim (delete_dead_task_ends m name id) [
    | inl (_, _, same) ↦
        subst (λ x. Holds p d (at x name)) (sym same)
          (subst (Holds p d) (sym (ap (λ r. r.1) (queue-queue m name))) h)
    | inr (t, left, _, first, same) ↦
        let was_dead = first_Mem id (at m name).dead t left first in
        subst (Holds p d) (sym same)
          (record { pending = h.pending; dead = λ u there. h.dead u (was_dead.1 u there) })
  ]

  list-Holds :
      (m : MemoryWorkQueue) (name : String) (limit offset : ℤ)
      → Holds p d (at m name)
      → Holds p d (at (list_dead_tasks m name limit offset).0 name)
  unfolding list_dead_tasks
  list-Holds m name limit offset h = subst (Holds p d) (sym (ap (λ r. r.1) (queue-queue m name))) h

  pub act-Passes : (w : World) (a : Act) → Passes p d f w → Admits p a → Passes p d f (act w a)
  unfolding act call Admits
  act-Passes w (W.enqueues name payload opts id now) v ok = record {
    sound = call-IsSound w.backend (enqueues name payload opts id now) v.sound;
    queues =
        call-Holds p d w.backend (enqueues name payload opts id now) v.sound v.queues (
          enqueues-Holds w.backend name payload opts id now v.sound (v.queues name) (ok w.backend));
    flight = v.flight;
  }
  act-Passes w (W.claims name now) v ok = record {
    sound = call-IsSound w.backend (claims name now) v.sound;
    queues =
        call-Holds p d w.backend (claims name now) v.sound v.queues
          (claim-Holds w.backend name now v.sound (v.queues name));
    flight = handed_passes w.backend name now w.in_flight v.sound (v.queues name) v.flight;
  }
  act-Passes w (W.completes k result o now) v ok = elim (Option-cases (pick k w.in_flight)) [
    | inl e ↦ subst (λ x. Passes p d f (completed w result o now x)) (sym e) v
    | inr (((name, t), rest), e) ↦
        let (there, others) = pick_Mem k w.in_flight (name, t) rest e in
        subst (λ x. Passes p d f (completed w result o now x)) (sym e)
          (record {
            sound = call-IsSound w.backend (completes name t result o now) v.sound;
            queues = call-Holds p d w.backend (completes name t result o now) v.sound v.queues (
                complete-Holds w.backend name t result o now v.sound (v.flight name t there)
                  (v.queues name));
            flight = λ n u inside. v.flight n u (others (n, u) inside);
          })
  ]
  act-Passes w (W.requeues name id now) v ok = record {
    sound = call-IsSound w.backend (requeues name id now) v.sound;
    queues =
        call-Holds p d w.backend (requeues name id now) v.sound v.queues
          (requeue-Holds w.backend name id now v.sound (v.queues name));
    flight = v.flight;
  }
  act-Passes w (W.deletes name id) v ok = record {
    sound = call-IsSound w.backend (deletes name id) v.sound;
    queues =
        call-Holds p d w.backend (deletes name id) v.sound v.queues
          (delete-Holds w.backend name id (v.queues name));
    flight = v.flight;
  }
  act-Passes w (W.lists name limit offset) v ok = record {
    sound = call-IsSound w.backend (lists name limit offset) v.sound;
    queues =
        call-Holds p d w.backend (lists name limit offset) v.sound v.queues
          (list-Holds w.backend name limit offset (v.queues name));
    flight = v.flight;
  }

  pub history-Passes :
      (w : World) (acts : List Act)
      → Passes p d f w
      → AllAdmit p acts
      → Passes p d f (history w acts)
  unfolding history AllAdmit
  history-Passes w [] v ok = v
  history-Passes w (a ∷ acts) v (ok, later) =
      history-Passes (act w a) acts (act-Passes w a v ok) later
