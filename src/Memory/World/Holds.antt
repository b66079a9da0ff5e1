-- ===== src/Memory/World/Holds.antt =====
-- Properties of single tasks through the calls of memory_workqueue/workqueue.go.
use mathlib.Core.List.{mem-cons, not-mem-nil}
use mathlib.Core.List.Perm
use mathlib.Core.Logic.Or
use mathlib.Core.Bool.{Bool-set}
use workqueue_modules.Prelude.{
  ◌≡◌, sym, ap, subst, ◌∙◌, inl, inr, String, str_eq, eq_iff, Bool, true, some, List, Mem, arith,
  lookup, Option-cases, Bool-cases,
}
use workqueue_modules.Workqueue.{Task}
use workqueue_modules.Memory.Store.{QueueState, MemoryWorkQueue, at}
use workqueue_modules.Memory.Store.Laws.{queue_hit, queue_miss, fresh}
use workqueue_modules.Memory.Sound.{IsSound}
use workqueue_modules.Memory.Calls.{Call, call, name_of}
use workqueue_modules.Memory.Calls.Isolation.{call_isolated}
use workqueue_modules.Memory.Pushes.{waiting, Gains}

-- Every waiting task of a queue passes one test, and every dead letter another.
pub record Holds (p d : Task → Bool) (q : QueueState) : Type 0 where
  pub pending : (t : Task) → Mem t (waiting q) → p t ≡ true
  pub dead : (t : Task) → Mem t q.dead → d t ≡ true

module _ (p d : Task → Bool) where
  fresh-Holds : (m : MemoryWorkQueue) → Holds p d (fresh m)
  fresh-Holds m = record {
    pending = λ t there. absurd (not-mem-nil there);
    dead = λ t there. absurd (not-mem-nil there);
  }

  at-some :
      (m : MemoryWorkQueue) (n : String) (q : QueueState) → lookup n m.queues ≡ some q → at m n ≡ q
  at-some m n q e = ap (λ r. r.1) (queue_hit m n q e)

  -- A queue that no write has touched.
  untouched :
      (m m' : MemoryWorkQueue) (n : String)
      → lookup n m'.queues ≡ lookup n m.queues
      → Holds p d (at m n)
      → Holds p d (at m' n)
  untouched m m' n e h = elim (Option-cases (lookup n m.queues)) [
    | inl none_there ↦
        subst (Holds p d) (sym (ap (λ r. r.1) (queue_miss m' n (e ∙ none_there)))) (fresh-Holds m')
    | inr (q, there) ↦ subst (Holds p d) (at-some m n q there ∙ sym (at-some m' n q (e ∙ there))) h
  ]

  -- A call is judged by the queue that it names.
  pub call-Holds :
      (m : MemoryWorkQueue) (c : Call)
      → IsSound m
      → ((n : String) → Holds p d (at m n))
      → Holds p d (at (call m c) (name_of c))
      → (n : String) → Holds p d (at (call m c) n)
  call-Holds m c v before here n = elim (Bool-cases (str_eq (name_of c) n)) [
    | inl t ↦ subst (λ k. Holds p d (at (call m c) k)) ((eq_iff (name_of c) n).0 t) here
    | inr f ↦
        untouched m (call m c) n
          (call_isolated m c n v
            (λ same. absurd (let t = (eq_iff (name_of c) n).1 same in ground (arith, t, f)))).0
          (before n)
  ]

  pub Gains-Holds :
      (m m' : MemoryWorkQueue) (name : String) (t : Task) (dead' : List Task)
      → Gains m m' name t dead'
      → Holds p d (at m name)
      → p t ≡ true
      → ((u : Task) → Mem u dead' → d u ≡ true)
      → Holds p d (at m' name)
  Gains-Holds m m' name t dead' g h ok dead_ok = record {
    pending = λ u there.
        Or.elim (Bool-set _ _) (mem-cons.0 ((Perm.mem_iff g.gained).0 there))
          (λ same. ap p same ∙ ok) (λ old. h.pending u old);
    dead = λ u there. dead_ok u (subst (Mem u) g.buried there);
  }
