-- ===== src/Memory/World/Count.antt =====
-- memory_workqueue/workqueue.go: how many tasks with an identifier a queue holds, before and after its
-- calls.
use mathlib.Core.List.Perm
use mathlib.Core.List.{Permᴰ}
use mathlib.Core.Logic.{∥∥₁_elim}
use native.Mathlib.Nat.{ℕ_set}
use workqueue_modules.Prelude.{
  ℕ, ◌+◌, ◌≡◌, ◌≢◌, refl, ap, ◌∙◌, inl, inr, String, str_eq, Bool, true, false, Option, none, some,
  List, [], ◌∷◌, ◌++◌, Perm, arith, lookup, Option-cases,
}
use workqueue_modules.Prelude.Int.{ℤ}
use workqueue_modules.Workqueue.{Time, Task, Error}
use workqueue_modules.Workqueue.Options.{ConsumeOptions, EnqueueOption}
use workqueue_modules.Memory.Store.{MemoryWorkQueue, at}
use workqueue_modules.Memory.Store.Laws.{queue_hit, queue_miss, queue-queue}
use workqueue_modules.Memory.Sound.{IsSound}
use workqueue_modules.Memory.Calls.{Call, call, name_of}
use workqueue_modules.Memory.Calls.Isolation.{call_isolated}
use workqueue_modules.Memory.Pushes.{waiting, Gains, Ends, buried, retried, enqueue-Gains}
use workqueue_modules.Memory.Delivery.{Delivers}
use workqueue_modules.Workqueue.Contract.{IsFirst}
use workqueue_modules.Memory.DeadLetters.{requeue_dead_task_ends, delete_dead_task_ends}
use workqueue_modules.Memory.{claim, enqueue, requeue_dead_task, delete_dead_task, list_dead_tasks}

abbrev pub one_if : Bool → ℕ
one_if true = 1
one_if false = 0

unfoldable pub cnt : String → List Task → ℕ
cnt id [] = 0
cnt id (t ∷ l) = one_if (str_eq t.id id) + cnt id l

pub cnt-append : (id : String) (l r : List Task) → cnt id (l ++ r) ≡ cnt id l + cnt id r
unfolding cnt
cnt-append id [] r = omega arith
cnt-append id (t ∷ l) r = omega (arith, cnt-append id l r)

cnt-Permᴰ : (id : String) {l r : List Task} → Permᴰ l r → cnt id l ≡ cnt id r
unfolding cnt
cnt-Permᴰ id Permᴰ.nil = refl
cnt-Permᴰ id (Permᴰ.swap x y) =
    omega (arith, ap (λ t. one_if (str_eq t.id id)) x, ap (λ t. one_if (str_eq t.id id)) y)
cnt-Permᴰ id (Permᴰ.cons x tails) =
    omega (arith, cnt-Permᴰ id tails, ap (λ t. one_if (str_eq t.id id)) x)
cnt-Permᴰ id (Permᴰ.trans first second) = omega (arith, cnt-Permᴰ id first, cnt-Permᴰ id second)

pub cnt-perm : (id : String) {l r : List Task} → Perm l r → cnt id l ≡ cnt id r
cnt-perm id p = ∥∥₁_elim p (ℕ_set _ _) (cnt-Permᴰ id)

-- The tasks with the identifier that wait in a queue or are dead there.
abbrev pub held : MemoryWorkQueue → String → String → ℕ
held m n id = cnt id (waiting (at m n)) + cnt id (at m n).dead

held_untouched :
    (m m' : MemoryWorkQueue) (n id : String)
    → lookup n m'.queues ≡ lookup n m.queues
    → held m' n id ≡ held m n id
unfolding cnt
held_untouched m m' n id e = elim (Option-cases (lookup n m.queues)) [
  | inl gone ↦
      let a = ap (λ r. r.1) (queue_miss m' n (e ∙ gone)) in
      let b = ap (λ r. r.1) (queue_miss m n gone) in
      omega (
        arith,
        ap (λ q. cnt id (waiting q)) a,
        ap (λ q. cnt id q.dead) a,
        ap (λ q. cnt id (waiting q)) b,
        ap (λ q. cnt id q.dead) b,
      )
  | inr (q, there) ↦
      let a = ap (λ r. r.1) (queue_hit m' n q (e ∙ there)) in
      let b = ap (λ r. r.1) (queue_hit m n q there) in
      omega (
        arith,
        ap (λ q. cnt id (waiting q)) a,
        ap (λ q. cnt id q.dead) a,
        ap (λ q. cnt id (waiting q)) b,
        ap (λ q. cnt id q.dead) b,
      )
]

pub held_elsewhere :
    (m : MemoryWorkQueue) (c : Call) (n id : String)
    → IsSound m
    → name_of c ≢ n
    → held (call m c) n id ≡ held m n id
held_elsewhere m c n id v apart = held_untouched m (call m c) n id (call_isolated m c n v apart).0

-- A deletion without an error takes one task with the sought identifier.
abbrev pub taken : String → Option Error → String → ℕ
taken id none sought = one_if (str_eq sought id)
taken id (some e) sought = 0

module _ (m : MemoryWorkQueue) (name id : String) where
  Gains-count :
      (m' : MemoryWorkQueue) (t : Task) (dead' : List Task)
      → Gains m m' name t dead'
      → held m' name id ≡ one_if (str_eq t.id id) + cnt id (waiting (at m name)) + cnt id dead'
  unfolding cnt
  Gains-count m' t dead' g = omega (arith, cnt-perm id g.gained, ap (cnt id) g.buried)

  pub held-enqueue :
      (payload : List ℕ) (opts : List EnqueueOption) (new_id : String) (now : Time)
      → IsSound m
      → held (enqueue m name payload opts new_id now).0 name id
        ≡ held m name id + one_if (str_eq new_id id)
  held-enqueue payload opts new_id now v =
      let (gains, named, _, _, _, _, _) = enqueue-Gains m name payload opts new_id now v in
      let counted =
        Gains-count (enqueue m name payload opts new_id now).0
          (enqueue m name payload opts new_id now).1 (at m name).dead gains in
      omega (arith, counted, ap (λ i. one_if (str_eq i id)) named)

  pub held-Delivers :
      (now : Time) (t : Task)
      → Delivers m name now t
      → held (claim m name now).0 name id + one_if (str_eq t.id id) ≡ held m name id
  unfolding cnt
  held-Delivers now t v = omega (
    arith,
    cnt-perm id (Perm.map (λ i. i.task) v.taken),
    ap (cnt id) v.dead_kept,
    ap (λ u. one_if (str_eq u.id id)) v.counted,
  )

  pub ends_held :
      (m' : MemoryWorkQueue) (t : Task) (o : ConsumeOptions) (now : Time) (message : String)
      → Ends m m' name t o now (some message)
      → held m' name id ≡ held m name id + one_if (str_eq t.id id)
  unfolding cnt
  ends_held m' t o now _ (buried over e) = omega (
    arith,
    ap (λ q. cnt id (waiting q)) e,
    ap (λ q. cnt id q.dead) e,
    cnt-append id (at m name).dead (record t { last_error = _; died_at = now } ∷ []),
  )
  ends_held m' t o now _ (retried within gains) =
      omega (arith, Gains-count m' _ (at m name).dead gains)

  first_cnt :
      (sought : String) (dead : List Task) (t : Task) (left : List Task)
      → IsFirst sought dead t left
      → cnt id dead ≡ one_if (str_eq sought id) + cnt id left
  unfolding cnt
  first_cnt sought dead t left f = omega (
    arith,
    ap (cnt id) f.whole,
    ap (cnt id) f.rest,
    cnt-append id f.before (t ∷ f.after),
    cnt-append id f.before f.after,
    ap (λ i. one_if (str_eq i id)) f.named,
  )

  pub held-requeue_dead_task :
      (sought : String) (now : Time)
      → IsSound m
      → held (requeue_dead_task m name sought now).0 name id ≡ held m name id
  held-requeue_dead_task sought now v = elim (requeue_dead_task_ends m name sought now v) [
    | inl (_, _, same) ↦
        ap (λ x. held x name id) same
        ∙ ap (λ q. cnt id (waiting q) + cnt id q.dead) (ap (λ r. r.1) (queue-queue m name))
    | inr (t, left, _, first, gains) ↦ omega (
      arith,
      Gains-count (requeue_dead_task m name sought now).0 _ left gains,
      first_cnt sought (at m name).dead t left first,
      ap (λ i. one_if (str_eq i id)) first.named,
    )
  ]

  -- What a deletion takes away, by its result.
  pub held-delete_dead_task :
      (sought : String)
      → held (delete_dead_task m name sought).0 name id
          + taken id (delete_dead_task m name sought).1 sought
        ≡ held m name id
  held-delete_dead_task sought = elim (delete_dead_task_ends m name sought) [
    | inl (failed, _, same) ↦ omega (
      arith,
      ap (λ x. held x name id) same
          ∙ ap (λ q. cnt id (waiting q) + cnt id q.dead) (ap (λ r. r.1) (queue-queue m name)),
      ap (λ r. taken id r sought) failed,
    )
    | inr (t, left, deleted, first, same) ↦ omega (
      arith,
      ap (λ q. cnt id (waiting q)) same,
      ap (λ q. cnt id q.dead) same,
      first_cnt sought (at m name).dead t left first,
      ap (λ r. taken id r sought) deleted,
    )
  ]

  -- ListDeadTasks changes nothing.
  pub held-list_dead_tasks :
      (limit offset : ℤ) → held (list_dead_tasks m name limit offset).0 name id ≡ held m name id
  unfolding list_dead_tasks
  held-list_dead_tasks limit offset =
      ap (λ q. cnt id (waiting q) + cnt id q.dead) (ap (λ r. r.1) (queue-queue m name))
