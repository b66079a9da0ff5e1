-- ===== src/Memory/DeadLetters.antt =====
-- Dead letters: what RequeueDeadTask, DeleteDeadTask and ListDeadTasks do with them.
use workqueue_modules.Prelude.{
  ◌≡◌, ◌⊎◌, inl, inr, sym, ap, subst, refl, ◌∙◌, String, true, false, none, some, List, [], ◌∷◌,
  str_eq, eq_iff, Bool-cases,
}
use workqueue_modules.Workqueue.{Time, Task, err_task_not_found}
use workqueue_modules.Workqueue.Contract.{Lacks, IsFirst, revived}
use workqueue_modules.Memory.Store.{MemoryWorkQueue, at, queue}
use workqueue_modules.Memory.Store.Laws.{queue-put_queue}
use workqueue_modules.Memory.Sound.{IsSound}
use workqueue_modules.Memory.Cases.{requeue_miss, requeue_hit, delete_miss, delete_hit}
use workqueue_modules.Memory.Pushes.{Gains, push_and_wake-Gains}
use workqueue_modules.Memory.{take_dead, kept_before, requeue_dead_task, delete_dead_task}

take_dead_head :
    (id : String) (u : Task) (dead : List Task)
    → str_eq u.id id ≡ true
    → take_dead id (u ∷ dead) ≡ some (u, dead)
unfolding take_dead
take_dead_head id u dead hit = rw hit

take_dead_tail :
    (id : String) (u : Task) (dead : List Task)
    → str_eq u.id id ≡ false
    → take_dead id (u ∷ dead) ≡ kept_before u (take_dead id dead)
unfolding take_dead
take_dead_tail id u dead miss = rw miss

-- The search finds the first task with the identifier, or there is none.
pub take_dead_cases :
    (id : String) (dead : List Task)
    → ((take_dead id dead ≡ none) × Lacks id dead)
      ⊎ ((t : Task) × (left : List Task) × (take_dead id dead ≡ some (t, left))
          × IsFirst id dead t left)
unfolding take_dead
take_dead_cases id [] = inl (refl, tt)
take_dead_cases id (u ∷ dead) = elim (Bool-cases (str_eq u.id id)) [
  | inl hit ↦ inr (
    u,
    dead,
    take_dead_head id u dead hit,
    record {
      before = [];
      after = dead;
      whole = refl;
      rest = refl;
      named = (eq_iff u.id id).0 hit;
      first = tt;
    },
  )
  | inr miss ↦
      let step = take_dead_tail id u dead miss in
      elim (take_dead_cases id dead) [
        | inl (e, lacks) ↦
            inl (step ∙ ap (kept_before u) e, (λ p. cc ((eq_iff u.id id).1 p), lacks))
        | inr (t, left, e, f) ↦ inr (
          t,
          u ∷ left,
          step ∙ ap (kept_before u) e,
          record {
            before = u ∷ f.before;
            after = f.after;
            whole = ap (◌∷◌ u) f.whole;
            rest = ap (◌∷◌ u) f.rest;
            named = f.named;
            first = (λ p. cc ((eq_iff u.id id).1 p), f.first);
          },
        )
      ]
]

-- RequeueDeadTask answers ErrTaskNotFound exactly when no dead letter of the queue has the
-- identifier, and then changes nothing but that the queue is made if it was not there. Otherwise it
-- takes the first such task out of the dead letters, and puts it back with no attempt, error or time
-- of death, due now.
pub requeue_dead_task_ends :
    (m : MemoryWorkQueue) (name id : String) (now : Time)
    → IsSound m
    → let (m', result) = requeue_dead_task m name id now in
      ((result ≡ some err_task_not_found) × Lacks id (at m name).dead × (m' ≡ (queue m name).0))
      ⊎ ((t : Task) × (left : List Task) × (result ≡ none)
          × IsFirst id (at m name).dead t left
          × Gains m m' name (revived t now) left)
requeue_dead_task_ends m name id now v = elim (take_dead_cases id (at m name).dead) [
  | inl (e, lacks) ↦
      let r = requeue_miss m name id now e in inl (ap (λ p. p.1) r, lacks, ap (λ p. p.0) r)
  | inr (t, left, e, f) ↦
      let r = requeue_hit m name id now t left e in
      inr (
        t,
        left,
        ap (λ p. p.1) r,
        f,
        subst (λ p. Gains m p.0 name (revived t now) left) (sym r)
            (push_and_wake-Gains m name (record (at m name) { dead = left }) _ v refl),
      )
]

-- DeleteDeadTask answers ErrTaskNotFound exactly when no dead letter of the queue has the
-- identifier, and then changes nothing but that the queue is made if it was not there. Otherwise it
-- takes the first such task out of the dead letters, and leaves the pending tasks.
pub delete_dead_task_ends :
    (m : MemoryWorkQueue) (name id : String)
    → let (m', result) = delete_dead_task m name id in
      ((result ≡ some err_task_not_found) × Lacks id (at m name).dead × (m' ≡ (queue m name).0))
      ⊎ ((t : Task) × (left : List Task) × (result ≡ none)
          × IsFirst id (at m name).dead t left
          × (at m' name ≡ record (at m name) { dead = left }))
delete_dead_task_ends m name id = elim (take_dead_cases id (at m name).dead) [
  | inl (e, lacks) ↦
      let r = delete_miss m name id e in inl (ap (λ p. p.1) r, lacks, ap (λ p. p.0) r)
  | inr (t, left, e, f) ↦
      let r = delete_hit m name id t left e in
      inr (
        t,
        left,
        ap (λ p. p.1) r,
        f,
        subst (λ p. at p.0 name ≡ record (at m name) { dead = left }) (sym r)
            (ap (λ p. p.1) (queue-put_queue _ name _)),
      )
]
