-- ===== src/Memory/World/Conservation.antt =====
-- memory_workqueue/workqueue.go: no task is lost or doubled between a queue and its workers.
use workqueue_modules.Prelude.{
  if_intro, lookup, ℕ, ◌+◌, ◌≡◌, ◌≢◌, refl, ap, subst, inl, inr, String, str_eq, eq_iff, Option,
  none, some, List, [], ◌∷◌, arith, Bool-cases, if◌then◌else◌,
}
use workqueue_modules.Workqueue.{Time, Task}
use workqueue_modules.Workqueue.Options.{ConsumeOptions}
use workqueue_modules.Memory.Store.{new, queue}
use workqueue_modules.Memory.Sound.{IsSound, new-IsSound}
use workqueue_modules.Memory.Calls.{
  call, call-IsSound, enqueues, claims, completes, requeues, deletes, lists,
}
use workqueue_modules.Memory.Pushes.{waiting, complete_ends}
use workqueue_modules.Memory.World as W
use workqueue_modules.Memory.World.{World, Act, pick, handed, completed, act, history, start}
use workqueue_modules.Memory.World.Count.{
  cnt, held, held_elsewhere, held-enqueue, held-Delivers, ends_held, held-requeue_dead_task,
  held-delete_dead_task, held-list_dead_tasks,
}
use workqueue_modules.Memory.World.Closed.{claim_cases}
use workqueue_modules.Memory.{claim, complete, requeue_dead_task, list_dead_tasks}
use workqueue_modules.Memory.World.Ledger.{
  hit, flown, flown-pick, present, gained, finished, lost, all_gained, all_lost,
}

-- What holds of the queue that a call names, and of the others.
either_queue : (P : String → Type 0) (name n : String) → P name → (name ≢ n → P n) → P n
either_queue P name n here apart = elim (Bool-cases (str_eq name n)) [
  | inl t ↦ subst P ((eq_iff name n).0 t) here
  | inr f ↦ apart (λ e. absurd (let t = (eq_iff name n).1 e in ground (arith, t, f)))
]

-- An amount that counts for one queue only.
split :
    (P : String → ℕ → Type 0) (name n : String) (x : ℕ)
    → P name x
    → (name ≢ n → P n 0)
    → P n (if str_eq name n then x else 0)
split P name n x here apart =
    if_intro (P n) (str_eq name n) (λ t. subst (λ k. P k x) ((eq_iff name n).0 t) here)
      (λ f. apart (λ e. absurd (let t = (eq_iff name n).1 e in ground (arith, t, f))))

module _ (w : World) (v : IsSound w.backend) (id : String) where
  claim_conserves :
      (name : String) (now : Time) (n : String)
      → present (act w (W.claims name now)) n id ≡ present w n id
  unfolding act flown call
  claim_conserves name now n = elim (claim_cases w.backend name now v) [
    | inl (same, wait, ch, e) ↦
        let kept : held (claim w.backend name now).0 n id ≡ held w.backend n id =
          either_queue (λ k. held (claim w.backend name now).0 k id ≡ held w.backend k id) name n
            (ap (λ q. cnt id (waiting q) + cnt id q.dead) same)
            (λ apart. held_elsewhere w.backend (claims name now) n id v apart) in
        omega (arith, kept, ap (λ c. flown n id (handed name c w.in_flight)) e)
    | inr (t, e, delivers) ↦
        let moved : held (claim w.backend name now).0 n id + hit n id (name, t)
            ≡ held w.backend n id =
          split (λ k x. held (claim w.backend name now).0 k id + x ≡ held w.backend k id) name n _
            (held-Delivers w.backend name id now t delivers)
            (λ apart. omega (arith, held_elsewhere w.backend (claims name now) n id v apart)) in
        omega (arith, moved, ap (λ c. flown n id (handed name c w.in_flight)) e)
  ]

  completed_conserves :
      (k : ℕ) (result : Option String) (o : ConsumeOptions) (now : Time) (n : String)
      (picked : Option ((String × Task) × List (String × Task)))
      → pick k w.in_flight ≡ picked
      → present (completed w result o now picked) n id + finished n id result picked
        ≡ present w n id
  unfolding complete call
  completed_conserves k none o now n none e = omega arith
  completed_conserves k (some message) o now n none e = omega arith
  completed_conserves k none o now n (some ((name, t), rest)) e =
      omega (arith, flown-pick n id k w.in_flight (name, t) rest e)
  completed_conserves k (some message) o now n (some ((name, t), rest)) e =
      let back : held (complete w.backend name t (some message) o now) n id
          ≡ held w.backend n id + hit n id (name, t) =
        split
          (λ j x.
            held (complete w.backend name t (some message) o now) j id ≡ held w.backend j id + x)
          name n _
          (ends_held w.backend name id _ t o now message
            (complete_ends w.backend name t (some message) o now v))
          (λ apart. omega (
            arith,
            held_elsewhere w.backend (completes name t (some message) o now) n id v apart,
          )) in
      omega (arith, back, flown-pick n id k w.in_flight (name, t) rest e)

  -- One act.
  act_conserves :
      (a : Act) (n : String)
      → present (act w a) n id + lost w a n id ≡ present w n id + gained a n id
  unfolding act lost gained call
  act_conserves (W.enqueues name payload opts new_id now) n =
      split
        (λ k x.
          present (act w (W.enqueues name payload opts new_id now)) k id + 0 ≡ present w k id + x)
        name n _ (omega (arith, held-enqueue w.backend name id payload opts new_id now v))
        (λ apart.
          omega
            (arith, held_elsewhere w.backend (enqueues name payload opts new_id now) n id v apart))
  act_conserves (W.claims name now) n = omega (arith, claim_conserves name now n)
  act_conserves (W.completes k result o now) n =
      omega (arith, completed_conserves k result o now n (pick k w.in_flight) refl)
  act_conserves (W.requeues name sought now) n =
      let kept : held (requeue_dead_task w.backend name sought now).0 n id ≡ held w.backend n id =
        either_queue
          (λ k. held (requeue_dead_task w.backend name sought now).0 k id ≡ held w.backend k id)
          name n (held-requeue_dead_task w.backend name id sought now v)
          (λ apart. held_elsewhere w.backend (requeues name sought now) n id v apart) in
      omega (arith, kept)
  act_conserves (W.deletes name sought) n =
      split (λ k x. present (act w (W.deletes name sought)) k id + x ≡ present w k id + 0) name n _
        (omega (arith, held-delete_dead_task w.backend name id sought))
        (λ apart. omega (arith, held_elsewhere w.backend (deletes name sought) n id v apart))
  act_conserves (W.lists name limit offset) n =
      let kept : held (list_dead_tasks w.backend name limit offset).0 n id ≡ held w.backend n id =
        either_queue
          (λ k. held (list_dead_tasks w.backend name limit offset).0 k id ≡ held w.backend k id)
          name n (held-list_dead_tasks w.backend name id limit offset)
          (λ apart. held_elsewhere w.backend (lists name limit offset) n id v apart) in
      omega (arith, kept)

completed-IsSound :
    (w : World) (result : Option String) (o : ConsumeOptions) (now : Time)
    (picked : Option ((String × Task) × List (String × Task)))
    → IsSound w.backend
    → IsSound (completed w result o now picked).backend
unfolding call
completed-IsSound w result o now none v = v
completed-IsSound w result o now (some ((name, t), rest)) v =
    call-IsSound w.backend (completes name t result o now) v

act-IsSound : (w : World) (a : Act) → IsSound w.backend → IsSound (act w a).backend
unfolding act call
act-IsSound w (W.enqueues name payload opts new_id now) v =
    call-IsSound w.backend (enqueues name payload opts new_id now) v
act-IsSound w (W.claims name now) v = call-IsSound w.backend (claims name now) v
act-IsSound w (W.completes k result o now) v =
    completed-IsSound w result o now (pick k w.in_flight) v
act-IsSound w (W.requeues name sought now) v = call-IsSound w.backend (requeues name sought now) v
act-IsSound w (W.deletes name sought) v = call-IsSound w.backend (deletes name sought) v
act-IsSound w (W.lists name limit offset) v = call-IsSound w.backend (lists name limit offset) v

history_balance :
    (w : World) (acts : List Act) (n id : String)
    → IsSound w.backend
    → present (history w acts) n id + all_lost w acts n id ≡ present w n id + all_gained acts n id
unfolding history all_lost all_gained
history_balance w [] n id v = refl
history_balance w (a ∷ acts) n id v =
    omega (arith, history_balance (act w a) acts n id (act-IsSound w a v), act_conserves w v id a n)

-- No task is lost or doubled in any history of a new backend with its workers, whatever calls are
-- interleaved: for every queue and identifier, the tasks that wait, are dead or have been given to a
-- handler, and those that the history ended, are together as many as it enqueued. A task is ended
-- only by a completion without an error, or by a deletion that returns no error.
pub history_conserves :
    (acts : List Act) (n id : String)
    → present (history start acts) n id + all_lost start acts n id ≡ all_gained acts n id
unfolding new queue lookup cnt flown
history_conserves acts n id = omega (arith, history_balance start acts n id new-IsSound)
