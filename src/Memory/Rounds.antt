-- ===== src/Memory/Rounds.antt =====
-- memory_workqueue/workqueue.go: a round of worker, as steps of a worker of the pool.
use workqueue_modules.Prelude.{String, Bool, true, false}
use workqueue_modules.Workqueue.{Time, Handler}
use workqueue_modules.Workqueue.Options.{ConsumeOptions}
use workqueue_modules.Workqueue.Pool.{Phase, checking, sleeping, returned}
use workqueue_modules.Workqueue.Pool.Trail.{Walks, visited, leaving, delivering, dozing}
use workqueue_modules.Memory.Store.{MemoryWorkQueue}
use workqueue_modules.Memory.{
  Turn, returns, continues, sleeps, Claimed, claimed, waits, claim, clone_task, invoke_handler,
  complete, worker_turn,
}

-- Where a round leaves the worker.
abbrev pub phase : Turn → Phase
phase returns = returned
phase continues = checking
phase (sleeps wait notify) = sleeping

-- Whether a claim gives a task.
abbrev pub gave : Claimed → Bool
gave (claimed task) = true
gave (waits wait notify) = false

pub worker_turn-Walks :
    (m : MemoryWorkQueue) (name : String) (handler : Handler) (o : ConsumeOptions) (stopping : Bool)
    (now later : Time)
    → Walks stopping checking
        (visited stopping (gave (claim m name now).1))
        (phase (worker_turn m name handler o stopping now later).1)
unfolding worker_turn
worker_turn-Walks m name handler o true now later = leaving (gave (claim m name now).1)
worker_turn-Walks m name handler o false now later = go (claim m name now).0 (claim m name now).1
  where
    go :
        (m' : MemoryWorkQueue) (x : Claimed)
        → Walks false checking (visited false (gave x)) (
            phase
              (elim x as (λ _. MemoryWorkQueue × Turn) [
                | claimed task ↦ (
                  complete m' name task (invoke_handler handler (clone_task task)) o later,
                  continues,
                )
                | waits wait notify ↦ (m', sleeps wait notify)
              ]).1)
    go m' (claimed task) = delivering
    go m' (waits wait notify) = dozing
