-- ===== src/Gorm/Rounds.antt =====
-- gorm_workqueue/workqueue.go: Consume, and a round of worker, as steps of a worker of the pool.
use workqueue_modules.Prelude.{ℕ, String, Bool, true, false, Option, none, some, List}
use workqueue_modules.Workqueue.{Time, Handler}
use workqueue_modules.Workqueue.Options.{ConsumeOption, ConsumeOptions}
use workqueue_modules.Workqueue.Pool.{
  Phase, checking, sleeping, returned, Pool, consume as new_pool, stop as stop_pool,
}
use workqueue_modules.Workqueue.Pool.Trail.{Walks, visited, leaving, delivering, dozing}
use workqueue_modules.Sql.{Json, Table}
use workqueue_modules.Gorm.State.{notify}
use workqueue_modules.Gorm.Claim.{Claimed, claimed, waits, broken, claim}
use workqueue_modules.Gorm.{
  Queue, Result, ok, err, not_started, Turn, returns, continues, sleeps, deliver, sleep_turn,
  worker_turn,
}

-- Consume: the subscription, once `ready` has found the handle.
unfoldable pub consume : (T : Table) → Queue T → List ConsumeOption → Result Pool
consume T q opts = elim q.db [ none ↦ err not_started | some _ ↦ ok (new_pool opts) ]

-- Stop before its select; `none` is the panic of closing a closed channel.
unfoldable pub stop : Pool → Option Pool
stop p = stop_pool p

-- Where a round leaves the worker.
abbrev pub phase : Turn → Phase
phase returns = returned
phase continues = checking
phase (sleeps wait notify) = sleeping

-- Whether a claim gives a task.
abbrev pub gave : Claimed → Bool
gave (claimed task) = true
gave (waits wait) = false
gave (broken wait) = false

pub worker_turn-Walks :
    (T : Table) (j : Json) (q : Queue T) (d : T.Db) (name : String) (handler : Handler)
    (o : ConsumeOptions) (stopping : Bool) (others : ℕ → T.Db → T.Db) (decoding : String)
    (clock : ℕ → Time)
    → Walks stopping checking
        (visited stopping (gave (claim T q.config others d name (clock 0) (clock 1)).1))
        (phase (worker_turn T j q d name handler o stopping others decoding clock).1)
unfolding worker_turn sleep_turn
worker_turn-Walks T j q d name handler o true others decoding clock =
    leaving (gave (claim T q.config others d name (clock 0) (clock 1)).1)
worker_turn-Walks T j q d name handler o false others decoding clock =
    let (q', ch) = notify q name in
    go q' ch (claim T q.config others d name (clock 0) (clock 1)).0
      (claim T q.config others d name (clock 0) (clock 1)).1
  where
    go :
        (q' : Queue T) (ch : ℕ) (d' : T.Db) (c : Claimed)
        → Walks false checking (visited false (gave c)) (
            phase
              (elim c as (λ _. Queue T × Turn) [
                | claimed r ↦ (deliver T j q' d' handler r decoding o (clock 2), continues)
                | waits wait ↦ sleep_turn T q' d' name wait ch (clock 2)
                | broken wait ↦ sleep_turn T q' d' name wait ch (clock 2)
              ]).1)
    go q' ch d' (claimed r) = delivering
    go q' ch d' (waits wait) = dozing
    go q' ch d' (broken wait) = dozing
