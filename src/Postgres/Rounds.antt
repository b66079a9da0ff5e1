-- ===== src/Postgres/Rounds.antt =====
-- postgres_workqueue/workqueue.go: Consume, and a round of worker, as steps of a worker of the pool.
use workqueue_modules.Prelude.{ℕ, String, Bool, true, false, Option, none, some, List}
use workqueue_modules.Workqueue.{Time, Handler}
use workqueue_modules.Workqueue.Options.{ConsumeOption, ConsumeOptions}
use workqueue_modules.Workqueue.Pool.{
  Phase, checking, sleeping, returned, Pool, consume as new_pool, stop as stop_pool,
}
use workqueue_modules.Workqueue.Pool.Trail.{Walks, visited, leaving, delivering, dozing}
use workqueue_modules.Sql.{Json}
use workqueue_modules.Postgres.Model.{TaskRecord}
use workqueue_modules.Postgres.Store.{Postgres}
use workqueue_modules.Postgres.State.{notify}
use workqueue_modules.Postgres.Claim.{Claimed, claimed, waits, broken, claim}
use workqueue_modules.Postgres.{
  Queue, Result, ok, err, not_started, Turn, returns, continues, sleeps, deliver, sleep_turn,
  worker_turn,
}

-- Consume: the subscription, once `ready` has found the handle.
unfoldable pub consume : (S : Postgres) → Queue S → List ConsumeOption → Result Pool
consume S q opts = elim q.db [ none ↦ err not_started | some _ ↦ ok (new_pool opts) ]

-- Stop before its select; `none` is the panic of closing a closed channel.
unfoldable pub stop : Pool → Option Pool
stop p = stop_pool p

-- Where a round leaves the worker.
abbrev pub phase : Turn → Phase
phase returns = returned
phase continues = checking
phase (sleeps wait notify) = sleeping

-- Whether a claim gives a task.
abbrev pub gave : Claimed → Bool
gave (claimed task) = true
gave (waits wait) = false
gave (broken wait) = false

pub worker_turn-Walks :
    (S : Postgres) (j : Json) (q : Queue S) (d : S.table.Db) (name : String) (handler : Handler)
    (o : ConsumeOptions) (stopping : Bool) (locked : TaskRecord → Bool)
    (others : S.table.Db → S.table.Db) (decoding : String) (clock : ℕ → Time)
    → Walks stopping checking
        (visited stopping (gave (claim S q.config locked others d name (clock 0) (clock 1)).1))
        (phase (worker_turn S j q d name handler o stopping locked others decoding clock).1)
unfolding worker_turn sleep_turn
worker_turn-Walks S j q d name handler o true locked others decoding clock =
    leaving (gave (claim S q.config locked others d name (clock 0) (clock 1)).1)
worker_turn-Walks S j q d name handler o false locked others decoding clock =
    let (q', ch) = notify q name in
    go q' ch (claim S q.config locked others d name (clock 0) (clock 1)).0
      (claim S q.config locked others d name (clock 0) (clock 1)).1
  where
    go :
        (q' : Queue S) (ch : ℕ) (d' : S.table.Db) (c : Claimed)
        → Walks false checking (visited false (gave c)) (
            phase
              (elim c as (λ _. Queue S × Turn) [
                | claimed r ↦ (deliver S j q' d' handler r decoding o (clock 2), continues)
                | waits wait ↦ sleep_turn S q' d' name wait ch (clock 2)
                | broken wait ↦ sleep_turn S q' d' name wait ch (clock 2)
              ]).1)
    go q' ch d' (claimed r) = delivering
    go q' ch d' (waits wait) = dozing
    go q' ch d' (broken wait) = dozing
