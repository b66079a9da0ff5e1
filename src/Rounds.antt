-- ===== src/Rounds.antt =====
-- The rounds of worker in memory_workqueue, gorm_workqueue and postgres_workqueue, against the one
-- pool of workers.
mod Tests
use workqueue_modules.Prelude.{ℕ, String, Bool}
use workqueue_modules.Workqueue.{Time, Handler}
use workqueue_modules.Workqueue.Options.{ConsumeOptions}
use workqueue_modules.Workqueue.Pool.{Phase}
use workqueue_modules.Sql.{TaskRecord, Json, Table}
use workqueue_modules.Memory.Store.{MemoryWorkQueue}
use workqueue_modules.Postgres.Store.{Postgres}
use workqueue_modules.Memory
use workqueue_modules.Memory.Rounds as MemoryRounds
use workqueue_modules.Gorm
use workqueue_modules.Gorm.Claim as GormClaim
use workqueue_modules.Postgres.Claim as PostgresClaim
use workqueue_modules.Gorm.Rounds as GormRounds
use workqueue_modules.Postgres as PostgresQueue
use workqueue_modules.Postgres.Rounds as PostgresRounds

-- A round of the worker of a backend, by whether its claim gives a task, made or not, and by where the
-- round leaves the worker.
pub data Round (stopping : Bool) : Bool → Phase → Type 1 where
  memory :
      (m : MemoryWorkQueue) (name : String) (handler : Handler) (o : ConsumeOptions)
      (now later : Time)
      → Round stopping
          (MemoryRounds.gave (Memory.claim m name now).1)
          (MemoryRounds.phase (Memory.worker_turn m name handler o stopping now later).1)
  gorm :
      (T : Table) (j : Json) (q : Gorm.Queue T) (d : T.Db) (name : String) (handler : Handler)
      (o : ConsumeOptions) (others : ℕ → T.Db → T.Db) (decoding : String) (clock : ℕ → Time)
      → Round stopping
          (GormRounds.gave (GormClaim.claim T q.config others d name (clock 0) (clock 1)).1)
          (GormRounds.phase
            (Gorm.worker_turn T j q d name handler o stopping others decoding clock).1)
  postgres :
      (S : Postgres) (j : Json) (q : PostgresQueue.Queue S) (d : S.table.Db) (name : String)
      (handler : Handler) (o : ConsumeOptions) (locked : TaskRecord → Bool)
      (others : S.table.Db → S.table.Db) (decoding : String) (clock : ℕ → Time)
      → Round stopping
          (PostgresRounds.gave
            (PostgresClaim.claim S q.config locked others d name (clock 0) (clock 1)).1)
          (PostgresRounds.phase
            (PostgresQueue.worker_turn S j q d name handler o stopping locked others decoding
              clock).1)
