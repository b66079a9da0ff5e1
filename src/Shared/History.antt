-- ===== src/Shared/History.antt =====
-- Histories of one table that processes of gorm_workqueue and of postgres_workqueue share. A process
-- runs on the table with the state that it has in memory, whatever that is.
use workqueue_modules.Prelude.{Option, none, some, List, [], ◌∷◌}
use workqueue_modules.Sql.{TaskRecord, Json}
use workqueue_modules.Sql.Keys.{IsKeyed}
use workqueue_modules.Gorm.State.{GormWorkQueue}
use workqueue_modules.Gorm.Calls
use workqueue_modules.Postgres.Store.{Postgres}
use workqueue_modules.Postgres.State.{PostgresWorkQueue}
use workqueue_modules.Postgres.Calls as PostgresCalls
use workqueue_modules.Shared.Protocol.{Act, Step, Step-IsKeyed}
use workqueue_modules.Shared.FromGorm
use workqueue_modules.Shared.FromPostgres

-- A call of a process of one backend or the other.
pub data Move (D : Type 0) : Type 0 where
  by_gorm : GormWorkQueue D → Calls.Call → Move D
  by_postgres : PostgresWorkQueue D → PostgresCalls.Call → Move D

abbrev pub act_of : {D : Type 0} → Move D → Act
act_of (by_gorm q c) = FromGorm.act_of c
act_of (by_postgres q c) = FromPostgres.act_of c

abbrev or_else : {D : Type 0} → Option D → D → D
or_else none d = d
or_else (some d') d = d'

module _ (S : Postgres) (j : Json) where
  open S use {table}

  -- The process that moves has its handle.
  unfoldable pub move : table.Db → Move table.Db → table.Db
  move d (by_gorm q c) = or_else (Calls.call table j (record q { db = some d }) c).db d
  move d (by_postgres q c) = or_else (PostgresCalls.call S j (record q { db = some d }) c).db d

  unfoldable pub run : table.Db → List (Move table.Db) → table.Db
  run d [] = d
  run d (m ∷ ms) = run (move d m) ms

  pub move-Step :
      (d : table.Db) (m : Move table.Db)
      → IsKeyed (table.rows d)
      → Step (act_of m) (table.rows d) (table.rows (move d m))
  unfolding move
  move-Step d (by_gorm q c) keyed =
      let (d', e, step) = FromGorm.call-Steps table j q d c in rw e step
  move-Step d (by_postgres q c) keyed =
      let (d', e, step) = FromPostgres.call-Steps S j q d c keyed in rw e step

  pub move-IsKeyed :
      (d : table.Db) (m : Move table.Db) → IsKeyed (table.rows d) → IsKeyed (table.rows (move d m))
  move-IsKeyed d m keyed =
      Step-IsKeyed (act_of m) (table.rows d) (table.rows (move d m)) (move-Step d m keyed) keyed

abbrev pub All : {D : Type 0} → (Act → Type 0) → List (Move D) → Type 0
All P [] = Unit {0}
All P (m ∷ ms) = P (act_of m) × All P ms

module _ (S : Postgres) (j : Json) (P : Act → Type 0) (Q : List TaskRecord → Type 0)
    (keeps : (a : Act) (rs rs' : List TaskRecord)
      → P a
      → IsKeyed rs
      → Step a rs rs'
      → Q rs
      → Q rs') where
  open S use {table}

  -- What every step of a kind keeps, the histories of such steps keep.
  pub run_keeps :
      (d : table.Db) (ms : List (Move table.Db))
      → All P ms
      → IsKeyed (table.rows d)
      → Q (table.rows d)
      → IsKeyed (table.rows (run S j d ms)) × Q (table.rows (run S j d ms))
  unfolding run
  run_keeps d [] all keyed h = (keyed, h)
  run_keeps d (m ∷ ms) (here, later) keyed h =
      run_keeps (move S j d m) ms later (move-IsKeyed S j d m keyed) (
        keeps (act_of m) (table.rows d) (table.rows (move S j d m)) here keyed
          (move-Step S j d m keyed) h)
