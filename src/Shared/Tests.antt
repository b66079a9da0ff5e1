-- ===== src/Shared/Tests.antt =====
-- Histories of both database backends on a table in memory.
use Prim.{tt}
use mathlib.Core.List.{mem-cons_self, not-mem-nil}
use workqueue_modules.Prelude.{
  ◌≢◌, refl, String, false, none, some, List, [], ◌∷◌, Mem, eq_iff, insert, lookup,
}
use workqueue_modules.Prelude.Int.{pos, ◌<ℤ◌}
use workqueue_modules.Workqueue.Options.{ConsumeOptions, new_enqueue_options, resolve_run_at}
use workqueue_modules.Sql.{TaskRecord, pending, running, dead, where_rows, updated}
use workqueue_modules.Postgres.Model.{to_task}
use workqueue_modules.Sql.Keys.{IsKeyed}
use workqueue_modules.Sql.ListTable.{
  ListDb, one_map, list_create, has_id, select_sorted, sort, put_sorted, is_ordered, none_before,
}
use workqueue_modules.Gorm.State.{GormWorkQueue}
use workqueue_modules.Gorm.State
use workqueue_modules.Gorm.Calls
use workqueue_modules.Gorm.Claim.{try_claim}
use workqueue_modules.Postgres.State.{PostgresWorkQueue}
use workqueue_modules.Postgres.State as PostgresState
use workqueue_modules.Postgres.Calls as PostgresCalls
use workqueue_modules.Postgres.Claim.{claim, reap_expired_leases}
use workqueue_modules.Postgres
use workqueue_modules.Postgres.InMemory.{list_postgres, update_first_in, rolled_back}
use workqueue_modules.Shared.History.{Move, by_gorm, by_postgres, move, run}
use workqueue_modules.Shared.Survival.{no_task_lost, dead_letter_stays, Survives}
use workqueue_modules.Shared.Attempts.{attempts_increase, Delivers}

abbrev row : TaskRecord
row = record {
  id = "a";
  queue = "mail";
  status = pending;
  run_at = 1000;
  payload = [];
  metadata = [];
  attempts = pos 0;
  max_retries = pos 3;
  enqueued_at = 1000;
  last_error = "";
  died_at = none;
  lease_expires_at = none;
}

abbrev loaded : ListDb
loaded = record { rows = row ∷ []; sent = [] }

loaded-IsKeyed : IsKeyed loaded.rows
loaded-IsKeyed = (λ s m e. not-mem-nil m, refl)

abbrev gorm_process : GormWorkQueue ListDb
gorm_process =
    State.new none record { table_name = ""; poll_interval = pos 0; lease_duration = pos 0 }

abbrev postgres_process : PostgresWorkQueue ListDb
postgres_process = PostgresState.new none record {
  table_name = "";
  poll_interval = pos 0;
  lease_duration = pos 0;
  notify_channel = "";
  listen_dsn = "";
}

abbrev consuming : ConsumeOptions
consuming = record { concurrency = pos 2; backoff_base = pos 100; backoff_max = pos 1000 }

-- A worker of gorm_workqueue claims the task, and its lease expires.
abbrev first_claim : Move ListDb
first_claim = by_gorm gorm_process (Calls.claims row 9000)

-- A process of postgres_workqueue enqueues another task and hands the expired one back.
abbrev between : List (Move ListDb)
between =
    by_postgres postgres_process (PostgresCalls.enqueues "mail" [] [] "b" 20000)
    ∷ by_postgres postgres_process (PostgresCalls.reaps "mail" 20000)
    ∷ []

-- A worker of postgres_workqueue claims the task.
abbrev second_claim : Move ListDb
second_claim = by_postgres postgres_process (PostgresCalls.claims (λ r. false) "mail" 21000 21000)

b-ne-a : ◌≢◌ {A = String} "b" "a"
b-ne-a e = cc ((eq_iff "b" "a").1 e)

no_task_lost_example :
    IsKeyed (run list_postgres one_map loaded (first_claim ∷ between)).rows
    × Survives row (run list_postgres one_map loaded (first_claim ∷ between)).rows
no_task_lost_example =
    no_task_lost list_postgres one_map loaded (first_claim ∷ between) row loaded-IsKeyed
      mem-cons_self (tt, (tt, (tt, tt)))

abbrev dead_row : TaskRecord
dead_row = record row { status = dead; attempts = pos 4; died_at = some 2000 }

abbrev with_dead : ListDb
with_dead = record { rows = dead_row ∷ []; sent = [] }

dead_letter_stays_example :
    Mem dead_row (run list_postgres one_map with_dead (first_claim ∷ between)).rows
dead_letter_stays_example =
    dead_letter_stays list_postgres one_map with_dead (first_claim ∷ between) dead_row
      (λ s m e. not-mem-nil m, refl) mem-cons_self refl (tt, (tt, (tt, tt)))

first_Delivers : Delivers list_postgres one_map loaded first_claim "a" (pos 1)
unfolding try_claim where_rows
first_Delivers = (0, refl, refl, refl)

abbrev table_between : ListDb
table_between = run list_postgres one_map (move list_postgres one_map loaded first_claim) between

second_Delivers : Delivers list_postgres one_map table_between second_claim "a" (pos 2)
unfolding run move Calls.call PostgresCalls.call try_claim claim reap_expired_leases
    Postgres.enqueue new_enqueue_options PostgresState.new PostgresState.broadcast_local
    update_first_in rolled_back list_create has_id select_sorted sort put_sorted is_ordered
    none_before where_rows updated insert lookup to_task Postgres.new_record resolve_run_at
    PostgresState.with_defaults
second_Delivers = (
  record row { status = running; attempts = pos 2; lease_expires_at = some 300_000_021_000 },
  refl,
  refl,
  refl,
)

attempts_increase_example : pos 1 <ℤ pos 2
attempts_increase_example =
    attempts_increase list_postgres one_map loaded first_claim between second_claim "a" (pos 1)
      (pos 2) loaded-IsKeyed first_Delivers (b-ne-a, (tt, tt)) second_Delivers
