-- ===== src/Postgres/Model.antt =====
-- postgres_workqueue/model.go: the row of a task and its reading as a task. The columns are those of
-- gorm_workqueue, so that both backends can work on one table.
use workqueue_modules.Prelude.{String, Option, none, some, List}
use workqueue_modules.Workqueue.{Task}
use workqueue_modules.Sql
use workqueue_modules.Sql.{Json, decode_metadata, time_or_zero}

abbrev pub Status : Type 0
Status = Sql.Status

abbrev pub TaskRecord : Type 0
TaskRecord = Sql.TaskRecord

unfoldable pub task_of : TaskRecord → List (String × String) → Task
task_of r metadata = record {
  id = r.id;
  queue = r.queue;
  payload = r.payload;
  metadata = metadata;
  attempts = r.attempts;
  max_retries = r.max_retries;
  enqueued_at = r.enqueued_at;
  run_at = r.run_at;
  last_error = r.last_error;
  died_at = time_or_zero r.died_at;
}

-- `none` is the error of a metadata column that is no JSON map.
unfoldable pub to_task : Json → TaskRecord → Option Task
unfolding task_of
to_task j r = elim (decode_metadata j r.metadata) [
  | none ↦ none
  | some metadata ↦ some (task_of r metadata)
]
