-- ===== src/Gorm/Rows.antt =====
-- gorm_workqueue/workqueue.go: the conditions, orders and assignments of the statements.
use Prim.Native.String.{compare}
use text.Mathlib.Text.{is_lt}
use workqueue_modules.Prelude.{
  String, Bool, false, ◌&&◌, Option, none, some, ◌==◌, str_eq, ltb, leb, if◌then◌else◌,
}
use workqueue_modules.Prelude.Int.{pos, ◌+ℤ◌, eqb_ℤ}
use workqueue_modules.Workqueue.{Time}
use workqueue_modules.Sql.{Status, pending, running, dead, has_status, TaskRecord, time_or_zero}

-- The conditions of the queries.
abbrev pub is_ready : String → Time → TaskRecord → Bool
is_ready name now r = str_eq r.queue name && has_status pending r.status && leb r.run_at now

abbrev pub in_queue : String → Status → TaskRecord → Bool
in_queue name status r = str_eq r.queue name && has_status status r.status

-- `lease_expires_at < ?`, which is not true of NULL.
abbrev pub has_expired : Time → Option Time → Bool
has_expired now none = false
has_expired now (some t) = ltb t now

abbrev pub is_expired : String → Time → TaskRecord → Bool
is_expired name now r = in_queue name running r && has_expired now r.lease_expires_at

-- `id = ? AND status = ? AND attempts = ?`
abbrev pub is_attempt : TaskRecord → Status → TaskRecord → Bool
is_attempt c status r =
    str_eq r.id c.id && has_status status r.status && eqb_ℤ r.attempts c.attempts

abbrev pub is_dead : String → String → TaskRecord → Bool
is_dead id name r = str_eq r.id id && str_eq r.queue name && has_status dead r.status

-- The orders of the queries.
abbrev pub by_run_at : TaskRecord → TaskRecord → Bool
by_run_at r s = ltb r.run_at s.run_at

abbrev pub by_run_at_then_enqueued : TaskRecord → TaskRecord → Bool
by_run_at_then_enqueued r s =
    if r.run_at == s.run_at then ltb r.enqueued_at s.enqueued_at else ltb r.run_at s.run_at

-- `ORDER BY died_at, id`; identifiers are ASCII.
abbrev pub by_died_at : TaskRecord → TaskRecord → Bool
by_died_at r s =
    if time_or_zero r.died_at == time_or_zero s.died_at
    then is_lt (compare r.id s.id)
    else ltb (time_or_zero r.died_at) (time_or_zero s.died_at)

-- The assignments of the updates.
abbrev pub started : Time → TaskRecord → TaskRecord
started lease r = record r {
  status = running;
  attempts = r.attempts +ℤ pos 1;
  lease_expires_at = some lease;
}

abbrev pub reaped : TaskRecord → TaskRecord
reaped r = record r { status = pending; lease_expires_at = none }

abbrev pub buried : String → Time → TaskRecord → TaskRecord
buried message now r = record r {
  status = dead;
  last_error = message;
  died_at = some now;
  lease_expires_at = none;
}

abbrev pub rescheduled : String → Time → TaskRecord → TaskRecord
rescheduled message run_at r = record r {
  status = pending;
  run_at = run_at;
  last_error = message;
  lease_expires_at = none;
}

abbrev pub revived : Time → TaskRecord → TaskRecord
revived now r = record r {
  status = pending;
  attempts = pos 0;
  last_error = "";
  died_at = none;
  run_at = now;
}
