-- ===== src/Postgres.antt =====
-- postgres_workqueue/workqueue.go: the backend on PostgreSQL. The clock readings and the identifier
-- that the uuid package draws are arguments.
pub mod Model
pub mod Store
pub mod State
pub mod Channels
pub mod Claim
pub mod Listener
pub mod Reconnect
pub mod Transactions
pub mod Atomic
pub mod Calls
pub mod Ends
pub mod Wakeup
pub mod Deliveries
pub mod Quoting
pub mod InMemory
pub mod Rounds
mod Tests
use Model.{Status, TaskRecord, to_task}
use Store.{Postgres}
use State.{Config, PostgresWorkQueue, notify, broadcast_local}
use Claim.{in_queue, started, reaped, Claimed, claimed, waits, broken, claim, reap_expired_leases}
use Prim.Native.String.{compare}
use text.Mathlib.Text.{is_lt}
use workqueue_modules.Prelude.{
  ℕ, zero, suc, String, str_append, Bool, true, false, ◌&&◌, Option, none, some, List, [], ◌∷◌,
  ◌==◌, str_eq, ltb, if◌then◌else◌,
}
use workqueue_modules.Prelude.Int.{ℤ, pos, negsuc, pos_part, ltb_ℤ, eqb_ℤ}
use workqueue_modules.Workqueue.{
  Time, Duration, add, Task, Outcome, succeeds, fails, panics, Handler,
}
use workqueue_modules.Workqueue.Options.{
  EnqueueOption, EnqueueOptions, ConsumeOptions, new_enqueue_options, resolve_run_at,
}
use workqueue_modules.Workqueue.Backoff.{retry_backoff}
use workqueue_modules.Sql.{pending, running, dead, has_status, Json, time_or_zero}

-- The errors of the methods: the handle is not there yet, a statement or a transaction failed, the
-- metadata did not encode or decode, and workqueue.ErrTaskNotFound.
pub data Error : Type 0 where
  not_started database encoding task_not_found : Error

pub data Result {ℓ} (A : Type ℓ) : Type ℓ where
  ok : A → Result A
  err : Error → Result A

pub data Turn : Type 0 where
  returns continues : Turn
  sleeps : Duration → ℕ → Turn

-- `id = ? AND status = ? AND attempts = ?`
abbrev pub is_attempt : TaskRecord → Status → TaskRecord → Bool
is_attempt c status r =
    str_eq r.id c.id && has_status status r.status && eqb_ℤ r.attempts c.attempts

abbrev pub is_dead : String → String → TaskRecord → Bool
is_dead id name r = str_eq r.id id && str_eq r.queue name && has_status dead r.status

-- `ORDER BY died_at, id`; identifiers are ASCII.
abbrev pub by_died_at : TaskRecord → TaskRecord → Bool
by_died_at r s =
    if time_or_zero r.died_at == time_or_zero s.died_at
    then is_lt (compare r.id s.id)
    else ltb (time_or_zero r.died_at) (time_or_zero s.died_at)

abbrev pub buried : String → Time → TaskRecord → TaskRecord
buried message now r = record r {
  status = dead;
  last_error = message;
  died_at = some now;
  lease_expires_at = none;
}

abbrev pub rescheduled : String → Time → TaskRecord → TaskRecord
rescheduled message run_at r = record r {
  status = pending;
  run_at = run_at;
  last_error = message;
  lease_expires_at = none;
}

abbrev pub revived : Time → TaskRecord → TaskRecord
revived now r = record r {
  status = pending;
  attempts = pos 0;
  last_error = "";
  died_at = none;
  run_at = now;
}

unfoldable pub invoke_handler : Handler → Task → Option String
invoke_handler handler task = elim ((handler task).1) [
  | succeeds ↦ none
  | fails message ↦ some message
  | panics value ↦ some (str_append "workqueue handler panic: " value)
]

-- The metadata column of a new row; an empty map is not encoded.
unfoldable pub encode_metadata : Json → List (String × String) → Option (List ℕ)
encode_metadata j [] = some []
encode_metadata j (e ∷ md) = j.marshal (e ∷ md)

unfoldable pub new_record : String → String → List ℕ → List ℕ → EnqueueOptions → Time → TaskRecord
new_record id name payload metadata o now = record {
  id = id;
  queue = name;
  status = pending;
  run_at = resolve_run_at o now;
  payload = payload;
  metadata = metadata;
  attempts = pos 0;
  max_retries = o.max_retries;
  enqueued_at = now;
  last_error = "";
  died_at = none;
  lease_expires_at = none;
}

cons_ok : Task → Result (List Task) → Result (List Task)
cons_ok t (ok ts) = ok (t ∷ ts)
cons_ok t (err e) = err e

-- `toTask` of every row, up to the first that does not decode.
to_tasks : Json → List TaskRecord → Result (List Task)
to_tasks j [] = ok []
to_tasks j (r ∷ rs) = elim (to_task j r) [
  | none ↦ err encoding
  | some t ↦ cons_ok t (to_tasks j rs)
]

abbrev pub or_err {ℓ} : {A : Type ℓ} → Option A → Error → Result A
or_err none e = err e
or_err (some a) e = ok a

-- `Limit` is given only a positive limit; a negative offset is 0.
abbrev positive : ℤ → Option ℕ
positive (pos zero) = none
positive (pos (suc n)) = some (suc n)
positive (negsuc n) = none

-- The reading of a result that counts rows.
abbrev pub found : Option ℕ → Option Error
found none = some database
found (some zero) = some task_not_found
found (some (suc _)) = none

module _ (S : Postgres) where
  open S use {table, pg_notify, transaction}

  abbrev pub Queue : Type 0
  Queue = PostgresWorkQueue table.Db

  abbrev pub notified : table.Db × Bool → table.Db × Option Error
  notified (d, sent) = (d, if sent then none else some database)

  -- The transaction of Enqueue: the INSERT, and the NOTIFY.
  unfoldable pub insert_and_notify : String → TaskRecord → table.Db → table.Db × Option Error
  insert_and_notify channel r d =
      let (d', created) = table.create d r in
      if created then notified (pg_notify d' channel r.queue) else (d', some database)

  -- A failed delivery: the row goes to the dead letters, or back to the pending ones.
  fail : Queue → table.Db → TaskRecord → String → ConsumeOptions → Time → Queue
  fail q d r message o now =
      if ltb_ℤ r.max_retries r.attempts
      then record q { db = some ((table.update d (is_attempt r running) (buried message now)).0) }
      else let run_at = add now (retry_backoff o.backoff_base o.backoff_max r.attempts) in
        let (d', changed) = table.update d (is_attempt r running) (rescheduled message run_at) in
        let q' = record q { db = some d' } in
        elim changed [ none ↦ q' | some _ ↦ broadcast_local q' r.queue ]

  unfoldable pub complete :
      Queue → table.Db → TaskRecord → Option String → ConsumeOptions → Time → Queue
  unfolding fail
  complete q d r none o now = record q { db = some ((table.delete d (λ s. str_eq s.id r.id)).0) }
  complete q d r (some message) o now = fail q d r message o now

  sleep_turn : Queue → table.Db → String → Duration → ℕ → Time → Queue × Turn
  sleep_turn q d name wait ch now =
      (record q { db = some (reap_expired_leases S q.config d name now) }, sleeps wait ch)

  -- The transaction of RequeueDeadTask: the UPDATE, and the NOTIFY when it changed the row.
  unfoldable pub revive_and_notify :
      String → String → String → Time → table.Db → table.Db × Option Error
  revive_and_notify channel name id now d =
      let (d', changed) = table.update d (is_dead id name) (revived now) in
      elim (found changed) [ none ↦ notified (pg_notify d' channel name) | some e ↦ (d', some e) ]

  unfoldable pub requeue_dead_task : Queue → String → String → Time → Queue × Option Error
  unfolding revive_and_notify
  requeue_dead_task q name id now = elim q.db [
    | none ↦ (q, some not_started)
    | some d ↦
        let (d', failed) =
          transaction d database (revive_and_notify q.config.notify_channel name id now) in
        let q' = record q { db = some d' } in
        elim failed [ none ↦ (broadcast_local q' name, none) | some e ↦ (q', some e) ]
  ]

  unfoldable pub delete_dead_task : Queue → String → String → Queue × Option Error
  delete_dead_task q name id = elim q.db [
    | none ↦ (q, some not_started)
    | some d ↦
        let (d', changed) = table.delete d (is_dead id name) in
        (record q { db = some d' }, found changed)
  ]

module _ (S : Postgres) (j : Json) where
  open S use {table, transaction}

  unfoldable pub insert_task : Queue S → table.Db → TaskRecord → Queue S × Result Task
  unfolding insert_and_notify
  insert_task q d r =
      let (d', failed) = transaction d database (insert_and_notify S q.config.notify_channel r) in
      let q' = record q { db = some d' } in
      elim failed [
        | none ↦ (broadcast_local q' r.queue, or_err (to_task j r) encoding)
        | some e ↦ (q', err e)
      ]

  unfoldable pub enqueue :
      Queue S → String → List ℕ → List EnqueueOption → String → Time → Queue S × Result Task
  unfolding insert_task insert_and_notify encode_metadata
  enqueue q name payload opts id now = elim q.db [
    | none ↦ (q, err not_started)
    | some d ↦
        let o = new_enqueue_options opts in
        elim (encode_metadata j o.metadata) [
          | none ↦ (q, err encoding)
          | some metadata ↦ insert_task q d (new_record id name payload metadata o now)
        ]
  ]

  -- The delivery of a claimed record; a row that does not decode fails with the decoder's message.
  deliver : Queue S → table.Db → Handler → TaskRecord → String → ConsumeOptions → Time → Queue S
  deliver q d handler r decoding o now = elim (to_task j r) [
    | none ↦ complete S q d r (some (str_append "decode task: " decoding)) o now
    | some task ↦ complete S q d r (invoke_handler handler task) o now
  ]

  -- One round of a worker's loop; the wake channel is read before the claim. `decoding` is the
  -- message of the decoder, if it fails, and `clock n` the n-th reading of the clock.
  unfoldable pub worker_turn :
      Queue S
      → table.Db
      → String
      → Handler
      → ConsumeOptions
      → Bool
      → (TaskRecord → Bool)
      → (table.Db → table.Db)
      → String
      → (ℕ → Time)
      → Queue S × Turn
  unfolding deliver sleep_turn
  worker_turn q d name handler o stopping locked others decoding clock =
      if stopping
      then (q, returns)
      else let (q', ch) = notify q name in
        let (d', c) = claim S q.config locked others d name (clock 0) (clock 1) in
        elim c [
          | claimed r ↦ (deliver q' d' handler r decoding o (clock 2), continues)
          | waits wait ↦ sleep_turn S q' d' name wait ch (clock 2)
          | broken wait ↦ sleep_turn S q' d' name wait ch (clock 2)
        ]

  unfoldable pub list_dead_tasks : Queue S → String → ℤ → ℤ → Result (List Task)
  unfolding to_tasks cons_ok
  list_dead_tasks q name limit offset = elim q.db [
    | none ↦ err not_started
    | some d ↦
        elim (table.select d (in_queue name dead) by_died_at (positive limit) (pos_part offset)) [
          | none ↦ err database
          | some records ↦ to_tasks j records
        ]
  ]
