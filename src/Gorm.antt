-- ===== src/Gorm.antt =====
-- gorm_workqueue/workqueue.go: the backend on a database table. A method runs a sequence of
-- statements; a claim, which runs several, is given what other processes do to the table before each
-- of them. The clock readings and the identifier that the uuid package draws are arguments.
pub mod State
pub mod Rows
pub mod Claim
pub mod Calls
pub mod Passed
pub mod Once
pub mod Guard
pub mod Deliveries
pub mod Rounds
mod Tests
use Rows.{
  is_ready, in_queue, is_expired, is_attempt, is_dead, by_run_at, by_run_at_then_enqueued,
  by_died_at, started, reaped, buried, rescheduled, revived,
}
use Claim.{Claimed, claimed, waits, broken, claim, reap_expired_leases}
use State.{Config, GormWorkQueue, notify, broadcast_local}
use workqueue_modules.Prelude.{
  ℕ, zero, suc, ◌+◌, ◌*◌, String, str_append, Bool, true, false, ◌&&◌, Option, none, some, List, [],
  ◌∷◌, ◌==◌, str_eq, ltb, leb, if◌then◌else◌, length,
}
use workqueue_modules.Prelude.Int.{ℤ, pos, negsuc, pos_part, ◌+ℤ◌, sub_ℕ, ltb_ℤ, eqb_ℤ, wrap64}
use workqueue_modules.Workqueue.{
  Time, Duration, add, Task, Outcome, succeeds, fails, panics, Handler,
}
use workqueue_modules.Workqueue.Options.{
  EnqueueOption, EnqueueOptions, ConsumeOptions, new_enqueue_options, resolve_run_at,
}
use workqueue_modules.Workqueue.Backoff.{retry_backoff}
use workqueue_modules.Sql.{Status, pending, running, dead, TaskRecord, Json, to_task, Table}

-- The errors of the methods: the handle is not there yet, a statement failed, the metadata did not
-- encode or decode, and workqueue.ErrTaskNotFound.
pub data Error : Type 0 where
  not_started database encoding task_not_found : Error

pub data Result {ℓ} (A : Type ℓ) : Type ℓ where
  ok : A → Result A
  err : Error → Result A

pub data Turn : Type 0 where
  returns continues : Turn
  sleeps : Duration → ℕ → Turn

unfoldable pub invoke_handler : Handler → Task → Option String
invoke_handler handler task = elim ((handler task).1) [
  | succeeds ↦ none
  | fails message ↦ some message
  | panics value ↦ some (str_append "workqueue handler panic: " value)
]

-- The metadata column of a new row; an empty map is not encoded.
unfoldable pub encode_metadata : Json → List (String × String) → Option (List ℕ)
encode_metadata j [] = some []
encode_metadata j (e ∷ md) = j.marshal (e ∷ md)

unfoldable pub new_record : String → String → List ℕ → List ℕ → EnqueueOptions → Time → TaskRecord
new_record id name payload metadata o now = record {
  id = id;
  queue = name;
  status = pending;
  run_at = resolve_run_at o now;
  payload = payload;
  metadata = metadata;
  attempts = pos 0;
  max_retries = o.max_retries;
  enqueued_at = now;
  last_error = "";
  died_at = none;
  lease_expires_at = none;
}

cons_ok : Task → Result (List Task) → Result (List Task)
cons_ok t (ok ts) = ok (t ∷ ts)
cons_ok t (err e) = err e

-- `toTask` of every row, up to the first that does not decode.
to_tasks : Json → List TaskRecord → Result (List Task)
to_tasks j [] = ok []
to_tasks j (r ∷ rs) = elim (to_task j r) [
  | none ↦ err encoding
  | some t ↦ cons_ok t (to_tasks j rs)
]

abbrev or_err {ℓ} : {A : Type ℓ} → Option A → Error → Result A
or_err none e = err e
or_err (some a) e = ok a

-- `Limit` is given only a positive limit; a negative offset is 0.
abbrev positive : ℤ → Option ℕ
positive (pos zero) = none
positive (pos (suc n)) = some (suc n)
positive (negsuc n) = none

-- The reading of a result that counts rows.
abbrev pub found : Option ℕ → Option Error
found none = some database
found (some zero) = some task_not_found
found (some (suc _)) = none

module _ (T : Table) where
  open T use {Db, rows, create, update, delete, select}

  abbrev pub Queue : Type 0
  Queue = GormWorkQueue Db

  -- A failed delivery: the row goes to the dead letters, or back to the pending ones.
  unfoldable pub fail : Queue → Db → TaskRecord → String → ConsumeOptions → Time → Queue
  fail q d r message o now =
      if ltb_ℤ r.max_retries r.attempts
      then record q { db = some ((update d (is_attempt r running) (buried message now)).0) }
      else let run_at = add now (retry_backoff o.backoff_base o.backoff_max r.attempts) in
        let (d', changed) = update d (is_attempt r running) (rescheduled message run_at) in
        let q' = record q { db = some d' } in
        elim changed [ none ↦ q' | some _ ↦ broadcast_local q' r.queue ]

  unfoldable pub complete : Queue → Db → TaskRecord → Option String → ConsumeOptions → Time → Queue
  unfolding fail
  complete q d r none o now = record q { db = some ((delete d (λ s. str_eq s.id r.id)).0) }
  complete q d r (some message) o now = fail q d r message o now

  sleep_turn : Queue → Db → String → Duration → ℕ → Time → Queue × Turn
  sleep_turn q d name wait ch now =
      (record q { db = some (reap_expired_leases T d name now) }, sleeps wait ch)

  unfoldable pub requeue_dead_task : Queue → String → String → Time → Queue × Option Error
  requeue_dead_task q name id now = elim q.db [
    | none ↦ (q, some not_started)
    | some d ↦
        let (d', changed) = update d (is_dead id name) (revived now) in
        let q' = record q { db = some d' } in
        elim (found changed) [ none ↦ (broadcast_local q' name, none) | some e ↦ (q', some e) ]
  ]

  unfoldable pub delete_dead_task : Queue → String → String → Queue × Option Error
  delete_dead_task q name id = elim q.db [
    | none ↦ (q, some not_started)
    | some d ↦
        let (d', changed) = delete d (is_dead id name) in (record q { db = some d' }, found changed)
  ]

module _ (T : Table) (j : Json) where
  open T use {Db, create, select}

  -- The methods after `ready` has found the handle `d`.
  unfoldable pub insert_task : Queue T → Db → TaskRecord → Queue T × Result Task
  insert_task q d r =
      let (d', created) = create d r in
      let q' = record q { db = some d' } in
      if created
      then (broadcast_local q' r.queue, or_err (to_task j r) encoding)
      else (q', err database)

  unfoldable pub enqueue :
      Queue T → String → List ℕ → List EnqueueOption → String → Time → Queue T × Result Task
  unfolding insert_task encode_metadata new_record
  enqueue q name payload opts id now = elim q.db [
    | none ↦ (q, err not_started)
    | some d ↦
        let o = new_enqueue_options opts in
        elim (encode_metadata j o.metadata) [
          | none ↦ (q, err encoding)
          | some metadata ↦ insert_task q d (new_record id name payload metadata o now)
        ]
  ]

  -- The delivery of a claimed record; a row that does not decode fails with the decoder's message.
  deliver : Queue T → Db → Handler → TaskRecord → String → ConsumeOptions → Time → Queue T
  deliver q d handler r decoding o now = elim (to_task j r) [
    | none ↦ complete T q d r (some (str_append "decode task: " decoding)) o now
    | some task ↦ complete T q d r (invoke_handler handler task) o now
  ]

  -- One round of a worker's loop; the wake channel is read before the claim. `decoding` is the
  -- message of the decoder, if it fails, and `clock n` the n-th reading of the clock.
  unfoldable pub worker_turn :
      Queue T
      → Db
      → String
      → Handler
      → ConsumeOptions
      → Bool
      → (ℕ → Db → Db)
      → String
      → (ℕ → Time)
      → Queue T × Turn
  unfolding deliver sleep_turn
  worker_turn q d name handler o stopping others decoding clock =
      if stopping
      then (q, returns)
      else let (q', ch) = notify q name in
        let (d', c) = claim T q.config others d name (clock 0) (clock 1) in
        elim c [
          | claimed r ↦ (deliver q' d' handler r decoding o (clock 2), continues)
          | waits wait ↦ sleep_turn T q' d' name wait ch (clock 2)
          | broken wait ↦ sleep_turn T q' d' name wait ch (clock 2)
        ]

  unfoldable pub list_dead_tasks : Queue T → String → ℤ → ℤ → Result (List Task)
  unfolding to_tasks cons_ok
  list_dead_tasks q name limit offset = elim q.db [
    | none ↦ err not_started
    | some d ↦ elim (select d (in_queue name dead) by_died_at (positive limit) (pos_part offset)) [
      | none ↦ err database
      | some records ↦ to_tasks j records
    ]
  ]
