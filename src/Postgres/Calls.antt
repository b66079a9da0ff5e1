-- ===== src/Postgres/Calls.antt =====
-- postgres_workqueue/workqueue.go: the calls of workers and callers that run statements on the table.
use workqueue_modules.Prelude.{
  ℕ, ◌≡◌, ◌⊎◌, inl, inr, refl, String, Bool, Option, none, some, List, Bool-cases, Option-cases,
}
use workqueue_modules.Prelude.Int.{ltb_ℤ}
use workqueue_modules.Workqueue.{Time, add}
use workqueue_modules.Workqueue.Backoff.{retry_backoff}
use workqueue_modules.Workqueue.Options.{ConsumeOptions, EnqueueOption}
use workqueue_modules.Sql.{running, Json}
use workqueue_modules.Postgres.Model.{TaskRecord}
use workqueue_modules.Postgres.Store.{Postgres}
use workqueue_modules.Postgres.State.{PostgresWorkQueue, broadcast_local}
use workqueue_modules.Postgres.Claim.{claim, reap_expired_leases}
use workqueue_modules.Postgres.{
  enqueue, complete, fail, requeue_dead_task, delete_dead_task, is_attempt, buried, rescheduled,
}

-- A claim is given the rows that other transactions hold.
pub data Call : Type 0 where
  enqueues : String → List ℕ → List EnqueueOption → String → Time → Call
  claims : (TaskRecord → Bool) → String → Time → Time → Call
  reaps : String → Time → Call
  completes : TaskRecord → Option String → ConsumeOptions → Time → Call
  requeues : String → String → Time → Call
  deletes : String → String → Call

module _ (S : Postgres) (j : Json) where
  open S use {table}

  unfoldable pub on_table :
      (table.Db → table.Db) → PostgresWorkQueue table.Db → PostgresWorkQueue table.Db
  on_table f q = elim q.db [ none ↦ q | some d ↦ record q { db = some (f d) } ]

  abbrev pub completed :
      TaskRecord
      → Option String
      → ConsumeOptions
      → Time
      → PostgresWorkQueue table.Db
      → PostgresWorkQueue table.Db
  completed r failure o now q = elim q.db [ none ↦ q | some d ↦ complete S q d r failure o now ]

  unfoldable pub call : PostgresWorkQueue table.Db → Call → PostgresWorkQueue table.Db
  unfolding on_table
  call q (enqueues name payload opts id now) = (enqueue S j q name payload opts id now).0
  call q (claims locked name now later) =
      on_table (λ d. (claim S q.config locked (λ x. x) d name now later).0) q
  call q (reaps name now) = on_table (λ d. reap_expired_leases S q.config d name now) q
  call q (completes r failure o now) = completed r failure o now q
  call q (requeues name id now) = (requeue_dead_task S q name id now).0
  call q (deletes name id) = (delete_dead_task S q name id).0

module _ (S : Postgres) where
  open S use {table}

  -- A failed completion runs one UPDATE, on the attempt that is running, which buries the task or
  -- schedules its retry.
  pub complete-db :
      (q : PostgresWorkQueue table.Db) (d : table.Db) (r : TaskRecord) (message : String)
      (o : ConsumeOptions) (now : Time)
      → (f : (TaskRecord → TaskRecord)) × ((complete S q d r (some message) o now).db
          ≡ some (table.update d (is_attempt r running) f).0)
        × ((at : Time) × ((f ≡ buried message at) ⊎ (f ≡ rescheduled message at)))
  unfolding complete fail broadcast_local
  complete-db q d r message o now =
      let run_at = add now (retry_backoff o.backoff_base o.backoff_max r.attempts) in
      elim (Bool-cases (ltb_ℤ r.max_retries r.attempts)) [
        | inl t ↦ (buried message now, rw (fail, t) refl, (now, inl refl))
        | inr t ↦ (
          rescheduled message run_at,
          elim (Option-cases
              ((table.update d (is_attempt r running) (rescheduled message run_at)).1)) [
                | inl e ↦ rw (fail, t, e) refl
                | inr (n, e) ↦ rw (fail, t, e) refl
              ],
          (run_at, inr refl),
        )
      ]
