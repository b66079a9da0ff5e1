-- ===== src/Gorm/Calls.antt =====
-- gorm_workqueue/workqueue.go: histories of the backend's calls, whichever process makes them.
use workqueue_modules.Prelude.{
  ℕ, ◌≡◌, ◌≢◌, ◌⊎◌, inl, inr, refl, String, Bool, true, Option, none, some, List, [], ◌∷◌,
  Bool-cases, Option-cases,
}
use workqueue_modules.Prelude.Int.{ltb_ℤ}
use workqueue_modules.Workqueue.{Time, add}
use workqueue_modules.Workqueue.Backoff.{retry_backoff}
use workqueue_modules.Workqueue.Options.{ConsumeOptions, EnqueueOption}
use workqueue_modules.Sql.{TaskRecord, pending, running, dead, Table, Json}
use workqueue_modules.Gorm.Rows.{is_attempt, buried, rescheduled}
use workqueue_modules.Gorm.State.{GormWorkQueue, broadcast_local}
use workqueue_modules.Gorm.Claim.{try_claim, reap_expired_leases}
use workqueue_modules.Gorm.{enqueue, complete, fail, requeue_dead_task, delete_dead_task}

-- The calls of workers and callers, in one process or in several, that run statements on the table.
pub data Call : Type 0 where
  enqueues : String → List ℕ → List EnqueueOption → String → Time → Call
  claims : TaskRecord → Time → Call
  reaps : String → Time → Call
  completes : TaskRecord → Option String → ConsumeOptions → Time → Call
  requeues : String → String → Time → Call
  deletes : String → String → Call

module _ (T : Table) (j : Json) where
  open T use {Db, rows}

  unfoldable pub on_table : (Db → Db) → GormWorkQueue Db → GormWorkQueue Db
  on_table f q = elim q.db [ none ↦ q | some d ↦ record q { db = some (f d) } ]

  abbrev pub completed :
      TaskRecord → Option String → ConsumeOptions → Time → GormWorkQueue Db → GormWorkQueue Db
  completed r failure o now q = elim q.db [ none ↦ q | some d ↦ complete T q d r failure o now ]

  unfoldable pub call : GormWorkQueue Db → Call → GormWorkQueue Db
  unfolding on_table
  call q (enqueues name payload opts id now) = (enqueue T j q name payload opts id now).0
  call q (claims c lease) = on_table (λ d. (try_claim T d c lease).0) q
  call q (reaps name now) = on_table (λ d. reap_expired_leases T d name now) q
  call q (completes r failure o now) = completed r failure o now q
  call q (requeues name id now) = (requeue_dead_task T q name id now).0
  call q (deletes name id) = (delete_dead_task T q name id).0

  unfoldable pub run : GormWorkQueue Db → List Call → GormWorkQueue Db
  run q [] = q
  run q (c ∷ cs) = run (call q c) cs

-- The call neither makes a task with the identifier nor gives one back from the dead letters.
abbrev pub Spares : String → Call → Type 0
Spares id (enqueues name payload opts new now) = new ≢ id
Spares id (requeues name other now) = other ≢ id
Spares id _ = ◌≡◌ {A = Bool} true true

abbrev pub AllSpare : String → List Call → Type 0
AllSpare id [] = ◌≡◌ {A = Bool} true true
AllSpare id (c ∷ cs) = Spares id c × AllSpare id cs

-- The assignment of a failed completion.
abbrev pub IsFailure : (TaskRecord → TaskRecord) → Type 0
IsFailure f =
    (message : String) × (at : Time) × ((f ≡ (λ r. record r {
      status = dead;
      last_error = message;
      died_at = some at;
      lease_expires_at = none;
    }))
      ⊎ (f ≡ (λ r. record r {
        status = pending;
        run_at = at;
        last_error = message;
        lease_expires_at = none;
      })))

module _ (T : Table) where
  open T use {Db}

  -- A failed completion runs one UPDATE, on the attempt that is running, which buries the task or
  -- schedules its retry.
  pub complete-db :
      (q : GormWorkQueue Db) (d : Db) (r : TaskRecord) (message : String) (o : ConsumeOptions)
      (now : Time)
      → ((f : TaskRecord → TaskRecord) × ((complete T q d r (some message) o now).db
            ≡ some (T.update d (is_attempt r running) f).0)
          × ((s : TaskRecord) → ((f s).id ≡ s.id) × ((f s).attempts ≡ s.attempts))
          × IsFailure f)
  unfolding complete fail broadcast_local
  complete-db q d r message o now =
      let run_at = add now (retry_backoff o.backoff_base o.backoff_max r.attempts) in
      elim (Bool-cases (ltb_ℤ r.max_retries r.attempts)) [
        | inl t ↦
            (buried message now, rw (fail, t) refl, λ s. (refl, refl), (message, now, inl refl))
        | inr t ↦ (
          rescheduled message run_at,
          elim (Option-cases ((T.update d (is_attempt r running) (rescheduled message run_at)).1)) [
            | inl e ↦ rw (fail, t, e) refl
            | inr (n, e) ↦ rw (fail, t, e) refl
          ],
          λ s. (refl, refl),
          (message, run_at, inr refl),
        )
      ]
