-- ===== src/Postgres/Atomic.antt =====
-- postgres_workqueue/workqueue.go: the transactions of Enqueue and RequeueDeadTask, with the rows, the
-- notifications and the wake channels they leave.
use workqueue_modules.Prelude.{
  ℕ, ◌≡◌, ◌<◌, refl, sym, subst, ap, ◌∙◌, ◌⊎◌, inl, inr, Bool, ◌&&◌, str_eq, String, Option, none,
  some, List, [], ◌∷◌, Perm, length, arith, Option-cases,
}
use workqueue_modules.Prelude.Int.{pos}
use workqueue_modules.Workqueue.{Time, Task}
use workqueue_modules.Workqueue.Options.{
  EnqueueOption, EnqueueOptions, new_enqueue_options, resolve_run_at,
}
use workqueue_modules.Sql.{Json, decode_metadata, pending, dead, has_status, where_rows, updated}
use workqueue_modules.Postgres.Model.{TaskRecord, to_task, task_of}
use workqueue_modules.Postgres.Store.{Postgres}
use workqueue_modules.Postgres.State.{
  PostgresWorkQueue, broadcast_local, broadcast_local-closes, broadcast_local-db,
}
use workqueue_modules.Postgres.{
  Error, database, task_not_found, Result, ok, err, new_record, enqueue, requeue_dead_task,
  insert_and_notify, revive_and_notify, encode_metadata, insert_task,
}
use workqueue_modules.Postgres.Transactions.{
  Unchanged, Announced, insert_and_notify-commits, insert_and_notify-fails,
  revive_and_notify-commits, revive_and_notify-fails,
}

-- The dead rows of an identifier in a queue.
abbrev pub named_dead : String → String → TaskRecord → Bool
named_dead id name r = str_eq r.id id && str_eq r.queue name && has_status dead r.status

module _ (S : Postgres) where
  open S use {table, sent, pg_notify, transaction}

  -- How a RequeueDeadTask ends.
  abbrev pub RequeueEnds :
      PostgresWorkQueue table.Db
      → table.Db
      → String
      → String
      → Time
      → PostgresWorkQueue table.Db × Option Error
      → Type 0
  RequeueEnds q d name id now ends =
      (d' : table.Db) × ((Unchanged S q ends.0 d d'
          × ((ends.1 ≡ some database)
              ⊎ ((ends.1 ≡ some task_not_found)
                  × (length (where_rows (named_dead id name) (table.rows d)) ≡ 0))))
        ⊎ (Announced S q ends.0 d d' name
            × (ends.1 ≡ none)
            × (0 < length (where_rows (named_dead id name) (table.rows d)))
            × (table.rows d'
                ≡ updated (named_dead id name)
                    (λ r. record r {
                      status = pending;
                      attempts = pos 0;
                      last_error = "";
                      died_at = none;
                      run_at = now;
                    })
                    (table.rows d))))

  announced :
      (q : PostgresWorkQueue table.Db) (d d' : table.Db) (name : String)
      → sent d' ≡ (q.config.notify_channel, name) ∷ sent d
      → Announced S q (broadcast_local (record q { db = some d' }) name) d d' name
  announced q d d' name told = record {
    handle = broadcast_local-db (record q { db = some d' }) name;
    sent = told;
    closed = λ c found. broadcast_local-closes (record q { db = some d' }) name c found;
  }

  -- A RequeueDeadTask, once the handle is there, ends in one of two ways. Either it returns an error,
  -- the rows are as before, and nobody is notified or woken; the error is ErrTaskNotFound only when
  -- the queue has no dead task with the identifier. Or there is such a task, exactly the rows of
  -- such tasks are changed, to pending with no attempts, no error and no death and due now, the
  -- queue's name is notified once on the configured channel, and every worker of this process that
  -- waits on the queue is woken.
  pub requeue_atomic :
      (q : PostgresWorkQueue table.Db) (d : table.Db) (name id : String) (now : Time)
      → q.db ≡ some d
      → RequeueEnds q d name id now (requeue_dead_task S q name id now)
  unfolding requeue_dead_task
  requeue_atomic q d name id now handle =
      let body = revive_and_notify S q.config.notify_channel name id now in
      let d' = (S.transaction d database body).0 in
      let q' : PostgresWorkQueue table.Db = record q { db = some d' } in
      elim (Option-cases ((S.transaction d database body).1)) [
        | inl e ↦
            let (body_ok, rows, sends) = S.commits d database body e in
            let (sets, some_row, told) =
              revive_and_notify-commits S q.config.notify_channel name id now d body_ok in
            let ends : requeue_dead_task S q name id now ≡ (broadcast_local q' name, none) =
              rw (requeue_dead_task, handle, e) refl in
            subst (RequeueEnds q d name id now) (sym ends)
              (d', inr (announced q d d' name (sends ∙ told), refl, some_row, rows ∙ sets))
        | inr (e', e) ↦
            let (why, rows, sends) = S.rolls_back d database e' body e in
            let ends : requeue_dead_task S q name id now ≡ (q', some e') =
              rw (requeue_dead_task, handle, e) refl in
            let kept : Unchanged S q q' d d' = record {
              handle = refl;
              rows = rows;
              sent = sends;
              closed = refl;
            } in
            subst (RequeueEnds q d name id now) (sym ends) (elim why [
              | inl w ↦ (d', inl (kept, inl (ap some w)))
              | inr w ↦
                  elim (revive_and_notify-fails S q.config.notify_channel name id now d e' w) [
                    | inl f ↦ (d', inl (kept, inl (ap some f)))
                    | inr (f, missing) ↦ (d', inl (kept, inr (ap some f, missing)))
                  ]
            ])
      ]

module _ (S : Postgres) (j : Json) where
  open S use {table, sent}

  -- What Enqueue returns carries the caller's payload and metadata.
  pub Describes : Task → String → String → List ℕ → EnqueueOptions → Time → Type 0
  Describes t id name payload o now =
      (t.id ≡ id)
      × (t.queue ≡ name)
      × (t.payload ≡ payload)
      × (t.metadata ≡ o.metadata)
      × (t.attempts ≡ pos 0)
      × (t.max_retries ≡ o.max_retries)
      × (t.run_at ≡ resolve_run_at o now)

  encode-decode :
      (md : List (String × String)) (b : List ℕ)
      → encode_metadata j md ≡ some b
      → decode_metadata j b ≡ some md
  unfolding encode_metadata
  encode-decode [] [] h = refl
  encode-decode [] (x ∷ b) h = absurd (ground arith)
  encode-decode (e ∷ md) [] h = absurd ((j.round_trip (e ∷ md) [] h).0 refl)
  encode-decode (e ∷ md) (x ∷ b) h = (j.round_trip (e ∷ md) (x ∷ b) h).1

  to_task-new_record :
      (id name : String) (payload b : List ℕ) (o : EnqueueOptions) (now : Time)
      → encode_metadata j o.metadata ≡ some b
      → (t : Task) × (to_task j (new_record id name payload b o now) ≡ some t)
        × Describes t id name payload o now
  unfolding to_task task_of new_record Describes
  to_task-new_record id name payload b o now h = (
    task_of (new_record id name payload b o now) o.metadata,
    rw (encode-decode o.metadata b h) refl,
    (refl, refl, refl, refl, refl, refl, refl),
  )

  -- How an Enqueue of the row `r` ends, `t` being the row as a task.
  abbrev pub EnqueueEnds :
      PostgresWorkQueue table.Db
      → table.Db
      → TaskRecord
      → Task
      → PostgresWorkQueue table.Db × Result Task
      → Type 0
  EnqueueEnds q d r t ends =
      (d' : table.Db) × ((Unchanged S q ends.0 d d' × (ends.1 ≡ err database))
        ⊎ (Announced S q ends.0 d d' r.queue
            × Perm (table.rows d') (r ∷ table.rows d)
            × (ends.1 ≡ ok t)))

  insert_task_ends :
      (q : PostgresWorkQueue table.Db) (d : table.Db) (r : TaskRecord) (t : Task)
      → to_task j r ≡ some t
      → EnqueueEnds q d r t (insert_task S j q d r)
  unfolding insert_task
  insert_task_ends q d r t decodes =
      let body = insert_and_notify S q.config.notify_channel r in
      let d' = (S.transaction d database body).0 in
      elim (Option-cases ((S.transaction d database body).1)) [
        | inl e ↦
            let (body_ok, rows, sends) = S.commits d database body e in
            let (added, told) = insert_and_notify-commits S q.config.notify_channel r d body_ok in
            let woken = broadcast_local (record q { db = some d' }) r.queue in
            let ends : insert_task S j q d r ≡ (woken, ok t) = rw (insert_task, e, decodes) refl in
            subst (EnqueueEnds q d r t) (sym ends)
              (d', inr (announced S q d d' r.queue (sends ∙ told), rw rows added, refl))
        | inr (e', e) ↦
            let (why, rows, sends) = S.rolls_back d database e' body e in
            let kept : Unchanged S q (record q { db = some d' }) d d' = record {
              handle = refl;
              rows = rows;
              sent = sends;
              closed = refl;
            } in
            let error : e' ≡ database = elim why [
              | inl w ↦ w
              | inr w ↦ insert_and_notify-fails S q.config.notify_channel r d e' w
            ] in
            let ends : insert_task S j q d r ≡ (record q { db = some d' }, err database) =
              rw (insert_task, e, error) refl in
            subst (EnqueueEnds q d r t) (sym ends) (d', inl (kept, refl))
      ]

  -- An Enqueue, once the handle is there and the metadata encodes, ends in one of two ways. Either
  -- the call fails with the database's error, the rows are as before, and nobody is notified or
  -- woken; or the table has exactly the new row more, the queue's name is notified once on the
  -- configured channel, every worker of this process that waits on the queue is woken, and the task
  -- returned has the caller's payload and metadata.
  pub enqueue_atomic :
      (q : PostgresWorkQueue table.Db) (d : table.Db) (name : String) (payload b : List ℕ)
      (opts : List EnqueueOption) (id : String) (now : Time)
      → q.db ≡ some d
      → encode_metadata j (new_enqueue_options opts).metadata ≡ some b
      → let o = new_enqueue_options opts in
        (t : Task) × Describes t id name payload o now
        × EnqueueEnds q d
            (new_record id name payload b o now)
            t
            (enqueue S j q name payload opts id now)
  unfolding enqueue new_record
  enqueue_atomic q d name payload b opts id now handle encodes =
      let o = new_enqueue_options opts in
      let r = new_record id name payload b o now in
      let (t, decodes, describes) = to_task-new_record id name payload b o now encodes in
      let runs : enqueue S j q name payload opts id now ≡ insert_task S j q d r =
        rw (enqueue, handle, encodes) refl in
      (t, describes, subst (EnqueueEnds q d r t) (sym runs) (insert_task_ends q d r t decodes))
