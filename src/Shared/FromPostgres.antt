-- ===== src/Shared/FromPostgres.antt =====
-- postgres_workqueue/workqueue.go: every call is a step on the rows of the shared table.
use mathlib.Core.List.{mem-cons_self, mem-cons_of_mem}
use workqueue_modules.Prelude.{
  ℕ, zero, suc, ◌≡◌, ◌≢◌, refl, sym, ◌∙◌, inl, inr, String, Bool, true, none, some, List, [], ◌∷◌,
  Mem, arith, Bool-cases, Option-cases, str_eq, eq_iff,
}
use workqueue_modules.Workqueue.{Time, add}
use workqueue_modules.Workqueue.Options.{EnqueueOption, new_enqueue_options}
use workqueue_modules.Sql.{TaskRecord, pending, running, Json, updated}
use workqueue_modules.Sql.Keys.{IsKeyed, one_row}
use workqueue_modules.Sql.Statements.{update-rows, delete-rows}
use workqueue_modules.Postgres.Store.{Postgres}
use workqueue_modules.Postgres.State.{Config, PostgresWorkQueue, broadcast_local}
use workqueue_modules.Postgres.Claim.{
  claim, reap_expired_leases, is_ready, is_expired, reaped, started, by_run_at_then_enqueued,
}
use workqueue_modules.Postgres.Calls.{
  Call, enqueues, claims, reaps, completes, requeues, deletes, call, complete-db,
}
use workqueue_modules.Postgres.Transactions.{insert_and_notify-commits, revive_and_notify-commits}
use workqueue_modules.Postgres.{
  enqueue, insert_task, insert_and_notify, encode_metadata, new_record, complete, requeue_dead_task,
  revive_and_notify, delete_dead_task, database, is_attempt, is_dead,
}
use workqueue_modules.Shared.Protocol.{Act, Step}

abbrev pub act_of : Call → Act
act_of (enqueues name payload opts id now) = Act.enqueues id
act_of (claims locked name now later) = Act.claims
act_of (reaps name now) = Act.reaps name now
act_of (completes r none o now) = Act.completes r.id
act_of (completes r (some message) o now) = Act.fails
act_of (requeues name id now) = Act.requeues id name now
act_of (deletes name id) = Act.deletes id name

pub updated-congr :
    (p p' : TaskRecord → Bool) (f : TaskRecord → TaskRecord) (rs : List TaskRecord)
    → ((r : TaskRecord) → Mem r rs → p r ≡ p' r)
    → updated p f rs ≡ updated p' f rs
unfolding updated
updated-congr p p' f [] h = refl
updated-congr p p' f (r ∷ rs) h =
    rw (h r mem-cons_self, updated-congr p p' f rs (λ x m. h x (mem-cons_of_mem r m))) refl

-- As the identifier is a key, the row that the claim takes is the one at the attempt.
pub at_attempt :
    (c : TaskRecord) (name : String) (now : Time) (rs : List TaskRecord)
    → IsKeyed rs
    → Mem c rs
    → is_ready name now c ≡ true
    → (r : TaskRecord) → Mem r rs
    → str_eq r.id c.id ≡ is_attempt c pending r
at_attempt c name now rs keyed inside ready r m = elim (Bool-cases (str_eq r.id c.id)) [
  | inr e ↦ rw e refl
  | inl e ↦
      let self : is_attempt c pending c ≡ true = ground (arith, eq_iff c.id c.id) in
      e ∙ sym (one_row (is_attempt c pending) rs r c keyed m inside ((eq_iff r.id c.id).0 e) self)
]

module _ (S : Postgres) where
  open S use {table, pg_notify}

  notify-rows :
      (d : table.Db) (channel payload : String)
      → table.rows (pg_notify d channel payload).0 ≡ table.rows d
  notify-rows d channel payload = elim (Bool-cases ((pg_notify d channel payload).1)) [
    | inl e ↦ (S.notify_sends d channel payload e).1
    | inr e ↦ (S.notify_fails d channel payload e).1
  ]

  reap-Step :
      (config : Config) (d : table.Db) (name : String) (now : Time)
      → Step
          (Act.reaps name now)
          (table.rows d)
          (table.rows (reap_expired_leases S config d name now))
  unfolding reap_expired_leases
  reap-Step config d name now =
      let p = is_expired name now in
      let d' = (table.update d p reaped).0 in
      let step : Step (Act.reaps name now) (table.rows d) (table.rows d') =
        elim (update-rows table d p reaped) [ inl e ↦ inl e | inr e ↦ inr e ] in
      elim (Option-cases ((table.update d p reaped).1)) [
        | inl e ↦ rw (reap_expired_leases, e) step
        | inr (zero, e) ↦ rw (reap_expired_leases, e) step
        | inr (suc n, e) ↦
            rw (reap_expired_leases, e, notify-rows d' config.notify_channel name) step
      ]

  -- A transaction of Enqueue that commits had a new identifier.
  pub insert_and_notify-fresh :
      (channel : String) (r : TaskRecord) (d : table.Db)
      → (insert_and_notify S channel r d).1 ≡ none
      → (s : TaskRecord) → Mem s (table.rows d)
      → s.id ≢ r.id
  unfolding insert_and_notify
  insert_and_notify-fresh channel r d h = elim (Bool-cases ((table.create d r).1)) [
    | inl e ↦ (table.create_adds d r e).1
    | inr e ↦ absurd (ground arith)
  ]

  claim-Step :
      (config : Config) (locked : TaskRecord → Bool) (d : table.Db) (name : String)
      (now later : Time)
      → IsKeyed (table.rows d)
      → Step Act.claims
          (table.rows d)
          (table.rows (claim S config locked (λ x. x) d name now later).0)
  unfolding claim
  claim-Step config locked d name now later keyed =
      let p = is_ready name now in
      let lease = add now config.lease_duration in
      let f = started lease in
      elim (Option-cases ((S.update_first d locked p by_run_at_then_enqueued f).1)) [
        | inl e ↦ rw (claim, e) (inl (S.first_fails d locked p by_run_at_then_enqueued f e))
        | inr (none, e) ↦
            rw (claim, e) (inl (S.first_misses d locked p by_run_at_then_enqueued f e).0)
        | inr (some r, e) ↦
            let (c, inside, ready, _, _, _, sets) =
              S.first_sets d locked p by_run_at_then_enqueued f r e in
            let rs = table.rows d in
            rw (claim, e)
              (inr (
                c,
                lease,
                sets
                    ∙ updated-congr (λ s. str_eq s.id c.id) (is_attempt c pending) f rs
                        (at_attempt c name now rs keyed inside ready),
              ))
      ]

module _ (S : Postgres) (j : Json) where
  open S use {table}

  -- The handle that a call leaves, and the step to its rows.
  abbrev pub Steps : Act → table.Db → PostgresWorkQueue table.Db → Type 0
  Steps a d q' = (d' : table.Db) × (q'.db ≡ some d') × Step a (table.rows d) (table.rows d')

  abbrev with_db : PostgresWorkQueue table.Db → table.Db → PostgresWorkQueue table.Db
  with_db q d = record q { db = some d }

  insert-Steps :
      (q : PostgresWorkQueue table.Db) (d : table.Db) (r : TaskRecord)
      → Steps (Act.enqueues r.id) d (insert_task S j (with_db q d) d r).0
  unfolding insert_task broadcast_local
  insert-Steps q d r =
      let body = insert_and_notify S q.config.notify_channel r in
      let d' = (S.transaction d database body).0 in
      elim (Option-cases ((S.transaction d database body).1)) [
        | inl e ↦
            let (body_ok, rows, sends) = S.commits d database body e in
            let added = (insert_and_notify-commits S q.config.notify_channel r d body_ok).0 in
            (
              d',
              rw (insert_task, e) refl,
              inr (
                r,
                refl,
                rw rows added,
                insert_and_notify-fresh S q.config.notify_channel r d body_ok,
              ),
            )
        | inr (e', e) ↦ (d', rw (insert_task, e) refl, inl (S.rolls_back d database e' body e).1)
      ]

  enqueue-Steps :
      (q : PostgresWorkQueue table.Db) (d : table.Db) (name : String) (payload : List ℕ)
      (opts : List EnqueueOption) (id : String) (now : Time)
      → Steps (Act.enqueues id) d (enqueue S j (with_db q d) name payload opts id now).0
  unfolding enqueue new_record
  enqueue-Steps q d name payload opts id now =
      let o = new_enqueue_options opts in
      elim (Option-cases (encode_metadata j o.metadata)) [
        | inl k ↦ (d, rw (enqueue, k) refl, inl refl)
        | inr (metadata, k) ↦
            rw (enqueue, k) (insert-Steps q d (new_record id name payload metadata o now))
      ]

  requeue-Steps :
      (q : PostgresWorkQueue table.Db) (d : table.Db) (name id : String) (now : Time)
      → Steps (Act.requeues id name now) d (requeue_dead_task S (with_db q d) name id now).0
  unfolding requeue_dead_task broadcast_local
  requeue-Steps q d name id now =
      let body = revive_and_notify S q.config.notify_channel name id now in
      let d' = (S.transaction d database body).0 in
      elim (Option-cases ((S.transaction d database body).1)) [
        | inl e ↦
            let (body_ok, rows, sends) = S.commits d database body e in
            let sets =
              (revive_and_notify-commits S q.config.notify_channel name id now d body_ok).0 in
            (d', rw (requeue_dead_task, e) refl, inr (rows ∙ sets))
        | inr (e', e) ↦
            (d', rw (requeue_dead_task, e) refl, inl (S.rolls_back d database e' body e).1)
      ]

  pub call-Steps :
      (q : PostgresWorkQueue table.Db) (d : table.Db) (c : Call)
      → IsKeyed (table.rows d)
      → Steps (act_of c) d (call S j (with_db q d) c)
  unfolding call delete_dead_task complete
  call-Steps q d (enqueues name payload opts id now) keyed =
      enqueue-Steps q d name payload opts id now
  call-Steps q d (claims locked name now later) keyed = (
    (claim S q.config locked (λ x. x) d name now later).0,
    refl,
    claim-Step S q.config locked d name now later keyed,
  )
  call-Steps q d (reaps name now) keyed =
      (reap_expired_leases S q.config d name now, refl, reap-Step S q.config d name now)
  call-Steps q d (completes r none o now) keyed = (
    (table.delete d (λ s. str_eq s.id r.id)).0,
    refl,
    delete-rows table d (λ s. str_eq s.id r.id),
  )
  call-Steps q d (completes r (some message) o now) keyed =
      let (f, ends, (at, is_failure)) = complete-db S (with_db q d) d r message o now in
      let p = is_attempt r running in
      (
        (table.update d p f).0,
        ends,
        elim (update-rows table d p f) [
          | inl e ↦ inl e
          | inr e ↦ inr (r, f, (message, at, is_failure), e)
        ],
      )
  call-Steps q d (requeues name id now) keyed = requeue-Steps q d name id now
  call-Steps q d (deletes name id) keyed = (
    (table.delete d (is_dead id name)).0,
    refl,
    elim (delete-rows table d (is_dead id name)) [ inl e ↦ inl e | inr e ↦ inr e ],
  )
