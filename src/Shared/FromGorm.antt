-- ===== src/Shared/FromGorm.antt =====
-- gorm_workqueue/workqueue.go: every call is a step on the rows of the shared table.
use workqueue_modules.Prelude.{
  ℕ, zero, suc, ◌≡◌, refl, inl, inr, String, none, some, List, Bool-cases, Option-cases, str_eq,
}
use workqueue_modules.Workqueue.{Time}
use workqueue_modules.Workqueue.Options.{EnqueueOption, new_enqueue_options}
use workqueue_modules.Sql.{pending, running, Table, Json}
use workqueue_modules.Sql.Statements.{create-rows, update-rows, delete-rows}
use workqueue_modules.Gorm.Rows.{is_attempt, is_expired, is_dead, started, reaped, revived}
use workqueue_modules.Gorm.State.{GormWorkQueue, broadcast_local}
use workqueue_modules.Gorm.Claim.{try_claim, reap_expired_leases}
use workqueue_modules.Gorm.Calls.{
  Call, enqueues, claims, reaps, completes, requeues, deletes, call, complete-db,
}
use workqueue_modules.Gorm.{
  enqueue, insert_task, encode_metadata, new_record, complete, requeue_dead_task, delete_dead_task,
}
use workqueue_modules.Shared.Protocol.{Act, Step}

abbrev pub act_of : Call → Act
act_of (enqueues name payload opts id now) = Act.enqueues id
act_of (claims c lease) = Act.claims
act_of (reaps name now) = Act.reaps name now
act_of (completes r none o now) = Act.completes r.id
act_of (completes r (some message) o now) = Act.fails
act_of (requeues name id now) = Act.requeues id name now
act_of (deletes name id) = Act.deletes id name

module _ (T : Table) (j : Json) where
  open T use {Db, rows}

  -- The handle that a call leaves, and the step to its rows.
  abbrev pub Steps : Act → Db → GormWorkQueue Db → Type 0
  Steps a d q' = (d' : Db) × (q'.db ≡ some d') × Step a (rows d) (rows d')

  abbrev with_db : GormWorkQueue Db → Db → GormWorkQueue Db
  with_db q d = record q { db = some d }

  enqueue-Steps :
      (q : GormWorkQueue Db) (d : Db) (name : String) (payload : List ℕ) (opts : List EnqueueOption)
      (id : String) (now : Time)
      → Steps (Act.enqueues id) d (enqueue T j (with_db q d) name payload opts id now).0
  unfolding enqueue insert_task new_record broadcast_local
  enqueue-Steps q d name payload opts id now =
      let o = new_enqueue_options opts in
      elim (Option-cases (encode_metadata j o.metadata)) [
        | inl k ↦ (d, rw (enqueue, k) refl, inl refl)
        | inr (metadata, k) ↦
            let r = new_record id name payload metadata o now in
            let d' = (T.create d r).0 in
            let step : Step (Act.enqueues id) (rows d) (rows d') = elim (create-rows T d r) [
              | inl e ↦ inl e
              | inr (same, is_new) ↦ inr (r, refl, same, is_new)
            ] in
            elim (Bool-cases ((T.create d r).1)) [
              | inl t ↦ (d', rw (enqueue, k, insert_task, t) refl, step)
              | inr t ↦ (d', rw (enqueue, k, insert_task, t) refl, step)
            ]
      ]

  requeue-Steps :
      (q : GormWorkQueue Db) (d : Db) (name id : String) (now : Time)
      → Steps (Act.requeues id name now) d (requeue_dead_task T (with_db q d) name id now).0
  unfolding requeue_dead_task broadcast_local
  requeue-Steps q d name id now =
      let p = is_dead id name in
      let d' = (T.update d p (revived now)).0 in
      let step : Step (Act.requeues id name now) (rows d) (rows d') =
        elim (update-rows T d p (revived now)) [ inl e ↦ inl e | inr e ↦ inr e ] in
      elim (Option-cases ((T.update d p (revived now)).1)) [
        | inl e ↦ (d', rw (requeue_dead_task, e) refl, step)
        | inr (zero, e) ↦ (d', rw (requeue_dead_task, e) refl, step)
        | inr (suc n, e) ↦ (d', rw (requeue_dead_task, e) refl, step)
      ]

  pub call-Steps :
      (q : GormWorkQueue Db) (d : Db) (c : Call) → Steps (act_of c) d (call T j (with_db q d) c)
  unfolding call delete_dead_task try_claim reap_expired_leases complete
  call-Steps q d (enqueues name payload opts id now) = enqueue-Steps q d name payload opts id now
  call-Steps q d (claims c lease) = (
    (T.update d (is_attempt c pending) (started lease)).0,
    refl,
    elim (update-rows T d (is_attempt c pending) (started lease)) [
      | inl e ↦ inl e
      | inr e ↦ inr (c, lease, e)
    ],
  )
  call-Steps q d (reaps name now) = (
    (T.update d (is_expired name now) reaped).0,
    refl,
    elim (update-rows T d (is_expired name now) reaped) [ inl e ↦ inl e | inr e ↦ inr e ],
  )
  call-Steps q d (completes r none o now) =
      ((T.delete d (λ s. str_eq s.id r.id)).0, refl, delete-rows T d (λ s. str_eq s.id r.id))
  call-Steps q d (completes r (some message) o now) =
      let (f, ends, same, is_failure) = complete-db T (with_db q d) d r message o now in
      let p = is_attempt r running in
      (
        (T.update d p f).0,
        ends,
        elim (update-rows T d p f) [ inl e ↦ inl e | inr e ↦ inr (r, f, is_failure, e) ],
      )
  call-Steps q d (requeues name id now) = requeue-Steps q d name id now
  call-Steps q d (deletes name id) = (
    (T.delete d (is_dead id name)).0,
    refl,
    elim (delete-rows T d (is_dead id name)) [ inl e ↦ inl e | inr e ↦ inr e ],
  )
