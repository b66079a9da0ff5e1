-- ===== src/Postgres/Transactions.antt =====
-- postgres_workqueue/workqueue.go: the bodies of the transactions of Enqueue and RequeueDeadTask, and
-- what a call leaves when its transaction commits or rolls back.
use workqueue_modules.Prelude.{
  ℕ, zero, suc, ◌≡◌, ◌<◌, sym, ap, ◌∙◌, ◌⊎◌, inl, inr, String, true, none, some, ◌∷◌, Perm, lookup,
  length, arith, Option-cases, Bool-cases,
}
use workqueue_modules.Workqueue.{Time}
use workqueue_modules.Sql.{where_rows, updated}
use workqueue_modules.Postgres.Model.{TaskRecord}
use workqueue_modules.Postgres.Store.{Postgres}
use workqueue_modules.Postgres.State.{PostgresWorkQueue}
use workqueue_modules.Postgres.{
  Error, database, task_not_found, is_dead, revived, insert_and_notify, revive_and_notify,
}

module _ (S : Postgres) where
  open S use {table, sent, pg_notify, transaction}

  -- Nothing changed in the database, and nobody was woken.
  pub record Unchanged (q q' : PostgresWorkQueue table.Db) (d d' : table.Db) : Type 0 where
    pub handle : q'.db ≡ some d'
    pub rows : table.rows d' ≡ table.rows d
    pub sent : sent d' ≡ sent d
    pub closed : q'.closed ≡ q.closed

  -- The workers of this process and of all the others are told of a change on the queue.
  pub record Announced (q q' : PostgresWorkQueue table.Db) (d d' : table.Db) (name : String)
      : Type 0 where
    pub handle : q'.db ≡ some d'
    pub sent : sent d' ≡ (q.config.notify_channel, name) ∷ sent d
    pub closed : (c : ℕ) → lookup name q.notifies ≡ some c → q'.closed c ≡ true

  -- A statement, with a notification after it, succeeds when both do.
  pub insert_and_notify-commits :
      (channel : String) (r : TaskRecord) (d : table.Db)
      → (insert_and_notify S channel r d).1 ≡ none
      → Perm (table.rows (insert_and_notify S channel r d).0) (r ∷ table.rows d)
        × (sent (insert_and_notify S channel r d).0 ≡ (channel, r.queue) ∷ sent d)
  unfolding insert_and_notify
  insert_and_notify-commits channel r d h =
      let d' = (table.create d r).0 in
      elim (Bool-cases ((table.create d r).1)) [
        | inr e ↦ absurd (ground arith)
        | inl e ↦ elim (Bool-cases ((pg_notify d' channel r.queue).1)) [
          | inr n ↦ absurd (ground arith)
          | inl n ↦
              let (sends, keeps) = S.notify_sends d' channel r.queue n in
              (
                rw (e, keeps) ((S.table.create_adds d r e).0),
                rw e (sends ∙ ap (◌∷◌ (channel, r.queue)) (S.create_sends d r)),
              )
        ]
      ]

  pub insert_and_notify-fails :
      (channel : String) (r : TaskRecord) (d : table.Db) (e : Error)
      → (insert_and_notify S channel r d).1 ≡ some e
      → e ≡ database
  unfolding insert_and_notify
  insert_and_notify-fails channel r d e h = ground (
    arith,
    Bool-cases ((table.create d r).1),
    Bool-cases ((pg_notify (table.create d r).0 channel r.queue).1),
  )

  pub revive_and_notify-commits :
      (channel name id : String) (now : Time) (d : table.Db)
      → (revive_and_notify S channel name id now d).1 ≡ none
      → (table.rows (revive_and_notify S channel name id now d).0
          ≡ updated (is_dead id name) (revived now) (table.rows d))
        × (0 < length (where_rows (is_dead id name) (table.rows d)))
        × (sent (revive_and_notify S channel name id now d).0 ≡ (channel, name) ∷ sent d)
  unfolding revive_and_notify
  revive_and_notify-commits channel name id now d h =
      let changed = (table.update d (is_dead id name) (revived now)).1 in
      let d' = (table.update d (is_dead id name) (revived now)).0 in
      elim (Option-cases changed) [
        | inl e ↦ absurd (ground (arith, e))
        | inr (zero, e) ↦ absurd (ground (arith, e))
        | inr (suc n, e) ↦ elim (Bool-cases ((pg_notify d' channel name).1)) [
          | inr f ↦ absurd (ground (arith, e))
          | inl f ↦
              let (sends, keeps) = S.notify_sends d' channel name f in
              let (sets, count) = S.table.update_sets d (is_dead id name) (revived now) (suc n) e in
              (
                rw (revive_and_notify, e, keeps) sets,
                omega (arith, count),
                rw (revive_and_notify, e)
                    (sends
                      ∙ ap (◌∷◌ (channel, name))
                          (S.update_sends d (is_dead id name) (revived now))),
              )
        ]
      ]

  pub revive_and_notify-fails :
      (channel name id : String) (now : Time) (d : table.Db) (e : Error)
      → (revive_and_notify S channel name id now d).1 ≡ some e
      → (e ≡ database)
        ⊎ ((e ≡ task_not_found) × (length (where_rows (is_dead id name) (table.rows d)) ≡ 0))
  unfolding revive_and_notify
  revive_and_notify-fails channel name id now d e h =
      let changed = (table.update d (is_dead id name) (revived now)).1 in
      let d' = (table.update d (is_dead id name) (revived now)).0 in
      elim (Option-cases changed) [
        | inl f ↦ inl (ground (arith, f))
        | inr (zero, f) ↦
            let (_, count) = S.table.update_sets d (is_dead id name) (revived now) 0 f in
            inr (ground (arith, f), sym count)
        | inr (suc n, f) ↦ inl (ground (arith, f, Bool-cases ((pg_notify d' channel name).1)))
      ]
