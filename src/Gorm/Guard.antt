-- ===== src/Gorm/Guard.antt =====
-- gorm_workqueue/workqueue.go: a worker whose lease has expired, and whose task another worker has
-- claimed since, reports a failure.
use mathlib.Core.List.{mem-cons_self, mem-cons_of_mem}
use workqueue_modules.Prelude.{
  ◌≡◌, ◌≢◌, inl, inr, refl, ◌∙◌, String, Bool, false, some, List, [], ◌∷◌, Mem, Option-cases,
}
use workqueue_modules.Workqueue.{Time}
use workqueue_modules.Workqueue.Options.{ConsumeOptions}
use workqueue_modules.Sql.{TaskRecord, running, Table, updated}
use workqueue_modules.Sql.Meaning.{attempt_gone}
use workqueue_modules.Gorm.Rows.{is_attempt}
use workqueue_modules.Gorm.State.{GormWorkQueue}
use workqueue_modules.Gorm.Calls.{complete-db}
use workqueue_modules.Gorm.{complete}

updated_none :
    (p : TaskRecord → Bool) (f : TaskRecord → TaskRecord) (rs : List TaskRecord)
    → ((r : TaskRecord) → Mem r rs → p r ≡ false)
    → updated p f rs ≡ rs
unfolding updated
updated_none p f [] h = refl
updated_none p f (r ∷ rs) h =
    rw (h r mem-cons_self, updated_none p f rs (λ x m. h x (mem-cons_of_mem r m))) refl

module _ (T : Table) where
  open T use {Db, rows}

  -- A failure reported for a delivery leaves every row of the table as it is, when every row
  -- that is running under its identifier has another attempt count: the row was handed back, was claimed anew, was buried, or
  -- is gone. This holds whether the database fails or not.
  pub stale_failure_keeps :
      (q : GormWorkQueue Db) (d : Db) (r : TaskRecord) (message : String) (o : ConsumeOptions)
      (now : Time)
      → ((s : TaskRecord)
          → Mem s (rows d)
          → s.id ≡ r.id
          → s.status ≡ running
          → s.attempts ≢ r.attempts)
      → (d' : Db) × ((complete T q d r (some message) o now).db ≡ some d') × (rows d' ≡ rows d)
  stale_failure_keeps q d r message o now stale =
      let (f, ends, _, _) = complete-db T q d r message o now in
      let p = is_attempt r running in
      let d' = (T.update d p f).0 in
      elim (Option-cases ((T.update d p f).1)) [
        | inl e ↦ (d', ends, T.update_fails d p f e)
        | inr (n, e) ↦ (
          d',
          ends,
          (T.update_sets d p f n e).0
              ∙ updated_none p f (rows d) (λ s m. attempt_gone r s (stale s m)),
        )
      ]
