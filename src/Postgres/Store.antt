-- ===== src/Postgres/Store.antt =====
-- What postgres_workqueue takes from PostgreSQL beyond the task table: the statement that claims a
-- row, NOTIFY, and transactions.
use workqueue_modules.Prelude.{
  ◌≡◌, ◌⊎◌, String, Bool, true, false, Option, none, some, List, ◌∷◌, Mem, str_eq,
}
use workqueue_modules.Sql.{TaskRecord, Table, updated}

pub record Postgres : Type 1 where
  pub table : Table
  -- The notifications that were delivered, as channel and payload, the latest first.
  pub sent : table.Db → List (String × String)
  -- `UPDATE … SET f WHERE id = (SELECT id … WHERE p ORDER BY before LIMIT 1 FOR UPDATE SKIP LOCKED)
  -- RETURNING *`, when other transactions hold locks on the rows of `locked`.
  pub update_first :
      table.Db
      → (TaskRecord → Bool)
      → (TaskRecord → Bool)
      → (TaskRecord → TaskRecord → Bool)
      → (TaskRecord → TaskRecord)
      → table.Db × Option (Option TaskRecord)
  -- `SELECT pg_notify(channel, payload)`
  pub pg_notify : table.Db → String → String → table.Db × Bool
  -- GORM's `Transaction`: the second argument is the error of a transaction that does not begin or
  -- commit.
  pub transaction :
      {E : Type 0} → table.Db → E → (table.Db → table.Db × Option E) → table.Db × Option E
  pub notify_sends :
      (d : table.Db) (channel payload : String)
      → (pg_notify d channel payload).1 ≡ true
      → (sent (pg_notify d channel payload).0 ≡ (channel, payload) ∷ sent d)
        × (table.rows (pg_notify d channel payload).0 ≡ table.rows d)
  pub notify_fails :
      (d : table.Db) (channel payload : String)
      → (pg_notify d channel payload).1 ≡ false
      → (sent (pg_notify d channel payload).0 ≡ sent d)
        × (table.rows (pg_notify d channel payload).0 ≡ table.rows d)
  -- A transaction that succeeds did what its body did, and one that fails did nothing.
  pub commits :
      {E : Type 0} (d : table.Db) (e : E) (body : table.Db → table.Db × Option E)
      → (transaction d e body).1 ≡ none
      → ((body d).1 ≡ none)
        × (table.rows (transaction d e body).0 ≡ table.rows (body d).0)
        × (sent (transaction d e body).0 ≡ sent (body d).0)
  pub rolls_back :
      {E : Type 0} (d : table.Db) (e e' : E) (body : table.Db → table.Db × Option E)
      → (transaction d e body).1 ≡ some e'
      → ((e' ≡ e) ⊎ ((body d).1 ≡ some e'))
        × (table.rows (transaction d e body).0 ≡ table.rows d)
        × (sent (transaction d e body).0 ≡ sent d)
  pub first_fails :
      (d : table.Db) (locked p : TaskRecord → Bool) (before : TaskRecord → TaskRecord → Bool)
      (f : TaskRecord → TaskRecord)
      → (update_first d locked p before f).1 ≡ none
      → table.rows (update_first d locked p before f).0 ≡ table.rows d
  -- No row is returned when each that satisfies the condition is locked.
  pub first_misses :
      (d : table.Db) (locked p : TaskRecord → Bool) (before : TaskRecord → TaskRecord → Bool)
      (f : TaskRecord → TaskRecord)
      → (update_first d locked p before f).1 ≡ some none
      → (table.rows (update_first d locked p before f).0 ≡ table.rows d)
        × ((s : TaskRecord) → Mem s (table.rows d) → p s ≡ true → locked s ≡ true)
  -- The row returned is the first that is free, as it is after the update.
  pub first_sets :
      (d : table.Db) (locked p : TaskRecord → Bool) (before : TaskRecord → TaskRecord → Bool)
      (f : TaskRecord → TaskRecord) (r : TaskRecord)
      → (update_first d locked p before f).1 ≡ some (some r)
      → (c : TaskRecord) × Mem c (table.rows d)
        × (p c ≡ true)
        × (locked c ≡ false)
        × (r ≡ f c)
        × ((s : TaskRecord)
            → Mem s (table.rows d)
            → p s ≡ true
            → locked s ≡ false
            → before s c ≡ false)
        × (table.rows (update_first d locked p before f).0
            ≡ updated (λ s. str_eq s.id c.id) f (table.rows d))
  -- The other statements on the table notify nobody.
  pub create_sends : (d : table.Db) (r : TaskRecord) → sent (table.create d r).0 ≡ sent d
  pub update_sends :
      (d : table.Db) (p : TaskRecord → Bool) (f : TaskRecord → TaskRecord)
      → sent (table.update d p f).0 ≡ sent d
