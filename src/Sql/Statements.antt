-- ===== src/Sql/Statements.antt =====
-- What one statement of a database backend does to the rows, whether it fails or not.
use workqueue_modules.Prelude.{
  ◌≡◌, ◌≢◌, ◌⊎◌, inl, inr, Bool, ◌∷◌, Mem, Perm, Bool-cases, Option-cases,
}
use workqueue_modules.Sql.{TaskRecord, Table, updated, deleted}

module _ (T : Table) where
  open T use {Db, rows}

  pub create-rows :
      (d : Db) (r : TaskRecord)
      → (rows (T.create d r).0 ≡ rows d)
        ⊎ (Perm (rows (T.create d r).0) (r ∷ rows d)
            × ((s : TaskRecord) → Mem s (rows d) → s.id ≢ r.id))
  create-rows d r = elim (Bool-cases ((T.create d r).1)) [
    | inl e ↦ inr (T.create_adds d r e)
    | inr e ↦ inl (T.create_fails d r e)
  ]

  pub update-rows :
      (d : Db) (p : TaskRecord → Bool) (f : TaskRecord → TaskRecord)
      → (rows (T.update d p f).0 ≡ rows d) ⊎ (rows (T.update d p f).0 ≡ updated p f (rows d))
  update-rows d p f = elim (Option-cases ((T.update d p f).1)) [
    | inl e ↦ inl (T.update_fails d p f e)
    | inr (n, e) ↦ inr (T.update_sets d p f n e).0
  ]

  pub delete-rows :
      (d : Db) (p : TaskRecord → Bool)
      → (rows (T.delete d p).0 ≡ rows d) ⊎ (rows (T.delete d p).0 ≡ deleted p (rows d))
  delete-rows d p = elim (Option-cases ((T.delete d p).1)) [
    | inl e ↦ inl (T.delete_fails d p e)
    | inr (n, e) ↦ inr (T.delete_drops d p n e).0
  ]
