-- ===== src/Gorm/Passed.antt =====
-- gorm_workqueue/workqueue.go: the attempts guard of the claim, over histories of the backend's
-- calls, whichever process makes them.
use mathlib.Core.List.{mem-cons, not-mem-nil, mem-cons_self, mem-cons_of_mem}
use mathlib.Core.Logic.Or
use mathlib.Core.Bool.{Bool-set}
use workqueue_modules.Prelude.{
  ◌≡◌, refl, sym, ap, ◌∙◌, Bool, true, List, [], ◌∷◌, Mem, arith, eq_iff, if_intro,
}
use workqueue_modules.Prelude.Int.{ltb_ℤ}
use workqueue_modules.Workqueue.{Time}
use workqueue_modules.Sql.{TaskRecord, pending, where_rows, updated, deleted}
use workqueue_modules.Gorm.Rows.{is_attempt, started}

-- Every row with the identifier of `c` is past the attempt that `c` stands at.
abbrev pub Passed : TaskRecord → List TaskRecord → Type 0
Passed c rs = (r : TaskRecord) → Mem r rs → r.id ≡ c.id → ltb_ℤ c.attempts r.attempts ≡ true

-- A change of a row keeps it past the attempt.
abbrev pub Keeps : TaskRecord → (TaskRecord → Bool) → (TaskRecord → TaskRecord) → Type 0
Keeps c p f =
    (r : TaskRecord)
    → p r ≡ true
    → (f r).id ≡ c.id
    → (r.id ≡ c.id → ltb_ℤ c.attempts r.attempts ≡ true)
    → ltb_ℤ c.attempts (f r).attempts ≡ true

module _ (c : TaskRecord) where
  pub Passed-updated :
      (p : TaskRecord → Bool) (f : TaskRecord → TaskRecord) (rs : List TaskRecord)
      → Keeps c p f
      → Passed c rs
      → Passed c (updated p f rs)
  unfolding updated
  Passed-updated p f [] keeps h s m e = absurd (not-mem-nil m)
  Passed-updated p f (r ∷ rs) keeps h s m e =
      Or.elim (Bool-set _ _) (mem-cons.0 m)
        (λ same. rw same (
          if_intro (λ (x : TaskRecord). x.id ≡ c.id → ltb_ℤ c.attempts x.attempts ≡ true) (p r)
            (λ t u. keeps r t u (h r mem-cons_self)) (λ t u. h r mem-cons_self u)
            (ap (λ x. x.id) (sym same) ∙ e)))
        (λ rest. Passed-updated p f rs keeps (λ x k. h x (mem-cons_of_mem r k)) s rest e)

  pub Passed-deleted :
      (p : TaskRecord → Bool) (rs : List TaskRecord) → Passed c rs → Passed c (deleted p rs)
  unfolding deleted
  Passed-deleted p [] h = h
  Passed-deleted p (r ∷ rs) h =
      let rest = Passed-deleted p rs (λ x k. h x (mem-cons_of_mem r k)) in
      if_intro (Passed c) (p r) (λ t. rest)
        (λ t s m e.
          Or.elim (Bool-set _ _) (mem-cons.0 m)
            (λ same. rw same (h r mem-cons_self (ap (λ x. x.id) (sym same) ∙ e))) (λ k. rest s k e))

  -- The claim of an attempt passes it.
  pub Passed-claimed :
      (lease : Time) (rs : List TaskRecord)
      → ((r : TaskRecord) → Mem r rs → r.id ≡ c.id → is_attempt c pending r ≡ true)
      → Passed c (updated (is_attempt c pending) (started lease) rs)
  unfolding updated
  Passed-claimed lease [] h s m e = absurd (not-mem-nil m)
  Passed-claimed lease (r ∷ rs) h s m e =
      Or.elim (Bool-set _ _) (mem-cons.0 m)
        (λ same. rw same (
          if_intro (λ (x : TaskRecord). x.id ≡ c.id → ltb_ℤ c.attempts x.attempts ≡ true)
            (is_attempt c pending r) (λ t u. ground arith)
            (λ t u. absurd (ground (arith, h r mem-cons_self u))) (ap (λ x. x.id) (sym same) ∙ e)))
        (λ rest. Passed-claimed lease rs (λ x k. h x (mem-cons_of_mem r k)) s rest e)

  -- No row is at an attempt that has been passed.
  pub Passed-none : (rs : List TaskRecord) → Passed c rs → where_rows (is_attempt c pending) rs ≡ []
  unfolding where_rows
  Passed-none [] h = refl
  Passed-none (r ∷ rs) h =
      let rest = Passed-none rs (λ x k. h x (mem-cons_of_mem r k)) in
      ground (arith, rest, h r mem-cons_self, eq_iff r.id c.id)
