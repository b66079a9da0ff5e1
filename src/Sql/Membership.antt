-- ===== src/Sql/Membership.antt =====
-- Which rows satisfy a condition, and where they are after an UPDATE.
use mathlib.Core.List.{mem-cons, not-mem-nil, mem-cons_self, mem-cons_of_mem, Mem-prop}
use mathlib.Core.Logic.Or
use mathlib.Core.Logic.{∥∥₁_elim}
use mathlib.Core.HLevel.{×_prop}
use mathlib.Core.Bool.{Bool-set}
use workqueue_modules.Prelude.{
  ◌≡◌, refl, ap, ◌∙◌, inl, inr, Bool, true, false, List, [], ◌∷◌, Mem, arith, if_intro, Bool-cases,
  if◌then◌else◌,
}
use workqueue_modules.Sql.{TaskRecord, where_rows, updated, deleted}

pub mem-where_rows :
    (p : TaskRecord → Bool) (rs : List TaskRecord) (s : TaskRecord)
    → Mem s rs
    → p s ≡ true
    → Mem s (where_rows p rs)
unfolding where_rows
mem-where_rows p [] s m h = absurd (not-mem-nil m)
mem-where_rows p (r ∷ rs) s m h =
    if_intro (λ l. Mem s l) (p r)
      (λ e.
        Or.elim Mem-prop (mem-cons.0 m) (λ same. rw same mem-cons_self)
          (λ rest. mem-cons_of_mem r (mem-where_rows p rs s rest h)))
      (λ e.
        Or.elim Mem-prop (mem-cons.0 m) (λ same. absurd (ground (arith, ap p same)))
          (λ rest. mem-where_rows p rs s rest h))

pub where_rows-mem :
    (p : TaskRecord → Bool) (rs : List TaskRecord) (s : TaskRecord)
    → Mem s (where_rows p rs)
    → Mem s rs × (p s ≡ true)
unfolding where_rows
where_rows-mem p [] s m = absurd (not-mem-nil m)
where_rows-mem p (r ∷ rs) s m = elim (Bool-cases (p r)) [
  | inl e ↦
      let m' : Mem s (r ∷ where_rows p rs) = rw (where_rows, e) at m in
      Or.elim (×_prop Mem-prop (Bool-set _ _)) (mem-cons.0 m')
        (λ same. (rw same mem-cons_self, ap p same ∙ e))
        (λ rest.
          let (inside, holds) = where_rows-mem p rs s rest in (mem-cons_of_mem r inside, holds))
  | inr e ↦
      let m' : Mem s (where_rows p rs) = rw (where_rows, e) at m in
      let (inside, holds) = where_rows-mem p rs s m' in (mem-cons_of_mem r inside, holds)
]

-- A row, as an UPDATE leaves it, is in the table afterwards.
pub mem-updated :
    (p : TaskRecord → Bool) (f : TaskRecord → TaskRecord) (rs : List TaskRecord) (s : TaskRecord)
    → Mem s rs
    → Mem (if p s then f s else s) (updated p f rs)
unfolding updated
mem-updated p f [] s m = absurd (not-mem-nil m)
mem-updated p f (r ∷ rs) s m =
    Or.elim Mem-prop (mem-cons.0 m) (λ same. rw same mem-cons_self)
      (λ rest. mem-cons_of_mem _ (mem-updated p f rs s rest))

-- A row after an UPDATE was there before, up to the assignment.
pub updated-mem :
    (p : TaskRecord → Bool) (f : TaskRecord → TaskRecord) (rs : List TaskRecord) (s : TaskRecord)
    → Mem s (updated p f rs)
    → ∥ ((r : TaskRecord) × Mem r rs × (s ≡ (if p r then f r else r))) ∥₁
unfolding updated
updated-mem p f [] s m = absurd (not-mem-nil m)
updated-mem p f (r ∷ rs) s m =
    Or.elim (hlevel) (mem-cons.0 m) (λ same. ∣ (r, mem-cons_self, same) ∣₁)
      (λ rest.
        ∥∥₁_elim (updated-mem p f rs s rest) (hlevel)
          (λ found. ∣ (found.0, mem-cons_of_mem r found.1, found.2) ∣₁))

pub mem-deleted :
    (p : TaskRecord → Bool) (rs : List TaskRecord) (s : TaskRecord)
    → Mem s rs
    → p s ≡ false
    → Mem s (deleted p rs)
unfolding deleted
mem-deleted p [] s m h = absurd (not-mem-nil m)
mem-deleted p (r ∷ rs) s m h =
    Or.elim Mem-prop (mem-cons.0 m)
      (λ same.
        if_intro (λ l. Mem s l) (p r) (λ e. absurd (ground (arith, ap p same)))
          (λ e. rw same mem-cons_self))
      (λ rest.
        if_intro (λ l. Mem s l) (p r) (λ e. mem-deleted p rs s rest h)
          (λ e. mem-cons_of_mem r (mem-deleted p rs s rest h)))

pub deleted-mem :
    (p : TaskRecord → Bool) (rs : List TaskRecord) (s : TaskRecord)
    → Mem s (deleted p rs)
    → Mem s rs
unfolding deleted
deleted-mem p [] s m = m
deleted-mem p (r ∷ rs) s m = elim (Bool-cases (p r)) [
  | inl e ↦
      let m' : Mem s (deleted p rs) = rw (deleted, e) at m in
      mem-cons_of_mem r (deleted-mem p rs s m')
  | inr e ↦
      let m' : Mem s (r ∷ deleted p rs) = rw (deleted, e) at m in
      Or.elim Mem-prop (mem-cons.0 m') (λ same. rw same mem-cons_self)
        (λ rest. mem-cons_of_mem r (deleted-mem p rs s rest))
]

-- What an UPDATE that leaves the identifiers does.
pub updated-mem_id :
    (p : TaskRecord → Bool) (f : TaskRecord → TaskRecord) (rs : List TaskRecord) (s : TaskRecord)
    → ((r : TaskRecord) → (f r).id ≡ r.id)
    → Mem s (updated p f rs)
    → ∥ ((r : TaskRecord) × Mem r rs × (s.id ≡ r.id)) ∥₁
updated-mem_id p f rs s same m = ∥∥₁_elim (updated-mem p f rs s m) (hlevel) (λ found. ∣ (
  found.0,
  found.1,
  ap (λ x. x.id) found.2
      ∙ if_intro (λ (x : TaskRecord). x.id ≡ found.0.id) (p found.0) (λ e. same found.0)
          (λ e. refl),
) ∣₁)
