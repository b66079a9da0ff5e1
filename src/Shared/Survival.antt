-- ===== src/Shared/Survival.antt =====
-- The tasks of a shared table, over the histories of both database backends.
use mathlib.Core.List.{mem-cons_of_mem}
use mathlib.Core.List.Perm
use mathlib.Core.Logic.{∥∥₁_elim}
use workqueue_modules.Prelude.{
  ◌≡◌, ◌≢◌, refl, sym, subst, ap, inl, inr, String, Bool, false, List, Mem, arith, str_eq, eq_iff,
  if_intro, if◌then◌else◌,
}
use workqueue_modules.Sql.{TaskRecord, Json, pending, running, dead, updated, deleted}
use workqueue_modules.Sql.Membership.{mem-updated, mem-deleted}
use workqueue_modules.Sql.Keys.{IsKeyed}
use workqueue_modules.Gorm.Rows.{is_attempt, is_expired, is_dead, started, reaped, revived}
use workqueue_modules.Gorm.Calls.{IsFailure}
use workqueue_modules.Postgres.Store.{Postgres}
use workqueue_modules.Shared.Protocol.{
  Act, enqueues, completes, requeues, deletes, claims, reaps, fails, Changes, Step,
}
use workqueue_modules.Shared.History.{Move, All, run, run_keeps}

-- The rows are of one task, as it was enqueued.
pub record SameTask (r s : TaskRecord) : Type 0 where
  pub id : s.id ≡ r.id
  pub queue : s.queue ≡ r.queue
  pub payload : s.payload ≡ r.payload
  pub metadata : s.metadata ≡ r.metadata
  pub max_retries : s.max_retries ≡ r.max_retries
  pub enqueued_at : s.enqueued_at ≡ r.enqueued_at

-- The call neither completes the task without an error nor deletes it.
abbrev pub Spares : String → Act → Type 0
Spares id (completes other) = other ≢ id
Spares id (deletes other name) = other ≢ id
Spares id _ = Unit {0}

-- Nor does it requeue the task.
abbrev pub SparesDead : String → Act → Type 0
SparesDead id (completes other) = other ≢ id
SparesDead id (deletes other name) = other ≢ id
SparesDead id (requeues other name now) = other ≢ id
SparesDead id _ = Unit {0}

-- Some row is of the task.
abbrev pub Survives : TaskRecord → List TaskRecord → Type 0
Survives r rs = ∥ ((s : TaskRecord) × Mem s rs × SameTask r s) ∥₁

failure-SameTask :
    (r s : TaskRecord) (f : TaskRecord → TaskRecord) → IsFailure f → SameTask r s → SameTask r (f s)
failure-SameTask r s f (message, at, inl e) same =
    ground (arith, ap (λ (g : TaskRecord → TaskRecord). g s) e)
failure-SameTask r s f (message, at, inr e) same =
    ground (arith, ap (λ (g : TaskRecord → TaskRecord). g s) e)

module _ (r : TaskRecord) where
  updated-Survives :
      (p : TaskRecord → Bool) (f : TaskRecord → TaskRecord) (rs rs' : List TaskRecord)
      → rs' ≡ updated p f rs
      → ((s : TaskRecord) → SameTask r s → SameTask r (f s))
      → Survives r rs
      → Survives r rs'
  updated-Survives p f rs rs' e keeps h = ∥∥₁_elim h (hlevel) (λ found.
      let s = found.0 in
      ∣ (
        (if p s then f s else s),
        subst (Mem _) (sym e) (mem-updated p f rs s found.1),
        if_intro (SameTask r) (p s) (λ t. keeps s found.2) (λ t. found.2),
      ) ∣₁)

  deleted-Survives :
      (p : TaskRecord → Bool) (rs rs' : List TaskRecord)
      → rs' ≡ deleted p rs
      → ((s : TaskRecord) → s.id ≡ r.id → p s ≡ false)
      → Survives r rs
      → Survives r rs'
  deleted-Survives p rs rs' e keeps h = ∥∥₁_elim h (hlevel) (λ found.
      let s = found.0 in
      ∣ (s, subst (Mem s) (sym e) (mem-deleted p rs s found.1 (keeps s found.2.id)), found.2) ∣₁)

  Changes-Survives :
      (a : Act) (rs rs' : List TaskRecord)
      → Spares r.id a
      → Changes a rs rs'
      → Survives r rs
      → Survives r rs'
  Changes-Survives (enqueues id) rs rs' spares (x, _, same, _) h =
      ∥∥₁_elim h (hlevel)
        (λ found. ∣ (found.0, (Perm.mem_iff same).1 (mem-cons_of_mem x found.1), found.2) ∣₁)
  Changes-Survives (completes id) rs rs' spares e h =
      deleted-Survives (λ s. str_eq s.id id) rs rs' e (λ s same. ground (arith, eq_iff s.id id)) h
  Changes-Survives (requeues id name now) rs rs' spares e h =
      updated-Survives (is_dead id name) (revived now) rs rs' e (λ s same. ground arith) h
  Changes-Survives (deletes id name) rs rs' spares e h =
      deleted-Survives (is_dead id name) rs rs' e (λ s same. ground (arith, eq_iff s.id id)) h
  Changes-Survives claims rs rs' spares (c, lease, e) h =
      updated-Survives (is_attempt c pending) (started lease) rs rs' e (λ s same. ground arith) h
  Changes-Survives (reaps name now) rs rs' spares e h =
      updated-Survives (is_expired name now) reaped rs rs' e (λ s same. ground arith) h
  Changes-Survives fails rs rs' spares (c, f, is_failure, e) h =
      updated-Survives (is_attempt c running) f rs rs' e
        (λ s same. failure-SameTask r s f is_failure same) h

  Step-Survives :
      (a : Act) (rs rs' : List TaskRecord)
      → Spares r.id a
      → IsKeyed rs
      → Step a rs rs'
      → Survives r rs
      → Survives r rs'
  Step-Survives a rs rs' spares keyed (inl e) h = subst (Survives r) (sym e) h
  Step-Survives a rs rs' spares keyed (inr changes) h = Changes-Survives a rs rs' spares changes h

  -- A dead row stands where it stood.
  updated-dead :
      (p : TaskRecord → Bool) (f : TaskRecord → TaskRecord) (rs rs' : List TaskRecord)
      → rs' ≡ updated p f rs
      → p r ≡ false
      → Mem r rs
      → Mem r rs'
  updated-dead p f rs rs' e misses h =
      subst (Mem r) (sym e)
        (subst (λ b. Mem (if b then f r else r) (updated p f rs)) misses (mem-updated p f rs r h))

  Step-dead :
      (a : Act) (rs rs' : List TaskRecord)
      → SparesDead r.id a × (r.status ≡ dead)
      → Step a rs rs'
      → Mem r rs
      → Mem r rs'
  Step-dead a rs rs' spares (inl e) h = subst (Mem r) (sym e) h
  Step-dead (enqueues id) rs rs' spares (inr (x, _, same, _)) h =
      (Perm.mem_iff same).1 (mem-cons_of_mem x h)
  Step-dead (completes id) rs rs' (spares, is_dead_row) (inr e) h =
      subst (Mem r) (sym e)
        (mem-deleted (λ s. str_eq s.id id) rs r h (ground (arith, eq_iff r.id id)))
  Step-dead (requeues id name now) rs rs' (spares, is_dead_row) (inr e) h =
      updated-dead (is_dead id name) (revived now) rs rs' e (ground (arith, eq_iff r.id id)) h
  Step-dead (deletes id name) rs rs' (spares, is_dead_row) (inr e) h =
      subst (Mem r) (sym e) (mem-deleted (is_dead id name) rs r h (ground (arith, eq_iff r.id id)))
  Step-dead claims rs rs' (spares, is_dead_row) (inr (c, lease, e)) h =
      updated-dead (is_attempt c pending) (started lease) rs rs' e (ground arith) h
  Step-dead (reaps name now) rs rs' (spares, is_dead_row) (inr e) h =
      updated-dead (is_expired name now) reaped rs rs' e (ground arith) h
  Step-dead fails rs rs' (spares, is_dead_row) (inr (c, f, is_failure, e)) h =
      updated-dead (is_attempt c running) f rs rs' e (ground arith) h

module _ (S : Postgres) (j : Json) where
  open S use {table}

  -- No task of a shared table is lost or doubled. As long as no call completes it without an error or
  -- deletes it, a task of the table is there after every history of calls of both backends, of any
  -- processes and however their statements fail: with its identifier, queue, payload, metadata,
  -- retry budget and time of enqueueing, in a row that no other row shares the identifier with.
  -- Identifiers are unique in the table at the start.
  pub no_task_lost :
      (d : table.Db) (ms : List (Move table.Db)) (r : TaskRecord)
      → IsKeyed (table.rows d)
      → Mem r (table.rows d)
      → All (Spares r.id) ms
      → IsKeyed (table.rows (run S j d ms))
        × ∥ ((s : TaskRecord) × Mem s (table.rows (run S j d ms)) × SameTask r s) ∥₁
  no_task_lost d ms r keyed inside spares =
      run_keeps S j (Spares r.id) (Survives r) (Step-Survives r) d ms spares keyed ∣ (
        r,
        inside,
        record {
          id = refl;
          queue = refl;
          payload = refl;
          metadata = refl;
          max_retries = refl;
          enqueued_at = refl;
        },
      ) ∣₁

  -- A dead letter of a shared table stays as it is, in every column, over every history of calls of
  -- both backends in which none requeues or deletes it, or completes it without an error: no claim,
  -- lease reaping or failure of a worker that still runs it changes it. Identifiers are
  -- unique in the table at the start.
  pub dead_letter_stays :
      (d : table.Db) (ms : List (Move table.Db)) (r : TaskRecord)
      → IsKeyed (table.rows d)
      → Mem r (table.rows d)
      → r.status ≡ dead
      → All (SparesDead r.id) ms
      → Mem r (table.rows (run S j d ms))
  dead_letter_stays d ms r keyed inside is_dead_row spares =
      (run_keeps S j (SparesDead r.id) (Mem r)
        (λ a rs rs' spared _ step h. Step-dead r a rs rs' (spared, is_dead_row) step h) d ms spares
        keyed inside).1
