-- ===== src/Sql/Meaning.antt =====
-- What the conditions and orders of the statements mean, in the columns of a row.
use workqueue_modules.Prelude.{
  ◌≡◌, ◌≢◌, ◌≤◌, ◌<◌, ◌⊎◌, inl, inr, refl, String, true, false, ◌&&◌, arith, str_eq, leb, ltb, ◌==◌,
  if◌then◌else◌, eq_iff, Bool-cases,
}
use workqueue_modules.Prelude.Int.{eqb_ℤ, eqb_ℤ→eq}
use workqueue_modules.Workqueue.{Time}
use workqueue_modules.Sql.{Status, pending, running, dead, has_status, TaskRecord}

pub has_status-eq : (s t : Status) → has_status s t ≡ true → t ≡ s
has_status-eq pending pending h = refl
has_status-eq running running h = refl
has_status-eq dead dead h = refl
has_status-eq pending running h = absurd (ground arith)
has_status-eq pending dead h = absurd (ground arith)
has_status-eq running pending h = absurd (ground arith)
has_status-eq running dead h = absurd (ground arith)
has_status-eq dead pending h = absurd (ground arith)
has_status-eq dead running h = absurd (ground arith)

pub has_status_refl : (s : Status) → has_status s s ≡ true
has_status_refl pending = refl
has_status_refl running = refl
has_status_refl dead = refl

-- The row waits in the queue, and it is due.
abbrev pub IsDue : String → Time → TaskRecord → Type 0
IsDue name now r = (r.queue ≡ name) × (r.status ≡ pending) × (r.run_at ≤ now)

-- No row is due before it, nor enqueued before it among those that are due at the same time.
abbrev pub ComesFirst : TaskRecord → TaskRecord → Type 0
ComesFirst c s = (c.run_at < s.run_at) ⊎ ((c.run_at ≡ s.run_at) × (c.enqueued_at ≤ s.enqueued_at))

pub ready-IsDue :
    (name : String) (now : Time) (r : TaskRecord)
    → (str_eq r.queue name && has_status pending r.status && leb r.run_at now) ≡ true
    → IsDue name now r
ready-IsDue name now r h = (
  (eq_iff r.queue name).0 (ground arith),
  has_status-eq pending r.status (ground arith),
  ground arith,
)

pub IsDue-ready :
    (name : String) (now : Time) (r : TaskRecord)
    → IsDue name now r
    → (str_eq r.queue name && has_status pending r.status && leb r.run_at now) ≡ true
IsDue-ready name now r (queue, status, due) =
    let same : str_eq r.queue name ≡ true = (eq_iff r.queue name).1 queue in
    let waits : has_status pending r.status ≡ true = rw status refl in ground arith

pub order-ComesFirst :
    (c s : TaskRecord)
    → (if s.run_at == c.run_at then ltb s.enqueued_at c.enqueued_at else ltb s.run_at c.run_at)
      ≡ false
    → ComesFirst c s
order-ComesFirst c s h = elim (Bool-cases (s.run_at == c.run_at)) [
  | inl t ↦ inr (ground arith, ground arith)
  | inr t ↦ inl (ground arith)
]

-- No row stands at the attempt of the task.
pub attempt_gone :
    (c s : TaskRecord)
    → (s.id ≡ c.id → s.status ≡ running → s.attempts ≢ c.attempts)
    → (str_eq s.id c.id && has_status running s.status && eqb_ℤ s.attempts c.attempts) ≡ false
attempt_gone c s apart =
    elim (Bool-cases
      (str_eq s.id c.id && has_status running s.status && eqb_ℤ s.attempts c.attempts)) [
        | inr f ↦ f
        | inl t ↦ absurd (
            apart ((eq_iff s.id c.id).0 (ground arith))
              (has_status-eq running s.status (ground arith))
              (eqb_ℤ→eq s.attempts c.attempts (ground arith)))
      ]
