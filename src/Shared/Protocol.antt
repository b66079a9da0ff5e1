-- ===== src/Shared/Protocol.antt =====
-- What a call of gorm_workqueue/workqueue.go or of postgres_workqueue/workqueue.go may do to the rows
-- of the table.
use mathlib.Core.List.Perm
use workqueue_modules.Prelude.{
  ◌≡◌, ◌≢◌, refl, sym, subst, ap, ◌⊎◌, inl, inr, String, List, ◌∷◌, Mem, Perm, str_eq, Bool, false,
  ◌&&◌, Option, none, some, ltb,
}
use workqueue_modules.Workqueue.{Time}
use workqueue_modules.Prelude.Int.{pos, ◌+ℤ◌, eqb_ℤ}
use workqueue_modules.Sql.{TaskRecord, Status, pending, running, dead, has_status, updated, deleted}
use workqueue_modules.Sql.Keys.{IsKeyed, Perm-IsKeyed, updated-IsKeyed, deleted-IsKeyed}
use workqueue_modules.Gorm.Calls.{IsFailure}
use workqueue_modules.Gorm.Rows.{started, reaped, revived}

-- The kinds of calls: an Enqueue under an identifier, a completion without an error, a requeueing of an
-- identifier in a queue at a time, a deletion of an identifier in a queue, a reaping of a queue at a
-- time, a claim, and a completion with an error.
pub data Act : Type 0 where
  enqueues completes : String → Act
  requeues : String → String → Time → Act
  deletes : String → String → Act
  reaps : String → Time → Act
  claims fails : Act

-- The dead rows of an identifier in a queue.
abbrev named_dead : String → String → TaskRecord → Bool
named_dead id name r = str_eq r.id id && str_eq r.queue name && has_status dead r.status

-- The rows of a task that stand at one attempt with a status.
abbrev at_attempt : TaskRecord → Status → TaskRecord → Bool
at_attempt c status r =
    str_eq r.id c.id && has_status status r.status && eqb_ℤ r.attempts c.attempts

-- The lease ended before the time.
abbrev overdue : Time → Option Time → Bool
overdue now none = false
overdue now (some t) = ltb t now

abbrev pub Changes : Act → List TaskRecord → List TaskRecord → Type 0
Changes (enqueues id) rs rs' =
    (r : TaskRecord) × (r.id ≡ id) × Perm rs' (r ∷ rs) × ((s : TaskRecord) → Mem s rs → s.id ≢ r.id)
Changes (completes id) rs rs' = rs' ≡ deleted (λ s. str_eq s.id id) rs
Changes (requeues id name now) rs rs' =
    rs'
    ≡ updated (named_dead id name)
        (λ r. record r {
          status = pending;
          attempts = pos 0;
          last_error = "";
          died_at = none;
          run_at = now;
        })
        rs
Changes (deletes id name) rs rs' = rs' ≡ deleted (named_dead id name) rs
Changes claims rs rs' =
    (c : TaskRecord) × (lease : Time) × (rs'
      ≡ updated (at_attempt c pending)
          (λ r. record r {
            status = running;
            attempts = r.attempts +ℤ pos 1;
            lease_expires_at = some lease;
          })
          rs)
Changes (reaps name now) rs rs' =
    rs'
    ≡ updated
        (λ r.
          (str_eq r.queue name && has_status running r.status) && overdue now r.lease_expires_at)
        (λ r. record r { status = pending; lease_expires_at = none }) rs
Changes fails rs rs' =
    (c : TaskRecord) × (f : (TaskRecord → TaskRecord)) × IsFailure f
    × (rs' ≡ updated (at_attempt c running) f rs)

-- A call that fails, or finds no row, leaves the rows.
abbrev pub Step : Act → List TaskRecord → List TaskRecord → Type 0
Step a rs rs' = (rs' ≡ rs) ⊎ Changes a rs rs'

failure_id : (f : TaskRecord → TaskRecord) (r : TaskRecord) → IsFailure f → (f r).id ≡ r.id
failure_id f r (message, at, inl e) = ap (λ (g : TaskRecord → TaskRecord). (g r).id) e
failure_id f r (message, at, inr e) = ap (λ (g : TaskRecord → TaskRecord). (g r).id) e

Changes-IsKeyed : (a : Act) (rs rs' : List TaskRecord) → Changes a rs rs' → IsKeyed rs → IsKeyed rs'
Changes-IsKeyed (enqueues id) rs rs' (r, _, same, fresh) h =
    Perm-IsKeyed (r ∷ rs) rs' (Perm.symm same) (fresh, h)
Changes-IsKeyed (completes id) rs rs' e h = subst IsKeyed (sym e) (deleted-IsKeyed _ rs h)
Changes-IsKeyed (requeues id name now) rs rs' e h =
    subst IsKeyed (sym e) (updated-IsKeyed _ (revived now) rs (λ r. refl) h)
Changes-IsKeyed (deletes id name) rs rs' e h = subst IsKeyed (sym e) (deleted-IsKeyed _ rs h)
Changes-IsKeyed claims rs rs' (c, lease, e) h =
    subst IsKeyed (sym e) (updated-IsKeyed _ (started lease) rs (λ r. refl) h)
Changes-IsKeyed (reaps name now) rs rs' e h =
    subst IsKeyed (sym e) (updated-IsKeyed _ reaped rs (λ r. refl) h)
Changes-IsKeyed fails rs rs' (c, f, is_failure, e) h =
    subst IsKeyed (sym e) (updated-IsKeyed _ f rs (λ r. failure_id f r is_failure) h)

-- The identifier stays a key.
pub Step-IsKeyed : (a : Act) (rs rs' : List TaskRecord) → Step a rs rs' → IsKeyed rs → IsKeyed rs'
Step-IsKeyed a rs rs' (inl e) h = subst IsKeyed (sym e) h
Step-IsKeyed a rs rs' (inr changes) h = Changes-IsKeyed a rs rs' changes h
